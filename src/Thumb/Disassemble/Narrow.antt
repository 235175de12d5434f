-- ===== src/Thumb/Disassemble/Narrow.antt =====
-- The 16-bit half of `thumb_disassemble` in monitor/thumb_asm.c: a chain of tests, the first match wins.
pub mod Order
pub mod Laws
use tw_monitor.Common.{ℕ, ◌+◌, ◌%◌, ◌^◌, Option, some, if◌then◌else◌, [], ◌∷◌}
use tw_monitor.Encoding.Macros.{or32, shl32}
use tw_monitor.Encoding.Add.{match_adds_i_t1, decode_adds_i_t1, match_adds_i_t2, decode_adds_i_t2}
use tw_monitor.Encoding.Add.{match_adds_r_t1, decode_adds_r_t1, match_add_r_t2, decode_add_r_t2}
use tw_monitor.Encoding.Sub.{match_subs_i_t1, decode_subs_i_t1, match_subs_i_t2, decode_subs_i_t2}
use tw_monitor.Encoding.Sub.{match_subs_r_t1, decode_subs_r_t1}
use tw_monitor.Encoding.BranchNarrow.{match_b_cond_t1_noit, decode_b_cond_t1_noit, match_b_t2}
use tw_monitor.Encoding.BranchNarrow.{decode_b_t2, match_blx_t1, decode_blx_t1, match_bx_t1}
use tw_monitor.Encoding.BranchNarrow.{decode_bx_t1}
use tw_monitor.Encoding.Compare.{match_cmp_i_t1, decode_cmp_i_t1, match_cmp_r_t1, decode_cmp_r_t1}
use tw_monitor.Encoding.Compare.{match_cmp_r_t2, decode_cmp_r_t2}
use tw_monitor.Encoding.LoadNarrow.{match_ldr_i_t1, decode_ldr_i_t1, match_ldr_i_t2_sponly}
use tw_monitor.Encoding.LoadNarrow.{decode_ldr_i_t2_sponly, match_ldr_lit_t1, decode_ldr_lit_t1}
use tw_monitor.Encoding.LoadNarrow.{match_ldr_r_t1, decode_ldr_r_t1}
use tw_monitor.Encoding.Move.{match_movs_i_t1, decode_movs_i_t1, match_mov_r_t1, decode_mov_r_t1}
use tw_monitor.Encoding.Move.{match_movs_r_t2_noit, decode_movs_r_t2_noit}
use tw_monitor.Encoding.Pop.{match_pop_t1, decode_pop_t1}
use tw_monitor.Encoding.Push.{match_push_t1, decode_push_t1}
use tw_monitor.Encoding.Trap.{match_bkpt_t1, decode_bkpt_t1, match_svc_t1, decode_svc_t1}
use tw_monitor.Encoding.Trap.{match_udf_t1, decode_udf_t1, match_nop_t1}
use tw_monitor.Thumb.Spec.{tm_add, tm_adds, tm_b, tm_bkpt, tm_blx, tm_bx, tm_cmp, tm_ldr, tm_nop}
use tw_monitor.Thumb.Spec.{tm_mov, tm_movs, tm_pop, tm_push, tm_subs, tm_svc, tm_udf, am_offset}
use tw_monitor.Thumb.Spec.{tws_narrow, ot_reg, ot_reglist, ot_immediate, ot_signed_immediate}
use tw_monitor.Thumb.Spec.{InstructionSpec, blank, add_operands}

unfoldable pub narrow_compare_to_subtract : InstructionSpec → ℕ → Option InstructionSpec
narrow_compare_to_subtract instruction ins =
    if match_cmp_i_t1 ins
    then (let parts = decode_cmp_i_t1 ins in
        add_operands (ot_reg parts.rn ∷ ot_immediate parts.imm8 ∷ [])
          (record instruction { mnemonic = tm_cmp }))
    else if match_cmp_r_t1 ins
    then (let parts = decode_cmp_r_t1 ins in
        add_operands (ot_reg parts.rn ∷ ot_reg parts.rm ∷ [])
          (record instruction { mnemonic = tm_cmp }))
    else if match_cmp_r_t2 ins
    then (let parts = decode_cmp_r_t2 ins in
        add_operands (ot_reg parts.rn ∷ ot_reg parts.rm ∷ [])
          (record instruction { mnemonic = tm_cmp }))
    else if match_adds_i_t1 ins
    then (let parts = decode_adds_i_t1 ins in
        add_operands (ot_reg parts.rd ∷ ot_reg parts.rn ∷ ot_immediate parts.imm3 ∷ [])
          (record instruction { mnemonic = tm_adds }))
    else if match_adds_i_t2 ins
    then (let parts = decode_adds_i_t2 ins in
        add_operands (ot_reg parts.rdn ∷ ot_reg parts.rdn ∷ ot_immediate parts.imm8 ∷ [])
          (record instruction { mnemonic = tm_adds }))
    else if match_adds_r_t1 ins
    then (let parts = decode_adds_r_t1 ins in
        add_operands (ot_reg parts.rd ∷ ot_reg parts.rn ∷ ot_reg parts.rm ∷ [])
          (record instruction { mnemonic = tm_adds }))
    else if match_add_r_t2 ins
    then (let parts = decode_add_r_t2 ins in
        add_operands (ot_reg parts.rdn ∷ ot_reg parts.rdn ∷ ot_reg parts.rm ∷ [])
          (record instruction { mnemonic = tm_add }))
    else if match_subs_i_t1 ins
    then (let parts = decode_subs_i_t1 ins in
        add_operands (ot_reg parts.rd ∷ ot_reg parts.rn ∷ ot_immediate parts.imm3 ∷ [])
          (record instruction { mnemonic = tm_subs }))
    else if match_subs_i_t2 ins
    then (let parts = decode_subs_i_t2 ins in
        add_operands (ot_reg parts.rdn ∷ ot_reg parts.rdn ∷ ot_immediate parts.imm8 ∷ [])
          (record instruction { mnemonic = tm_subs }))
    else if match_subs_r_t1 ins
    then (let parts = decode_subs_r_t1 ins in
        add_operands (ot_reg parts.rd ∷ ot_reg parts.rn ∷ ot_reg parts.rm ∷ [])
          (record instruction { mnemonic = tm_subs }))
    else some instruction

unfoldable pub narrow_loads_to_push : InstructionSpec → ℕ → Option InstructionSpec
narrow_loads_to_push instruction ins =
    if match_ldr_i_t1 ins
    then (let parts = decode_ldr_i_t1 ins in
        add_operands (ot_reg parts.rt ∷ ot_reg parts.rn ∷ ot_immediate parts.imm7 ∷ [])
          (record instruction { mnemonic = tm_ldr; addressing_mode = am_offset }))
    else if match_ldr_i_t2_sponly ins
    then (let parts = decode_ldr_i_t2_sponly ins in
        add_operands (ot_reg parts.rt ∷ ot_reg 13 ∷ ot_immediate parts.imm10 ∷ [])
          (record instruction { mnemonic = tm_ldr; addressing_mode = am_offset }))
    else if match_ldr_lit_t1 ins
    then (let parts = decode_ldr_lit_t1 ins in
        add_operands (ot_reg parts.rt ∷ ot_reg 15 ∷ ot_immediate parts.imm10 ∷ [])
          (record instruction { mnemonic = tm_ldr; addressing_mode = am_offset }))
    else if match_ldr_r_t1 ins
    then (let parts = decode_ldr_r_t1 ins in
        add_operands (ot_reg parts.rt ∷ ot_reg parts.rn ∷ ot_reg parts.rm ∷ [])
          (record instruction { mnemonic = tm_ldr; addressing_mode = am_offset }))
    else if match_blx_t1 ins
    then (let parts = decode_blx_t1 ins in
        add_operands (ot_reg parts.rm ∷ []) (record instruction { mnemonic = tm_blx }))
    else if match_pop_t1 ins
    then (let parts = decode_pop_t1 ins in
        add_operands (ot_reglist (or32 parts.regs (shl32 parts.pc 15) % 2 ^ 16) ∷ [])
          (record instruction { mnemonic = tm_pop }))
    else if match_push_t1 ins
    then (let parts = decode_push_t1 ins in
        add_operands (ot_reglist (or32 parts.regs (shl32 parts.lr 14) % 2 ^ 16) ∷ [])
          (record instruction { mnemonic = tm_push }))
    else narrow_compare_to_subtract instruction ins

unfoldable pub narrow_undefined_to_branch : InstructionSpec → ℕ → Option InstructionSpec
narrow_undefined_to_branch instruction ins =
    if match_udf_t1 ins
    then (let parts = decode_udf_t1 ins in
        add_operands (ot_immediate parts.imm8 ∷ []) (record instruction { mnemonic = tm_udf }))
    else if match_bkpt_t1 ins
    then (let parts = decode_bkpt_t1 ins in
        add_operands (ot_immediate parts.imm8 ∷ []) (record instruction { mnemonic = tm_bkpt }))
    else if match_nop_t1 ins
    then (some (record instruction { mnemonic = tm_nop }))
    else if match_movs_i_t1 ins
    then (let parts = decode_movs_i_t1 ins in
        add_operands (ot_reg parts.rd ∷ ot_immediate parts.imm8 ∷ [])
          (record instruction { mnemonic = tm_movs }))
    else if match_mov_r_t1 ins
    then (let parts = decode_mov_r_t1 ins in
        add_operands (ot_reg parts.rd ∷ ot_reg parts.rm ∷ [])
          (record instruction { mnemonic = tm_mov }))
    else if match_movs_r_t2_noit ins
    then (let parts = decode_movs_r_t2_noit ins in
        add_operands (ot_reg parts.rd ∷ ot_reg parts.rm ∷ [])
          (record instruction { mnemonic = tm_movs }))
    else if match_bx_t1 ins
    then (let parts = decode_bx_t1 ins in
        add_operands (ot_reg parts.rm ∷ []) (record instruction { mnemonic = tm_bx }))
    else if match_svc_t1 ins
    then (let parts = decode_svc_t1 ins in
        add_operands (ot_immediate parts.imm8 ∷ []) (record instruction { mnemonic = tm_svc }))
    else if match_b_t2 ins
    then (let parts = decode_b_t2 ins in
        add_operands (ot_signed_immediate ((parts.simm11 + 4) % 2 ^ 32) ∷ [])
          (record instruction { mnemonic = tm_b }))
    else if match_b_cond_t1_noit ins
    then (let parts = decode_b_cond_t1_noit ins in
        add_operands (ot_signed_immediate ((parts.simm8 + 4) % 2 ^ 32) ∷ [])
          (record instruction { mnemonic = tm_b; condition = (parts.cond + 1) % 2 ^ 32 }))
    else narrow_loads_to_push instruction ins

unfoldable pub disassemble_narrow : ℕ → Option InstructionSpec
disassemble_narrow ins = narrow_undefined_to_branch (record blank { width = tws_narrow }) ins
