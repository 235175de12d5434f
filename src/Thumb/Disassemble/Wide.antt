-- ===== src/Thumb/Disassemble/Wide.antt =====
-- The 32-bit half of `thumb_disassemble` in monitor/thumb_asm.c: a chain of tests, the first match wins.
pub mod Order
pub mod Chain
pub mod Laws
use tw_monitor.Common.{ℕ, ◌+◌, ◌-◌, ◌*◌, ◌%◌, ◌^◌, ◌&&◌, Option, none, some, ◌==◌, if◌then◌else◌}
use tw_monitor.Common.{◌>>=◌, [], ◌∷◌, not}
use tw_monitor.Encoding.Macros.{or32, shl32}
use tw_monitor.Encoding.Add.{match_addw_i_t4, decode_addw_i_t4}
use tw_monitor.Encoding.Sub.{match_subw_i_t4, decode_subw_i_t4}
use tw_monitor.Encoding.BranchWide.{match_b_cond_t3_noit, decode_b_cond_t3_noit, match_b_t4}
use tw_monitor.Encoding.BranchWide.{decode_b_t4, match_bl_t1, decode_bl_t1}
use tw_monitor.Encoding.LoadWide.{match_ldr_i_t3, decode_ldr_i_t3, match_ldr_i_t4}
use tw_monitor.Encoding.LoadWide.{decode_ldr_i_t4, match_ldr_lit_t2, decode_ldr_lit_t2}
use tw_monitor.Encoding.LoadWide.{match_ldr_r_t2_lsl, decode_ldr_r_t2_lsl}
use tw_monitor.Encoding.Move.{match_movw_i_t3, decode_movw_i_t3, match_mov_r_t3_opt_s}
use tw_monitor.Encoding.Move.{decode_mov_r_t3_opt_s}
use tw_monitor.Encoding.Pop.{match_pop_t2, decode_pop_t2, match_pop_t3, decode_pop_t3}
use tw_monitor.Encoding.Push.{match_push_t2, decode_push_t2, match_push_t3, decode_push_t3}
use tw_monitor.Encoding.Trap.{match_udf_t2, decode_udf_t2, match_nop_t2}
use tw_monitor.Thumb.Spec.{tm_addw, tm_b, tm_bl, tm_ldr, tm_nop, tm_mov, tm_movs, tm_movw, tm_pop}
use tw_monitor.Thumb.Spec.{tm_push, tm_subw, tm_udf, AddressingMode, am_offset, am_preindex}
use tw_monitor.Thumb.Spec.{am_postindex, tws_wide, ot_reg, ot_reglist, ot_immediate}
use tw_monitor.Thumb.Spec.{ot_signed_immediate, ot_lsl_shift, InstructionSpec, blank}
use tw_monitor.Thumb.Spec.{add_operands}

-- `imm * (add ? 1 : -1)` in 32 bits.
unfoldable pub signed_offset : ℕ → ℕ → ℕ
signed_offset imm add = if add == 0 then imm * (2 ^ 32 - 1) % 2 ^ 32 else imm

-- The addressing mode of LDR (immediate) T4; `none` is `ASSERT_NOT_REACHED`.
unfoldable pub indexed_mode : ℕ → ℕ → Option AddressingMode
indexed_mode index writeback =
    if not (index == 0) && not (writeback == 0)
    then some am_preindex
    else if index == 0 && not (writeback == 0)
    then some am_postindex
    else if not (index == 0) && writeback == 0
    then some am_offset
    else none

unfoldable pub wide_link_to_subtract : InstructionSpec → ℕ → Option InstructionSpec
wide_link_to_subtract instruction ins =
    if match_bl_t1 ins
    then (let parts = decode_bl_t1 ins in
        add_operands (ot_signed_immediate ((parts.simm25 + 4) % 2 ^ 32) ∷ [])
          (record instruction { mnemonic = tm_bl }))
    else if match_pop_t2 ins
    then (let parts = decode_pop_t2 ins in
        add_operands
          (ot_reglist (or32 (or32 parts.regs (shl32 parts.lr 14)) (shl32 parts.pc 15) % 2 ^ 16)
            ∷ [])
          (record instruction { mnemonic = tm_pop }))
    else if match_pop_t3 ins
    then (let parts = decode_pop_t3 ins in
        add_operands (ot_reglist (shl32 1 parts.rt % 2 ^ 16) ∷ [])
          (record instruction { mnemonic = tm_pop }))
    else if match_push_t2 ins
    then (let parts = decode_push_t2 ins in
        add_operands (ot_reglist (or32 parts.regs (shl32 parts.lr 14) % 2 ^ 16) ∷ [])
          (record instruction { mnemonic = tm_push }))
    else if match_push_t3 ins
    then (let parts = decode_push_t3 ins in
        add_operands (ot_reglist (shl32 1 parts.rt % 2 ^ 16) ∷ [])
          (record instruction { mnemonic = tm_push }))
    else if match_addw_i_t4 ins
    then (let parts = decode_addw_i_t4 ins in
        add_operands (ot_reg parts.rd ∷ ot_reg parts.rn ∷ ot_immediate parts.imm12 ∷ [])
          (record instruction { mnemonic = tm_addw }))
    else if match_subw_i_t4 ins
    then (let parts = decode_subw_i_t4 ins in
        add_operands (ot_reg parts.rd ∷ ot_reg parts.rn ∷ ot_immediate parts.imm12 ∷ [])
          (record instruction { mnemonic = tm_subw }))
    else some instruction

unfoldable pub wide_loads : InstructionSpec → ℕ → Option InstructionSpec
wide_loads instruction ins =
    if match_ldr_i_t3 ins
    then (let parts = decode_ldr_i_t3 ins in
        add_operands (ot_reg parts.rt ∷ ot_reg parts.rn ∷ ot_immediate parts.imm12 ∷ [])
          (record instruction { mnemonic = tm_ldr; addressing_mode = am_offset }))
    else if match_ldr_i_t4 ins
    then (let parts = decode_ldr_i_t4 ins in
        indexed_mode parts.index parts.writeback >>= λ mode.
        add_operands
          (ot_reg parts.rt
            ∷ ot_reg parts.rn
            ∷ ot_signed_immediate (signed_offset parts.imm8 parts.add)
            ∷ [])
          (record instruction { mnemonic = tm_ldr; addressing_mode = mode }))
    else if match_ldr_lit_t2 ins
    then (let parts = decode_ldr_lit_t2 ins in
        add_operands
          (ot_reg parts.rt
            ∷ ot_reg 15
            ∷ ot_signed_immediate (signed_offset parts.imm12 parts.add)
            ∷ [])
          (record instruction { mnemonic = tm_ldr; addressing_mode = am_offset }))
    else if match_ldr_r_t2_lsl ins
    then (let parts = decode_ldr_r_t2_lsl ins in
        add_operands
          (ot_reg parts.rt
            ∷ ot_reg parts.rn
            ∷ ot_reg parts.rm
            ∷ ot_lsl_shift parts.lsl_shift_imm2
            ∷ [])
          (record instruction { mnemonic = tm_ldr; addressing_mode = am_offset }))
    else wide_link_to_subtract instruction ins

unfoldable pub wide_undefined_to_branch : InstructionSpec → ℕ → Option InstructionSpec
wide_undefined_to_branch instruction ins =
    if match_udf_t2 ins
    then (let parts = decode_udf_t2 ins in
        add_operands (ot_immediate parts.imm16 ∷ []) (record instruction { mnemonic = tm_udf }))
    else if match_nop_t2 ins
    then (some (record instruction { mnemonic = tm_nop }))
    else if match_movw_i_t3 ins
    then (let parts = decode_movw_i_t3 ins in
        add_operands (ot_reg parts.rd ∷ ot_immediate parts.imm16 ∷ [])
          (record instruction { mnemonic = tm_movw }))
    else if match_mov_r_t3_opt_s ins
    then (let parts = decode_mov_r_t3_opt_s ins in
        add_operands (ot_reg parts.rd ∷ ot_reg parts.rm ∷ [])
          (record instruction { mnemonic = (if parts.setflags == 0 then tm_mov else tm_movs) }))
    else if match_b_t4 ins
    then (let parts = decode_b_t4 ins in
        add_operands (ot_signed_immediate ((parts.simm25 + 4) % 2 ^ 32) ∷ [])
          (record instruction { mnemonic = tm_b }))
    else if match_b_cond_t3_noit ins
    then (let parts = decode_b_cond_t3_noit ins in
        add_operands (ot_signed_immediate ((parts.simm21 + 4) % 2 ^ 32) ∷ [])
          (record instruction { mnemonic = tm_b; condition = (parts.cond + 1) % 2 ^ 32 }))
    else wide_loads instruction ins

unfoldable pub disassemble_wide : ℕ → Option InstructionSpec
disassemble_wide ins = wide_undefined_to_branch (record blank { width = tws_wide }) ins
