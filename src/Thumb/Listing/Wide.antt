-- ===== src/Thumb/Listing/Wide.antt =====
-- What each 32-bit encoding of monitor/thumb_asm.c stands for, independent of the order of its tests.
use tw_monitor.Common.{◌+◌, ◌%◌, ◌^◌, ◌==◌, if◌then◌else◌, [], ◌∷◌}
use tw_monitor.Encoding.Macros.{shl32, or32}
use tw_monitor.Encoding.Wide.{WideEncoding, Parts, udf_t2, nop_t2, movw_i_t3, mov_r_t3_opt_s}
use tw_monitor.Encoding.Wide.{b_t4, b_cond_t3_noit, ldr_i_t3, ldr_i_t4, ldr_lit_t2, ldr_r_t2_lsl}
use tw_monitor.Encoding.Wide.{bl_t1, pop_t2, pop_t3, push_t2, push_t3, addw_i_t4, subw_i_t4}
use tw_monitor.Thumb.Spec.{tm_addw, tm_b, tm_bl, tm_ldr, tm_nop, tm_mov, tm_movs, tm_movw, tm_pop}
use tw_monitor.Thumb.Spec.{tm_push, tm_subw, tm_udf, tc_none, am_none, am_offset, tws_wide}
use tw_monitor.Thumb.Spec.{ot_reg, ot_reglist, ot_immediate, ot_signed_immediate, ot_lsl_shift}
use tw_monitor.Thumb.Spec.{InstructionSpec}
use tw_monitor.Thumb.Listing.Format.{listed, load_mode}
use tw_monitor.Thumb.Disassemble.Wide.{signed_offset}

-- The instruction that each 32-bit encoding stands for, from its parts.
unfoldable pub wide_listing : (e : WideEncoding) → Parts e → InstructionSpec
wide_listing udf_t2 p = listed tws_wide tm_udf tc_none am_none (ot_immediate p.imm16 ∷ [])
wide_listing nop_t2 p = listed tws_wide tm_nop tc_none am_none ([])
wide_listing movw_i_t3 p =
    listed tws_wide tm_movw tc_none am_none (ot_reg p.rd ∷ ot_immediate p.imm16 ∷ [])
wide_listing mov_r_t3_opt_s p =
    listed tws_wide (if p.setflags == 0 then tm_mov else tm_movs) tc_none am_none
      (ot_reg p.rd ∷ ot_reg p.rm ∷ [])
wide_listing b_t4 p =
    listed tws_wide tm_b tc_none am_none (ot_signed_immediate ((p.simm25 + 4) % 2 ^ 32) ∷ [])
wide_listing b_cond_t3_noit p =
    listed tws_wide tm_b ((p.cond + 1) % 2 ^ 32) am_none
      (ot_signed_immediate ((p.simm21 + 4) % 2 ^ 32) ∷ [])
wide_listing ldr_i_t3 p =
    listed tws_wide tm_ldr tc_none am_offset (ot_reg p.rt ∷ ot_reg p.rn ∷ ot_immediate p.imm12 ∷ [])
wide_listing ldr_i_t4 p =
    listed tws_wide tm_ldr tc_none (load_mode p.index p.writeback)
      (ot_reg p.rt ∷ ot_reg p.rn ∷ ot_signed_immediate (signed_offset p.imm8 p.add) ∷ [])
wide_listing ldr_lit_t2 p =
    listed tws_wide tm_ldr tc_none am_offset
      (ot_reg p.rt ∷ ot_reg 15 ∷ ot_signed_immediate (signed_offset p.imm12 p.add) ∷ [])
wide_listing ldr_r_t2_lsl p =
    listed tws_wide tm_ldr tc_none am_offset
      (ot_reg p.rt ∷ ot_reg p.rn ∷ ot_reg p.rm ∷ ot_lsl_shift p.lsl_shift_imm2 ∷ [])
wide_listing bl_t1 p =
    listed tws_wide tm_bl tc_none am_none (ot_signed_immediate ((p.simm25 + 4) % 2 ^ 32) ∷ [])
wide_listing pop_t2 p =
    listed tws_wide tm_pop tc_none am_none
      (ot_reglist (or32 (or32 p.regs (shl32 p.lr 14)) (shl32 p.pc 15) % 2 ^ 16) ∷ [])
wide_listing pop_t3 p =
    listed tws_wide tm_pop tc_none am_none (ot_reglist (shl32 1 p.rt % 2 ^ 16) ∷ [])
wide_listing push_t2 p =
    listed tws_wide tm_push tc_none am_none (ot_reglist (or32 p.regs (shl32 p.lr 14) % 2 ^ 16) ∷ [])
wide_listing push_t3 p =
    listed tws_wide tm_push tc_none am_none (ot_reglist (shl32 1 p.rt % 2 ^ 16) ∷ [])
wide_listing addw_i_t4 p =
    listed tws_wide tm_addw tc_none am_none (ot_reg p.rd ∷ ot_reg p.rn ∷ ot_immediate p.imm12 ∷ [])
wide_listing subw_i_t4 p =
    listed tws_wide tm_subw tc_none am_none (ot_reg p.rd ∷ ot_reg p.rn ∷ ot_immediate p.imm12 ∷ [])
