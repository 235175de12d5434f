-- ===== src/Thumb/Listing/Narrow.antt =====
-- What each 16-bit encoding of monitor/thumb_asm.c stands for, independent of the order of its tests.
use tw_monitor.Common.{◌+◌, ◌%◌, ◌^◌, [], ◌∷◌}
use tw_monitor.Encoding.Macros.{shl32, or32}
use tw_monitor.Encoding.Narrow.{NarrowEncoding, Parts, udf_t1, bkpt_t1, nop_t1, movs_i_t1}
use tw_monitor.Encoding.Narrow.{mov_r_t1, movs_r_t2_noit, bx_t1, svc_t1, b_t2, b_cond_t1_noit}
use tw_monitor.Encoding.Narrow.{ldr_i_t1, ldr_i_t2_sponly, ldr_lit_t1, ldr_r_t1, blx_t1, pop_t1}
use tw_monitor.Encoding.Narrow.{push_t1, cmp_i_t1, cmp_r_t1, cmp_r_t2, adds_i_t1, adds_i_t2}
use tw_monitor.Encoding.Narrow.{adds_r_t1, add_r_t2, subs_i_t1, subs_i_t2, subs_r_t1}
use tw_monitor.Thumb.Spec.{tm_add, tm_adds, tm_b, tm_bkpt, tm_blx, tm_bx, tm_cmp, tm_ldr, tm_nop}
use tw_monitor.Thumb.Spec.{tm_mov, tm_movs, tm_pop, tm_push, tm_subs, tm_svc, tm_udf, tc_none}
use tw_monitor.Thumb.Spec.{am_none, am_offset, tws_narrow, ot_reg, ot_reglist, ot_immediate}
use tw_monitor.Thumb.Spec.{ot_signed_immediate, InstructionSpec}
use tw_monitor.Thumb.Listing.Format.{listed}

-- The instruction that each 16-bit encoding stands for, from its parts.
unfoldable pub narrow_listing : (e : NarrowEncoding) → Parts e → InstructionSpec
narrow_listing udf_t1 p = listed tws_narrow tm_udf tc_none am_none (ot_immediate p.imm8 ∷ [])
narrow_listing bkpt_t1 p = listed tws_narrow tm_bkpt tc_none am_none (ot_immediate p.imm8 ∷ [])
narrow_listing nop_t1 p = listed tws_narrow tm_nop tc_none am_none ([])
narrow_listing movs_i_t1 p =
    listed tws_narrow tm_movs tc_none am_none (ot_reg p.rd ∷ ot_immediate p.imm8 ∷ [])
narrow_listing mov_r_t1 p =
    listed tws_narrow tm_mov tc_none am_none (ot_reg p.rd ∷ ot_reg p.rm ∷ [])
narrow_listing movs_r_t2_noit p =
    listed tws_narrow tm_movs tc_none am_none (ot_reg p.rd ∷ ot_reg p.rm ∷ [])
narrow_listing bx_t1 p = listed tws_narrow tm_bx tc_none am_none (ot_reg p.rm ∷ [])
narrow_listing svc_t1 p = listed tws_narrow tm_svc tc_none am_none (ot_immediate p.imm8 ∷ [])
narrow_listing b_t2 p =
    listed tws_narrow tm_b tc_none am_none (ot_signed_immediate ((p.simm11 + 4) % 2 ^ 32) ∷ [])
narrow_listing b_cond_t1_noit p =
    listed tws_narrow tm_b ((p.cond + 1) % 2 ^ 32) am_none
      (ot_signed_immediate ((p.simm8 + 4) % 2 ^ 32) ∷ [])
narrow_listing ldr_i_t1 p =
    listed tws_narrow tm_ldr tc_none am_offset
      (ot_reg p.rt ∷ ot_reg p.rn ∷ ot_immediate p.imm7 ∷ [])
narrow_listing ldr_i_t2_sponly p =
    listed tws_narrow tm_ldr tc_none am_offset (ot_reg p.rt ∷ ot_reg 13 ∷ ot_immediate p.imm10 ∷ [])
narrow_listing ldr_lit_t1 p =
    listed tws_narrow tm_ldr tc_none am_offset (ot_reg p.rt ∷ ot_reg 15 ∷ ot_immediate p.imm10 ∷ [])
narrow_listing ldr_r_t1 p =
    listed tws_narrow tm_ldr tc_none am_offset (ot_reg p.rt ∷ ot_reg p.rn ∷ ot_reg p.rm ∷ [])
narrow_listing blx_t1 p = listed tws_narrow tm_blx tc_none am_none (ot_reg p.rm ∷ [])
narrow_listing pop_t1 p =
    listed tws_narrow tm_pop tc_none am_none
      (ot_reglist (or32 p.regs (shl32 p.pc 15) % 2 ^ 16) ∷ [])
narrow_listing push_t1 p =
    listed tws_narrow tm_push tc_none am_none
      (ot_reglist (or32 p.regs (shl32 p.lr 14) % 2 ^ 16) ∷ [])
narrow_listing cmp_i_t1 p =
    listed tws_narrow tm_cmp tc_none am_none (ot_reg p.rn ∷ ot_immediate p.imm8 ∷ [])
narrow_listing cmp_r_t1 p =
    listed tws_narrow tm_cmp tc_none am_none (ot_reg p.rn ∷ ot_reg p.rm ∷ [])
narrow_listing cmp_r_t2 p =
    listed tws_narrow tm_cmp tc_none am_none (ot_reg p.rn ∷ ot_reg p.rm ∷ [])
narrow_listing adds_i_t1 p =
    listed tws_narrow tm_adds tc_none am_none (ot_reg p.rd ∷ ot_reg p.rn ∷ ot_immediate p.imm3 ∷ [])
narrow_listing adds_i_t2 p =
    listed tws_narrow tm_adds tc_none am_none
      (ot_reg p.rdn ∷ ot_reg p.rdn ∷ ot_immediate p.imm8 ∷ [])
narrow_listing adds_r_t1 p =
    listed tws_narrow tm_adds tc_none am_none (ot_reg p.rd ∷ ot_reg p.rn ∷ ot_reg p.rm ∷ [])
narrow_listing add_r_t2 p =
    listed tws_narrow tm_add tc_none am_none (ot_reg p.rdn ∷ ot_reg p.rdn ∷ ot_reg p.rm ∷ [])
narrow_listing subs_i_t1 p =
    listed tws_narrow tm_subs tc_none am_none (ot_reg p.rd ∷ ot_reg p.rn ∷ ot_immediate p.imm3 ∷ [])
narrow_listing subs_i_t2 p =
    listed tws_narrow tm_subs tc_none am_none
      (ot_reg p.rdn ∷ ot_reg p.rdn ∷ ot_immediate p.imm8 ∷ [])
narrow_listing subs_r_t1 p =
    listed tws_narrow tm_subs tc_none am_none (ot_reg p.rd ∷ ot_reg p.rn ∷ ot_reg p.rm ∷ [])
