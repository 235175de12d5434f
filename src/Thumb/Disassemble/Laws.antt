-- ===== src/Thumb/Disassemble/Laws.antt =====
-- `thumb_is_wide_instruction` and `thumb_disassemble` of monitor/thumb_asm.c on the words of every encoding.
use tw_monitor.Encoding.Narrow
use tw_monitor.Encoding.Wide
use tw_monitor.Thumb.Disassemble.Narrow.Laws as NarrowLaws
use tw_monitor.Thumb.Disassemble.Wide.Laws as WideLaws
use tw_monitor.Common.{ℕ, ◌≡◌, true, false, some, arith}
use tw_monitor.Encoding.Macros.{bit_extract_lem}
use tw_monitor.Encoding.Add.{match_adds_i_t1, match_adds_i_t2, match_addw_i_t4, match_adds_r_t1}
use tw_monitor.Encoding.Add.{match_add_r_t2}
use tw_monitor.Encoding.Sub.{match_subs_i_t1, match_subs_i_t2, match_subw_i_t4, match_subs_r_t1}
use tw_monitor.Encoding.BranchNarrow.{match_b_cond_t1_noit, match_b_t2, match_blx_t1, match_bx_t1}
use tw_monitor.Encoding.BranchWide.{match_b_cond_t3_noit, match_b_t4, match_bl_t1}
use tw_monitor.Encoding.Compare.{match_cmp_i_t1, match_cmp_r_t1, match_cmp_r_t2}
use tw_monitor.Encoding.LoadNarrow.{match_ldr_i_t1, match_ldr_i_t2_sponly, match_ldr_lit_t1}
use tw_monitor.Encoding.LoadNarrow.{match_ldr_r_t1}
use tw_monitor.Encoding.LoadWide.{match_ldr_i_t3, match_ldr_i_t4, match_ldr_lit_t2}
use tw_monitor.Encoding.LoadWide.{match_ldr_r_t2_lsl}
use tw_monitor.Encoding.Move.{match_movs_i_t1, match_movw_i_t3, match_mov_r_t1}
use tw_monitor.Encoding.Move.{match_movs_r_t2_noit, match_mov_r_t3_opt_s}
use tw_monitor.Encoding.Pop.{match_pop_t1, match_pop_t2, match_pop_t3}
use tw_monitor.Encoding.Push.{match_push_t1, match_push_t2, match_push_t3}
use tw_monitor.Encoding.Trap.{match_bkpt_t1, match_svc_t1, match_udf_t1, match_udf_t2}
use tw_monitor.Encoding.Trap.{match_nop_t1, match_nop_t2}
use tw_monitor.Encoding.Narrow.{NarrowEncoding, udf_t1, bkpt_t1, nop_t1, movs_i_t1, mov_r_t1}
use tw_monitor.Encoding.Narrow.{movs_r_t2_noit, bx_t1, svc_t1, b_t2, b_cond_t1_noit, ldr_i_t1}
use tw_monitor.Encoding.Narrow.{ldr_i_t2_sponly, ldr_lit_t1, ldr_r_t1, blx_t1, pop_t1, push_t1}
use tw_monitor.Encoding.Narrow.{cmp_i_t1, cmp_r_t1, cmp_r_t2, adds_i_t1, adds_i_t2, adds_r_t1}
use tw_monitor.Encoding.Narrow.{add_r_t2, subs_i_t1, subs_i_t2, subs_r_t1}
use tw_monitor.Encoding.Wide.{WideEncoding, udf_t2, nop_t2, movw_i_t3, mov_r_t3_opt_s, b_t4}
use tw_monitor.Encoding.Wide.{b_cond_t3_noit, ldr_i_t3, ldr_i_t4, ldr_lit_t2, ldr_r_t2_lsl, bl_t1}
use tw_monitor.Encoding.Wide.{pop_t2, pop_t3, push_t2, push_t3, addw_i_t4, subw_i_t4}
use tw_monitor.Thumb.Spec.{thumb_is_wide_instruction, narrow_half}
use tw_monitor.Thumb.Disassemble.{thumb_disassemble}
use tw_monitor.Thumb.Listing.Narrow.{narrow_listing}
use tw_monitor.Thumb.Listing.Wide.{wide_listing}

-- Whatever a 16-bit encoding matches is no wide instruction by its leading bits.
pub narrow-thumb_is_wide_instruction :
    (e : NarrowEncoding) (word : ℕ)
    → Narrow.matches e (narrow_half word) ≡ true
    → thumb_is_wide_instruction word ≡ false
unfolding Narrow.matches thumb_is_wide_instruction match_udf_t1 match_bkpt_t1 match_nop_t1
    match_movs_i_t1 match_mov_r_t1 match_movs_r_t2_noit match_bx_t1 match_svc_t1 match_b_t2
    match_b_cond_t1_noit match_ldr_i_t1 match_ldr_i_t2_sponly match_ldr_lit_t1 match_ldr_r_t1
    match_blx_t1 match_pop_t1 match_push_t1 match_cmp_i_t1 match_cmp_r_t1 match_cmp_r_t2
    match_adds_i_t1 match_adds_i_t2 match_adds_r_t1 match_add_r_t2 match_subs_i_t1 match_subs_i_t2
    match_subs_r_t1
narrow-thumb_is_wide_instruction udf_t1 word m =
    ground (arith, bit_extract_lem (narrow_half word) 8 8)
narrow-thumb_is_wide_instruction bkpt_t1 word m =
    ground (arith, bit_extract_lem (narrow_half word) 8 8)
narrow-thumb_is_wide_instruction nop_t1 word m =
    ground (arith, bit_extract_lem (narrow_half word) 0 16)
narrow-thumb_is_wide_instruction movs_i_t1 word m =
    ground (arith, bit_extract_lem (narrow_half word) 11 5)
narrow-thumb_is_wide_instruction mov_r_t1 word m =
    ground (arith, bit_extract_lem (narrow_half word) 8 8)
narrow-thumb_is_wide_instruction movs_r_t2_noit word m =
    ground (arith, bit_extract_lem (narrow_half word) 6 10)
narrow-thumb_is_wide_instruction bx_t1 word m =
    ground (arith, bit_extract_lem (narrow_half word) 7 9, bit_extract_lem (narrow_half word) 0 3)
narrow-thumb_is_wide_instruction svc_t1 word m =
    ground (arith, bit_extract_lem (narrow_half word) 8 8)
narrow-thumb_is_wide_instruction b_t2 word m =
    ground (arith, bit_extract_lem (narrow_half word) 11 5)
narrow-thumb_is_wide_instruction b_cond_t1_noit word m =
    ground (arith, bit_extract_lem (narrow_half word) 12 4)
narrow-thumb_is_wide_instruction ldr_i_t1 word m =
    ground (arith, bit_extract_lem (narrow_half word) 11 5)
narrow-thumb_is_wide_instruction ldr_i_t2_sponly word m =
    ground (arith, bit_extract_lem (narrow_half word) 11 5)
narrow-thumb_is_wide_instruction ldr_lit_t1 word m =
    ground (arith, bit_extract_lem (narrow_half word) 11 5)
narrow-thumb_is_wide_instruction ldr_r_t1 word m =
    ground (arith, bit_extract_lem (narrow_half word) 9 7)
narrow-thumb_is_wide_instruction blx_t1 word m =
    ground (arith, bit_extract_lem (narrow_half word) 7 9, bit_extract_lem (narrow_half word) 0 3)
narrow-thumb_is_wide_instruction pop_t1 word m =
    ground (arith, bit_extract_lem (narrow_half word) 9 7)
narrow-thumb_is_wide_instruction push_t1 word m =
    ground (arith, bit_extract_lem (narrow_half word) 9 7)
narrow-thumb_is_wide_instruction cmp_i_t1 word m =
    ground (arith, bit_extract_lem (narrow_half word) 11 5)
narrow-thumb_is_wide_instruction cmp_r_t1 word m =
    ground (arith, bit_extract_lem (narrow_half word) 6 10)
narrow-thumb_is_wide_instruction cmp_r_t2 word m =
    ground (arith, bit_extract_lem (narrow_half word) 8 8)
narrow-thumb_is_wide_instruction adds_i_t1 word m =
    ground (arith, bit_extract_lem (narrow_half word) 9 7)
narrow-thumb_is_wide_instruction adds_i_t2 word m =
    ground (arith, bit_extract_lem (narrow_half word) 11 5)
narrow-thumb_is_wide_instruction adds_r_t1 word m =
    ground (arith, bit_extract_lem (narrow_half word) 9 7)
narrow-thumb_is_wide_instruction add_r_t2 word m =
    ground (arith, bit_extract_lem (narrow_half word) 8 8)
narrow-thumb_is_wide_instruction subs_i_t1 word m =
    ground (arith, bit_extract_lem (narrow_half word) 9 7)
narrow-thumb_is_wide_instruction subs_i_t2 word m =
    ground (arith, bit_extract_lem (narrow_half word) 11 5)
narrow-thumb_is_wide_instruction subs_r_t1 word m =
    ground (arith, bit_extract_lem (narrow_half word) 9 7)

-- The disassembler lists a 16-bit instruction as the instruction of the encoding that matches it,
-- with the parts that its decoder reads, wherever no earlier test takes the word.
pub thumb_disassemble-narrow :
    (e : NarrowEncoding) (word : ℕ)
    → Narrow.matches e (narrow_half word) ≡ true
    → NarrowLaws.IsReached e (Narrow.decode e (narrow_half word))
    → thumb_disassemble word ≡ some (narrow_listing e (Narrow.decode e (narrow_half word)))
unfolding thumb_disassemble
thumb_disassemble-narrow e word m r =
    rw (narrow-thumb_is_wide_instruction e word m)
      (NarrowLaws.disassemble_narrow-listing e (narrow_half word) m r)

-- Whatever a 32-bit encoding matches is a wide instruction by its leading bits.
pub wide-thumb_is_wide_instruction :
    (e : WideEncoding) (word : ℕ)
    → Wide.matches e word ≡ true
    → thumb_is_wide_instruction word ≡ true
unfolding Wide.matches thumb_is_wide_instruction match_udf_t2 match_nop_t2 match_movw_i_t3
    match_mov_r_t3_opt_s match_b_t4 match_b_cond_t3_noit match_ldr_i_t3 match_ldr_i_t4
    match_ldr_lit_t2 match_ldr_r_t2_lsl match_bl_t1 match_pop_t2 match_pop_t3 match_push_t2
    match_push_t3 match_addw_i_t4 match_subw_i_t4
wide-thumb_is_wide_instruction udf_t2 word m =
    ground (arith, bit_extract_lem word 28 4, bit_extract_lem word 4 12)
wide-thumb_is_wide_instruction nop_t2 word m =
    ground (arith, bit_extract_lem word 16 16, bit_extract_lem word 0 16)
wide-thumb_is_wide_instruction movw_i_t3 word m =
    ground (arith, bit_extract_lem word 31 1, bit_extract_lem word 11 5, bit_extract_lem word 4 6)
wide-thumb_is_wide_instruction mov_r_t3_opt_s word m = ground (
  arith,
  bit_extract_lem word 28 4,
  bit_extract_lem word 20 4,
  bit_extract_lem word 5 11,
  bit_extract_lem word 0 4,
)
wide-thumb_is_wide_instruction b_t4 word m =
    ground (arith, bit_extract_lem word 30 2, bit_extract_lem word 28 1, bit_extract_lem word 11 5)
wide-thumb_is_wide_instruction b_cond_t3_noit word m =
    ground (arith, bit_extract_lem word 30 2, bit_extract_lem word 28 1, bit_extract_lem word 11 5)
wide-thumb_is_wide_instruction ldr_i_t3 word m = ground (arith, bit_extract_lem word 4 12)
wide-thumb_is_wide_instruction ldr_i_t4 word m =
    ground (arith, bit_extract_lem word 27 1, bit_extract_lem word 4 12)
wide-thumb_is_wide_instruction ldr_lit_t2 word m =
    ground (arith, bit_extract_lem word 8 8, bit_extract_lem word 0 7)
wide-thumb_is_wide_instruction ldr_r_t2_lsl word m =
    ground (arith, bit_extract_lem word 22 6, bit_extract_lem word 4 12)
wide-thumb_is_wide_instruction bl_t1 word m =
    ground (arith, bit_extract_lem word 30 2, bit_extract_lem word 28 1, bit_extract_lem word 11 5)
wide-thumb_is_wide_instruction pop_t2 word m =
    ground (arith, bit_extract_lem word 29 1, bit_extract_lem word 0 16)
wide-thumb_is_wide_instruction pop_t3 word m =
    ground (arith, bit_extract_lem word 16 12, bit_extract_lem word 0 16)
wide-thumb_is_wide_instruction push_t2 word m =
    ground (arith, bit_extract_lem word 31 1, bit_extract_lem word 29 1, bit_extract_lem word 0 16)
wide-thumb_is_wide_instruction push_t3 word m =
    ground (arith, bit_extract_lem word 16 12, bit_extract_lem word 0 16)
wide-thumb_is_wide_instruction addw_i_t4 word m =
    ground (arith, bit_extract_lem word 31 1, bit_extract_lem word 11 5, bit_extract_lem word 4 6)
wide-thumb_is_wide_instruction subw_i_t4 word m =
    ground (arith, bit_extract_lem word 31 1, bit_extract_lem word 11 5, bit_extract_lem word 4 6)

-- The same by the parts: where they ensure that the test is reached and the word is defined.
pub thumb_disassemble-reached :
    (e : WideEncoding) (word : ℕ)
    → Wide.matches e word ≡ true
    → WideLaws.IsReached e (Wide.decode e word)
    → thumb_disassemble word ≡ some (wide_listing e (Wide.decode e word))
unfolding thumb_disassemble
thumb_disassemble-reached e word m r =
    rw (wide-thumb_is_wide_instruction e word m) (WideLaws.disassemble_wide-listing e word m r)
