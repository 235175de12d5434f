-- ===== src/Thumb/Disassemble/Wide/Laws.antt =====
-- The 32-bit half of `thumb_disassemble` in monitor/thumb_asm.c finds the encoding that matches.
use tw_monitor.Common.{ℕ, ◌^◌, ◌<◌, ◌≡◌, ◌⊎◌, true, some, arith, ◌≢◌}
use tw_monitor.Encoding.Macros.{bit_extract_lem}
use tw_monitor.Encoding.Wide.{WideEncoding, Parts, matches, decode, udf_t2, nop_t2, movw_i_t3}
use tw_monitor.Encoding.Wide.{mov_r_t3_opt_s, b_t4, b_cond_t3_noit, ldr_i_t3, ldr_i_t4}
use tw_monitor.Encoding.Wide.{ldr_lit_t2, ldr_r_t2_lsl, bl_t1, pop_t2, pop_t3, push_t2, push_t3}
use tw_monitor.Encoding.Wide.{addw_i_t4, subw_i_t4}
use tw_monitor.Encoding.LoadWide.{decode_ldr_i_t4}
use tw_monitor.Thumb.Spec.{add_operands}
use tw_monitor.Thumb.Listing.Format.{listed, load_mode}
use tw_monitor.Thumb.Listing.Wide.{wide_listing}
use tw_monitor.Thumb.Disassemble.Wide.{indexed_mode, disassemble_wide, wide_undefined_to_branch}
use tw_monitor.Thumb.Disassemble.Wide.{wide_loads, wide_link_to_subtract}
use tw_monitor.Thumb.Disassemble.Wide.Order.{nop_t2_first, movw_i_t3_first, mov_r_t3_opt_s_first}
use tw_monitor.Thumb.Disassemble.Wide.Order.{b_t4_first, b_cond_t3_noit_first, ldr_i_t3_first}
use tw_monitor.Thumb.Disassemble.Wide.Order.{ldr_i_t4_first, ldr_lit_t2_first, ldr_r_t2_lsl_first}
use tw_monitor.Thumb.Disassemble.Wide.Order.{bl_t1_first, pop_t2_first, push_t2_first}
use tw_monitor.Thumb.Disassemble.Wide.Order.{push_t3_first, addw_i_t4_first, subw_i_t4_first}

-- Parts that ensure that the test of their encoding is reached, and that the word is a defined one. For
-- B (T3) they leave out the conditions 14 and 15, of which UDF and NOP take some words before it.
abbrev pub IsReached : (e : WideEncoding) → Parts e → Type 0
IsReached udf_t2 p = Unit
IsReached nop_t2 p = Unit
IsReached movw_i_t3 p = Unit
IsReached mov_r_t3_opt_s p = Unit
IsReached b_t4 p = Unit
IsReached b_cond_t3_noit p = p.cond < 14
IsReached ldr_i_t3 p = Unit
IsReached ldr_i_t4 p = (p.index ≡ 1) ⊎ (p.writeback ≡ 1)
IsReached ldr_lit_t2 p = (p.add ≡ 0) × (p.imm12 < 2 ^ 11)
IsReached ldr_r_t2_lsl p = p.rn ≢ 15
IsReached bl_t1 p = Unit
IsReached pop_t2 p = Unit
IsReached pop_t3 p = ⊥
IsReached push_t2 p = Unit
IsReached push_t3 p = Unit
IsReached addw_i_t4 p = Unit
IsReached subw_i_t4 p = Unit

indexed_mode_lem :
    (index writeback : ℕ)
    → index < 2
    → writeback < 2
    → (index ≡ 1) ⊎ (writeback ≡ 1)
    → indexed_mode index writeback ≡ some (load_mode index writeback)
unfolding indexed_mode load_mode
indexed_mode_lem index writeback a b c = ground arith

decode_ldr_i_t4_bits :
    (w : ℕ) → ((decode_ldr_i_t4 w).index < 2) × ((decode_ldr_i_t4 w).writeback < 2)
unfolding decode_ldr_i_t4
decode_ldr_i_t4_bits w = omega (arith, bit_extract_lem w 26 1, bit_extract_lem w 24 1)

-- A 32-bit word that an encoding matches is listed as that encoding's instruction, with the parts
-- that its decoder reads, where these ensure that its test is reached.
pub disassemble_wide-listing :
    (e : WideEncoding) (w : ℕ)
    → matches e w ≡ true
    → IsReached e (decode e w)
    → disassemble_wide w ≡ some (wide_listing e (decode e w))
unfolding disassemble_wide wide_undefined_to_branch wide_loads wide_link_to_subtract wide_listing
    listed matches decode add_operands
disassemble_wide-listing udf_t2 w m r = rw m
disassemble_wide-listing nop_t2 w m r = let n = nop_t2_first w m in rw (n, m)
disassemble_wide-listing movw_i_t3 w m r = let n = movw_i_t3_first w m in rw (n.0, n.1, m)
disassemble_wide-listing mov_r_t3_opt_s w m r =
    let n = mov_r_t3_opt_s_first w m in rw (n.0, n.1, n.2, m)
disassemble_wide-listing b_t4 w m r = let n = b_t4_first w m in rw (n.0, n.1, n.2, n.3, m)
disassemble_wide-listing b_cond_t3_noit w m r =
    let n = b_cond_t3_noit_first w m r in rw (n.0, n.1, n.2, n.3, n.4, m)
disassemble_wide-listing ldr_i_t3 w m r =
    let n = ldr_i_t3_first w m in rw (n.0, n.1, n.2, n.3, n.4, n.5, m)
disassemble_wide-listing ldr_i_t4 w m r =
    let n = ldr_i_t4_first w m in
    rw (
      n.0,
      n.1,
      n.2,
      n.3,
      n.4,
      n.5,
      n.6,
      m,
      indexed_mode_lem _ _ (decode_ldr_i_t4_bits w).0 (decode_ldr_i_t4_bits w).1 r,
    )
disassemble_wide-listing ldr_lit_t2 w m r =
    let n = ldr_lit_t2_first w m r in rw (n.0, n.1, n.2, n.3, n.4, n.5, n.6, n.7, m)
disassemble_wide-listing ldr_r_t2_lsl w m r =
    let n = ldr_r_t2_lsl_first w m r in rw (n.0, n.1, n.2, n.3, n.4, n.5, n.6, n.7, n.8, m)
disassemble_wide-listing bl_t1 w m r =
    let n = bl_t1_first w m in rw (n.0, n.1, n.2, n.3, n.4, n.5, n.6, n.7, n.8, n.9, m)
disassemble_wide-listing pop_t2 w m r =
    let n = pop_t2_first w m in rw (n.0, n.1, n.2, n.3, n.4, n.5, n.6, n.7, n.8, n.9, n.10, m)
disassemble_wide-listing pop_t3 w m r = absurd r
disassemble_wide-listing push_t2 w m r =
    let n = push_t2_first w m in
    rw (n.0, n.1, n.2, n.3, n.4, n.5, n.6, n.7, n.8, n.9, n.10, n.11, n.12, m)
disassemble_wide-listing push_t3 w m r =
    let n = push_t3_first w m in
    rw (n.0, n.1, n.2, n.3, n.4, n.5, n.6, n.7, n.8, n.9, n.10, n.11, n.12, n.13, m)
disassemble_wide-listing addw_i_t4 w m r =
    let n = addw_i_t4_first w m in
    rw (n.0, n.1, n.2, n.3, n.4, n.5, n.6, n.7, n.8, n.9, n.10, n.11, n.12, n.13, n.14, m)
disassemble_wide-listing subw_i_t4 w m r =
    let n = subw_i_t4_first w m in
    rw (n.0, n.1, n.2, n.3, n.4, n.5, n.6, n.7, n.8, n.9, n.10, n.11, n.12, n.13, n.14, n.15, m)
