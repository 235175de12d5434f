-- ===== src/Encoding/Wide/Width.antt =====
-- The width that the 32-bit encoders of monitor/autogen_encodings/t32_encoding.c write.
use tw_monitor.Common.{ℕ, some, arith, ◌≢◌}
use tw_monitor.Encoding.Macros.{narrow}
use tw_monitor.Encoding.Add.{encode_addw_i_t4}
use tw_monitor.Encoding.Sub.{encode_subw_i_t4}
use tw_monitor.Encoding.BranchWide.{encode_b_cond_t3_noit, encode_b_t4, encode_bl_t1}
use tw_monitor.Encoding.LoadWide.{encode_ldr_i_t3, encode_ldr_i_t4, encode_ldr_lit_t2}
use tw_monitor.Encoding.LoadWide.{encode_ldr_r_t2_lsl}
use tw_monitor.Encoding.Move.{encode_movw_i_t3, encode_mov_r_t3_opt_s}
use tw_monitor.Encoding.Pop.{encode_pop_t2, encode_pop_t3}
use tw_monitor.Encoding.Push.{encode_push_t2, encode_push_t3}
use tw_monitor.Encoding.Trap.{encode_udf_t2, encode_nop_t2}
use tw_monitor.Encoding.Wide.{WideEncoding, Parts, encode, udf_t2, nop_t2, movw_i_t3}
use tw_monitor.Encoding.Wide.{mov_r_t3_opt_s, b_t4, b_cond_t3_noit, ldr_i_t3, ldr_i_t4}
use tw_monitor.Encoding.Wide.{ldr_lit_t2, ldr_r_t2_lsl, bl_t1, pop_t2, pop_t3, push_t2, push_t3}
use tw_monitor.Encoding.Wide.{addw_i_t4, subw_i_t4}

-- A 32-bit encoder never writes 16 bits.
pub encode-ne-narrow : (e : WideEncoding) (p : Parts e) (w : ℕ) → encode e p ≢ some (narrow w)
unfolding encode
encode-ne-narrow udf_t2 p w = unfold encode_udf_t2 in ground arith
encode-ne-narrow nop_t2 p w = unfold encode_nop_t2 in ground arith
encode-ne-narrow movw_i_t3 p w = unfold encode_movw_i_t3 in ground arith
encode-ne-narrow mov_r_t3_opt_s p w = unfold encode_mov_r_t3_opt_s in ground arith
encode-ne-narrow b_t4 p w = unfold encode_b_t4 in ground arith
encode-ne-narrow b_cond_t3_noit p w = unfold encode_b_cond_t3_noit in ground arith
encode-ne-narrow ldr_i_t3 p w = unfold encode_ldr_i_t3 in ground arith
encode-ne-narrow ldr_i_t4 p w = unfold encode_ldr_i_t4 in ground arith
encode-ne-narrow ldr_lit_t2 p w = unfold encode_ldr_lit_t2 in ground arith
encode-ne-narrow ldr_r_t2_lsl p w = unfold encode_ldr_r_t2_lsl in ground arith
encode-ne-narrow bl_t1 p w = unfold encode_bl_t1 in ground arith
encode-ne-narrow pop_t2 p w = unfold encode_pop_t2 in ground arith
encode-ne-narrow pop_t3 p w = unfold encode_pop_t3 in ground arith
encode-ne-narrow push_t2 p w = unfold encode_push_t2 in ground arith
encode-ne-narrow push_t3 p w = unfold encode_push_t3 in ground arith
encode-ne-narrow addw_i_t4 p w = unfold encode_addw_i_t4 in ground arith
encode-ne-narrow subw_i_t4 p w = unfold encode_subw_i_t4 in ground arith
