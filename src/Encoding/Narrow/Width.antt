-- ===== src/Encoding/Narrow/Width.antt =====
-- The width that the 16-bit encoders of monitor/autogen_encodings/t32_encoding.c write.
use tw_monitor.Common.{ℕ, some, arith, ◌≢◌}
use tw_monitor.Encoding.Macros.{wide}
use tw_monitor.Encoding.Add.{encode_adds_i_t1, encode_adds_i_t2, encode_adds_r_t1}
use tw_monitor.Encoding.Add.{encode_add_r_t2}
use tw_monitor.Encoding.Sub.{encode_subs_i_t1, encode_subs_i_t2, encode_subs_r_t1}
use tw_monitor.Encoding.BranchNarrow.{encode_b_cond_t1_noit, encode_b_t2, encode_blx_t1}
use tw_monitor.Encoding.BranchNarrow.{encode_bx_t1}
use tw_monitor.Encoding.Compare.{encode_cmp_i_t1, encode_cmp_r_t1, encode_cmp_r_t2}
use tw_monitor.Encoding.LoadNarrow.{encode_ldr_i_t1, encode_ldr_i_t2_sponly, encode_ldr_lit_t1}
use tw_monitor.Encoding.LoadNarrow.{encode_ldr_r_t1}
use tw_monitor.Encoding.Move.{encode_movs_i_t1, encode_mov_r_t1, encode_movs_r_t2_noit}
use tw_monitor.Encoding.Pop.{encode_pop_t1}
use tw_monitor.Encoding.Push.{encode_push_t1}
use tw_monitor.Encoding.Trap.{encode_bkpt_t1, encode_svc_t1, encode_udf_t1, encode_nop_t1}
use tw_monitor.Encoding.Narrow.{NarrowEncoding, Parts, encode, udf_t1, bkpt_t1, nop_t1, movs_i_t1}
use tw_monitor.Encoding.Narrow.{mov_r_t1, movs_r_t2_noit, bx_t1, svc_t1, b_t2, b_cond_t1_noit}
use tw_monitor.Encoding.Narrow.{ldr_i_t1, ldr_i_t2_sponly, ldr_lit_t1, ldr_r_t1, blx_t1, pop_t1}
use tw_monitor.Encoding.Narrow.{push_t1, cmp_i_t1, cmp_r_t1, cmp_r_t2, adds_i_t1, adds_i_t2}
use tw_monitor.Encoding.Narrow.{adds_r_t1, add_r_t2, subs_i_t1, subs_i_t2, subs_r_t1}

-- A 16-bit encoder never writes 32 bits.
pub encode-ne-wide : (e : NarrowEncoding) (p : Parts e) (w : ℕ) → encode e p ≢ some (wide w)
unfolding encode
encode-ne-wide udf_t1 p w = unfold encode_udf_t1 in ground arith
encode-ne-wide bkpt_t1 p w = unfold encode_bkpt_t1 in ground arith
encode-ne-wide nop_t1 p w = unfold encode_nop_t1 in ground arith
encode-ne-wide movs_i_t1 p w = unfold encode_movs_i_t1 in ground arith
encode-ne-wide mov_r_t1 p w = unfold encode_mov_r_t1 in ground arith
encode-ne-wide movs_r_t2_noit p w = unfold encode_movs_r_t2_noit in ground arith
encode-ne-wide bx_t1 p w = unfold encode_bx_t1 in ground arith
encode-ne-wide svc_t1 p w = unfold encode_svc_t1 in ground arith
encode-ne-wide b_t2 p w = unfold encode_b_t2 in ground arith
encode-ne-wide b_cond_t1_noit p w = unfold encode_b_cond_t1_noit in ground arith
encode-ne-wide ldr_i_t1 p w = unfold encode_ldr_i_t1 in ground arith
encode-ne-wide ldr_i_t2_sponly p w = unfold encode_ldr_i_t2_sponly in ground arith
encode-ne-wide ldr_lit_t1 p w = unfold encode_ldr_lit_t1 in ground arith
encode-ne-wide ldr_r_t1 p w = unfold encode_ldr_r_t1 in ground arith
encode-ne-wide blx_t1 p w = unfold encode_blx_t1 in ground arith
encode-ne-wide pop_t1 p w = unfold encode_pop_t1 in ground arith
encode-ne-wide push_t1 p w = unfold encode_push_t1 in ground arith
encode-ne-wide cmp_i_t1 p w = unfold encode_cmp_i_t1 in ground arith
encode-ne-wide cmp_r_t1 p w = unfold encode_cmp_r_t1 in ground arith
encode-ne-wide cmp_r_t2 p w = unfold encode_cmp_r_t2 in ground arith
encode-ne-wide adds_i_t1 p w = unfold encode_adds_i_t1 in ground arith
encode-ne-wide adds_i_t2 p w = unfold encode_adds_i_t2 in ground arith
encode-ne-wide adds_r_t1 p w = unfold encode_adds_r_t1 in ground arith
encode-ne-wide add_r_t2 p w = unfold encode_add_r_t2 in ground arith
encode-ne-wide subs_i_t1 p w = unfold encode_subs_i_t1 in ground arith
encode-ne-wide subs_i_t2 p w = unfold encode_subs_i_t2 in ground arith
encode-ne-wide subs_r_t1 p w = unfold encode_subs_r_t1 in ground arith
