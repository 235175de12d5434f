-- ===== src/Encoding/Wide/Laws.antt =====
-- The 32-bit encodings are inverse to their decoders: monitor/autogen_encodings/t32_encoding.c.
use tw_monitor.Common.{ℕ, ◌^◌, ◌<◌, ◌≡◌, refl, true, false, none, some, arith, ◌↔◌}
use tw_monitor.Encoding.Macros.{wide}
use tw_monitor.Encoding.Wide.{WideEncoding, Parts, IsParts, InRange, encode, matches, decode}
use tw_monitor.Encoding.Wide.{accepts, addw_i_t4, b_cond_t3_noit, b_t4, bl_t1, ldr_i_t3, ldr_i_t4}
use tw_monitor.Encoding.Wide.{ldr_lit_t2, ldr_r_t2_lsl, nop_t2, movw_i_t3, mov_r_t3_opt_s, pop_t2}
use tw_monitor.Encoding.Wide.{pop_t3, push_t2, push_t3, subw_i_t4, udf_t2}
use tw_monitor.Encoding.Trap.{encode_nop_t2}
use tw_monitor.Encoding.Add.RoundTrip.{addw_i_t4_decodes, addw_i_t4_encodes, encode_addw_i_t4_lem}
use tw_monitor.Encoding.BranchWide.Conditional.{b_cond_t3_noit_decodes, b_cond_t3_noit_encodes}
use tw_monitor.Encoding.BranchWide.Conditional.{encode_b_cond_t3_noit_lem}
use tw_monitor.Encoding.BranchWide.Jump.{b_t4_decodes, b_t4_encodes, encode_b_t4_lem}
use tw_monitor.Encoding.BranchWide.Link.{bl_t1_decodes, bl_t1_encodes, encode_bl_t1_lem}
use tw_monitor.Encoding.LoadWide.RoundTrip.{ldr_i_t3_decodes, ldr_i_t3_encodes}
use tw_monitor.Encoding.LoadWide.RoundTrip.{encode_ldr_i_t3_lem}
use tw_monitor.Encoding.LoadWide.RoundTrip.{ldr_i_t4_decodes, ldr_i_t4_encodes}
use tw_monitor.Encoding.LoadWide.RoundTrip.{encode_ldr_i_t4_lem}
use tw_monitor.Encoding.LoadWide.RoundTrip.{ldr_lit_t2_decodes, ldr_lit_t2_encodes}
use tw_monitor.Encoding.LoadWide.RoundTrip.{encode_ldr_lit_t2_lem}
use tw_monitor.Encoding.LoadWide.RoundTrip.{ldr_r_t2_lsl_decodes, ldr_r_t2_lsl_encodes}
use tw_monitor.Encoding.LoadWide.RoundTrip.{encode_ldr_r_t2_lsl_lem}
use tw_monitor.Encoding.Trap.RoundTrip.{nop_t2_decodes, nop_t2_encodes}
use tw_monitor.Encoding.Move.RoundTrip.{movw_i_t3_decodes, movw_i_t3_encodes}
use tw_monitor.Encoding.Move.RoundTrip.{encode_movw_i_t3_lem}
use tw_monitor.Encoding.Move.RoundTrip.{mov_r_t3_opt_s_decodes, mov_r_t3_opt_s_encodes}
use tw_monitor.Encoding.Move.RoundTrip.{encode_mov_r_t3_opt_s_lem}
use tw_monitor.Encoding.Pop.RoundTrip.{pop_t2_decodes, pop_t2_encodes, encode_pop_t2_lem}
use tw_monitor.Encoding.Pop.RoundTrip.{pop_t3_decodes, pop_t3_encodes, encode_pop_t3_lem}
use tw_monitor.Encoding.Push.RoundTrip.{push_t2_decodes, push_t2_encodes, encode_push_t2_lem}
use tw_monitor.Encoding.Push.RoundTrip.{push_t3_decodes, push_t3_encodes, encode_push_t3_lem}
use tw_monitor.Encoding.Sub.RoundTrip.{subw_i_t4_decodes, subw_i_t4_encodes, encode_subw_i_t4_lem}
use tw_monitor.Encoding.Trap.RoundTrip.{udf_t2_decodes, udf_t2_encodes, encode_udf_t2_lem}

-- A word that a 32-bit encoder writes from 32-bit parts, with its offset in the range of its field,
-- fits 32 bits, is matched, and decodes to those parts.
pub wide-decode-encode :
    (e : WideEncoding) (p : Parts e)
    → IsParts e p
    → InRange e p
    → (w : ℕ) → encode e p ≡ some (wide w)
    → (w < 2 ^ 32) × (matches e w ≡ true) × (decode e w ≡ p)
unfolding encode matches decode
wide-decode-encode addw_i_t4 p v r w h = addw_i_t4_decodes p v w h
wide-decode-encode b_cond_t3_noit p v r w h = b_cond_t3_noit_decodes p v r w h
wide-decode-encode b_t4 p v r w h = b_t4_decodes p v r w h
wide-decode-encode bl_t1 p v r w h = bl_t1_decodes p v r w h
wide-decode-encode ldr_i_t3 p v r w h = ldr_i_t3_decodes p v w h
wide-decode-encode ldr_i_t4 p v r w h = ldr_i_t4_decodes p v w h
wide-decode-encode ldr_lit_t2 p v r w h = ldr_lit_t2_decodes p v w h
wide-decode-encode ldr_r_t2_lsl p v r w h = ldr_r_t2_lsl_decodes p v w h
wide-decode-encode nop_t2 p v r w h = let q = nop_t2_decodes w h in (q.0, q.1, refl)
wide-decode-encode movw_i_t3 p v r w h = movw_i_t3_decodes p v w h
wide-decode-encode mov_r_t3_opt_s p v r w h = mov_r_t3_opt_s_decodes p v w h
wide-decode-encode pop_t2 p v r w h = pop_t2_decodes p v w h
wide-decode-encode pop_t3 p v r w h = pop_t3_decodes p v w h
wide-decode-encode push_t2 p v r w h = push_t2_decodes p v w h
wide-decode-encode push_t3 p v r w h = push_t3_decodes p v w h
wide-decode-encode subw_i_t4 p v r w h = subw_i_t4_decodes p v w h
wide-decode-encode udf_t2 p v r w h = udf_t2_decodes p v w h

-- Encoding what is decoded from a matched 32-bit word writes that word again.
pub wide-encode-decode :
    (e : WideEncoding) (w : ℕ)
    → w < 2 ^ 32
    → matches e w ≡ true
    → encode e (decode e w) ≡ some (wide w)
unfolding encode matches decode
wide-encode-decode addw_i_t4 w h m = addw_i_t4_encodes w h m
wide-encode-decode b_cond_t3_noit w h m = b_cond_t3_noit_encodes w h m
wide-encode-decode b_t4 w h m = b_t4_encodes w h m
wide-encode-decode bl_t1 w h m = bl_t1_encodes w h m
wide-encode-decode ldr_i_t3 w h m = ldr_i_t3_encodes w h m
wide-encode-decode ldr_i_t4 w h m = ldr_i_t4_encodes w h m
wide-encode-decode ldr_lit_t2 w h m = ldr_lit_t2_encodes w h m
wide-encode-decode ldr_r_t2_lsl w h m = ldr_r_t2_lsl_encodes w h m
wide-encode-decode nop_t2 w h m = nop_t2_encodes w h m
wide-encode-decode movw_i_t3 w h m = movw_i_t3_encodes w h m
wide-encode-decode mov_r_t3_opt_s w h m = mov_r_t3_opt_s_encodes w h m
wide-encode-decode pop_t2 w h m = pop_t2_encodes w h m
wide-encode-decode pop_t3 w h m = pop_t3_encodes w h m
wide-encode-decode push_t2 w h m = push_t2_encodes w h m
wide-encode-decode push_t3 w h m = push_t3_encodes w h m
wide-encode-decode subw_i_t4 w h m = subw_i_t4_encodes w h m
wide-encode-decode udf_t2 w h m = udf_t2_encodes w h m

-- An encoder writes nothing from 32-bit parts exactly if they are not accepted.
pub wide-encode-eq_none_iff :
    (e : WideEncoding) (p : Parts e) → IsParts e p → (encode e p ≡ none) ↔ (accepts e p ≡ false)
unfolding encode accepts
wide-encode-eq_none_iff addw_i_t4 p v = ground (arith, encode_addw_i_t4_lem p v)
wide-encode-eq_none_iff b_cond_t3_noit p v = ground (arith, encode_b_cond_t3_noit_lem p v)
wide-encode-eq_none_iff b_t4 p v = ground (arith, encode_b_t4_lem p v)
wide-encode-eq_none_iff bl_t1 p v = ground (arith, encode_bl_t1_lem p v)
wide-encode-eq_none_iff ldr_i_t3 p v = ground (arith, encode_ldr_i_t3_lem p v)
wide-encode-eq_none_iff ldr_i_t4 p v = ground (arith, encode_ldr_i_t4_lem p v)
wide-encode-eq_none_iff ldr_lit_t2 p v = ground (arith, encode_ldr_lit_t2_lem p v)
wide-encode-eq_none_iff ldr_r_t2_lsl p v = ground (arith, encode_ldr_r_t2_lsl_lem p v)
wide-encode-eq_none_iff nop_t2 p v = unfold encode_nop_t2 in ground arith
wide-encode-eq_none_iff movw_i_t3 p v = ground (arith, encode_movw_i_t3_lem p v)
wide-encode-eq_none_iff mov_r_t3_opt_s p v = ground (arith, encode_mov_r_t3_opt_s_lem p v)
wide-encode-eq_none_iff pop_t2 p v = ground (arith, encode_pop_t2_lem p v)
wide-encode-eq_none_iff pop_t3 p v = ground (arith, encode_pop_t3_lem p v)
wide-encode-eq_none_iff push_t2 p v = ground (arith, encode_push_t2_lem p v)
wide-encode-eq_none_iff push_t3 p v = ground (arith, encode_push_t3_lem p v)
wide-encode-eq_none_iff subw_i_t4 p v = ground (arith, encode_subw_i_t4_lem p v)
wide-encode-eq_none_iff udf_t2 p v = ground (arith, encode_udf_t2_lem p v)
