-- ===== src/Encoding/Narrow/Laws.antt =====
-- The 16-bit encodings are inverse to their decoders: monitor/autogen_encodings/t32_encoding.c.
use tw_monitor.Common.{ℕ, ◌^◌, ◌<◌, ◌≡◌, refl, true, false, none, some, arith, ◌↔◌}
use tw_monitor.Encoding.Macros.{narrow}
use tw_monitor.Encoding.Narrow.{NarrowEncoding, Parts, IsParts, InRange, encode, matches, decode}
use tw_monitor.Encoding.Narrow.{accepts, adds_i_t1, adds_i_t2, adds_r_t1, add_r_t2}
use tw_monitor.Encoding.Narrow.{b_cond_t1_noit, b_t2, bkpt_t1, blx_t1, bx_t1, cmp_i_t1, cmp_r_t1}
use tw_monitor.Encoding.Narrow.{cmp_r_t2, ldr_i_t1, ldr_i_t2_sponly, ldr_lit_t1, ldr_r_t1, nop_t1}
use tw_monitor.Encoding.Narrow.{movs_i_t1, mov_r_t1, movs_r_t2_noit, pop_t1, push_t1, subs_i_t1}
use tw_monitor.Encoding.Narrow.{subs_i_t2, subs_r_t1, svc_t1, udf_t1}
use tw_monitor.Encoding.Trap.{encode_nop_t1}
use tw_monitor.Encoding.Add.RoundTrip.{adds_i_t1_decodes, adds_i_t1_encodes, encode_adds_i_t1_lem}
use tw_monitor.Encoding.Add.RoundTrip.{adds_i_t2_decodes, adds_i_t2_encodes, encode_adds_i_t2_lem}
use tw_monitor.Encoding.Add.RoundTrip.{adds_r_t1_decodes, adds_r_t1_encodes, encode_adds_r_t1_lem}
use tw_monitor.Encoding.Add.RoundTrip.{add_r_t2_decodes, add_r_t2_encodes, encode_add_r_t2_lem}
use tw_monitor.Encoding.BranchNarrow.RoundTrip.{b_cond_t1_noit_decodes, b_cond_t1_noit_encodes}
use tw_monitor.Encoding.BranchNarrow.RoundTrip.{encode_b_cond_t1_noit_lem}
use tw_monitor.Encoding.BranchNarrow.RoundTrip.{b_t2_decodes, b_t2_encodes, encode_b_t2_lem}
use tw_monitor.Encoding.Trap.RoundTrip.{bkpt_t1_decodes, bkpt_t1_encodes, encode_bkpt_t1_lem}
use tw_monitor.Encoding.BranchNarrow.RoundTrip.{blx_t1_decodes, blx_t1_encodes, encode_blx_t1_lem}
use tw_monitor.Encoding.BranchNarrow.RoundTrip.{bx_t1_decodes, bx_t1_encodes, encode_bx_t1_lem}
use tw_monitor.Encoding.Compare.RoundTrip.{cmp_i_t1_decodes, cmp_i_t1_encodes}
use tw_monitor.Encoding.Compare.RoundTrip.{encode_cmp_i_t1_lem}
use tw_monitor.Encoding.Compare.RoundTrip.{cmp_r_t1_decodes, cmp_r_t1_encodes}
use tw_monitor.Encoding.Compare.RoundTrip.{encode_cmp_r_t1_lem}
use tw_monitor.Encoding.Compare.RoundTrip.{cmp_r_t2_decodes, cmp_r_t2_encodes}
use tw_monitor.Encoding.Compare.RoundTrip.{encode_cmp_r_t2_lem}
use tw_monitor.Encoding.LoadNarrow.RoundTrip.{ldr_i_t1_decodes, ldr_i_t1_encodes}
use tw_monitor.Encoding.LoadNarrow.RoundTrip.{encode_ldr_i_t1_lem}
use tw_monitor.Encoding.LoadNarrow.RoundTrip.{ldr_i_t2_sponly_decodes, ldr_i_t2_sponly_encodes}
use tw_monitor.Encoding.LoadNarrow.RoundTrip.{encode_ldr_i_t2_sponly_lem}
use tw_monitor.Encoding.LoadNarrow.RoundTrip.{ldr_lit_t1_decodes, ldr_lit_t1_encodes}
use tw_monitor.Encoding.LoadNarrow.RoundTrip.{encode_ldr_lit_t1_lem}
use tw_monitor.Encoding.LoadNarrow.RoundTrip.{ldr_r_t1_decodes, ldr_r_t1_encodes}
use tw_monitor.Encoding.LoadNarrow.RoundTrip.{encode_ldr_r_t1_lem}
use tw_monitor.Encoding.Trap.RoundTrip.{nop_t1_decodes, nop_t1_encodes}
use tw_monitor.Encoding.Move.RoundTrip.{movs_i_t1_decodes, movs_i_t1_encodes}
use tw_monitor.Encoding.Move.RoundTrip.{encode_movs_i_t1_lem}
use tw_monitor.Encoding.Move.RoundTrip.{mov_r_t1_decodes, mov_r_t1_encodes, encode_mov_r_t1_lem}
use tw_monitor.Encoding.Move.RoundTrip.{movs_r_t2_noit_decodes, movs_r_t2_noit_encodes}
use tw_monitor.Encoding.Move.RoundTrip.{encode_movs_r_t2_noit_lem}
use tw_monitor.Encoding.Pop.RoundTrip.{pop_t1_decodes, pop_t1_encodes, encode_pop_t1_lem}
use tw_monitor.Encoding.Push.RoundTrip.{push_t1_decodes, push_t1_encodes, encode_push_t1_lem}
use tw_monitor.Encoding.Sub.RoundTrip.{subs_i_t1_decodes, subs_i_t1_encodes, encode_subs_i_t1_lem}
use tw_monitor.Encoding.Sub.RoundTrip.{subs_i_t2_decodes, subs_i_t2_encodes, encode_subs_i_t2_lem}
use tw_monitor.Encoding.Sub.RoundTrip.{subs_r_t1_decodes, subs_r_t1_encodes, encode_subs_r_t1_lem}
use tw_monitor.Encoding.Trap.RoundTrip.{svc_t1_decodes, svc_t1_encodes, encode_svc_t1_lem}
use tw_monitor.Encoding.Trap.RoundTrip.{udf_t1_decodes, udf_t1_encodes, encode_udf_t1_lem}

-- A word that a 16-bit encoder writes from 32-bit parts, with its offset in the range of its field,
-- fits 16 bits, is matched, and decodes to those parts.
pub narrow-decode-encode :
    (e : NarrowEncoding) (p : Parts e)
    → IsParts e p
    → InRange e p
    → (w : ℕ) → encode e p ≡ some (narrow w)
    → (w < 2 ^ 16) × (matches e w ≡ true) × (decode e w ≡ p)
unfolding encode matches decode
narrow-decode-encode adds_i_t1 p v r w h = adds_i_t1_decodes p v w h
narrow-decode-encode adds_i_t2 p v r w h = adds_i_t2_decodes p v w h
narrow-decode-encode adds_r_t1 p v r w h = adds_r_t1_decodes p v w h
narrow-decode-encode add_r_t2 p v r w h = add_r_t2_decodes p v w h
narrow-decode-encode b_cond_t1_noit p v r w h = b_cond_t1_noit_decodes p v r w h
narrow-decode-encode b_t2 p v r w h = b_t2_decodes p v r w h
narrow-decode-encode bkpt_t1 p v r w h = bkpt_t1_decodes p v w h
narrow-decode-encode blx_t1 p v r w h = blx_t1_decodes p v w h
narrow-decode-encode bx_t1 p v r w h = bx_t1_decodes p v w h
narrow-decode-encode cmp_i_t1 p v r w h = cmp_i_t1_decodes p v w h
narrow-decode-encode cmp_r_t1 p v r w h = cmp_r_t1_decodes p v w h
narrow-decode-encode cmp_r_t2 p v r w h = cmp_r_t2_decodes p v w h
narrow-decode-encode ldr_i_t1 p v r w h = ldr_i_t1_decodes p v r w h
narrow-decode-encode ldr_i_t2_sponly p v r w h = ldr_i_t2_sponly_decodes p v r w h
narrow-decode-encode ldr_lit_t1 p v r w h = ldr_lit_t1_decodes p v r w h
narrow-decode-encode ldr_r_t1 p v r w h = ldr_r_t1_decodes p v w h
narrow-decode-encode nop_t1 p v r w h = let q = nop_t1_decodes w h in (q.0, q.1, refl)
narrow-decode-encode movs_i_t1 p v r w h = movs_i_t1_decodes p v w h
narrow-decode-encode mov_r_t1 p v r w h = mov_r_t1_decodes p v w h
narrow-decode-encode movs_r_t2_noit p v r w h = movs_r_t2_noit_decodes p v w h
narrow-decode-encode pop_t1 p v r w h = pop_t1_decodes p v w h
narrow-decode-encode push_t1 p v r w h = push_t1_decodes p v w h
narrow-decode-encode subs_i_t1 p v r w h = subs_i_t1_decodes p v w h
narrow-decode-encode subs_i_t2 p v r w h = subs_i_t2_decodes p v w h
narrow-decode-encode subs_r_t1 p v r w h = subs_r_t1_decodes p v w h
narrow-decode-encode svc_t1 p v r w h = svc_t1_decodes p v w h
narrow-decode-encode udf_t1 p v r w h = udf_t1_decodes p v w h

-- Encoding what is decoded from a matched 16-bit word writes that word again.
pub narrow-encode-decode :
    (e : NarrowEncoding) (w : ℕ)
    → w < 2 ^ 16
    → matches e w ≡ true
    → encode e (decode e w) ≡ some (narrow w)
unfolding encode matches decode
narrow-encode-decode adds_i_t1 w h m = adds_i_t1_encodes w h m
narrow-encode-decode adds_i_t2 w h m = adds_i_t2_encodes w h m
narrow-encode-decode adds_r_t1 w h m = adds_r_t1_encodes w h m
narrow-encode-decode add_r_t2 w h m = add_r_t2_encodes w h m
narrow-encode-decode b_cond_t1_noit w h m = b_cond_t1_noit_encodes w h m
narrow-encode-decode b_t2 w h m = b_t2_encodes w h m
narrow-encode-decode bkpt_t1 w h m = bkpt_t1_encodes w h m
narrow-encode-decode blx_t1 w h m = blx_t1_encodes w h m
narrow-encode-decode bx_t1 w h m = bx_t1_encodes w h m
narrow-encode-decode cmp_i_t1 w h m = cmp_i_t1_encodes w h m
narrow-encode-decode cmp_r_t1 w h m = cmp_r_t1_encodes w h m
narrow-encode-decode cmp_r_t2 w h m = cmp_r_t2_encodes w h m
narrow-encode-decode ldr_i_t1 w h m = ldr_i_t1_encodes w h m
narrow-encode-decode ldr_i_t2_sponly w h m = ldr_i_t2_sponly_encodes w h m
narrow-encode-decode ldr_lit_t1 w h m = ldr_lit_t1_encodes w h m
narrow-encode-decode ldr_r_t1 w h m = ldr_r_t1_encodes w h m
narrow-encode-decode nop_t1 w h m = nop_t1_encodes w h m
narrow-encode-decode movs_i_t1 w h m = movs_i_t1_encodes w h m
narrow-encode-decode mov_r_t1 w h m = mov_r_t1_encodes w h m
narrow-encode-decode movs_r_t2_noit w h m = movs_r_t2_noit_encodes w h m
narrow-encode-decode pop_t1 w h m = pop_t1_encodes w h m
narrow-encode-decode push_t1 w h m = push_t1_encodes w h m
narrow-encode-decode subs_i_t1 w h m = subs_i_t1_encodes w h m
narrow-encode-decode subs_i_t2 w h m = subs_i_t2_encodes w h m
narrow-encode-decode subs_r_t1 w h m = subs_r_t1_encodes w h m
narrow-encode-decode svc_t1 w h m = svc_t1_encodes w h m
narrow-encode-decode udf_t1 w h m = udf_t1_encodes w h m

-- An encoder writes nothing from 32-bit parts exactly if they are not accepted.
pub narrow-encode-eq_none_iff :
    (e : NarrowEncoding) (p : Parts e) → IsParts e p → (encode e p ≡ none) ↔ (accepts e p ≡ false)
unfolding encode accepts
narrow-encode-eq_none_iff adds_i_t1 p v = ground (arith, encode_adds_i_t1_lem p v)
narrow-encode-eq_none_iff adds_i_t2 p v = ground (arith, encode_adds_i_t2_lem p v)
narrow-encode-eq_none_iff adds_r_t1 p v = ground (arith, encode_adds_r_t1_lem p v)
narrow-encode-eq_none_iff add_r_t2 p v = ground (arith, encode_add_r_t2_lem p v)
narrow-encode-eq_none_iff b_cond_t1_noit p v = ground (arith, encode_b_cond_t1_noit_lem p v)
narrow-encode-eq_none_iff b_t2 p v = ground (arith, encode_b_t2_lem p v)
narrow-encode-eq_none_iff bkpt_t1 p v = ground (arith, encode_bkpt_t1_lem p v)
narrow-encode-eq_none_iff blx_t1 p v = ground (arith, encode_blx_t1_lem p v)
narrow-encode-eq_none_iff bx_t1 p v = ground (arith, encode_bx_t1_lem p v)
narrow-encode-eq_none_iff cmp_i_t1 p v = ground (arith, encode_cmp_i_t1_lem p v)
narrow-encode-eq_none_iff cmp_r_t1 p v = ground (arith, encode_cmp_r_t1_lem p v)
narrow-encode-eq_none_iff cmp_r_t2 p v = ground (arith, encode_cmp_r_t2_lem p v)
narrow-encode-eq_none_iff ldr_i_t1 p v = ground (arith, encode_ldr_i_t1_lem p v)
narrow-encode-eq_none_iff ldr_i_t2_sponly p v = ground (arith, encode_ldr_i_t2_sponly_lem p v)
narrow-encode-eq_none_iff ldr_lit_t1 p v = ground (arith, encode_ldr_lit_t1_lem p v)
narrow-encode-eq_none_iff ldr_r_t1 p v = ground (arith, encode_ldr_r_t1_lem p v)
narrow-encode-eq_none_iff nop_t1 p v = unfold encode_nop_t1 in ground arith
narrow-encode-eq_none_iff movs_i_t1 p v = ground (arith, encode_movs_i_t1_lem p v)
narrow-encode-eq_none_iff mov_r_t1 p v = ground (arith, encode_mov_r_t1_lem p v)
narrow-encode-eq_none_iff movs_r_t2_noit p v = ground (arith, encode_movs_r_t2_noit_lem p v)
narrow-encode-eq_none_iff pop_t1 p v = ground (arith, encode_pop_t1_lem p v)
narrow-encode-eq_none_iff push_t1 p v = ground (arith, encode_push_t1_lem p v)
narrow-encode-eq_none_iff subs_i_t1 p v = ground (arith, encode_subs_i_t1_lem p v)
narrow-encode-eq_none_iff subs_i_t2 p v = ground (arith, encode_subs_i_t2_lem p v)
narrow-encode-eq_none_iff subs_r_t1 p v = ground (arith, encode_subs_r_t1_lem p v)
narrow-encode-eq_none_iff svc_t1 p v = ground (arith, encode_svc_t1_lem p v)
narrow-encode-eq_none_iff udf_t1 p v = ground (arith, encode_udf_t1_lem p v)
