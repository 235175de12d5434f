-- ===== src/Encoding/Wide.antt =====
-- The 32-bit encodings of monitor/autogen_encodings/t32_encoding.c as one family.
pub mod Laws
pub mod Width
use tw_monitor.Common.{ℕ, Bool, true, Option}
use tw_monitor.Encoding.Macros.{Word}
use tw_monitor.Encoding.Add.{AddwIt4Parts, match_addw_i_t4, encode_addw_i_t4, decode_addw_i_t4}
use tw_monitor.Encoding.Sub.{SubwIt4Parts, match_subw_i_t4, encode_subw_i_t4, decode_subw_i_t4}
use tw_monitor.Encoding.BranchWide.{BCondT3NoitParts, match_b_cond_t3_noit, encode_b_cond_t3_noit}
use tw_monitor.Encoding.BranchWide.{decode_b_cond_t3_noit, Bt4Parts, match_b_t4, encode_b_t4}
use tw_monitor.Encoding.BranchWide.{decode_b_t4, BlT1Parts, match_bl_t1, encode_bl_t1}
use tw_monitor.Encoding.BranchWide.{decode_bl_t1}
use tw_monitor.Encoding.LoadWide.{LdrIt3Parts, match_ldr_i_t3, encode_ldr_i_t3, decode_ldr_i_t3}
use tw_monitor.Encoding.LoadWide.{LdrIt4Parts, match_ldr_i_t4, encode_ldr_i_t4, decode_ldr_i_t4}
use tw_monitor.Encoding.LoadWide.{LdrLitT2Parts, match_ldr_lit_t2, encode_ldr_lit_t2}
use tw_monitor.Encoding.LoadWide.{decode_ldr_lit_t2, LdrRt2LslParts, match_ldr_r_t2_lsl}
use tw_monitor.Encoding.LoadWide.{encode_ldr_r_t2_lsl, decode_ldr_r_t2_lsl}
use tw_monitor.Encoding.Move.{MovwIt3Parts, match_movw_i_t3, encode_movw_i_t3, decode_movw_i_t3}
use tw_monitor.Encoding.Move.{MovRt3OptSParts, match_mov_r_t3_opt_s, encode_mov_r_t3_opt_s}
use tw_monitor.Encoding.Move.{decode_mov_r_t3_opt_s}
use tw_monitor.Encoding.Pop.{PopT2Parts, match_pop_t2, encode_pop_t2, decode_pop_t2, PopT3Parts}
use tw_monitor.Encoding.Pop.{match_pop_t3, encode_pop_t3, decode_pop_t3}
use tw_monitor.Encoding.Push.{PushT2Parts, match_push_t2, encode_push_t2, decode_push_t2}
use tw_monitor.Encoding.Push.{PushT3Parts, match_push_t3, encode_push_t3, decode_push_t3}
use tw_monitor.Encoding.Trap.{UdfT2Parts, match_udf_t2, encode_udf_t2, decode_udf_t2}
use tw_monitor.Encoding.Trap.{match_nop_t2, encode_nop_t2}
use tw_monitor.Encoding.Add.RoundTrip.{IsAddwIt4Parts, addw_i_t4_accepts}
use tw_monitor.Encoding.BranchWide.Conditional.{IsBCondT3NoitParts, b_cond_t3_noit_accepts}
use tw_monitor.Encoding.BranchWide.Conditional.{InRangeBCondT3NoitParts}
use tw_monitor.Encoding.BranchWide.Jump.{IsBt4Parts, b_t4_accepts, InRangeBt4Parts}
use tw_monitor.Encoding.BranchWide.Link.{IsBlT1Parts, bl_t1_accepts, InRangeBlT1Parts}
use tw_monitor.Encoding.LoadWide.RoundTrip.{IsLdrIt3Parts, ldr_i_t3_accepts}
use tw_monitor.Encoding.LoadWide.RoundTrip.{IsLdrIt4Parts, ldr_i_t4_accepts}
use tw_monitor.Encoding.LoadWide.RoundTrip.{IsLdrLitT2Parts, ldr_lit_t2_accepts}
use tw_monitor.Encoding.LoadWide.RoundTrip.{IsLdrRt2LslParts, ldr_r_t2_lsl_accepts}
use tw_monitor.Encoding.Move.RoundTrip.{IsMovwIt3Parts, movw_i_t3_accepts}
use tw_monitor.Encoding.Move.RoundTrip.{IsMovRt3OptSParts, mov_r_t3_opt_s_accepts}
use tw_monitor.Encoding.Pop.RoundTrip.{IsPopT2Parts, pop_t2_accepts}
use tw_monitor.Encoding.Pop.RoundTrip.{IsPopT3Parts, pop_t3_accepts}
use tw_monitor.Encoding.Push.RoundTrip.{IsPushT2Parts, push_t2_accepts}
use tw_monitor.Encoding.Push.RoundTrip.{IsPushT3Parts, push_t3_accepts}
use tw_monitor.Encoding.Sub.RoundTrip.{IsSubwIt4Parts, subw_i_t4_accepts}
use tw_monitor.Encoding.Trap.RoundTrip.{IsUdfT2Parts, udf_t2_accepts}

pub data WideEncoding : Type 0 where
  addw_i_t4 b_cond_t3_noit b_t4 bl_t1 ldr_i_t3 ldr_i_t4 ldr_lit_t2 ldr_r_t2_lsl nop_t2 movw_i_t3
        mov_r_t3_opt_s pop_t2 pop_t3 push_t2 push_t3 subw_i_t4 udf_t2 :
      WideEncoding

abbrev pub Parts : WideEncoding → Type 0
Parts addw_i_t4 = AddwIt4Parts
Parts b_cond_t3_noit = BCondT3NoitParts
Parts b_t4 = Bt4Parts
Parts bl_t1 = BlT1Parts
Parts ldr_i_t3 = LdrIt3Parts
Parts ldr_i_t4 = LdrIt4Parts
Parts ldr_lit_t2 = LdrLitT2Parts
Parts ldr_r_t2_lsl = LdrRt2LslParts
Parts nop_t2 = Unit
Parts movw_i_t3 = MovwIt3Parts
Parts mov_r_t3_opt_s = MovRt3OptSParts
Parts pop_t2 = PopT2Parts
Parts pop_t3 = PopT3Parts
Parts push_t2 = PushT2Parts
Parts push_t3 = PushT3Parts
Parts subw_i_t4 = SubwIt4Parts
Parts udf_t2 = UdfT2Parts

-- The fields are 32-bit words.
abbrev pub IsParts : (e : WideEncoding) → Parts e → Type 0
IsParts addw_i_t4 p = IsAddwIt4Parts p
IsParts b_cond_t3_noit p = IsBCondT3NoitParts p
IsParts b_t4 p = IsBt4Parts p
IsParts bl_t1 p = IsBlT1Parts p
IsParts ldr_i_t3 p = IsLdrIt3Parts p
IsParts ldr_i_t4 p = IsLdrIt4Parts p
IsParts ldr_lit_t2 p = IsLdrLitT2Parts p
IsParts ldr_r_t2_lsl p = IsLdrRt2LslParts p
IsParts nop_t2 p = Unit
IsParts movw_i_t3 p = IsMovwIt3Parts p
IsParts mov_r_t3_opt_s p = IsMovRt3OptSParts p
IsParts pop_t2 p = IsPopT2Parts p
IsParts pop_t3 p = IsPopT3Parts p
IsParts push_t2 p = IsPushT2Parts p
IsParts push_t3 p = IsPushT3Parts p
IsParts subw_i_t4 p = IsSubwIt4Parts p
IsParts udf_t2 p = IsUdfT2Parts p

-- The offset is one that the encoding can hold; the other encodings check that themselves.
abbrev pub InRange : (e : WideEncoding) → Parts e → Type 0
InRange addw_i_t4 p = Unit
InRange b_cond_t3_noit p = InRangeBCondT3NoitParts p
InRange b_t4 p = InRangeBt4Parts p
InRange bl_t1 p = InRangeBlT1Parts p
InRange ldr_i_t3 p = Unit
InRange ldr_i_t4 p = Unit
InRange ldr_lit_t2 p = Unit
InRange ldr_r_t2_lsl p = Unit
InRange nop_t2 p = Unit
InRange movw_i_t3 p = Unit
InRange mov_r_t3_opt_s p = Unit
InRange pop_t2 p = Unit
InRange pop_t3 p = Unit
InRange push_t2 p = Unit
InRange push_t3 p = Unit
InRange subw_i_t4 p = Unit
InRange udf_t2 p = Unit

unfoldable pub encode : (e : WideEncoding) → Parts e → Option Word
encode addw_i_t4 p = encode_addw_i_t4 p
encode b_cond_t3_noit p = encode_b_cond_t3_noit p
encode b_t4 p = encode_b_t4 p
encode bl_t1 p = encode_bl_t1 p
encode ldr_i_t3 p = encode_ldr_i_t3 p
encode ldr_i_t4 p = encode_ldr_i_t4 p
encode ldr_lit_t2 p = encode_ldr_lit_t2 p
encode ldr_r_t2_lsl p = encode_ldr_r_t2_lsl p
encode nop_t2 p = encode_nop_t2
encode movw_i_t3 p = encode_movw_i_t3 p
encode mov_r_t3_opt_s p = encode_mov_r_t3_opt_s p
encode pop_t2 p = encode_pop_t2 p
encode pop_t3 p = encode_pop_t3 p
encode push_t2 p = encode_push_t2 p
encode push_t3 p = encode_push_t3 p
encode subw_i_t4 p = encode_subw_i_t4 p
encode udf_t2 p = encode_udf_t2 p

unfoldable pub matches : WideEncoding → ℕ → Bool
matches addw_i_t4 w = match_addw_i_t4 w
matches b_cond_t3_noit w = match_b_cond_t3_noit w
matches b_t4 w = match_b_t4 w
matches bl_t1 w = match_bl_t1 w
matches ldr_i_t3 w = match_ldr_i_t3 w
matches ldr_i_t4 w = match_ldr_i_t4 w
matches ldr_lit_t2 w = match_ldr_lit_t2 w
matches ldr_r_t2_lsl w = match_ldr_r_t2_lsl w
matches nop_t2 w = match_nop_t2 w
matches movw_i_t3 w = match_movw_i_t3 w
matches mov_r_t3_opt_s w = match_mov_r_t3_opt_s w
matches pop_t2 w = match_pop_t2 w
matches pop_t3 w = match_pop_t3 w
matches push_t2 w = match_push_t2 w
matches push_t3 w = match_push_t3 w
matches subw_i_t4 w = match_subw_i_t4 w
matches udf_t2 w = match_udf_t2 w

unfoldable pub decode : (e : WideEncoding) → ℕ → Parts e
decode addw_i_t4 w = decode_addw_i_t4 w
decode b_cond_t3_noit w = decode_b_cond_t3_noit w
decode b_t4 w = decode_b_t4 w
decode bl_t1 w = decode_bl_t1 w
decode ldr_i_t3 w = decode_ldr_i_t3 w
decode ldr_i_t4 w = decode_ldr_i_t4 w
decode ldr_lit_t2 w = decode_ldr_lit_t2 w
decode ldr_r_t2_lsl w = decode_ldr_r_t2_lsl w
decode nop_t2 w = tt
decode movw_i_t3 w = decode_movw_i_t3 w
decode mov_r_t3_opt_s w = decode_mov_r_t3_opt_s w
decode pop_t2 w = decode_pop_t2 w
decode pop_t3 w = decode_pop_t3 w
decode push_t2 w = decode_push_t2 w
decode push_t3 w = decode_push_t3 w
decode subw_i_t4 w = decode_subw_i_t4 w
decode udf_t2 w = decode_udf_t2 w

-- Every field has the width that its place in the word has, as the encoder checks it.
unfoldable pub accepts : (e : WideEncoding) → Parts e → Bool
accepts addw_i_t4 p = addw_i_t4_accepts p
accepts b_cond_t3_noit p = b_cond_t3_noit_accepts p
accepts b_t4 p = b_t4_accepts p
accepts bl_t1 p = bl_t1_accepts p
accepts ldr_i_t3 p = ldr_i_t3_accepts p
accepts ldr_i_t4 p = ldr_i_t4_accepts p
accepts ldr_lit_t2 p = ldr_lit_t2_accepts p
accepts ldr_r_t2_lsl p = ldr_r_t2_lsl_accepts p
accepts nop_t2 p = true
accepts movw_i_t3 p = movw_i_t3_accepts p
accepts mov_r_t3_opt_s p = mov_r_t3_opt_s_accepts p
accepts pop_t2 p = pop_t2_accepts p
accepts pop_t3 p = pop_t3_accepts p
accepts push_t2 p = push_t2_accepts p
accepts push_t3 p = push_t3_accepts p
accepts subw_i_t4 p = subw_i_t4_accepts p
accepts udf_t2 p = udf_t2_accepts p
