-- ===== src/Encoding/Narrow.antt =====
-- The 16-bit encodings of monitor/autogen_encodings/t32_encoding.c as one family.
pub mod Laws
pub mod Width
use tw_monitor.Common.{ℕ, Bool, true, Option}
use tw_monitor.Encoding.Macros.{Word}
use tw_monitor.Encoding.Add.{AddsIt1Parts, match_adds_i_t1, encode_adds_i_t1, decode_adds_i_t1}
use tw_monitor.Encoding.Add.{AddsIt2Parts, match_adds_i_t2, encode_adds_i_t2, decode_adds_i_t2}
use tw_monitor.Encoding.Add.{AddsRt1Parts, match_adds_r_t1, encode_adds_r_t1, decode_adds_r_t1}
use tw_monitor.Encoding.Add.{AddRt2Parts, match_add_r_t2, encode_add_r_t2, decode_add_r_t2}
use tw_monitor.Encoding.Sub.{SubsIt1Parts, match_subs_i_t1, encode_subs_i_t1, decode_subs_i_t1}
use tw_monitor.Encoding.Sub.{SubsIt2Parts, match_subs_i_t2, encode_subs_i_t2, decode_subs_i_t2}
use tw_monitor.Encoding.Sub.{SubsRt1Parts, match_subs_r_t1, encode_subs_r_t1, decode_subs_r_t1}
use tw_monitor.Encoding.BranchNarrow.{BCondT1NoitParts, match_b_cond_t1_noit}
use tw_monitor.Encoding.BranchNarrow.{encode_b_cond_t1_noit, decode_b_cond_t1_noit, Bt2Parts}
use tw_monitor.Encoding.BranchNarrow.{match_b_t2, encode_b_t2, decode_b_t2, BlxT1Parts}
use tw_monitor.Encoding.BranchNarrow.{match_blx_t1, encode_blx_t1, decode_blx_t1, BxT1Parts}
use tw_monitor.Encoding.BranchNarrow.{match_bx_t1, encode_bx_t1, decode_bx_t1}
use tw_monitor.Encoding.Compare.{CmpIt1Parts, match_cmp_i_t1, encode_cmp_i_t1, decode_cmp_i_t1}
use tw_monitor.Encoding.Compare.{CmpRt1Parts, match_cmp_r_t1, encode_cmp_r_t1, decode_cmp_r_t1}
use tw_monitor.Encoding.Compare.{CmpRt2Parts, match_cmp_r_t2, encode_cmp_r_t2, decode_cmp_r_t2}
use tw_monitor.Encoding.LoadNarrow.{LdrIt1Parts, match_ldr_i_t1, encode_ldr_i_t1, decode_ldr_i_t1}
use tw_monitor.Encoding.LoadNarrow.{LdrIt2SponlyParts, match_ldr_i_t2_sponly}
use tw_monitor.Encoding.LoadNarrow.{encode_ldr_i_t2_sponly, decode_ldr_i_t2_sponly, LdrLitT1Parts}
use tw_monitor.Encoding.LoadNarrow.{match_ldr_lit_t1, encode_ldr_lit_t1, decode_ldr_lit_t1}
use tw_monitor.Encoding.LoadNarrow.{LdrRt1Parts, match_ldr_r_t1, encode_ldr_r_t1, decode_ldr_r_t1}
use tw_monitor.Encoding.Move.{MovsIt1Parts, match_movs_i_t1, encode_movs_i_t1, decode_movs_i_t1}
use tw_monitor.Encoding.Move.{MovRt1Parts, match_mov_r_t1, encode_mov_r_t1, decode_mov_r_t1}
use tw_monitor.Encoding.Move.{MovsRt2NoitParts, match_movs_r_t2_noit, encode_movs_r_t2_noit}
use tw_monitor.Encoding.Move.{decode_movs_r_t2_noit}
use tw_monitor.Encoding.Pop.{PopT1Parts, match_pop_t1, encode_pop_t1, decode_pop_t1}
use tw_monitor.Encoding.Push.{PushT1Parts, match_push_t1, encode_push_t1, decode_push_t1}
use tw_monitor.Encoding.Trap.{BkptT1Parts, match_bkpt_t1, encode_bkpt_t1, decode_bkpt_t1}
use tw_monitor.Encoding.Trap.{SvcT1Parts, match_svc_t1, encode_svc_t1, decode_svc_t1, UdfT1Parts}
use tw_monitor.Encoding.Trap.{match_udf_t1, encode_udf_t1, decode_udf_t1, match_nop_t1}
use tw_monitor.Encoding.Trap.{encode_nop_t1}
use tw_monitor.Encoding.Add.RoundTrip.{IsAddsIt1Parts, adds_i_t1_accepts}
use tw_monitor.Encoding.Add.RoundTrip.{IsAddsIt2Parts, adds_i_t2_accepts}
use tw_monitor.Encoding.Add.RoundTrip.{IsAddsRt1Parts, adds_r_t1_accepts}
use tw_monitor.Encoding.Add.RoundTrip.{IsAddRt2Parts, add_r_t2_accepts}
use tw_monitor.Encoding.BranchNarrow.RoundTrip.{IsBCondT1NoitParts, b_cond_t1_noit_accepts}
use tw_monitor.Encoding.BranchNarrow.RoundTrip.{InRangeBCondT1NoitParts}
use tw_monitor.Encoding.BranchNarrow.RoundTrip.{IsBt2Parts, b_t2_accepts, InRangeBt2Parts}
use tw_monitor.Encoding.Trap.RoundTrip.{IsBkptT1Parts, bkpt_t1_accepts}
use tw_monitor.Encoding.BranchNarrow.RoundTrip.{IsBlxT1Parts, blx_t1_accepts}
use tw_monitor.Encoding.BranchNarrow.RoundTrip.{IsBxT1Parts, bx_t1_accepts}
use tw_monitor.Encoding.Compare.RoundTrip.{IsCmpIt1Parts, cmp_i_t1_accepts}
use tw_monitor.Encoding.Compare.RoundTrip.{IsCmpRt1Parts, cmp_r_t1_accepts}
use tw_monitor.Encoding.Compare.RoundTrip.{IsCmpRt2Parts, cmp_r_t2_accepts}
use tw_monitor.Encoding.LoadNarrow.RoundTrip.{IsLdrIt1Parts, ldr_i_t1_accepts, InRangeLdrIt1Parts}
use tw_monitor.Encoding.LoadNarrow.RoundTrip.{IsLdrIt2SponlyParts, ldr_i_t2_sponly_accepts}
use tw_monitor.Encoding.LoadNarrow.RoundTrip.{InRangeLdrIt2SponlyParts}
use tw_monitor.Encoding.LoadNarrow.RoundTrip.{IsLdrLitT1Parts, ldr_lit_t1_accepts}
use tw_monitor.Encoding.LoadNarrow.RoundTrip.{InRangeLdrLitT1Parts}
use tw_monitor.Encoding.LoadNarrow.RoundTrip.{IsLdrRt1Parts, ldr_r_t1_accepts}
use tw_monitor.Encoding.Move.RoundTrip.{IsMovsIt1Parts, movs_i_t1_accepts}
use tw_monitor.Encoding.Move.RoundTrip.{IsMovRt1Parts, mov_r_t1_accepts}
use tw_monitor.Encoding.Move.RoundTrip.{IsMovsRt2NoitParts, movs_r_t2_noit_accepts}
use tw_monitor.Encoding.Pop.RoundTrip.{IsPopT1Parts, pop_t1_accepts}
use tw_monitor.Encoding.Push.RoundTrip.{IsPushT1Parts, push_t1_accepts}
use tw_monitor.Encoding.Sub.RoundTrip.{IsSubsIt1Parts, subs_i_t1_accepts}
use tw_monitor.Encoding.Sub.RoundTrip.{IsSubsIt2Parts, subs_i_t2_accepts}
use tw_monitor.Encoding.Sub.RoundTrip.{IsSubsRt1Parts, subs_r_t1_accepts}
use tw_monitor.Encoding.Trap.RoundTrip.{IsSvcT1Parts, svc_t1_accepts}
use tw_monitor.Encoding.Trap.RoundTrip.{IsUdfT1Parts, udf_t1_accepts}

pub data NarrowEncoding : Type 0 where
  adds_i_t1 adds_i_t2 adds_r_t1 add_r_t2 b_cond_t1_noit b_t2 bkpt_t1 blx_t1 bx_t1 cmp_i_t1 cmp_r_t1
        cmp_r_t2 ldr_i_t1 ldr_i_t2_sponly ldr_lit_t1 ldr_r_t1 nop_t1 movs_i_t1 mov_r_t1
        movs_r_t2_noit pop_t1 push_t1 subs_i_t1 subs_i_t2 subs_r_t1 svc_t1 udf_t1 :
      NarrowEncoding

abbrev pub Parts : NarrowEncoding → Type 0
Parts adds_i_t1 = AddsIt1Parts
Parts adds_i_t2 = AddsIt2Parts
Parts adds_r_t1 = AddsRt1Parts
Parts add_r_t2 = AddRt2Parts
Parts b_cond_t1_noit = BCondT1NoitParts
Parts b_t2 = Bt2Parts
Parts bkpt_t1 = BkptT1Parts
Parts blx_t1 = BlxT1Parts
Parts bx_t1 = BxT1Parts
Parts cmp_i_t1 = CmpIt1Parts
Parts cmp_r_t1 = CmpRt1Parts
Parts cmp_r_t2 = CmpRt2Parts
Parts ldr_i_t1 = LdrIt1Parts
Parts ldr_i_t2_sponly = LdrIt2SponlyParts
Parts ldr_lit_t1 = LdrLitT1Parts
Parts ldr_r_t1 = LdrRt1Parts
Parts nop_t1 = Unit
Parts movs_i_t1 = MovsIt1Parts
Parts mov_r_t1 = MovRt1Parts
Parts movs_r_t2_noit = MovsRt2NoitParts
Parts pop_t1 = PopT1Parts
Parts push_t1 = PushT1Parts
Parts subs_i_t1 = SubsIt1Parts
Parts subs_i_t2 = SubsIt2Parts
Parts subs_r_t1 = SubsRt1Parts
Parts svc_t1 = SvcT1Parts
Parts udf_t1 = UdfT1Parts

-- The fields are 32-bit words.
abbrev pub IsParts : (e : NarrowEncoding) → Parts e → Type 0
IsParts adds_i_t1 p = IsAddsIt1Parts p
IsParts adds_i_t2 p = IsAddsIt2Parts p
IsParts adds_r_t1 p = IsAddsRt1Parts p
IsParts add_r_t2 p = IsAddRt2Parts p
IsParts b_cond_t1_noit p = IsBCondT1NoitParts p
IsParts b_t2 p = IsBt2Parts p
IsParts bkpt_t1 p = IsBkptT1Parts p
IsParts blx_t1 p = IsBlxT1Parts p
IsParts bx_t1 p = IsBxT1Parts p
IsParts cmp_i_t1 p = IsCmpIt1Parts p
IsParts cmp_r_t1 p = IsCmpRt1Parts p
IsParts cmp_r_t2 p = IsCmpRt2Parts p
IsParts ldr_i_t1 p = IsLdrIt1Parts p
IsParts ldr_i_t2_sponly p = IsLdrIt2SponlyParts p
IsParts ldr_lit_t1 p = IsLdrLitT1Parts p
IsParts ldr_r_t1 p = IsLdrRt1Parts p
IsParts nop_t1 p = Unit
IsParts movs_i_t1 p = IsMovsIt1Parts p
IsParts mov_r_t1 p = IsMovRt1Parts p
IsParts movs_r_t2_noit p = IsMovsRt2NoitParts p
IsParts pop_t1 p = IsPopT1Parts p
IsParts push_t1 p = IsPushT1Parts p
IsParts subs_i_t1 p = IsSubsIt1Parts p
IsParts subs_i_t2 p = IsSubsIt2Parts p
IsParts subs_r_t1 p = IsSubsRt1Parts p
IsParts svc_t1 p = IsSvcT1Parts p
IsParts udf_t1 p = IsUdfT1Parts p

-- The offset is one that the encoding can hold; the other encodings check that themselves.
abbrev pub InRange : (e : NarrowEncoding) → Parts e → Type 0
InRange adds_i_t1 p = Unit
InRange adds_i_t2 p = Unit
InRange adds_r_t1 p = Unit
InRange add_r_t2 p = Unit
InRange b_cond_t1_noit p = InRangeBCondT1NoitParts p
InRange b_t2 p = InRangeBt2Parts p
InRange bkpt_t1 p = Unit
InRange blx_t1 p = Unit
InRange bx_t1 p = Unit
InRange cmp_i_t1 p = Unit
InRange cmp_r_t1 p = Unit
InRange cmp_r_t2 p = Unit
InRange ldr_i_t1 p = InRangeLdrIt1Parts p
InRange ldr_i_t2_sponly p = InRangeLdrIt2SponlyParts p
InRange ldr_lit_t1 p = InRangeLdrLitT1Parts p
InRange ldr_r_t1 p = Unit
InRange nop_t1 p = Unit
InRange movs_i_t1 p = Unit
InRange mov_r_t1 p = Unit
InRange movs_r_t2_noit p = Unit
InRange pop_t1 p = Unit
InRange push_t1 p = Unit
InRange subs_i_t1 p = Unit
InRange subs_i_t2 p = Unit
InRange subs_r_t1 p = Unit
InRange svc_t1 p = Unit
InRange udf_t1 p = Unit

unfoldable pub encode : (e : NarrowEncoding) → Parts e → Option Word
encode adds_i_t1 p = encode_adds_i_t1 p
encode adds_i_t2 p = encode_adds_i_t2 p
encode adds_r_t1 p = encode_adds_r_t1 p
encode add_r_t2 p = encode_add_r_t2 p
encode b_cond_t1_noit p = encode_b_cond_t1_noit p
encode b_t2 p = encode_b_t2 p
encode bkpt_t1 p = encode_bkpt_t1 p
encode blx_t1 p = encode_blx_t1 p
encode bx_t1 p = encode_bx_t1 p
encode cmp_i_t1 p = encode_cmp_i_t1 p
encode cmp_r_t1 p = encode_cmp_r_t1 p
encode cmp_r_t2 p = encode_cmp_r_t2 p
encode ldr_i_t1 p = encode_ldr_i_t1 p
encode ldr_i_t2_sponly p = encode_ldr_i_t2_sponly p
encode ldr_lit_t1 p = encode_ldr_lit_t1 p
encode ldr_r_t1 p = encode_ldr_r_t1 p
encode nop_t1 p = encode_nop_t1
encode movs_i_t1 p = encode_movs_i_t1 p
encode mov_r_t1 p = encode_mov_r_t1 p
encode movs_r_t2_noit p = encode_movs_r_t2_noit p
encode pop_t1 p = encode_pop_t1 p
encode push_t1 p = encode_push_t1 p
encode subs_i_t1 p = encode_subs_i_t1 p
encode subs_i_t2 p = encode_subs_i_t2 p
encode subs_r_t1 p = encode_subs_r_t1 p
encode svc_t1 p = encode_svc_t1 p
encode udf_t1 p = encode_udf_t1 p

unfoldable pub matches : NarrowEncoding → ℕ → Bool
matches adds_i_t1 w = match_adds_i_t1 w
matches adds_i_t2 w = match_adds_i_t2 w
matches adds_r_t1 w = match_adds_r_t1 w
matches add_r_t2 w = match_add_r_t2 w
matches b_cond_t1_noit w = match_b_cond_t1_noit w
matches b_t2 w = match_b_t2 w
matches bkpt_t1 w = match_bkpt_t1 w
matches blx_t1 w = match_blx_t1 w
matches bx_t1 w = match_bx_t1 w
matches cmp_i_t1 w = match_cmp_i_t1 w
matches cmp_r_t1 w = match_cmp_r_t1 w
matches cmp_r_t2 w = match_cmp_r_t2 w
matches ldr_i_t1 w = match_ldr_i_t1 w
matches ldr_i_t2_sponly w = match_ldr_i_t2_sponly w
matches ldr_lit_t1 w = match_ldr_lit_t1 w
matches ldr_r_t1 w = match_ldr_r_t1 w
matches nop_t1 w = match_nop_t1 w
matches movs_i_t1 w = match_movs_i_t1 w
matches mov_r_t1 w = match_mov_r_t1 w
matches movs_r_t2_noit w = match_movs_r_t2_noit w
matches pop_t1 w = match_pop_t1 w
matches push_t1 w = match_push_t1 w
matches subs_i_t1 w = match_subs_i_t1 w
matches subs_i_t2 w = match_subs_i_t2 w
matches subs_r_t1 w = match_subs_r_t1 w
matches svc_t1 w = match_svc_t1 w
matches udf_t1 w = match_udf_t1 w

unfoldable pub decode : (e : NarrowEncoding) → ℕ → Parts e
decode adds_i_t1 w = decode_adds_i_t1 w
decode adds_i_t2 w = decode_adds_i_t2 w
decode adds_r_t1 w = decode_adds_r_t1 w
decode add_r_t2 w = decode_add_r_t2 w
decode b_cond_t1_noit w = decode_b_cond_t1_noit w
decode b_t2 w = decode_b_t2 w
decode bkpt_t1 w = decode_bkpt_t1 w
decode blx_t1 w = decode_blx_t1 w
decode bx_t1 w = decode_bx_t1 w
decode cmp_i_t1 w = decode_cmp_i_t1 w
decode cmp_r_t1 w = decode_cmp_r_t1 w
decode cmp_r_t2 w = decode_cmp_r_t2 w
decode ldr_i_t1 w = decode_ldr_i_t1 w
decode ldr_i_t2_sponly w = decode_ldr_i_t2_sponly w
decode ldr_lit_t1 w = decode_ldr_lit_t1 w
decode ldr_r_t1 w = decode_ldr_r_t1 w
decode nop_t1 w = tt
decode movs_i_t1 w = decode_movs_i_t1 w
decode mov_r_t1 w = decode_mov_r_t1 w
decode movs_r_t2_noit w = decode_movs_r_t2_noit w
decode pop_t1 w = decode_pop_t1 w
decode push_t1 w = decode_push_t1 w
decode subs_i_t1 w = decode_subs_i_t1 w
decode subs_i_t2 w = decode_subs_i_t2 w
decode subs_r_t1 w = decode_subs_r_t1 w
decode svc_t1 w = decode_svc_t1 w
decode udf_t1 w = decode_udf_t1 w

-- Every field has the width that its place in the word has, as the encoder checks it.
unfoldable pub accepts : (e : NarrowEncoding) → Parts e → Bool
accepts adds_i_t1 p = adds_i_t1_accepts p
accepts adds_i_t2 p = adds_i_t2_accepts p
accepts adds_r_t1 p = adds_r_t1_accepts p
accepts add_r_t2 p = add_r_t2_accepts p
accepts b_cond_t1_noit p = b_cond_t1_noit_accepts p
accepts b_t2 p = b_t2_accepts p
accepts bkpt_t1 p = bkpt_t1_accepts p
accepts blx_t1 p = blx_t1_accepts p
accepts bx_t1 p = bx_t1_accepts p
accepts cmp_i_t1 p = cmp_i_t1_accepts p
accepts cmp_r_t1 p = cmp_r_t1_accepts p
accepts cmp_r_t2 p = cmp_r_t2_accepts p
accepts ldr_i_t1 p = ldr_i_t1_accepts p
accepts ldr_i_t2_sponly p = ldr_i_t2_sponly_accepts p
accepts ldr_lit_t1 p = ldr_lit_t1_accepts p
accepts ldr_r_t1 p = ldr_r_t1_accepts p
accepts nop_t1 p = true
accepts movs_i_t1 p = movs_i_t1_accepts p
accepts mov_r_t1 p = mov_r_t1_accepts p
accepts movs_r_t2_noit p = movs_r_t2_noit_accepts p
accepts pop_t1 p = pop_t1_accepts p
accepts push_t1 p = push_t1_accepts p
accepts subs_i_t1 p = subs_i_t1_accepts p
accepts subs_i_t2 p = subs_i_t2_accepts p
accepts subs_r_t1 p = subs_r_t1_accepts p
accepts svc_t1 p = svc_t1_accepts p
accepts udf_t1 p = udf_t1_accepts p
