-- ===== src/Thumb/Assemble/Forms/Always.antt =====
-- B with the condition AL in monitor/thumb_asm.c.
use tw_monitor.Common.{ℕ, ◌+◌, ◌/◌, ◌%◌, ◌^◌, ◌<◌, ◌≡◌, ◌∙◌, ap, true, [], ◌∷◌, some, arith}
use tw_monitor.Encoding.Macros.{bit_extract_lem}
use tw_monitor.Encoding.Narrow
use tw_monitor.Encoding.Narrow.{udf_t1}
use tw_monitor.Encoding.Trap.{match_udf_t1, decode_udf_t1}
use tw_monitor.Encoding.BranchNarrow.RoundTrip.{
  b_cond_t1_noit_accepts, b_cond_t1_noit_word, encode_b_cond_t1_noit_lem,
}
use tw_monitor.Thumb.Spec.{
  WidthSpecifier, tws_narrow, AddressingMode, am_none, tc_none, tc_al, narrow_half,
}
use tw_monitor.Thumb.Spec.{tm_b, tm_udf, ot_immediate, ot_signed_immediate}
use tw_monitor.Thumb.Listing.Format.{listed}
use tw_monitor.Thumb.Listing.Narrow.{narrow_listing}
use tw_monitor.Thumb.Disassemble.{thumb_disassemble}
use tw_monitor.Thumb.Disassemble.Laws.{thumb_disassemble-narrow}
use tw_monitor.Thumb.Assemble.{thumb_assemble, into_after}
use tw_monitor.Thumb.Assemble.Branch.{assemble_b, label_of, cond_of}
use tw_monitor.Thumb.Assemble.Result.{can_be_narrow, narrow_success}

module _ (into : ℕ) (width : WidthSpecifier) (mode : AddressingMode) (simm : ℕ)
    (short : can_be_narrow width ≡ true) (even : label_of simm % 2 ≡ 0)
    (near : label_of simm < 2 ^ 8) where
  stored_word :
      thumb_assemble (listed width tm_b tc_al mode (ot_signed_immediate simm ∷ []))
      ≡ narrow_success (0xde00 + label_of simm / 2)
  unfolding thumb_assemble assemble_b listed cond_of b_cond_t1_noit_accepts b_cond_t1_noit_word
  stored_word =
      ground (
        arith,
        encode_b_cond_t1_noit_lem (record { cond = 14; simm8 = label_of simm }) (omega arith),
      )

  udf_half :
      narrow_half (into_after into (narrow_success (0xde00 + label_of simm / 2)))
      ≡ 0xde00 + label_of simm / 2
  unfolding into_after
  udf_half = omega arith

  udf_match : Narrow.matches udf_t1 (0xde00 + label_of simm / 2) ≡ true
  unfolding Narrow.matches match_udf_t1
  udf_match = ground (arith, bit_extract_lem (0xde00 + label_of simm / 2) 8 8)

  udf_decode :
      Narrow.decode udf_t1 (0xde00 + label_of simm / 2) ≡ record { imm8 = label_of simm / 2 }
  unfolding Narrow.decode decode_udf_t1
  udf_decode = ground (arith, bit_extract_lem (0xde00 + label_of simm / 2) 0 8)

  -- B with the condition AL, not restricted to 32 bits, to an even distance below 2^8 of the PC is
  -- stored as an undefined instruction, and disassembled as UDF.
  pub b_al-reads_udf :
      thumb_disassemble (
        into_after into
          (thumb_assemble (listed width tm_b tc_al mode (ot_signed_immediate simm ∷ []))))
      ≡ some (listed tws_narrow tm_udf tc_none am_none (ot_immediate (label_of simm / 2) ∷ []))
  unfolding narrow_listing
  b_al-reads_udf =
      let word : ℕ = into_after into (narrow_success (0xde00 + label_of simm / 2)) in
      ap (λ a. thumb_disassemble (into_after into a)) stored_word
      ∙ thumb_disassemble-narrow udf_t1 word (ap (Narrow.matches udf_t1) udf_half ∙ udf_match) tt
      ∙ ap (λ p. some (narrow_listing udf_t1 p)) (ap (Narrow.decode udf_t1) udf_half ∙ udf_decode)
