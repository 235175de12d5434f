-- ===== src/Thumb/Assemble/ReadBack/Branch.antt =====
-- B, BL, BLX, BX, BKPT, SVC and UDF of monitor/thumb_asm.c, assembled and disassembled.
use tw_monitor.Common.{
  ℕ, ◌+◌, ◌-◌, ◌%◌, ◌^◌, ◌≤◌, ◌<◌, ◌≡◌, refl, Bool, false, arith, [], ◌∷◌, ◌||◌, ◌&&◌,
}
use tw_monitor.Common.{◌==◌, ltb, leb, some}
use tw_monitor.Encoding.Macros.{IsU32, narrow, wide}
use tw_monitor.Encoding.Narrow
use tw_monitor.Encoding.Wide
use tw_monitor.Encoding.Narrow.{b_cond_t1_noit, b_t2, blx_t1, bx_t1, bkpt_t1, svc_t1, udf_t1}
use tw_monitor.Encoding.Wide.{b_cond_t3_noit, b_t4, bl_t1, udf_t2}
use tw_monitor.Thumb.Spec.{WidthSpecifier, tws_narrow, tws_wide, AddressingMode}
use tw_monitor.Thumb.Spec.{
  am_none, tc_none, tc_le, tm_b, tm_bl, tm_blx, tm_bx, tm_bkpt, tm_svc, tm_udf, ot_reg,
  ot_immediate, ot_signed_immediate,
}
use tw_monitor.Thumb.Listing.Format.{listed}
use tw_monitor.Thumb.Listing.Narrow.{narrow_listing}
use tw_monitor.Thumb.Listing.Wide.{wide_listing}
use tw_monitor.Thumb.Assemble.{thumb_assemble}
use tw_monitor.Thumb.Assemble.Result.{can_be_narrow, can_be_wide}
use tw_monitor.Thumb.Assemble.Branch.{
  assemble_b, assemble_bl, assemble_blx, assemble_bx, assemble_bkpt, assemble_svc, assemble_udf,
  label_of, cond_of,
}
use tw_monitor.Thumb.Assemble.ReadBack.Rules.{ReadsBack, invalid_width}
use tw_monitor.Thumb.Assemble.ReadBack.Rules.{if-ReadsBack, narrow-encoder, narrow-try}
use tw_monitor.Thumb.Assemble.ReadBack.Rules.{wide-encoder}
use tw_monitor.Encoding.BranchNarrow.{
  BCondT1NoitParts, encode_b_cond_t1_noit, Bt2Parts, encode_b_t2,
}
use tw_monitor.Encoding.BranchNarrow.RoundTrip.{b_t2_accepts, InRangeBt2Parts, encode_b_t2_lem}
use tw_monitor.Encoding.BranchNarrow.RoundTrip.{b_cond_t1_noit_accepts, InRangeBCondT1NoitParts}
use tw_monitor.Encoding.BranchNarrow.RoundTrip.{IsBCondT1NoitParts, encode_b_cond_t1_noit_lem}
use tw_monitor.Encoding.BranchWide.{BCondT3NoitParts, encode_b_cond_t3_noit, Bt4Parts, encode_b_t4}
use tw_monitor.Encoding.BranchWide.{BlT1Parts, encode_bl_t1}
use tw_monitor.Encoding.BranchWide.Jump.{b_t4_accepts, InRangeBt4Parts, encode_b_t4_lem}
use tw_monitor.Encoding.BranchWide.Link.{bl_t1_accepts, InRangeBlT1Parts, encode_bl_t1_lem}
use tw_monitor.Encoding.BranchWide.Conditional.{b_cond_t3_noit_accepts, InRangeBCondT3NoitParts}
use tw_monitor.Encoding.BranchWide.Conditional.{IsBCondT3NoitParts, encode_b_cond_t3_noit_lem}

-- Offsets that an encoder's check lets through and its field of `n + 1` bits cannot hold.
abbrev pub in_gap : ℕ → ℕ → Bool
in_gap n label =
    (leb (2 ^ n) label && ltb label (2 ^ (n + 1)))
    || (leb (2 ^ 32 - 2 ^ (n + 1)) label && ltb label (2 ^ 32 - 2 ^ n))

label_of-back : (simm : ℕ) → IsU32 simm → (label_of simm + 4) % 2 ^ 32 ≡ simm
unfolding label_of
label_of-back simm h = omega arith

pub label_of-IsU32 : (simm : ℕ) → IsU32 (label_of simm)
unfolding label_of
label_of-IsU32 simm = omega arith

cond_of-back : (c : ℕ) → 1 ≤ c → c ≤ tc_le → (cond_of c < 14) × ((cond_of c + 1) % 2 ^ 32 ≡ c)
unfolding cond_of
cond_of-back c lo hi = omega arith

-- What an encoder accepts outside the gap is in its field's range.
b_t2-in_range :
    (p : Bt2Parts) (w : ℕ)
    → IsU32 p.simm11
    → in_gap 11 p.simm11 ≡ false
    → encode_b_t2 p ≡ some (narrow w)
    → InRangeBt2Parts p
unfolding b_t2_accepts
b_t2-in_range p w v g h = ground (arith, encode_b_t2_lem p (record { simm11_u32 = v }))

b_t4-in_range :
    (p : Bt4Parts) (w : ℕ)
    → IsU32 p.simm25
    → in_gap 24 p.simm25 ≡ false
    → encode_b_t4 p ≡ some (wide w)
    → InRangeBt4Parts p
unfolding b_t4_accepts
b_t4-in_range p w v g h = ground (arith, encode_b_t4_lem p (record { simm25_u32 = v }))

bl_t1-in_range :
    (p : BlT1Parts) (w : ℕ)
    → IsU32 p.simm25
    → in_gap 24 p.simm25 ≡ false
    → encode_bl_t1 p ≡ some (wide w)
    → InRangeBlT1Parts p
unfolding bl_t1_accepts
bl_t1-in_range p w v g h = ground (arith, encode_bl_t1_lem p (record { simm25_u32 = v }))

b_cond_t1-in_range :
    (p : BCondT1NoitParts) (w : ℕ)
    → IsBCondT1NoitParts p
    → in_gap 8 p.simm8 ≡ false
    → encode_b_cond_t1_noit p ≡ some (narrow w)
    → InRangeBCondT1NoitParts p
unfolding b_cond_t1_noit_accepts
b_cond_t1-in_range p w v g h = ground (arith, encode_b_cond_t1_noit_lem p v)

b_cond_t3-in_range :
    (p : BCondT3NoitParts) (w : ℕ)
    → IsBCondT3NoitParts p
    → in_gap 20 p.simm21 ≡ false
    → encode_b_cond_t3_noit p ≡ some (wide w)
    → InRangeBCondT3NoitParts p
unfolding b_cond_t3_noit_accepts
b_cond_t3-in_range p w v g h = ground (arith, encode_b_cond_t3_noit_lem p v)

module _ (into : ℕ) (width : WidthSpecifier) (condition : ℕ) (mode : AddressingMode) where
  -- BLX is disassembled as the same BLX.
  pub blx-ReadsBack :
      (rm : ℕ)
      → IsU32 rm
      → ReadsBack into
          (listed tws_narrow tm_blx tc_none am_none (ot_reg rm ∷ []))
          (listed tws_wide tm_blx tc_none am_none (ot_reg rm ∷ []))
          (thumb_assemble (listed width tm_blx condition mode (ot_reg rm ∷ [])))
  unfolding thumb_assemble assemble_blx listed narrow_listing wide_listing Narrow.encode Wide.encode
  blx-ReadsBack rm h =
      let fields : Narrow.IsParts blx_t1 (record { rm = rm }) = omega arith in
      if-ReadsBack into (can_be_narrow width)
        (narrow-encoder into blx_t1 _ fields (λ w k. tt) tt refl _ refl) invalid_width

  -- BX is disassembled as the same BX.
  pub bx-ReadsBack :
      (rm : ℕ)
      → IsU32 rm
      → ReadsBack into
          (listed tws_narrow tm_bx tc_none am_none (ot_reg rm ∷ []))
          (listed tws_wide tm_bx tc_none am_none (ot_reg rm ∷ []))
          (thumb_assemble (listed width tm_bx condition mode (ot_reg rm ∷ [])))
  unfolding thumb_assemble assemble_bx listed narrow_listing wide_listing Narrow.encode Wide.encode
  bx-ReadsBack rm h =
      let fields : Narrow.IsParts bx_t1 (record { rm = rm }) = omega arith in
      if-ReadsBack into (can_be_narrow width)
        (narrow-encoder into bx_t1 _ fields (λ w k. tt) tt refl _ refl) invalid_width

  -- BKPT is disassembled as the same BKPT.
  pub bkpt-ReadsBack :
      (imm : ℕ)
      → IsU32 imm
      → ReadsBack into
          (listed tws_narrow tm_bkpt tc_none am_none (ot_immediate imm ∷ []))
          (listed tws_wide tm_bkpt tc_none am_none (ot_immediate imm ∷ []))
          (thumb_assemble (listed width tm_bkpt condition mode (ot_immediate imm ∷ [])))
  unfolding thumb_assemble assemble_bkpt listed narrow_listing wide_listing Narrow.encode
      Wide.encode
  bkpt-ReadsBack imm h =
      let fields : Narrow.IsParts bkpt_t1 (record { imm8 = imm }) = omega arith in
      if-ReadsBack into (can_be_narrow width)
        (narrow-encoder into bkpt_t1 _ fields (λ w k. tt) tt refl _ refl) invalid_width

  -- SVC is disassembled as the same SVC.
  pub svc-ReadsBack :
      (imm : ℕ)
      → IsU32 imm
      → ReadsBack into
          (listed tws_narrow tm_svc tc_none am_none (ot_immediate imm ∷ []))
          (listed tws_wide tm_svc tc_none am_none (ot_immediate imm ∷ []))
          (thumb_assemble (listed width tm_svc condition mode (ot_immediate imm ∷ [])))
  unfolding thumb_assemble assemble_svc listed narrow_listing wide_listing Narrow.encode Wide.encode
  svc-ReadsBack imm h =
      let fields : Narrow.IsParts svc_t1 (record { imm8 = imm }) = omega arith in
      if-ReadsBack into (can_be_narrow width)
        (narrow-encoder into svc_t1 _ fields (λ w k. tt) tt refl _ refl) invalid_width

  -- UDF, in either width, is disassembled as the same UDF.
  pub udf-ReadsBack :
      (imm : ℕ)
      → IsU32 imm
      → ReadsBack into
          (listed tws_narrow tm_udf tc_none am_none (ot_immediate imm ∷ []))
          (listed tws_wide tm_udf tc_none am_none (ot_immediate imm ∷ []))
          (thumb_assemble (listed width tm_udf condition mode (ot_immediate imm ∷ [])))
  unfolding thumb_assemble assemble_udf listed narrow_listing wide_listing Narrow.encode Wide.encode
  udf-ReadsBack imm h =
      let fields : Narrow.IsParts udf_t1 (record { imm8 = imm }) = omega arith in
      let wide_fields : Wide.IsParts udf_t2 (record { imm16 = imm }) = omega arith in
      let long =
        if-ReadsBack into (can_be_wide width)
          (wide-encoder into udf_t2 _ wide_fields (λ w k. tt) tt refl _ refl) invalid_width in
      if-ReadsBack into (can_be_narrow width)
        (narrow-try into udf_t1 _ fields (λ w k. tt) tt refl long _ refl) long

  -- BL is disassembled as the same BL, to the same place, outside the gap.
  pub bl-ReadsBack :
      (simm : ℕ)
      → IsU32 simm
      → in_gap 24 (label_of simm) ≡ false
      → ReadsBack into
          (listed tws_narrow tm_bl tc_none am_none (ot_signed_immediate simm ∷ []))
          (listed tws_wide tm_bl tc_none am_none (ot_signed_immediate simm ∷ []))
          (thumb_assemble (listed width tm_bl condition mode (ot_signed_immediate simm ∷ [])))
  unfolding thumb_assemble assemble_bl listed narrow_listing wide_listing Narrow.encode Wide.encode
  bl-ReadsBack simm h gap =
      let fields : Wide.IsParts bl_t1 (record { simm25 = label_of simm }) = record {
        simm25_u32 = label_of-IsU32 simm;
      } in
      if-ReadsBack into (can_be_wide width)
        (wide-encoder into bl_t1 _ fields (λ w k. bl_t1-in_range _ w (label_of-IsU32 simm) gap k) tt
          (rw (label_of-back simm h)) _ refl)
        invalid_width

module _ (into : ℕ) (width : WidthSpecifier) (mode : AddressingMode) where
  -- B with no condition is disassembled as the same B, in either width and to the same place,
  -- outside the gaps.
  pub b-ReadsBack :
      (simm : ℕ)
      → IsU32 simm
      → in_gap 11 (label_of simm) ≡ false
      → in_gap 24 (label_of simm) ≡ false
      → ReadsBack into
          (listed tws_narrow tm_b tc_none am_none (ot_signed_immediate simm ∷ []))
          (listed tws_wide tm_b tc_none am_none (ot_signed_immediate simm ∷ []))
          (thumb_assemble (listed width tm_b tc_none mode (ot_signed_immediate simm ∷ [])))
  unfolding thumb_assemble assemble_b listed narrow_listing wide_listing Narrow.encode Wide.encode
  b-ReadsBack simm h short_gap long_gap =
      let u = label_of-IsU32 simm in
      let long =
        if-ReadsBack into (can_be_wide width)
          (wide-encoder into b_t4 (record { simm25 = label_of simm }) (record { simm25_u32 = u })
            (λ w k. b_t4-in_range _ w u long_gap k) tt (rw (label_of-back simm h)) _ refl)
          invalid_width in
      if-ReadsBack into (can_be_narrow width)
        (narrow-try into b_t2 (record { simm11 = label_of simm }) (record { simm11_u32 = u })
          (λ w k. b_t2-in_range _ w u short_gap k) tt (rw (label_of-back simm h)) long _ refl)
        long

  -- B with a condition from EQ to LE is disassembled as the same B, in either width and to the same
  -- place, outside the gaps.
  pub b_cond-ReadsBack :
      (c simm : ℕ)
      → 1 ≤ c
      → c ≤ tc_le
      → IsU32 simm
      → in_gap 8 (label_of simm) ≡ false
      → in_gap 20 (label_of simm) ≡ false
      → ReadsBack into
          (listed tws_narrow tm_b c am_none (ot_signed_immediate simm ∷ []))
          (listed tws_wide tm_b c am_none (ot_signed_immediate simm ∷ []))
          (thumb_assemble (listed width tm_b c mode (ot_signed_immediate simm ∷ [])))
  unfolding thumb_assemble assemble_b listed narrow_listing wide_listing Narrow.encode Wide.encode
  b_cond-ReadsBack c simm lo hi h short_gap long_gap =
      let u = label_of-IsU32 simm in
      let back = cond_of-back c lo hi in
      let cu : IsU32 (cond_of c) = omega arith in
      let some_condition : (c == tc_none) ≡ false = ground arith in
      let long_fields : Wide.IsParts b_cond_t3_noit
          (record { cond = cond_of c; simm21 = label_of simm }) =
        record { cond_u32 = cu; simm21_u32 = u } in
      let short_fields : Narrow.IsParts b_cond_t1_noit
          (record { cond = cond_of c; simm8 = label_of simm }) =
        record { cond_u32 = cu; simm8_u32 = u } in
      let long =
        if-ReadsBack into (can_be_wide width)
          (wide-encoder into b_cond_t3_noit _ long_fields
            (λ w k. b_cond_t3-in_range _ w long_fields long_gap k) back.0
            (rw (label_of-back simm h, back.1)) _ refl)
          invalid_width in
      rw some_condition (
        if-ReadsBack into (can_be_narrow width)
          (narrow-try into b_cond_t1_noit _ short_fields
            (λ w k. b_cond_t1-in_range _ w short_fields short_gap k) back.0
            (rw (label_of-back simm h, back.1)) long _ refl)
          long)
