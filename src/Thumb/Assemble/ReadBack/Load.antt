-- ===== src/Thumb/Assemble/ReadBack/Load.antt =====
-- LDR of monitor/thumb_asm.c, assembled and disassembled.
use tw_monitor.Common.{
  ℕ, ◌-◌, ◌%◌, ◌^◌, ◌≤◌, ◌<◌, ◌≡◌, ◌≢◌, refl, ap, sym, ◌∙◌, Bool, true, false, not, arith, [], ◌∷◌,
  ◌||◌, ◌&&◌, none,
}
use tw_monitor.Common.{inl, inr, ◌⊎◌, Bool-cases, ◌==◌, if◌then◌else◌, ltb, leb, some}
use tw_monitor.Encoding.Macros.{IsU32, narrow, is_negative}
use tw_monitor.Encoding.Narrow
use tw_monitor.Encoding.Wide
use tw_monitor.Encoding.Narrow.{ldr_i_t1, ldr_i_t2_sponly, ldr_lit_t1, ldr_r_t1}
use tw_monitor.Encoding.Wide.{ldr_i_t3, ldr_i_t4, ldr_lit_t2, ldr_r_t2_lsl}
use tw_monitor.Encoding.LoadWide.{encode_ldr_i_t3, encode_ldr_i_t4}
use tw_monitor.Encoding.LoadWide.RoundTrip.{ldr_i_t3_accepts, ldr_i_t4_accepts, ldr_lit_t2_accepts}
use tw_monitor.Encoding.LoadWide.RoundTrip.{
  encode_ldr_i_t3_lem, encode_ldr_i_t4_lem, encode_ldr_lit_t2_lem,
}
use tw_monitor.Encoding.LoadNarrow.{encode_ldr_i_t1, encode_ldr_i_t2_sponly, encode_ldr_lit_t1}
use tw_monitor.Encoding.LoadNarrow.RoundTrip.{
  ldr_i_t1_accepts, ldr_i_t2_sponly_accepts, ldr_lit_t1_accepts,
}
use tw_monitor.Encoding.LoadNarrow.RoundTrip.{
  encode_ldr_i_t1_lem, encode_ldr_i_t2_sponly_lem, encode_ldr_lit_t1_lem,
}
use tw_monitor.Thumb.Spec.{InstructionSpec, WidthSpecifier, tws_narrow, tws_wide}
use tw_monitor.Thumb.Spec.{
  am_offset, am_preindex, am_postindex, tc_none, tm_ldr, ot_reg, ot_immediate, ot_signed_immediate,
  ot_lsl_shift,
}
use tw_monitor.Thumb.Listing.Format.{listed, load_mode}
use tw_monitor.Thumb.Listing.Narrow.{narrow_listing}
use tw_monitor.Thumb.Listing.Wide.{wide_listing}
use tw_monitor.Thumb.Disassemble.Wide.{signed_offset}
use tw_monitor.Thumb.Assemble.{thumb_assemble}
use tw_monitor.Thumb.Assemble.Result.{
  can_be_narrow, can_be_wide, to_bit, fail_invalid_operand, fail_invalid_width, AssembleResult,
  try_encoding, encoder_to_asm_result,
}
use tw_monitor.Thumb.Assemble.Load.{
  assemble_ldr, magnitude, index_of, writeback_of, assemble_ldr_signed, assemble_ldr_narrow,
  is_am_offset,
}
use tw_monitor.Thumb.Assemble.ReadBack.Rules.{ReadsBack, invalid_width, invalid_operand}
use tw_monitor.Thumb.Assemble.ReadBack.Rules.{
  if-ReadsBack, then-ReadsBack, else-ReadsBack, narrow-try,
}
use tw_monitor.Thumb.Assemble.ReadBack.Rules.{wide-encoder, wide-try, wide-try_else}
use native.Mathlib.Nat.{mod-eq_of_lt}

magnitude-back :
    (imm : ℕ) → IsU32 imm → signed_offset (magnitude imm) (to_bit (not (is_negative imm))) ≡ imm
unfolding magnitude signed_offset
magnitude-back imm h = ground arith

magnitude-IsU32 : (imm : ℕ) → IsU32 imm → IsU32 (magnitude imm)
unfolding magnitude
magnitude-IsU32 imm h = ground arith

to_bit-IsU32 : (x : Bool) → IsU32 (to_bit x)
to_bit-IsU32 true = omega arith
to_bit-IsU32 false = omega arith

-- Where the encoding of an unsigned offset does not fit, those that take its sign apart do not either.
signed-fails :
    (spec : InstructionSpec) (rt rn imm : ℕ)
    → rt < 2 ^ 8
    → rn < 2 ^ 8
    → imm < 2 ^ 31
    → can_be_wide spec.width ≡ true
    → is_am_offset spec.addressing_mode ≡ true
    → encode_ldr_i_t3 (record { rt = rt; rn = rn; imm12 = imm }) ≡ none
    → assemble_ldr_signed spec rt rn imm ≡ fail_invalid_operand
unfolding assemble_ldr_signed magnitude ldr_i_t3_accepts ldr_i_t4_accepts ldr_lit_t2_accepts
signed-fails spec rt rn imm ht hn hi w o f =
    let i : ℕ = index_of spec.addressing_mode in
    let b : ℕ = writeback_of spec.addressing_mode in
    ground (
      arith,
      encode_ldr_i_t3_lem (record { rt = rt; rn = rn; imm12 = imm }) (omega arith),
      encode_ldr_i_t4_lem
          (record { rt = rt; index = 1; add = 1; writeback = 0; imm8 = imm; rn = rn })
          (omega arith),
      encode_ldr_lit_t2_lem (record { rt = rt; imm12 = imm; add = 1 }) (omega arith),
    )

signed-narrow :
    (spec : InstructionSpec) (rt rn imm : ℕ)
    → can_be_wide spec.width ≡ false
    → assemble_ldr_signed spec rt rn imm ≡ fail_invalid_width
unfolding assemble_ldr_signed
signed-narrow spec rt rn imm n = rw n

-- Offsets that the 16-bit encoders accept and their fields cannot hold.
abbrev pub in_load_gap : ℕ → ℕ → Bool
in_load_gap rn imm =
    imm % 4 == 0
    && ((ltb rn 8 && leb (2 ^ 7) imm && ltb imm (2 ^ 9))
        || ((rn == 13 || rn == 15) && leb (2 ^ 10) imm && ltb imm (2 ^ 12)))

ldr_i_t1-in_range :
    (rt rn imm w : ℕ)
    → rt < 2 ^ 8
    → rn < 2 ^ 8
    → imm < 2 ^ 31
    → in_load_gap rn imm ≡ false
    → encode_ldr_i_t1 (record { rt = rt % 2 ^ 8; rn = rn % 2 ^ 8; imm7 = imm }) ≡ some (narrow w)
    → imm < 2 ^ 7
unfolding ldr_i_t1_accepts
ldr_i_t1-in_range rt rn imm w ht hn hi g e = ground (
  arith,
  encode_ldr_i_t1_lem (record { rt = rt % 2 ^ 8; rn = rn % 2 ^ 8; imm7 = imm }) (omega arith),
)

ldr_i_t2_sponly-in_range :
    (rt imm w : ℕ)
    → imm < 2 ^ 31
    → in_load_gap 13 imm ≡ false
    → encode_ldr_i_t2_sponly (record { rt = rt % 2 ^ 8; imm10 = imm }) ≡ some (narrow w)
    → imm < 2 ^ 10
unfolding ldr_i_t2_sponly_accepts
ldr_i_t2_sponly-in_range rt imm w hi g e =
    ground
      (arith, encode_ldr_i_t2_sponly_lem (record { rt = rt % 2 ^ 8; imm10 = imm }) (omega arith))

ldr_lit_t1-in_range :
    (rt imm w : ℕ)
    → imm < 2 ^ 31
    → in_load_gap 15 imm ≡ false
    → encode_ldr_lit_t1 (record { rt = rt % 2 ^ 8; imm10 = imm }) ≡ some (narrow w)
    → imm < 2 ^ 10
unfolding ldr_lit_t1_accepts
ldr_lit_t1-in_range rt imm w hi g e =
    ground (arith, encode_ldr_lit_t1_lem (record { rt = rt % 2 ^ 8; imm10 = imm }) (omega arith))

and_false : (x : Bool) → (x && false) ≡ false
and_false true = refl
and_false false = refl

module _ (into : ℕ) (width : WidthSpecifier) (condition : ℕ) where
  -- LDR from a base and a register is disassembled as the same LDR, with a shift of 0 in 32 bits.
  pub ldr_register-ReadsBack :
      (rt rn rm : ℕ)
      → rt < 2 ^ 8
      → rn < 2 ^ 8
      → rm < 2 ^ 8
      → rn ≢ 15
      → ReadsBack into
          (listed tws_narrow tm_ldr tc_none am_offset (ot_reg rt ∷ ot_reg rn ∷ ot_reg rm ∷ []))
          (listed tws_wide tm_ldr tc_none am_offset
            (ot_reg rt ∷ ot_reg rn ∷ ot_reg rm ∷ ot_lsl_shift 0 ∷ []))
          (thumb_assemble
            (listed width tm_ldr condition am_offset (ot_reg rt ∷ ot_reg rn ∷ ot_reg rm ∷ [])))
  unfolding thumb_assemble assemble_ldr listed narrow_listing wide_listing Narrow.encode Wide.encode
  ldr_register-ReadsBack rt rn rm ht hn hm base =
      let short_fields : Narrow.IsParts ldr_r_t1
          (record { rt = rt % 2 ^ 8; rn = rn % 2 ^ 8; rm = rm % 2 ^ 8 }) =
        omega arith in
      let long_fields : Wide.IsParts ldr_r_t2_lsl
          (record { rt = rt % 2 ^ 8; rn = rn % 2 ^ 8; rm = rm % 2 ^ 8; lsl_shift_imm2 = 0 }) =
        omega arith in
      let long =
        if-ReadsBack into (can_be_wide width)
          (wide-encoder into ldr_r_t2_lsl _ long_fields (λ w k. tt) (omega arith)
            (rw (mod-eq_of_lt ht, mod-eq_of_lt hn, mod-eq_of_lt hm)) _ refl)
          invalid_width in
      if-ReadsBack into (can_be_narrow width && (0 == 0))
        (narrow-try into ldr_r_t1 _ short_fields (λ w k. tt) tt
          (rw (mod-eq_of_lt ht, mod-eq_of_lt hn, mod-eq_of_lt hm)) long _ refl)
        long

  -- The encoding with a sign, in each of its addressing modes.
  indexed-ReadsBack :
      (index writeback rt rn imm : ℕ)
      → index < 2
      → writeback < 2
      → (index ≡ 1) ⊎ (writeback ≡ 1)
      → rt < 2 ^ 8
      → rn < 2 ^ 8
      → IsU32 imm
      → {short : InstructionSpec}
      → ReadsBack into short
          (listed tws_wide tm_ldr tc_none
            (load_mode index writeback)
            (ot_reg rt ∷ ot_reg rn ∷ ot_signed_immediate imm ∷ []))
          (encoder_to_asm_result (
            encode_ldr_i_t4 (record {
              rt = rt % 2 ^ 8;
              index = index;
              add = to_bit (not (is_negative imm));
              writeback = writeback;
              imm8 = magnitude imm;
              rn = rn % 2 ^ 8;
            })))
  unfolding wide_listing Wide.encode
  indexed-ReadsBack index writeback rt rn imm i2 w2 moved ht hn hi =
      let fields : Wide.IsParts ldr_i_t4 (record {
        rt = rt % 2 ^ 8;
        index = index;
        add = to_bit (not (is_negative imm));
        writeback = writeback;
        imm8 = magnitude imm;
        rn = rn % 2 ^ 8;
      }) =
        record {
          rt_u32 = omega arith;
          index_u32 = omega arith;
          add_u32 = to_bit-IsU32 _;
          writeback_u32 = omega arith;
          imm8_u32 = magnitude-IsU32 imm hi;
          rn_u32 = omega arith;
        } in
      wide-encoder into ldr_i_t4 _ fields (λ w k. tt) moved
        (rw (mod-eq_of_lt ht, mod-eq_of_lt hn, magnitude-back imm hi)) _ refl

  -- LDR before its base is moved, by an offset of either sign, is disassembled as the same LDR.
  pub ldr_preindex-ReadsBack :
      (rt rn imm : ℕ)
      → rt < 2 ^ 8
      → rn < 2 ^ 8
      → IsU32 imm
      → ReadsBack into
          (listed tws_narrow tm_ldr tc_none am_preindex
            (ot_reg rt ∷ ot_reg rn ∷ ot_signed_immediate imm ∷ []))
          (listed tws_wide tm_ldr tc_none am_preindex
            (ot_reg rt ∷ ot_reg rn ∷ ot_signed_immediate imm ∷ []))
          (thumb_assemble (
            listed width tm_ldr condition am_preindex
              (ot_reg rt ∷ ot_reg rn ∷ ot_signed_immediate imm ∷ [])))
  unfolding thumb_assemble assemble_ldr listed load_mode
  ldr_preindex-ReadsBack rt rn imm ht hn hi =
      if-ReadsBack into (not (can_be_wide width)) invalid_width (
        rw (and_false (rn % 2 ^ 8 == 15))
          (indexed-ReadsBack 1 1 rt rn imm (omega arith) (omega arith) (inl refl) ht hn hi))

  -- LDR after which its base is moved, by an offset of either sign, is disassembled as the same LDR.
  pub ldr_postindex-ReadsBack :
      (rt rn imm : ℕ)
      → rt < 2 ^ 8
      → rn < 2 ^ 8
      → IsU32 imm
      → ReadsBack into
          (listed tws_narrow tm_ldr tc_none am_postindex
            (ot_reg rt ∷ ot_reg rn ∷ ot_signed_immediate imm ∷ []))
          (listed tws_wide tm_ldr tc_none am_postindex
            (ot_reg rt ∷ ot_reg rn ∷ ot_signed_immediate imm ∷ []))
          (thumb_assemble (
            listed width tm_ldr condition am_postindex
              (ot_reg rt ∷ ot_reg rn ∷ ot_signed_immediate imm ∷ [])))
  unfolding thumb_assemble assemble_ldr listed load_mode
  ldr_postindex-ReadsBack rt rn imm ht hn hi =
      if-ReadsBack into (not (can_be_wide width)) invalid_width (
        rw (and_false (rn % 2 ^ 8 == 15))
          (indexed-ReadsBack 0 1 rt rn imm (omega arith) (omega arith) (inr refl) ht hn hi))

  below-ReadsBack :
      (rt rn imm : ℕ)
      → rt < 2 ^ 8
      → rn < 2 ^ 8
      → 2 ^ 31 ≤ imm
      → IsU32 imm
      → (rn ≢ 15) ⊎ (2 ^ 32 - 2 ^ 11 < imm)
      → {short : InstructionSpec}
      → ReadsBack into short
          (listed tws_wide tm_ldr tc_none am_offset
            (ot_reg rt ∷ ot_reg rn ∷ ot_signed_immediate imm ∷ []))
          (assemble_ldr_signed
            (listed width tm_ldr condition am_offset
              (ot_reg rt ∷ ot_reg rn ∷ ot_signed_immediate imm ∷ []))
            (rt % 2 ^ 8)
            (rn % 2 ^ 8)
            imm)
  unfolding assemble_ldr_signed listed load_mode wide_listing Wide.encode
  below-ReadsBack rt rn imm ht hn neg hi near =
      let negative : to_bit (not (is_negative imm)) ≡ 0 = ground arith in
      let fields : Wide.IsParts ldr_lit_t2 (record {
        rt = rt % 2 ^ 8;
        imm12 = magnitude imm;
        add = to_bit (not (is_negative imm));
      }) =
        record {
          rt_u32 = omega arith;
          imm12_u32 = magnitude-IsU32 imm hi;
          add_u32 = to_bit-IsU32 _;
        } in
      let pc : rn % 2 ^ 8 == 15 ≡ true → rn ≡ 15 = λ same. ground arith in
      let close : rn % 2 ^ 8 == 15 ≡ true → magnitude imm < 2 ^ 11 =
        λ same. unfold magnitude in ground arith in
      let indexed =
        indexed-ReadsBack 1 0 rt rn imm (omega arith) (omega arith) (inl refl) ht hn hi in
      if-ReadsBack into (not (can_be_wide width)) invalid_width
        (elim (Bool-cases (rn % 2 ^ 8 == 15)) [
          | inl same ↦ rw same (
              wide-try into ldr_lit_t2 _ fields (λ w k. tt) (negative, close same)
                (rw (mod-eq_of_lt ht, magnitude-back imm hi, pc same)) indexed _ refl)
          | inr differ ↦ rw differ indexed
        ])

  -- LDR at a negative offset is disassembled as the same LDR; from the PC it must be above -2^11.
  pub ldr_below-ReadsBack :
      (rt rn imm : ℕ)
      → rt < 2 ^ 8
      → rn < 2 ^ 8
      → 2 ^ 31 ≤ imm
      → IsU32 imm
      → (rn ≢ 15) ⊎ (2 ^ 32 - 2 ^ 11 < imm)
      → ReadsBack into
          (listed tws_narrow tm_ldr tc_none am_offset
            (ot_reg rt ∷ ot_reg rn ∷ ot_signed_immediate imm ∷ []))
          (listed tws_wide tm_ldr tc_none am_offset
            (ot_reg rt ∷ ot_reg rn ∷ ot_signed_immediate imm ∷ []))
          (thumb_assemble (
            listed width tm_ldr condition am_offset
              (ot_reg rt ∷ ot_reg rn ∷ ot_signed_immediate imm ∷ [])))
  unfolding thumb_assemble assemble_ldr listed
  ldr_below-ReadsBack rt rn imm ht hn neg hi near =
      let below : not (is_negative imm) ≡ false = ground arith in
      else-ReadsBack into (not (is_negative imm)) _ below
        (below-ReadsBack rt rn imm ht hn neg hi near)

  above_long-ReadsBack :
      (rt rn imm : ℕ)
      → rt < 2 ^ 8
      → rn < 2 ^ 8
      → imm < 2 ^ 31
      → {short : InstructionSpec} → (last : AssembleResult)
      → (can_be_wide width ≡ false → last ≡ fail_invalid_width)
      → (can_be_wide width ≡ true
          → encode_ldr_i_t3 (record { rt = rt % 2 ^ 8; rn = rn % 2 ^ 8; imm12 = imm }) ≡ none
          → last ≡ fail_invalid_operand)
      → ReadsBack into short
          (listed tws_wide tm_ldr tc_none am_offset (ot_reg rt ∷ ot_reg rn ∷ ot_immediate imm ∷ []))
          (if can_be_wide width
            then try_encoding
                (encode_ldr_i_t3 (record { rt = rt % 2 ^ 8; imm12 = imm; rn = rn % 2 ^ 8 }))
                last
            else last)
  unfolding wide_listing Wide.encode
  above_long-ReadsBack rt rn imm ht hn pos last n f =
      let fields : Wide.IsParts ldr_i_t3
          (record { rt = rt % 2 ^ 8; imm12 = imm; rn = rn % 2 ^ 8 }) =
        omega arith in
      elim (Bool-cases (can_be_wide width)) [
        | inl w ↦ rw w (
            wide-try_else into ldr_i_t3 _ fields (λ w k. tt) tt
              (rw (mod-eq_of_lt ht, mod-eq_of_lt hn)) _ refl (λ k. rw (f w k) invalid_operand))
        | inr w ↦ rw (w, n w) invalid_width
      ]

  above_narrow-ReadsBack :
      (rt rn imm : ℕ)
      → rt < 2 ^ 8
      → rn < 2 ^ 8
      → imm < 2 ^ 31
      → in_load_gap rn imm ≡ false
      → {long : InstructionSpec} → (next : AssembleResult)
      → ReadsBack into
          (listed tws_narrow tm_ldr tc_none am_offset
            (ot_reg rt ∷ ot_reg rn ∷ ot_immediate imm ∷ []))
          long
          next
      → ReadsBack into
          (listed tws_narrow tm_ldr tc_none am_offset
            (ot_reg rt ∷ ot_reg rn ∷ ot_immediate imm ∷ []))
          long
          (assemble_ldr_narrow (rt % 2 ^ 8) (rn % 2 ^ 8) imm next)
  unfolding assemble_ldr_narrow narrow_listing Narrow.encode
  above_narrow-ReadsBack rt rn imm ht hn pos gap next h =
      let fields : Narrow.IsParts ldr_i_t1
          (record { imm7 = imm; rn = rn % 2 ^ 8; rt = rt % 2 ^ 8 }) =
        omega arith in
      let sp_fields : Narrow.IsParts ldr_i_t2_sponly (record { rt = rt % 2 ^ 8; imm10 = imm }) =
        omega arith in
      let pc_fields : Narrow.IsParts ldr_lit_t1 (record { rt = rt % 2 ^ 8; imm10 = imm }) =
        omega arith in
      let low =
        narrow-try into ldr_i_t1 _ fields (λ w k. ldr_i_t1-in_range rt rn imm w ht hn pos gap k) tt
          (rw (mod-eq_of_lt ht, mod-eq_of_lt hn)) h _ refl in
      elim (Bool-cases (rn % 2 ^ 8 == 13)) [
        | inl same ↦
            let sp : rn ≡ 13 = ground arith in
            rw same (
              narrow-try into ldr_i_t2_sponly _ sp_fields
                (λ w k.
                  ldr_i_t2_sponly-in_range rt imm w pos (ap (λ r. in_load_gap r imm) (sym sp) ∙ gap)
                    k)
                tt (rw (mod-eq_of_lt ht, sp)) low _ refl)
        | inr differ ↦ rw differ (elim (Bool-cases (rn % 2 ^ 8 == 15)) [
          | inl same ↦
              let pc : rn ≡ 15 = ground arith in
              rw same (
                narrow-try into ldr_lit_t1 _ pc_fields
                  (λ w k.
                    ldr_lit_t1-in_range rt imm w pos (ap (λ r. in_load_gap r imm) (sym pc) ∙ gap) k)
                  tt (rw (mod-eq_of_lt ht, pc)) low _ refl)
          | inr other ↦ rw other low
        ])
      ]

  -- LDR at an offset that is not negative, and not in the gap, is disassembled as the same LDR, its
  -- offset unsigned.
  pub ldr_above-ReadsBack :
      (rt rn imm : ℕ)
      → rt < 2 ^ 8
      → rn < 2 ^ 8
      → imm < 2 ^ 31
      → in_load_gap rn imm ≡ false
      → ReadsBack into
          (listed tws_narrow tm_ldr tc_none am_offset
            (ot_reg rt ∷ ot_reg rn ∷ ot_immediate imm ∷ []))
          (listed tws_wide tm_ldr tc_none am_offset (ot_reg rt ∷ ot_reg rn ∷ ot_immediate imm ∷ []))
          (thumb_assemble (
            listed width tm_ldr condition am_offset
              (ot_reg rt ∷ ot_reg rn ∷ ot_signed_immediate imm ∷ [])))
  unfolding thumb_assemble assemble_ldr listed
  ldr_above-ReadsBack rt rn imm ht hn pos gap =
      let above : not (is_negative imm) ≡ true = ground arith in
      let spec : InstructionSpec =
        listed width tm_ldr condition am_offset
          (ot_reg rt ∷ ot_reg rn ∷ ot_signed_immediate imm ∷ []) in
      let long =
        above_long-ReadsBack rt rn imm ht hn pos _
          (signed-narrow spec (rt % 2 ^ 8) (rn % 2 ^ 8) imm)
          (λ w.
            signed-fails spec (rt % 2 ^ 8) (rn % 2 ^ 8) imm (omega arith) (omega arith) pos w
              refl) in
      then-ReadsBack into (not (is_negative imm)) _ above (
        if-ReadsBack into (can_be_narrow width)
          (above_narrow-ReadsBack rt rn imm ht hn pos gap _ long) long)
