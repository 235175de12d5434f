-- ===== src/Thumb/Assemble/ReadBack/Arithmetic.antt =====
-- ADD, SUB, CMP and their forms of monitor/thumb_asm.c, assembled and disassembled.
use tw_monitor.Common.{ℕ, ◌%◌, ◌^◌, ◌<◌, refl, arith, [], ◌∷◌, ◌||◌}
use tw_monitor.Common.{inl, inr, Bool-cases, ◌==◌}
use tw_monitor.Encoding.Macros.{IsU32}
use tw_monitor.Encoding.Narrow
use tw_monitor.Encoding.Wide
use tw_monitor.Encoding.Narrow.{
  adds_i_t1, adds_i_t2, adds_r_t1, add_r_t2, subs_i_t1, subs_i_t2, subs_r_t1, cmp_i_t1, cmp_r_t1,
  cmp_r_t2,
}
use tw_monitor.Encoding.Wide.{addw_i_t4, subw_i_t4}
use tw_monitor.Thumb.Spec.{WidthSpecifier, tws_narrow, tws_wide, AddressingMode}
use tw_monitor.Thumb.Spec.{
  am_none, tc_none, tm_add, tm_adds, tm_addw, tm_sub, tm_subs, tm_subw, tm_cmp, ot_reg,
  ot_immediate,
}
use tw_monitor.Thumb.Listing.Format.{listed}
use tw_monitor.Thumb.Listing.Narrow.{narrow_listing}
use tw_monitor.Thumb.Listing.Wide.{wide_listing}
use tw_monitor.Thumb.Assemble.{thumb_assemble}
use tw_monitor.Thumb.Assemble.Result.{can_be_narrow, can_be_wide}
use tw_monitor.Thumb.Assemble.Arithmetic.{
  assemble_add, assemble_adds, assemble_addw, assemble_sub, assemble_subs, assemble_subw,
  assemble_cmp,
}
use tw_monitor.Thumb.Assemble.ReadBack.Rules.{ReadsBack, invalid_width, invalid_operand}
use tw_monitor.Thumb.Assemble.ReadBack.Rules.{if-ReadsBack, narrow-encoder, narrow-try}
use tw_monitor.Thumb.Assemble.ReadBack.Rules.{wide-encoder}
use native.Mathlib.Nat.{mod-eq_of_lt}

module _ (into : ℕ) (width : WidthSpecifier) (condition : ℕ) (mode : AddressingMode) where
  -- ADDW is disassembled as the same ADDW.
  pub addw-ReadsBack :
      (rd rn imm : ℕ)
      → rd < 2 ^ 8
      → rn < 2 ^ 8
      → IsU32 imm
      → ReadsBack into
          (listed tws_narrow tm_addw tc_none am_none
            (ot_reg rd ∷ ot_reg rn ∷ ot_immediate imm ∷ []))
          (listed tws_wide tm_addw tc_none am_none (ot_reg rd ∷ ot_reg rn ∷ ot_immediate imm ∷ []))
          (thumb_assemble
            (listed width tm_addw condition mode (ot_reg rd ∷ ot_reg rn ∷ ot_immediate imm ∷ [])))
  unfolding thumb_assemble assemble_addw listed narrow_listing wide_listing Narrow.encode
      Wide.encode
  addw-ReadsBack rd rn imm hd hn hi =
      let fields : Wide.IsParts addw_i_t4
          (record { rd = rd % 2 ^ 8; rn = rn % 2 ^ 8; imm12 = imm }) =
        omega arith in
      (if-ReadsBack into (can_be_wide width)
        (if-ReadsBack into (rn % 2 ^ 8 == 13 || rn % 2 ^ 8 == 15) invalid_operand (
          wide-encoder into addw_i_t4 _ fields (λ w h. tt) tt
            (rw (mod-eq_of_lt hd, mod-eq_of_lt hn)) _ refl))
        invalid_width)

  -- ADD of an immediate is disassembled as the ADDW that it falls back to.
  pub add_immediate-ReadsBack :
      (rd rn imm : ℕ)
      → rd < 2 ^ 8
      → rn < 2 ^ 8
      → IsU32 imm
      → ReadsBack into
          (listed tws_narrow tm_addw tc_none am_none
            (ot_reg rd ∷ ot_reg rn ∷ ot_immediate imm ∷ []))
          (listed tws_wide tm_addw tc_none am_none (ot_reg rd ∷ ot_reg rn ∷ ot_immediate imm ∷ []))
          (thumb_assemble
            (listed width tm_add condition mode (ot_reg rd ∷ ot_reg rn ∷ ot_immediate imm ∷ [])))
  unfolding thumb_assemble assemble_add listed narrow_listing wide_listing Narrow.encode Wide.encode
  add_immediate-ReadsBack rd rn imm hd hn hi =
      let fields : Wide.IsParts addw_i_t4
          (record { rd = rd % 2 ^ 8; rn = rn % 2 ^ 8; imm12 = imm }) =
        omega arith in
      if-ReadsBack into (rn % 2 ^ 8 == 13 || rn % 2 ^ 8 == 15) invalid_operand (
        if-ReadsBack into (can_be_wide width)
          (if-ReadsBack into (rn % 2 ^ 8 == 13 || rn % 2 ^ 8 == 15) invalid_operand (
            wide-encoder into addw_i_t4 _ fields (λ w h. tt) tt
              (rw (mod-eq_of_lt hd, mod-eq_of_lt hn)) _ refl))
          invalid_width)

  -- ADDS of an immediate is disassembled as the same ADDS, from either of its encodings.
  pub adds_immediate-ReadsBack :
      (rd rn imm : ℕ)
      → rd < 2 ^ 8
      → rn < 2 ^ 8
      → IsU32 imm
      → ReadsBack into
          (listed tws_narrow tm_adds tc_none am_none
            (ot_reg rd ∷ ot_reg rn ∷ ot_immediate imm ∷ []))
          (listed tws_wide tm_adds tc_none am_none (ot_reg rd ∷ ot_reg rn ∷ ot_immediate imm ∷ []))
          (thumb_assemble
            (listed width tm_adds condition mode (ot_reg rd ∷ ot_reg rn ∷ ot_immediate imm ∷ [])))
  unfolding thumb_assemble assemble_adds listed narrow_listing wide_listing Narrow.encode
      Wide.encode
  adds_immediate-ReadsBack rd rn imm hd hn hi =
      let three : Narrow.IsParts adds_i_t1
          (record { imm3 = imm; rn = rn % 2 ^ 8; rd = rd % 2 ^ 8 }) =
        omega arith in
      let two : Narrow.IsParts adds_i_t2 (record { rdn = rd % 2 ^ 8; imm8 = imm }) = omega arith in
      if-ReadsBack into (can_be_narrow width)
        (narrow-try into adds_i_t1 _ three (λ w h. tt) tt (rw (mod-eq_of_lt hd, mod-eq_of_lt hn))
          (elim (Bool-cases (rd % 2 ^ 8 == rn % 2 ^ 8)) [
            | inl same ↦
                rw same (narrow-encoder into adds_i_t2 _ two (λ w h. tt) tt (ground arith) _ refl)
            | inr differ ↦ rw differ invalid_width
          ])
          _ refl)
        invalid_width

  -- ADDS of registers is disassembled as the same ADDS.
  pub adds_register-ReadsBack :
      (rd rn rm : ℕ)
      → rd < 2 ^ 8
      → rn < 2 ^ 8
      → rm < 2 ^ 8
      → ReadsBack into
          (listed tws_narrow tm_adds tc_none am_none (ot_reg rd ∷ ot_reg rn ∷ ot_reg rm ∷ []))
          (listed tws_wide tm_adds tc_none am_none (ot_reg rd ∷ ot_reg rn ∷ ot_reg rm ∷ []))
          (thumb_assemble
            (listed width tm_adds condition mode (ot_reg rd ∷ ot_reg rn ∷ ot_reg rm ∷ [])))
  unfolding thumb_assemble assemble_adds listed narrow_listing wide_listing Narrow.encode
      Wide.encode
  adds_register-ReadsBack rd rn rm hd hn hm =
      let fields : Narrow.IsParts adds_r_t1
          (record { rm = rm % 2 ^ 8; rn = rn % 2 ^ 8; rd = rd % 2 ^ 8 }) =
        omega arith in
      if-ReadsBack into (can_be_narrow width)
        (narrow-encoder into adds_r_t1 _ fields (λ w h. tt) tt
          (rw (mod-eq_of_lt hd, mod-eq_of_lt hn, mod-eq_of_lt hm)) _ refl)
        invalid_width

  -- SUBW is disassembled as the same SUBW.
  pub subw-ReadsBack :
      (rd rn imm : ℕ)
      → rd < 2 ^ 8
      → rn < 2 ^ 8
      → IsU32 imm
      → ReadsBack into
          (listed tws_narrow tm_subw tc_none am_none
            (ot_reg rd ∷ ot_reg rn ∷ ot_immediate imm ∷ []))
          (listed tws_wide tm_subw tc_none am_none (ot_reg rd ∷ ot_reg rn ∷ ot_immediate imm ∷ []))
          (thumb_assemble
            (listed width tm_subw condition mode (ot_reg rd ∷ ot_reg rn ∷ ot_immediate imm ∷ [])))
  unfolding thumb_assemble assemble_subw listed narrow_listing wide_listing Narrow.encode
      Wide.encode
  subw-ReadsBack rd rn imm hd hn hi =
      let fields : Wide.IsParts subw_i_t4
          (record { rd = rd % 2 ^ 8; rn = rn % 2 ^ 8; imm12 = imm }) =
        omega arith in
      (if-ReadsBack into (can_be_wide width)
        (if-ReadsBack into (rn % 2 ^ 8 == 13 || rn % 2 ^ 8 == 15) invalid_operand (
          wide-encoder into subw_i_t4 _ fields (λ w h. tt) tt
            (rw (mod-eq_of_lt hd, mod-eq_of_lt hn)) _ refl))
        invalid_width)

  -- SUB of an immediate is disassembled as the SUBW that it falls back to.
  pub sub_immediate-ReadsBack :
      (rd rn imm : ℕ)
      → rd < 2 ^ 8
      → rn < 2 ^ 8
      → IsU32 imm
      → ReadsBack into
          (listed tws_narrow tm_subw tc_none am_none
            (ot_reg rd ∷ ot_reg rn ∷ ot_immediate imm ∷ []))
          (listed tws_wide tm_subw tc_none am_none (ot_reg rd ∷ ot_reg rn ∷ ot_immediate imm ∷ []))
          (thumb_assemble
            (listed width tm_sub condition mode (ot_reg rd ∷ ot_reg rn ∷ ot_immediate imm ∷ [])))
  unfolding thumb_assemble assemble_sub listed narrow_listing wide_listing Narrow.encode Wide.encode
  sub_immediate-ReadsBack rd rn imm hd hn hi =
      let fields : Wide.IsParts subw_i_t4
          (record { rd = rd % 2 ^ 8; rn = rn % 2 ^ 8; imm12 = imm }) =
        omega arith in
      if-ReadsBack into (rn % 2 ^ 8 == 13 || rn % 2 ^ 8 == 15) invalid_operand (
        if-ReadsBack into (can_be_wide width)
          (if-ReadsBack into (rn % 2 ^ 8 == 13 || rn % 2 ^ 8 == 15) invalid_operand (
            wide-encoder into subw_i_t4 _ fields (λ w h. tt) tt
              (rw (mod-eq_of_lt hd, mod-eq_of_lt hn)) _ refl))
          invalid_width)

  -- SUBS of an immediate is disassembled as the same SUBS, from either of its encodings.
  pub subs_immediate-ReadsBack :
      (rd rn imm : ℕ)
      → rd < 2 ^ 8
      → rn < 2 ^ 8
      → IsU32 imm
      → ReadsBack into
          (listed tws_narrow tm_subs tc_none am_none
            (ot_reg rd ∷ ot_reg rn ∷ ot_immediate imm ∷ []))
          (listed tws_wide tm_subs tc_none am_none (ot_reg rd ∷ ot_reg rn ∷ ot_immediate imm ∷ []))
          (thumb_assemble
            (listed width tm_subs condition mode (ot_reg rd ∷ ot_reg rn ∷ ot_immediate imm ∷ [])))
  unfolding thumb_assemble assemble_subs listed narrow_listing wide_listing Narrow.encode
      Wide.encode
  subs_immediate-ReadsBack rd rn imm hd hn hi =
      let three : Narrow.IsParts subs_i_t1
          (record { imm3 = imm; rn = rn % 2 ^ 8; rd = rd % 2 ^ 8 }) =
        omega arith in
      let two : Narrow.IsParts subs_i_t2 (record { rdn = rd % 2 ^ 8; imm8 = imm }) = omega arith in
      if-ReadsBack into (can_be_narrow width)
        (narrow-try into subs_i_t1 _ three (λ w h. tt) tt (rw (mod-eq_of_lt hd, mod-eq_of_lt hn))
          (elim (Bool-cases (rd % 2 ^ 8 == rn % 2 ^ 8)) [
            | inl same ↦
                rw same (narrow-encoder into subs_i_t2 _ two (λ w h. tt) tt (ground arith) _ refl)
            | inr differ ↦ rw differ invalid_width
          ])
          _ refl)
        invalid_width

  -- SUBS of registers is disassembled as the same SUBS.
  pub subs_register-ReadsBack :
      (rd rn rm : ℕ)
      → rd < 2 ^ 8
      → rn < 2 ^ 8
      → rm < 2 ^ 8
      → ReadsBack into
          (listed tws_narrow tm_subs tc_none am_none (ot_reg rd ∷ ot_reg rn ∷ ot_reg rm ∷ []))
          (listed tws_wide tm_subs tc_none am_none (ot_reg rd ∷ ot_reg rn ∷ ot_reg rm ∷ []))
          (thumb_assemble
            (listed width tm_subs condition mode (ot_reg rd ∷ ot_reg rn ∷ ot_reg rm ∷ [])))
  unfolding thumb_assemble assemble_subs listed narrow_listing wide_listing Narrow.encode
      Wide.encode
  subs_register-ReadsBack rd rn rm hd hn hm =
      let fields : Narrow.IsParts subs_r_t1
          (record { rm = rm % 2 ^ 8; rn = rn % 2 ^ 8; rd = rd % 2 ^ 8 }) =
        omega arith in
      if-ReadsBack into (can_be_narrow width)
        (narrow-encoder into subs_r_t1 _ fields (λ w h. tt) tt
          (rw (mod-eq_of_lt hd, mod-eq_of_lt hn, mod-eq_of_lt hm)) _ refl)
        invalid_width

  -- ADD of registers is disassembled as the same ADD.
  pub add_register-ReadsBack :
      (rd rn rm : ℕ)
      → rd < 2 ^ 8
      → rn < 2 ^ 8
      → rm < 2 ^ 8
      → ReadsBack into
          (listed tws_narrow tm_add tc_none am_none (ot_reg rd ∷ ot_reg rn ∷ ot_reg rm ∷ []))
          (listed tws_wide tm_add tc_none am_none (ot_reg rd ∷ ot_reg rn ∷ ot_reg rm ∷ []))
          (thumb_assemble
            (listed width tm_add condition mode (ot_reg rd ∷ ot_reg rn ∷ ot_reg rm ∷ [])))
  unfolding thumb_assemble assemble_add listed narrow_listing wide_listing Narrow.encode Wide.encode
  add_register-ReadsBack rd rn rm hd hn hm =
      let fields : Narrow.IsParts add_r_t2 (record { rdn = rd % 2 ^ 8; rm = rm % 2 ^ 8 }) =
        omega arith in
      if-ReadsBack into (can_be_narrow width)
        (elim (Bool-cases (rd % 2 ^ 8 == rn % 2 ^ 8)) [
          | inl same ↦
              rw same (narrow-encoder into add_r_t2 _ fields (λ w h. tt) tt (ground arith) _ refl)
          | inr differ ↦ rw differ invalid_width
        ])
        invalid_width

  -- CMP with an immediate is disassembled as the same CMP.
  pub cmp_immediate-ReadsBack :
      (rn imm : ℕ)
      → rn < 2 ^ 8
      → IsU32 imm
      → ReadsBack into
          (listed tws_narrow tm_cmp tc_none am_none (ot_reg rn ∷ ot_immediate imm ∷ []))
          (listed tws_wide tm_cmp tc_none am_none (ot_reg rn ∷ ot_immediate imm ∷ []))
          (thumb_assemble (listed width tm_cmp condition mode (ot_reg rn ∷ ot_immediate imm ∷ [])))
  unfolding thumb_assemble assemble_cmp listed narrow_listing wide_listing Narrow.encode Wide.encode
  cmp_immediate-ReadsBack rn imm hn hi =
      let fields : Narrow.IsParts cmp_i_t1 (record { rn = rn % 2 ^ 8; imm8 = imm }) = omega arith in
      if-ReadsBack into (can_be_narrow width)
        (narrow-encoder into cmp_i_t1 _ fields (λ w h. tt) tt (rw (mod-eq_of_lt hn)) _ refl)
        invalid_width

  -- CMP of registers is disassembled as the same CMP, from either of its encodings.
  pub cmp_register-ReadsBack :
      (rn rm : ℕ)
      → rn < 2 ^ 8
      → rm < 2 ^ 8
      → ReadsBack into
          (listed tws_narrow tm_cmp tc_none am_none (ot_reg rn ∷ ot_reg rm ∷ []))
          (listed tws_wide tm_cmp tc_none am_none (ot_reg rn ∷ ot_reg rm ∷ []))
          (thumb_assemble (listed width tm_cmp condition mode (ot_reg rn ∷ ot_reg rm ∷ [])))
  unfolding thumb_assemble assemble_cmp listed narrow_listing wide_listing Narrow.encode Wide.encode
  cmp_register-ReadsBack rn rm hn hm =
      let low : Narrow.IsParts cmp_r_t1 (record { rm = rm % 2 ^ 8; rn = rn % 2 ^ 8 }) =
        omega arith in
      let any : Narrow.IsParts cmp_r_t2 (record { rn = rn % 2 ^ 8; rm = rm % 2 ^ 8 }) =
        omega arith in
      if-ReadsBack into (can_be_narrow width)
        (narrow-try into cmp_r_t1 _ low (λ w h. tt) tt (rw (mod-eq_of_lt hn, mod-eq_of_lt hm))
          (narrow-encoder into cmp_r_t2 _ any (λ w h. tt) tt (rw (mod-eq_of_lt hn, mod-eq_of_lt hm))
            _ refl)
          _ refl)
        invalid_width
