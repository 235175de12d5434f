-- ===== src/Thumb/Assemble/ReadBack/Move.antt =====
-- MOV, MOVS and MOVW of monitor/thumb_asm.c, assembled and disassembled.
use tw_monitor.Common.{ℕ, ◌%◌, ◌^◌, ◌<◌, refl, arith, [], ◌∷◌, ◌||◌}
use tw_monitor.Common.{◌==◌}
use tw_monitor.Encoding.Macros.{IsU32}
use tw_monitor.Encoding.Narrow
use tw_monitor.Encoding.Wide
use tw_monitor.Encoding.Narrow.{movs_i_t1, mov_r_t1, movs_r_t2_noit}
use tw_monitor.Encoding.Wide.{movw_i_t3, mov_r_t3_opt_s}
use tw_monitor.Thumb.Spec.{WidthSpecifier, tws_narrow, tws_wide, AddressingMode}
use tw_monitor.Thumb.Spec.{am_none, tc_none, tm_mov, tm_movs, tm_movw, ot_reg, ot_immediate}
use tw_monitor.Thumb.Listing.Format.{listed}
use tw_monitor.Thumb.Listing.Narrow.{narrow_listing}
use tw_monitor.Thumb.Listing.Wide.{wide_listing}
use tw_monitor.Thumb.Assemble.{thumb_assemble}
use tw_monitor.Thumb.Assemble.Result.{can_be_narrow, can_be_wide}
use tw_monitor.Thumb.Assemble.Move.{assemble_mov, assemble_movs, assemble_movw}
use tw_monitor.Thumb.Assemble.ReadBack.Rules.{ReadsBack, invalid_width, invalid_operand}
use tw_monitor.Thumb.Assemble.ReadBack.Rules.{if-ReadsBack, narrow-try}
use tw_monitor.Thumb.Assemble.ReadBack.Rules.{wide-encoder}
use native.Mathlib.Nat.{mod-eq_of_lt}

module _ (into : ℕ) (width : WidthSpecifier) (condition : ℕ) (mode : AddressingMode) where
  -- MOV of a register, in either width, is disassembled as the same MOV.
  pub mov_register-ReadsBack :
      (rd rm : ℕ)
      → rd < 2 ^ 8
      → rm < 2 ^ 8
      → ReadsBack into
          (listed tws_narrow tm_mov tc_none am_none (ot_reg rd ∷ ot_reg rm ∷ []))
          (listed tws_wide tm_mov tc_none am_none (ot_reg rd ∷ ot_reg rm ∷ []))
          (thumb_assemble (listed width tm_mov condition mode (ot_reg rd ∷ ot_reg rm ∷ [])))
  unfolding thumb_assemble assemble_mov listed narrow_listing wide_listing Narrow.encode Wide.encode
  mov_register-ReadsBack rd rm hd hm =
      let wide_fields : Wide.IsParts mov_r_t3_opt_s
          (record { rd = rd % 2 ^ 8; rm = rm % 2 ^ 8; setflags = 0 }) =
        omega arith in
      let narrow_fields : Narrow.IsParts mov_r_t1 (record { rd = rd % 2 ^ 8; rm = rm % 2 ^ 8 }) =
        omega arith in
      let long =
        if-ReadsBack into (can_be_wide width)
          (wide-encoder into mov_r_t3_opt_s _ wide_fields (λ w h. tt) tt
            (rw (mod-eq_of_lt hd, mod-eq_of_lt hm)) _ refl)
          invalid_width in
      if-ReadsBack into (can_be_narrow width)
        (narrow-try into mov_r_t1 _ narrow_fields (λ w h. tt) tt
          (rw (mod-eq_of_lt hd, mod-eq_of_lt hm)) long _ refl)
        long

  -- MOVS of a register, in either width, is disassembled as the same MOVS.
  pub movs_register-ReadsBack :
      (rd rm : ℕ)
      → rd < 2 ^ 8
      → rm < 2 ^ 8
      → ReadsBack into
          (listed tws_narrow tm_movs tc_none am_none (ot_reg rd ∷ ot_reg rm ∷ []))
          (listed tws_wide tm_movs tc_none am_none (ot_reg rd ∷ ot_reg rm ∷ []))
          (thumb_assemble (listed width tm_movs condition mode (ot_reg rd ∷ ot_reg rm ∷ [])))
  unfolding thumb_assemble assemble_movs listed narrow_listing wide_listing Narrow.encode
      Wide.encode
  movs_register-ReadsBack rd rm hd hm =
      let wide_fields : Wide.IsParts mov_r_t3_opt_s
          (record { rd = rd % 2 ^ 8; rm = rm % 2 ^ 8; setflags = 1 }) =
        omega arith in
      let narrow_fields : Narrow.IsParts movs_r_t2_noit
          (record { rm = rm % 2 ^ 8; rd = rd % 2 ^ 8 }) =
        omega arith in
      let long =
        if-ReadsBack into (can_be_wide width)
          (wide-encoder into mov_r_t3_opt_s _ wide_fields (λ w h. tt) tt
            (rw (mod-eq_of_lt hd, mod-eq_of_lt hm)) _ refl)
          invalid_width in
      if-ReadsBack into (can_be_narrow width)
        (narrow-try into movs_r_t2_noit _ narrow_fields (λ w h. tt) tt
          (rw (mod-eq_of_lt hd, mod-eq_of_lt hm)) long _ refl)
        long

  -- MOVW is disassembled as the same MOVW.
  pub movw-ReadsBack :
      (rd imm : ℕ)
      → IsU32 rd
      → IsU32 imm
      → ReadsBack into
          (listed tws_narrow tm_movw tc_none am_none (ot_reg rd ∷ ot_immediate imm ∷ []))
          (listed tws_wide tm_movw tc_none am_none (ot_reg rd ∷ ot_immediate imm ∷ []))
          (thumb_assemble (listed width tm_movw condition mode (ot_reg rd ∷ ot_immediate imm ∷ [])))
  unfolding thumb_assemble assemble_movw listed narrow_listing wide_listing Narrow.encode
      Wide.encode
  movw-ReadsBack rd imm hd hi =
      let fields : Wide.IsParts movw_i_t3 (record { rd = rd; imm16 = imm }) = omega arith in
      if-ReadsBack into (can_be_wide width)
        (if-ReadsBack into (rd == 15 || rd == 13) invalid_operand
          (wide-encoder into movw_i_t3 _ fields (λ w h. tt) tt refl _ refl))
        invalid_width

  -- MOV of an immediate is disassembled as the MOVW that it falls back to.
  pub mov_immediate-ReadsBack :
      (rd imm : ℕ)
      → IsU32 rd
      → IsU32 imm
      → ReadsBack into
          (listed tws_narrow tm_movw tc_none am_none (ot_reg rd ∷ ot_immediate imm ∷ []))
          (listed tws_wide tm_movw tc_none am_none (ot_reg rd ∷ ot_immediate imm ∷ []))
          (thumb_assemble (listed width tm_mov condition mode (ot_reg rd ∷ ot_immediate imm ∷ [])))
  unfolding thumb_assemble assemble_mov listed narrow_listing wide_listing Narrow.encode Wide.encode
  mov_immediate-ReadsBack rd imm hd hi =
      let fields : Wide.IsParts movw_i_t3 (record { rd = rd; imm16 = imm }) = omega arith in
      if-ReadsBack into (rd % 2 ^ 8 == 15 || rd % 2 ^ 8 == 13) invalid_operand (
        if-ReadsBack into (can_be_wide width)
          (if-ReadsBack into (rd == 15 || rd == 13) invalid_operand
            (wide-encoder into movw_i_t3 _ fields (λ w h. tt) tt refl _ refl))
          invalid_width)

  -- MOVS of an immediate is disassembled as the same MOVS.
  pub movs_immediate-ReadsBack :
      (rd imm : ℕ)
      → rd < 2 ^ 8
      → IsU32 imm
      → ReadsBack into
          (listed tws_narrow tm_movs tc_none am_none (ot_reg rd ∷ ot_immediate imm ∷ []))
          (listed tws_wide tm_movs tc_none am_none (ot_reg rd ∷ ot_immediate imm ∷ []))
          (thumb_assemble (listed width tm_movs condition mode (ot_reg rd ∷ ot_immediate imm ∷ [])))
  unfolding thumb_assemble assemble_movs listed narrow_listing wide_listing Narrow.encode
      Wide.encode
  movs_immediate-ReadsBack rd imm hd hi =
      let fields : Narrow.IsParts movs_i_t1 (record { rd = rd % 2 ^ 8; imm8 = imm }) =
        omega arith in
      if-ReadsBack into (rd % 2 ^ 8 == 15 || rd % 2 ^ 8 == 13) invalid_operand (
        if-ReadsBack into (can_be_narrow width)
          (narrow-try into movs_i_t1 _ fields (λ w h. tt) tt (rw (mod-eq_of_lt hd)) invalid_width _
            refl)
          invalid_width)
