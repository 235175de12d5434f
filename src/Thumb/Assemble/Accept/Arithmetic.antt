-- ===== src/Thumb/Assemble/Accept/Arithmetic.antt =====
-- When ADD, SUB, CMP and their forms of monitor/thumb_asm.c assemble, and to how many bits.
use tw_monitor.Common.{ℕ, ◌%◌, ◌^◌, ◌<◌, ◌≡◌, arith, [], ◌∷◌, ◌||◌, ◌&&◌, not, false, ltb}
use tw_monitor.Common.{◌==◌}
use tw_monitor.Encoding.Macros.{IsU32}
use tw_monitor.Thumb.Spec.{WidthSpecifier, AddressingMode, ot_reg, ot_immediate}
use tw_monitor.Thumb.Spec.{tm_add, tm_adds, tm_addw, tm_cmp, tm_sub, tm_subs, tm_subw}
use tw_monitor.Thumb.Listing.Format.{listed}
use tw_monitor.Thumb.Assemble.{thumb_assemble}
use tw_monitor.Thumb.Assemble.Arithmetic.{
  assemble_add, assemble_adds, assemble_addw, assemble_cmp, assemble_sub, assemble_subs,
  assemble_subw,
}
use tw_monitor.Thumb.Assemble.Accept.Width.{stored, chosen}
use tw_monitor.Encoding.Add.RoundTrip.{add_r_t2_accepts}
use tw_monitor.Encoding.Add.RoundTrip.{adds_i_t1_accepts}
use tw_monitor.Encoding.Add.RoundTrip.{adds_i_t2_accepts}
use tw_monitor.Encoding.Add.RoundTrip.{adds_r_t1_accepts}
use tw_monitor.Encoding.Add.RoundTrip.{addw_i_t4_accepts}
use tw_monitor.Encoding.Add.RoundTrip.{encode_add_r_t2_lem}
use tw_monitor.Encoding.Add.RoundTrip.{encode_adds_i_t1_lem}
use tw_monitor.Encoding.Add.RoundTrip.{encode_adds_i_t2_lem}
use tw_monitor.Encoding.Add.RoundTrip.{encode_adds_r_t1_lem}
use tw_monitor.Encoding.Add.RoundTrip.{encode_addw_i_t4_lem}
use tw_monitor.Encoding.Compare.RoundTrip.{cmp_i_t1_accepts}
use tw_monitor.Encoding.Compare.RoundTrip.{cmp_r_t1_accepts}
use tw_monitor.Encoding.Compare.RoundTrip.{cmp_r_t2_accepts}
use tw_monitor.Encoding.Compare.RoundTrip.{encode_cmp_i_t1_lem}
use tw_monitor.Encoding.Compare.RoundTrip.{encode_cmp_r_t1_lem}
use tw_monitor.Encoding.Compare.RoundTrip.{encode_cmp_r_t2_lem}
use tw_monitor.Encoding.Sub.RoundTrip.{encode_subs_i_t1_lem}
use tw_monitor.Encoding.Sub.RoundTrip.{encode_subs_i_t2_lem}
use tw_monitor.Encoding.Sub.RoundTrip.{encode_subs_r_t1_lem}
use tw_monitor.Encoding.Sub.RoundTrip.{encode_subw_i_t4_lem}
use tw_monitor.Encoding.Sub.RoundTrip.{subs_i_t1_accepts}
use tw_monitor.Encoding.Sub.RoundTrip.{subs_i_t2_accepts}
use tw_monitor.Encoding.Sub.RoundTrip.{subs_r_t1_accepts}
use tw_monitor.Encoding.Sub.RoundTrip.{subw_i_t4_accepts}

module _ (width : WidthSpecifier) (condition : ℕ) (mode : AddressingMode) where
  pub addw-stored :
      (rd rn imm : ℕ)
      → rd < 2 ^ 8
      → rn < 2 ^ 8
      → IsU32 imm
      → stored (
          thumb_assemble
            (listed width tm_addw condition mode (ot_reg rd ∷ ot_reg rn ∷ ot_immediate imm ∷ [])))
        ≡ chosen width
            (false)
            (not (rn == 13 || rn == 15) && ltb rd (2 ^ 4) && ltb rn (2 ^ 4) && ltb imm (2 ^ 12))
  unfolding thumb_assemble assemble_addw listed addw_i_t4_accepts
  addw-stored rd rn imm h_rd h_rn h_imm = ground (
    arith,
    encode_addw_i_t4_lem (record { rd = rd % 2 ^ 8; rn = rn % 2 ^ 8; imm12 = imm }) (omega (arith)),
  )

  pub add_immediate-stored :
      (rd rn imm : ℕ)
      → rd < 2 ^ 8
      → rn < 2 ^ 8
      → IsU32 imm
      → stored (
          thumb_assemble
            (listed width tm_add condition mode (ot_reg rd ∷ ot_reg rn ∷ ot_immediate imm ∷ [])))
        ≡ chosen width
            (false)
            (not (rn == 13 || rn == 15) && ltb rd (2 ^ 4) && ltb rn (2 ^ 4) && ltb imm (2 ^ 12))
  unfolding thumb_assemble assemble_add listed addw_i_t4_accepts
  add_immediate-stored rd rn imm h_rd h_rn h_imm = ground (
    arith,
    encode_addw_i_t4_lem (record { rd = rd % 2 ^ 8; rn = rn % 2 ^ 8; imm12 = imm }) (omega (arith)),
  )

  pub adds_immediate-stored :
      (rd rn imm : ℕ)
      → rd < 2 ^ 8
      → rn < 2 ^ 8
      → IsU32 imm
      → stored (
          thumb_assemble
            (listed width tm_adds condition mode (ot_reg rd ∷ ot_reg rn ∷ ot_immediate imm ∷ [])))
        ≡ chosen width
            (ltb rd (2 ^ 3) && ltb rn (2 ^ 3) && (ltb imm (2 ^ 3) || (rd == rn && ltb imm (2 ^ 8))))
            (false)
  unfolding thumb_assemble assemble_adds listed adds_i_t1_accepts adds_i_t2_accepts
  adds_immediate-stored rd rn imm h_rd h_rn h_imm = ground (
    arith,
    encode_adds_i_t1_lem (record { imm3 = imm; rn = rn % 2 ^ 8; rd = rd % 2 ^ 8 }) (omega (arith)),
    encode_adds_i_t2_lem (record { rdn = rd % 2 ^ 8; imm8 = imm }) (omega (arith)),
  )

  pub adds_register-stored :
      (rd rn rm : ℕ)
      → rd < 2 ^ 8
      → rn < 2 ^ 8
      → rm < 2 ^ 8
      → stored (
          thumb_assemble
            (listed width tm_adds condition mode (ot_reg rd ∷ ot_reg rn ∷ ot_reg rm ∷ [])))
        ≡ chosen width (ltb rd (2 ^ 3) && ltb rn (2 ^ 3) && ltb rm (2 ^ 3)) (false)
  unfolding thumb_assemble assemble_adds listed adds_r_t1_accepts
  adds_register-stored rd rn rm h_rd h_rn h_rm = ground (
    arith,
    encode_adds_r_t1_lem (record { rm = rm % 2 ^ 8; rn = rn % 2 ^ 8; rd = rd % 2 ^ 8 })
        (omega (arith)),
  )

  pub subw-stored :
      (rd rn imm : ℕ)
      → rd < 2 ^ 8
      → rn < 2 ^ 8
      → IsU32 imm
      → stored (
          thumb_assemble
            (listed width tm_subw condition mode (ot_reg rd ∷ ot_reg rn ∷ ot_immediate imm ∷ [])))
        ≡ chosen width
            (false)
            (not (rn == 13 || rn == 15) && ltb rd (2 ^ 4) && ltb rn (2 ^ 4) && ltb imm (2 ^ 12))
  unfolding thumb_assemble assemble_subw listed subw_i_t4_accepts
  subw-stored rd rn imm h_rd h_rn h_imm = ground (
    arith,
    encode_subw_i_t4_lem (record { rd = rd % 2 ^ 8; rn = rn % 2 ^ 8; imm12 = imm }) (omega (arith)),
  )

  pub sub_immediate-stored :
      (rd rn imm : ℕ)
      → rd < 2 ^ 8
      → rn < 2 ^ 8
      → IsU32 imm
      → stored (
          thumb_assemble
            (listed width tm_sub condition mode (ot_reg rd ∷ ot_reg rn ∷ ot_immediate imm ∷ [])))
        ≡ chosen width
            (false)
            (not (rn == 13 || rn == 15) && ltb rd (2 ^ 4) && ltb rn (2 ^ 4) && ltb imm (2 ^ 12))
  unfolding thumb_assemble assemble_sub listed subw_i_t4_accepts
  sub_immediate-stored rd rn imm h_rd h_rn h_imm = ground (
    arith,
    encode_subw_i_t4_lem (record { rd = rd % 2 ^ 8; rn = rn % 2 ^ 8; imm12 = imm }) (omega (arith)),
  )

  pub subs_immediate-stored :
      (rd rn imm : ℕ)
      → rd < 2 ^ 8
      → rn < 2 ^ 8
      → IsU32 imm
      → stored (
          thumb_assemble
            (listed width tm_subs condition mode (ot_reg rd ∷ ot_reg rn ∷ ot_immediate imm ∷ [])))
        ≡ chosen width
            (ltb rd (2 ^ 3) && ltb rn (2 ^ 3) && (ltb imm (2 ^ 3) || (rd == rn && ltb imm (2 ^ 8))))
            (false)
  unfolding thumb_assemble assemble_subs listed subs_i_t1_accepts subs_i_t2_accepts
  subs_immediate-stored rd rn imm h_rd h_rn h_imm = ground (
    arith,
    encode_subs_i_t1_lem (record { imm3 = imm; rn = rn % 2 ^ 8; rd = rd % 2 ^ 8 }) (omega (arith)),
    encode_subs_i_t2_lem (record { rdn = rd % 2 ^ 8; imm8 = imm }) (omega (arith)),
  )

  pub subs_register-stored :
      (rd rn rm : ℕ)
      → rd < 2 ^ 8
      → rn < 2 ^ 8
      → rm < 2 ^ 8
      → stored (
          thumb_assemble
            (listed width tm_subs condition mode (ot_reg rd ∷ ot_reg rn ∷ ot_reg rm ∷ [])))
        ≡ chosen width (ltb rd (2 ^ 3) && ltb rn (2 ^ 3) && ltb rm (2 ^ 3)) (false)
  unfolding thumb_assemble assemble_subs listed subs_r_t1_accepts
  subs_register-stored rd rn rm h_rd h_rn h_rm = ground (
    arith,
    encode_subs_r_t1_lem (record { rm = rm % 2 ^ 8; rn = rn % 2 ^ 8; rd = rd % 2 ^ 8 })
        (omega (arith)),
  )

  pub add_register-stored :
      (rd rn rm : ℕ)
      → rd < 2 ^ 8
      → rn < 2 ^ 8
      → rm < 2 ^ 8
      → stored (
          thumb_assemble
            (listed width tm_add condition mode (ot_reg rd ∷ ot_reg rn ∷ ot_reg rm ∷ [])))
        ≡ chosen width (rd == rn && ltb rd (2 ^ 4) && ltb rm (2 ^ 4)) (false)
  unfolding thumb_assemble assemble_add listed add_r_t2_accepts
  add_register-stored rd rn rm h_rd h_rn h_rm =
      ground
        (arith, encode_add_r_t2_lem (record { rdn = rd % 2 ^ 8; rm = rm % 2 ^ 8 }) (omega (arith)))

  pub cmp_immediate-stored :
      (rn imm : ℕ)
      → rn < 2 ^ 8
      → IsU32 imm
      → stored
          (thumb_assemble (listed width tm_cmp condition mode (ot_reg rn ∷ ot_immediate imm ∷ [])))
        ≡ chosen width (ltb rn (2 ^ 3) && ltb imm (2 ^ 8)) (false)
  unfolding thumb_assemble assemble_cmp listed cmp_i_t1_accepts
  cmp_immediate-stored rn imm h_rn h_imm =
      ground (arith, encode_cmp_i_t1_lem (record { rn = rn % 2 ^ 8; imm8 = imm }) (omega (arith)))

  pub cmp_register-stored :
      (rn rm : ℕ)
      → rn < 2 ^ 8
      → rm < 2 ^ 8
      → stored (thumb_assemble (listed width tm_cmp condition mode (ot_reg rn ∷ ot_reg rm ∷ [])))
        ≡ chosen width (ltb rn (2 ^ 4) && ltb rm (2 ^ 4)) (false)
  unfolding thumb_assemble assemble_cmp listed cmp_r_t1_accepts cmp_r_t2_accepts
  cmp_register-stored rn rm h_rn h_rm = ground (
    arith,
    encode_cmp_r_t1_lem (record { rm = rm % 2 ^ 8; rn = rn % 2 ^ 8 }) (omega (arith)),
    encode_cmp_r_t2_lem (record { rn = rn % 2 ^ 8; rm = rm % 2 ^ 8 }) (omega (arith)),
  )
