-- ===== src/Thumb/Assemble/Accept/Load.antt =====
-- When LDR of monitor/thumb_asm.c assemble, and to how many bits.
use tw_monitor.Common.{ℕ, ◌-◌, ◌%◌, ◌^◌, ◌<◌, ◌≤◌, ◌≡◌, arith, [], ◌∷◌, ◌||◌, ◌&&◌, false, ltb}
use tw_monitor.Common.{◌==◌}
use tw_monitor.Encoding.Macros.{IsU32}
use tw_monitor.Thumb.Spec.{WidthSpecifier, ot_reg, ot_signed_immediate}
use tw_monitor.Thumb.Spec.{am_offset, am_preindex, am_postindex}
use tw_monitor.Thumb.Assemble.Load.{magnitude}
use tw_monitor.Thumb.Spec.{tm_ldr}
use tw_monitor.Thumb.Listing.Format.{listed}
use tw_monitor.Thumb.Assemble.{thumb_assemble}
use tw_monitor.Thumb.Assemble.Load.{assemble_ldr}
use tw_monitor.Thumb.Assemble.Accept.Width.{stored, chosen}
use tw_monitor.Encoding.LoadNarrow.RoundTrip.{encode_ldr_i_t1_lem}
use tw_monitor.Encoding.LoadNarrow.RoundTrip.{encode_ldr_i_t2_sponly_lem}
use tw_monitor.Encoding.LoadNarrow.RoundTrip.{encode_ldr_lit_t1_lem}
use tw_monitor.Encoding.LoadNarrow.RoundTrip.{encode_ldr_r_t1_lem}
use tw_monitor.Encoding.LoadNarrow.RoundTrip.{ldr_i_t1_accepts}
use tw_monitor.Encoding.LoadNarrow.RoundTrip.{ldr_i_t2_sponly_accepts}
use tw_monitor.Encoding.LoadNarrow.RoundTrip.{ldr_lit_t1_accepts}
use tw_monitor.Encoding.LoadNarrow.RoundTrip.{ldr_r_t1_accepts}
use tw_monitor.Encoding.LoadWide.RoundTrip.{encode_ldr_i_t3_lem}
use tw_monitor.Encoding.LoadWide.RoundTrip.{encode_ldr_i_t4_lem}
use tw_monitor.Encoding.LoadWide.RoundTrip.{encode_ldr_lit_t2_lem}
use tw_monitor.Encoding.LoadWide.RoundTrip.{encode_ldr_r_t2_lsl_lem}
use tw_monitor.Encoding.LoadWide.RoundTrip.{ldr_i_t3_accepts}
use tw_monitor.Encoding.LoadWide.RoundTrip.{ldr_i_t4_accepts}
use tw_monitor.Encoding.LoadWide.RoundTrip.{ldr_lit_t2_accepts}
use tw_monitor.Encoding.LoadWide.RoundTrip.{ldr_r_t2_lsl_accepts}

module _ (width : WidthSpecifier) (condition : ℕ) where
  pub ldr_register-stored :
      (rt rn rm : ℕ)
      → rt < 2 ^ 8
      → rn < 2 ^ 8
      → rm < 2 ^ 8
      → stored (
          thumb_assemble
            (listed width tm_ldr condition am_offset (ot_reg rt ∷ ot_reg rn ∷ ot_reg rm ∷ [])))
        ≡ chosen width
            (ltb rt (2 ^ 3) && ltb rn (2 ^ 3) && ltb rm (2 ^ 3))
            (ltb rt (2 ^ 4) && ltb rn (2 ^ 4) && ltb rm (2 ^ 4))
  unfolding thumb_assemble assemble_ldr listed magnitude ldr_r_t1_accepts ldr_r_t2_lsl_accepts
  ldr_register-stored rt rn rm h_rt h_rn h_rm = ground (
    arith,
    encode_ldr_r_t1_lem (record { rt = rt % 2 ^ 8; rn = rn % 2 ^ 8; rm = rm % 2 ^ 8 })
        (omega (arith)),
    encode_ldr_r_t2_lsl_lem
        (record { rt = rt % 2 ^ 8; rn = rn % 2 ^ 8; rm = rm % 2 ^ 8; lsl_shift_imm2 = 0 })
        (omega (arith)),
  )

  pub ldr_above-stored :
      (rt rn imm : ℕ)
      → rt < 2 ^ 8
      → rn < 2 ^ 8
      → imm < 2 ^ 31
      → stored (
          thumb_assemble (
            listed width tm_ldr condition am_offset
              (ot_reg rt ∷ ot_reg rn ∷ ot_signed_immediate imm ∷ [])))
        ≡ chosen width
            (imm % 4 == 0
              && ltb rt (2 ^ 3)
              && ((ltb rn (2 ^ 3) && ltb imm (2 ^ 9))
                  || ((rn == 13 || rn == 15) && ltb imm (2 ^ 12))))
            (ltb rt (2 ^ 4) && ltb rn (2 ^ 4) && ltb imm (2 ^ 12))
  unfolding thumb_assemble assemble_ldr listed magnitude ldr_i_t1_accepts ldr_i_t2_sponly_accepts
      ldr_lit_t1_accepts ldr_i_t3_accepts ldr_lit_t2_accepts ldr_i_t4_accepts
  ldr_above-stored rt rn imm h_rt h_rn h_imm = ground (
    arith,
    encode_ldr_i_t1_lem (record { rt = rt % 2 ^ 8; rn = rn % 2 ^ 8; imm7 = imm }) (omega (arith)),
    encode_ldr_i_t2_sponly_lem (record { rt = rt % 2 ^ 8; imm10 = imm }) (omega (arith)),
    encode_ldr_lit_t1_lem (record { rt = rt % 2 ^ 8; imm10 = imm }) (omega (arith)),
    encode_ldr_i_t3_lem (record { rt = rt % 2 ^ 8; rn = rn % 2 ^ 8; imm12 = imm }) (omega (arith)),
    encode_ldr_lit_t2_lem (record { rt = rt % 2 ^ 8; imm12 = imm; add = 1 }) (omega (arith)),
    encode_ldr_i_t4_lem
        (record { rt = rt % 2 ^ 8; index = 1; add = 1; writeback = 0; imm8 = imm; rn = rn % 2 ^ 8 })
        (omega (arith)),
  )

  pub ldr_below-stored :
      (rt rn imm : ℕ)
      → rt < 2 ^ 8
      → rn < 2 ^ 8
      → 2 ^ 31 ≤ imm
      → IsU32 imm
      → stored (
          thumb_assemble (
            listed width tm_ldr condition am_offset
              (ot_reg rt ∷ ot_reg rn ∷ ot_signed_immediate imm ∷ [])))
        ≡ chosen width (false) (
            ltb rt (2 ^ 4)
            && ltb rn (2 ^ 4)
            && (ltb (2 ^ 32 - imm) (2 ^ 8) || (rn == 15 && ltb (2 ^ 32 - imm) (2 ^ 12))))
  unfolding thumb_assemble assemble_ldr listed magnitude ldr_lit_t2_accepts ldr_i_t4_accepts
  ldr_below-stored rt rn imm h_rt h_rn lo hi = ground (
    arith,
    encode_ldr_lit_t2_lem (record { rt = rt % 2 ^ 8; imm12 = 2 ^ 32 - imm; add = 0 })
        (omega (arith)),
    encode_ldr_i_t4_lem
        (record {
          rt = rt % 2 ^ 8;
          index = 1;
          add = 0;
          writeback = 0;
          imm8 = 2 ^ 32 - imm;
          rn = rn % 2 ^ 8;
        })
        (omega (arith)),
  )

  pub ldr_preindex-stored :
      (rt rn imm : ℕ)
      → rt < 2 ^ 8
      → rn < 2 ^ 8
      → IsU32 imm
      → stored (
          thumb_assemble (
            listed width tm_ldr condition am_preindex
              (ot_reg rt ∷ ot_reg rn ∷ ot_signed_immediate imm ∷ [])))
        ≡ chosen width
            (false)
            (ltb rt (2 ^ 4) && ltb rn (2 ^ 4) && (ltb imm (2 ^ 8) || ltb (2 ^ 32 - 2 ^ 8) imm))
  unfolding thumb_assemble assemble_ldr listed magnitude ldr_i_t4_accepts
  ldr_preindex-stored rt rn imm h_rt h_rn h_imm = ground (
    arith,
    encode_ldr_i_t4_lem
        (record {
          rt = rt % 2 ^ 8;
          index = 1;
          add = 0;
          writeback = 1;
          imm8 = (2 ^ 32 - imm) % 2 ^ 32;
          rn = rn % 2 ^ 8;
        })
        (omega (arith)),
    encode_ldr_i_t4_lem
        (record { rt = rt % 2 ^ 8; index = 1; add = 1; writeback = 1; imm8 = imm; rn = rn % 2 ^ 8 })
        (omega (arith)),
  )

  pub ldr_postindex-stored :
      (rt rn imm : ℕ)
      → rt < 2 ^ 8
      → rn < 2 ^ 8
      → IsU32 imm
      → stored (
          thumb_assemble (
            listed width tm_ldr condition am_postindex
              (ot_reg rt ∷ ot_reg rn ∷ ot_signed_immediate imm ∷ [])))
        ≡ chosen width
            (false)
            (ltb rt (2 ^ 4) && ltb rn (2 ^ 4) && (ltb imm (2 ^ 8) || ltb (2 ^ 32 - 2 ^ 8) imm))
  unfolding thumb_assemble assemble_ldr listed magnitude ldr_i_t4_accepts
  ldr_postindex-stored rt rn imm h_rt h_rn h_imm = ground (
    arith,
    encode_ldr_i_t4_lem
        (record {
          rt = rt % 2 ^ 8;
          index = 0;
          add = 0;
          writeback = 1;
          imm8 = (2 ^ 32 - imm) % 2 ^ 32;
          rn = rn % 2 ^ 8;
        })
        (omega (arith)),
    encode_ldr_i_t4_lem
        (record { rt = rt % 2 ^ 8; index = 0; add = 1; writeback = 1; imm8 = imm; rn = rn % 2 ^ 8 })
        (omega (arith)),
  )
