-- ===== src/Thumb/Assemble/Forms/Load.antt =====
-- LDR of monitor/thumb_asm.c, of an unshifted register or an offset: what it assembles to and what that
-- is disassembled as.
use tw_monitor.Common.{
  ℕ, ◌-◌, ◌%◌, ◌^◌, ◌<◌, ◌≤◌, ◌≡◌, ◌≢◌, ◌⊎◌, [], ◌∷◌, ◌||◌, ◌&&◌, Bool, false, ltb,
}
use tw_monitor.Common.{◌==◌}
use tw_monitor.Encoding.Macros.{IsU32}
use tw_monitor.Thumb.Spec.{WidthSpecifier, tws_narrow, tws_wide, tc_none, InstructionSpec}
use tw_monitor.Thumb.Spec.{am_offset, am_preindex, am_postindex, ot_lsl_shift}
use tw_monitor.Thumb.Spec.{ot_reg, ot_immediate, ot_signed_immediate, tm_ldr}
use tw_monitor.Thumb.Listing.Format.{listed}
use tw_monitor.Thumb.Assemble.{thumb_assemble}
use tw_monitor.Thumb.Assemble.ReadBack.Rules.{ReadsBack}
use tw_monitor.Thumb.Assemble.ReadBack.Load.{
  ldr_register-ReadsBack, ldr_above-ReadsBack, in_load_gap,
}
use tw_monitor.Thumb.Assemble.ReadBack.Load.{
  ldr_below-ReadsBack, ldr_preindex-ReadsBack, ldr_postindex-ReadsBack,
}
use tw_monitor.Thumb.Assemble.Accept.Width.{stored, chosen}
use tw_monitor.Thumb.Assemble.Accept.Load.{ldr_register-stored, ldr_above-stored, ldr_below-stored}
use tw_monitor.Thumb.Assemble.Accept.Load.{ldr_preindex-stored, ldr_postindex-stored}

-- A destination, a base, and a register or an offset: one that is not negative, one that is, and one
-- by which the base is moved before or after the load.
pub data LoadForm : Type 0 where
  from_register from_above from_below preindexed postindexed : ℕ → ℕ → ℕ → LoadForm

-- LDR as `thumb_assemble` is given it.
unfoldable pub written : WidthSpecifier → ℕ → LoadForm → InstructionSpec
written width condition (from_register rt rn rm) =
    listed width tm_ldr condition am_offset (ot_reg rt ∷ ot_reg rn ∷ ot_reg rm ∷ [])
written width condition (from_above rt rn imm) =
    listed width tm_ldr condition am_offset (ot_reg rt ∷ ot_reg rn ∷ ot_signed_immediate imm ∷ [])
written width condition (from_below rt rn imm) =
    listed width tm_ldr condition am_offset (ot_reg rt ∷ ot_reg rn ∷ ot_signed_immediate imm ∷ [])
written width condition (preindexed rt rn imm) =
    listed width tm_ldr condition am_preindex (ot_reg rt ∷ ot_reg rn ∷ ot_signed_immediate imm ∷ [])
written width condition (postindexed rt rn imm) =
    listed width tm_ldr condition am_postindex
      (ot_reg rt ∷ ot_reg rn ∷ ot_signed_immediate imm ∷ [])

-- LDR as `thumb_disassemble` lists it from 16 bits: the encodings for an offset have it unsigned.
unfoldable pub listing_short : LoadForm → InstructionSpec
listing_short (from_register rt rn rm) =
    listed tws_narrow tm_ldr tc_none am_offset (ot_reg rt ∷ ot_reg rn ∷ ot_reg rm ∷ [])
listing_short (from_above rt rn imm) =
    listed tws_narrow tm_ldr tc_none am_offset (ot_reg rt ∷ ot_reg rn ∷ ot_immediate imm ∷ [])
listing_short (from_below rt rn imm) =
    listed tws_narrow tm_ldr tc_none am_offset
      (ot_reg rt ∷ ot_reg rn ∷ ot_signed_immediate imm ∷ [])
listing_short (preindexed rt rn imm) =
    listed tws_narrow tm_ldr tc_none am_preindex
      (ot_reg rt ∷ ot_reg rn ∷ ot_signed_immediate imm ∷ [])
listing_short (postindexed rt rn imm) =
    listed tws_narrow tm_ldr tc_none am_postindex
      (ot_reg rt ∷ ot_reg rn ∷ ot_signed_immediate imm ∷ [])

-- LDR as it is listed from 32 bits: a register has a shift.
unfoldable pub listing_long : LoadForm → InstructionSpec
listing_long (from_register rt rn rm) =
    listed tws_wide tm_ldr tc_none am_offset
      (ot_reg rt ∷ ot_reg rn ∷ ot_reg rm ∷ ot_lsl_shift 0 ∷ [])
listing_long (from_above rt rn imm) =
    listed tws_wide tm_ldr tc_none am_offset (ot_reg rt ∷ ot_reg rn ∷ ot_immediate imm ∷ [])
listing_long (from_below rt rn imm) =
    listed tws_wide tm_ldr tc_none am_offset (ot_reg rt ∷ ot_reg rn ∷ ot_signed_immediate imm ∷ [])
listing_long (preindexed rt rn imm) =
    listed tws_wide tm_ldr tc_none am_preindex
      (ot_reg rt ∷ ot_reg rn ∷ ot_signed_immediate imm ∷ [])
listing_long (postindexed rt rn imm) =
    listed tws_wide tm_ldr tc_none am_postindex
      (ot_reg rt ∷ ot_reg rn ∷ ot_signed_immediate imm ∷ [])

-- Registers have 8 bits, offsets 32.
unfoldable pub IsLoadForm : LoadForm → Type 0
IsLoadForm (from_register rt rn rm) = (rt < 2 ^ 8) × (rn < 2 ^ 8) × (rm < 2 ^ 8)
IsLoadForm (from_above rt rn imm) = (rt < 2 ^ 8) × (rn < 2 ^ 8) × (imm < 2 ^ 31)
IsLoadForm (from_below rt rn imm) = (rt < 2 ^ 8) × (rn < 2 ^ 8) × (2 ^ 31 ≤ imm) × IsU32 imm
IsLoadForm (preindexed rt rn imm) = (rt < 2 ^ 8) × (rn < 2 ^ 8) × IsU32 imm
IsLoadForm (postindexed rt rn imm) = (rt < 2 ^ 8) × (rn < 2 ^ 8) × IsU32 imm

-- No register is added to the PC, no offset is one that a 16-bit encoder accepts and its field cannot
-- hold, and none from the PC is -2^11 or below, which is listed as an LDR of another encoding.
unfoldable pub IsListedBack : LoadForm → Type 0
IsListedBack (from_register rt rn rm) = rn ≢ 15
IsListedBack (from_above rt rn imm) = in_load_gap rn imm ≡ false
IsListedBack (from_below rt rn imm) = (rn ≢ 15) ⊎ (2 ^ 32 - 2 ^ 11 < imm)
IsListedBack (preindexed rt rn imm) = Unit
IsListedBack (postindexed rt rn imm) = Unit

-- The operands that the 16-bit encodings have room for.
unfoldable pub fits_short : LoadForm → Bool
fits_short (from_register rt rn rm) = ltb rt (2 ^ 3) && ltb rn (2 ^ 3) && ltb rm (2 ^ 3)
fits_short (from_above rt rn imm) =
    imm % 4 == 0
    && ltb rt (2 ^ 3)
    && ((ltb rn (2 ^ 3) && ltb imm (2 ^ 9)) || ((rn == 13 || rn == 15) && ltb imm (2 ^ 12)))
fits_short (from_below rt rn imm) = false
fits_short (preindexed rt rn imm) = false
fits_short (postindexed rt rn imm) = false

-- The operands that the 32-bit encodings have room for.
unfoldable pub fits_long : LoadForm → Bool
fits_long (from_register rt rn rm) = ltb rt (2 ^ 4) && ltb rn (2 ^ 4) && ltb rm (2 ^ 4)
fits_long (from_above rt rn imm) = ltb rt (2 ^ 4) && ltb rn (2 ^ 4) && ltb imm (2 ^ 12)
fits_long (from_below rt rn imm) =
    ltb rt (2 ^ 4)
    && ltb rn (2 ^ 4)
    && (ltb (2 ^ 32 - imm) (2 ^ 8) || (rn == 15 && ltb (2 ^ 32 - imm) (2 ^ 12)))
fits_long (preindexed rt rn imm) =
    ltb rt (2 ^ 4) && ltb rn (2 ^ 4) && (ltb imm (2 ^ 8) || ltb (2 ^ 32 - 2 ^ 8) imm)
fits_long (postindexed rt rn imm) =
    ltb rt (2 ^ 4) && ltb rn (2 ^ 4) && (ltb imm (2 ^ 8) || ltb (2 ^ 32 - 2 ^ 8) imm)

module _ (into : ℕ) (width : WidthSpecifier) (condition : ℕ) where
  -- LDR of an unshifted register or a 32-bit offset, with 8-bit registers, no register added to the PC,
  -- and its offset outside the gaps and not too far below the PC, assembles exactly when its operands
  -- fit an encoding that the width allows, the short one first; what it stores then is disassembled as
  -- the same load in that width.
  pub load-ReadsBack :
      (f : LoadForm)
      → IsLoadForm f
      → IsListedBack f
      → ReadsBack into
          (listing_short f)
          (listing_long f)
          (thumb_assemble (written width condition f))
        × (stored (thumb_assemble (written width condition f))
            ≡ chosen width (fits_short f) (fits_long f))
  unfolding written listing_short listing_long IsLoadForm IsListedBack fits_short fits_long
  load-ReadsBack (from_register rt rn rm) h g = (
    (ldr_register-ReadsBack into width condition rt rn rm h.0 h.1 h.2 g),
    (ldr_register-stored width condition rt rn rm h.0 h.1 h.2),
  )
  load-ReadsBack (from_above rt rn imm) h g = (
    (ldr_above-ReadsBack into width condition rt rn imm h.0 h.1 h.2 g),
    (ldr_above-stored width condition rt rn imm h.0 h.1 h.2),
  )
  load-ReadsBack (from_below rt rn imm) h g = (
    (ldr_below-ReadsBack into width condition rt rn imm h.0 h.1 h.2 h.3 g),
    (ldr_below-stored width condition rt rn imm h.0 h.1 h.2 h.3),
  )
  load-ReadsBack (preindexed rt rn imm) h g = (
    (ldr_preindex-ReadsBack into width condition rt rn imm h.0 h.1 h.2),
    (ldr_preindex-stored width condition rt rn imm h.0 h.1 h.2),
  )
  load-ReadsBack (postindexed rt rn imm) h g = (
    (ldr_postindex-ReadsBack into width condition rt rn imm h.0 h.1 h.2),
    (ldr_postindex-stored width condition rt rn imm h.0 h.1 h.2),
  )
