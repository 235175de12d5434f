-- ===== src/Thumb/Assemble/Forms/Arithmetic.antt =====
-- ADD, SUB, CMP and their forms of monitor/thumb_asm.c: every way to write them, what they assemble to and what that is
-- disassembled as.
use tw_monitor.Common.{ℕ, ◌^◌, ◌<◌, ◌≡◌, [], ◌∷◌, ◌||◌, ◌&&◌, Bool, not, false, ltb}
use tw_monitor.Common.{◌==◌}
use tw_monitor.Encoding.Macros.{IsU32}
use tw_monitor.Thumb.Spec.{
  WidthSpecifier, tws_narrow, tws_wide, AddressingMode, am_none, tc_none, InstructionSpec,
}
use tw_monitor.Thumb.Spec.{
  ot_reg, ot_immediate, tm_add, tm_adds, tm_addw, tm_cmp, tm_sub, tm_subs, tm_subw,
}
use tw_monitor.Thumb.Listing.Format.{listed}
use tw_monitor.Thumb.Assemble.{thumb_assemble}
use tw_monitor.Thumb.Assemble.ReadBack.Rules.{ReadsBack}
use tw_monitor.Thumb.Assemble.ReadBack.Arithmetic.{
  addw-ReadsBack, add_immediate-ReadsBack, adds_immediate-ReadsBack, adds_register-ReadsBack,
  subw-ReadsBack, sub_immediate-ReadsBack, subs_immediate-ReadsBack, subs_register-ReadsBack,
  add_register-ReadsBack, cmp_immediate-ReadsBack, cmp_register-ReadsBack,
}
use tw_monitor.Thumb.Assemble.Accept.Width.{stored, chosen}
use tw_monitor.Thumb.Assemble.Accept.Arithmetic.{
  addw-stored, add_immediate-stored, adds_immediate-stored, adds_register-stored, subw-stored,
  sub_immediate-stored, subs_immediate-stored, subs_register-stored, add_register-stored,
  cmp_immediate-stored, cmp_register-stored,
}

pub data ArithmeticForm : Type 0 where
  cmp_immediate cmp_register : ℕ → ℕ → ArithmeticForm
  addw add_immediate adds_immediate adds_register subw sub_immediate subs_immediate subs_register
        add_register :
      ℕ → ℕ → ℕ → ArithmeticForm

-- The operation as `thumb_assemble` is given it.
unfoldable pub written : WidthSpecifier → ℕ → AddressingMode → ArithmeticForm → InstructionSpec
written width condition mode (addw rd rn imm) =
    listed width tm_addw condition mode (ot_reg rd ∷ ot_reg rn ∷ ot_immediate imm ∷ [])
written width condition mode (add_immediate rd rn imm) =
    listed width tm_add condition mode (ot_reg rd ∷ ot_reg rn ∷ ot_immediate imm ∷ [])
written width condition mode (adds_immediate rd rn imm) =
    listed width tm_adds condition mode (ot_reg rd ∷ ot_reg rn ∷ ot_immediate imm ∷ [])
written width condition mode (adds_register rd rn rm) =
    listed width tm_adds condition mode (ot_reg rd ∷ ot_reg rn ∷ ot_reg rm ∷ [])
written width condition mode (subw rd rn imm) =
    listed width tm_subw condition mode (ot_reg rd ∷ ot_reg rn ∷ ot_immediate imm ∷ [])
written width condition mode (sub_immediate rd rn imm) =
    listed width tm_sub condition mode (ot_reg rd ∷ ot_reg rn ∷ ot_immediate imm ∷ [])
written width condition mode (subs_immediate rd rn imm) =
    listed width tm_subs condition mode (ot_reg rd ∷ ot_reg rn ∷ ot_immediate imm ∷ [])
written width condition mode (subs_register rd rn rm) =
    listed width tm_subs condition mode (ot_reg rd ∷ ot_reg rn ∷ ot_reg rm ∷ [])
written width condition mode (add_register rd rn rm) =
    listed width tm_add condition mode (ot_reg rd ∷ ot_reg rn ∷ ot_reg rm ∷ [])
written width condition mode (cmp_immediate rn imm) =
    listed width tm_cmp condition mode (ot_reg rn ∷ ot_immediate imm ∷ [])
written width condition mode (cmp_register rn rm) =
    listed width tm_cmp condition mode (ot_reg rn ∷ ot_reg rm ∷ [])

-- The operation as `thumb_disassemble` lists it.
unfoldable pub listing : WidthSpecifier → ArithmeticForm → InstructionSpec
listing width (addw rd rn imm) =
    listed width tm_addw tc_none am_none (ot_reg rd ∷ ot_reg rn ∷ ot_immediate imm ∷ [])
listing width (add_immediate rd rn imm) =
    listed width tm_addw tc_none am_none (ot_reg rd ∷ ot_reg rn ∷ ot_immediate imm ∷ [])
listing width (adds_immediate rd rn imm) =
    listed width tm_adds tc_none am_none (ot_reg rd ∷ ot_reg rn ∷ ot_immediate imm ∷ [])
listing width (adds_register rd rn rm) =
    listed width tm_adds tc_none am_none (ot_reg rd ∷ ot_reg rn ∷ ot_reg rm ∷ [])
listing width (subw rd rn imm) =
    listed width tm_subw tc_none am_none (ot_reg rd ∷ ot_reg rn ∷ ot_immediate imm ∷ [])
listing width (sub_immediate rd rn imm) =
    listed width tm_subw tc_none am_none (ot_reg rd ∷ ot_reg rn ∷ ot_immediate imm ∷ [])
listing width (subs_immediate rd rn imm) =
    listed width tm_subs tc_none am_none (ot_reg rd ∷ ot_reg rn ∷ ot_immediate imm ∷ [])
listing width (subs_register rd rn rm) =
    listed width tm_subs tc_none am_none (ot_reg rd ∷ ot_reg rn ∷ ot_reg rm ∷ [])
listing width (add_register rd rn rm) =
    listed width tm_add tc_none am_none (ot_reg rd ∷ ot_reg rn ∷ ot_reg rm ∷ [])
listing width (cmp_immediate rn imm) =
    listed width tm_cmp tc_none am_none (ot_reg rn ∷ ot_immediate imm ∷ [])
listing width (cmp_register rn rm) =
    listed width tm_cmp tc_none am_none (ot_reg rn ∷ ot_reg rm ∷ [])

-- Registers have 8 bits, immediates 32.
unfoldable pub IsArithmeticForm : ArithmeticForm → Type 0
IsArithmeticForm (addw rd rn imm) = (rd < 2 ^ 8) × (rn < 2 ^ 8) × (IsU32 imm)
IsArithmeticForm (add_immediate rd rn imm) = (rd < 2 ^ 8) × (rn < 2 ^ 8) × (IsU32 imm)
IsArithmeticForm (adds_immediate rd rn imm) = (rd < 2 ^ 8) × (rn < 2 ^ 8) × (IsU32 imm)
IsArithmeticForm (adds_register rd rn rm) = (rd < 2 ^ 8) × (rn < 2 ^ 8) × (rm < 2 ^ 8)
IsArithmeticForm (subw rd rn imm) = (rd < 2 ^ 8) × (rn < 2 ^ 8) × (IsU32 imm)
IsArithmeticForm (sub_immediate rd rn imm) = (rd < 2 ^ 8) × (rn < 2 ^ 8) × (IsU32 imm)
IsArithmeticForm (subs_immediate rd rn imm) = (rd < 2 ^ 8) × (rn < 2 ^ 8) × (IsU32 imm)
IsArithmeticForm (subs_register rd rn rm) = (rd < 2 ^ 8) × (rn < 2 ^ 8) × (rm < 2 ^ 8)
IsArithmeticForm (add_register rd rn rm) = (rd < 2 ^ 8) × (rn < 2 ^ 8) × (rm < 2 ^ 8)
IsArithmeticForm (cmp_immediate rn imm) = (rn < 2 ^ 8) × (IsU32 imm)
IsArithmeticForm (cmp_register rn rm) = (rn < 2 ^ 8) × (rm < 2 ^ 8)

-- The operands that the 16-bit encodings have room for.
unfoldable pub fits_short : ArithmeticForm → Bool
fits_short (addw rd rn imm) = false
fits_short (add_immediate rd rn imm) = false
fits_short (adds_immediate rd rn imm) =
    ltb rd (2 ^ 3) && ltb rn (2 ^ 3) && (ltb imm (2 ^ 3) || (rd == rn && ltb imm (2 ^ 8)))
fits_short (adds_register rd rn rm) = ltb rd (2 ^ 3) && ltb rn (2 ^ 3) && ltb rm (2 ^ 3)
fits_short (subw rd rn imm) = false
fits_short (sub_immediate rd rn imm) = false
fits_short (subs_immediate rd rn imm) =
    ltb rd (2 ^ 3) && ltb rn (2 ^ 3) && (ltb imm (2 ^ 3) || (rd == rn && ltb imm (2 ^ 8)))
fits_short (subs_register rd rn rm) = ltb rd (2 ^ 3) && ltb rn (2 ^ 3) && ltb rm (2 ^ 3)
fits_short (add_register rd rn rm) = rd == rn && ltb rd (2 ^ 4) && ltb rm (2 ^ 4)
fits_short (cmp_immediate rn imm) = ltb rn (2 ^ 3) && ltb imm (2 ^ 8)
fits_short (cmp_register rn rm) = ltb rn (2 ^ 4) && ltb rm (2 ^ 4)

-- The operands that the 32-bit encodings have room for.
unfoldable pub fits_long : ArithmeticForm → Bool
fits_long (addw rd rn imm) =
    not (rn == 13 || rn == 15) && ltb rd (2 ^ 4) && ltb rn (2 ^ 4) && ltb imm (2 ^ 12)
fits_long (add_immediate rd rn imm) =
    not (rn == 13 || rn == 15) && ltb rd (2 ^ 4) && ltb rn (2 ^ 4) && ltb imm (2 ^ 12)
fits_long (adds_immediate rd rn imm) = false
fits_long (adds_register rd rn rm) = false
fits_long (subw rd rn imm) =
    not (rn == 13 || rn == 15) && ltb rd (2 ^ 4) && ltb rn (2 ^ 4) && ltb imm (2 ^ 12)
fits_long (sub_immediate rd rn imm) =
    not (rn == 13 || rn == 15) && ltb rd (2 ^ 4) && ltb rn (2 ^ 4) && ltb imm (2 ^ 12)
fits_long (subs_immediate rd rn imm) = false
fits_long (subs_register rd rn rm) = false
fits_long (add_register rd rn rm) = false
fits_long (cmp_immediate rn imm) = false
fits_long (cmp_register rn rm) = false

module _ (into : ℕ) (width : WidthSpecifier) (condition : ℕ) (mode : AddressingMode) where
  -- A form of ADD, SUB or CMP with 8-bit registers and 32-bit immediates assembles exactly when its
  -- operands fit an encoding that the width allows; what it stores then is disassembled as the same
  -- instruction in that width (ADD and SUB of an immediate as the ADDW and SUBW that they are).
  pub arithmetic-ReadsBack :
      (f : ArithmeticForm)
      → IsArithmeticForm f
      → ReadsBack into
          (listing tws_narrow f)
          (listing tws_wide f)
          (thumb_assemble (written width condition mode f))
        × (stored (thumb_assemble (written width condition mode f))
            ≡ chosen width (fits_short f) (fits_long f))
  unfolding written listing IsArithmeticForm fits_short fits_long
  arithmetic-ReadsBack (addw rd rn imm) h = (
    (addw-ReadsBack into width condition mode rd rn imm h.0 h.1 h.2),
    (addw-stored width condition mode rd rn imm h.0 h.1 h.2),
  )
  arithmetic-ReadsBack (add_immediate rd rn imm) h = (
    (add_immediate-ReadsBack into width condition mode rd rn imm h.0 h.1 h.2),
    (add_immediate-stored width condition mode rd rn imm h.0 h.1 h.2),
  )
  arithmetic-ReadsBack (adds_immediate rd rn imm) h = (
    (adds_immediate-ReadsBack into width condition mode rd rn imm h.0 h.1 h.2),
    (adds_immediate-stored width condition mode rd rn imm h.0 h.1 h.2),
  )
  arithmetic-ReadsBack (adds_register rd rn rm) h = (
    (adds_register-ReadsBack into width condition mode rd rn rm h.0 h.1 h.2),
    (adds_register-stored width condition mode rd rn rm h.0 h.1 h.2),
  )
  arithmetic-ReadsBack (subw rd rn imm) h = (
    (subw-ReadsBack into width condition mode rd rn imm h.0 h.1 h.2),
    (subw-stored width condition mode rd rn imm h.0 h.1 h.2),
  )
  arithmetic-ReadsBack (sub_immediate rd rn imm) h = (
    (sub_immediate-ReadsBack into width condition mode rd rn imm h.0 h.1 h.2),
    (sub_immediate-stored width condition mode rd rn imm h.0 h.1 h.2),
  )
  arithmetic-ReadsBack (subs_immediate rd rn imm) h = (
    (subs_immediate-ReadsBack into width condition mode rd rn imm h.0 h.1 h.2),
    (subs_immediate-stored width condition mode rd rn imm h.0 h.1 h.2),
  )
  arithmetic-ReadsBack (subs_register rd rn rm) h = (
    (subs_register-ReadsBack into width condition mode rd rn rm h.0 h.1 h.2),
    (subs_register-stored width condition mode rd rn rm h.0 h.1 h.2),
  )
  arithmetic-ReadsBack (add_register rd rn rm) h = (
    (add_register-ReadsBack into width condition mode rd rn rm h.0 h.1 h.2),
    (add_register-stored width condition mode rd rn rm h.0 h.1 h.2),
  )
  arithmetic-ReadsBack (cmp_immediate rn imm) h = (
    (cmp_immediate-ReadsBack into width condition mode rn imm h.0 h.1),
    (cmp_immediate-stored width condition mode rn imm h.0 h.1),
  )
  arithmetic-ReadsBack (cmp_register rn rm) h = (
    (cmp_register-ReadsBack into width condition mode rn rm h.0 h.1),
    (cmp_register-stored width condition mode rn rm h.0 h.1),
  )
