-- ===== src/Thumb/Assemble/Forms/Branch.antt =====
-- B, BL, BLX, BX, BKPT, SVC and UDF of monitor/thumb_asm.c: every way to write them, what they assemble to and what that is
-- disassembled as.
use tw_monitor.Common.{ℕ, ◌-◌, ◌%◌, ◌^◌, ◌≤◌, ◌≡◌, [], ◌∷◌, ◌||◌, ◌&&◌, Bool, false, ltb, leb}
use tw_monitor.Common.{◌==◌}
use tw_monitor.Encoding.Macros.{IsU32}
use tw_monitor.Thumb.Spec.{
  WidthSpecifier, tws_narrow, tws_wide, AddressingMode, am_none, tc_none, InstructionSpec,
}
use tw_monitor.Thumb.Spec.{
  ot_reg, ot_immediate, ot_signed_immediate, tm_b, tm_bkpt, tm_bl, tm_blx, tm_bx, tm_svc, tm_udf,
}
use tw_monitor.Thumb.Listing.Format.{listed}
use tw_monitor.Thumb.Assemble.{thumb_assemble}
use tw_monitor.Thumb.Assemble.ReadBack.Rules.{ReadsBack}
use tw_monitor.Thumb.Assemble.ReadBack.Branch.{
  blx-ReadsBack, bx-ReadsBack, bkpt-ReadsBack, svc-ReadsBack, udf-ReadsBack, bl-ReadsBack,
  b-ReadsBack, b_cond-ReadsBack,
}
use tw_monitor.Thumb.Assemble.Accept.Width.{stored, chosen}
use tw_monitor.Thumb.Assemble.Accept.Branch.{
  blx-stored, bx-stored, bkpt-stored, svc-stored, udf-stored, bl-stored, b-stored, b_cond-stored,
}
use tw_monitor.Thumb.Assemble.Branch.{label_of}
use tw_monitor.Thumb.Assemble.ReadBack.Branch.{in_gap}
use tw_monitor.Thumb.Spec.{tc_le}

pub data BranchForm : Type 0 where
  blx bx bkpt svc udf bl b_always : ℕ → BranchForm
  b_when : ℕ → ℕ → BranchForm

-- The operation as `thumb_assemble` is given it.
unfoldable pub written : WidthSpecifier → ℕ → AddressingMode → BranchForm → InstructionSpec
written width condition mode (blx rm) = listed width tm_blx condition mode (ot_reg rm ∷ [])
written width condition mode (bx rm) = listed width tm_bx condition mode (ot_reg rm ∷ [])
written width condition mode (bkpt imm) =
    listed width tm_bkpt condition mode (ot_immediate imm ∷ [])
written width condition mode (svc imm) = listed width tm_svc condition mode (ot_immediate imm ∷ [])
written width condition mode (udf imm) = listed width tm_udf condition mode (ot_immediate imm ∷ [])
written width condition mode (bl simm) =
    listed width tm_bl condition mode (ot_signed_immediate simm ∷ [])
written width condition mode (b_always simm) =
    listed width tm_b tc_none mode (ot_signed_immediate simm ∷ [])
written width condition mode (b_when c simm) =
    listed width tm_b c mode (ot_signed_immediate simm ∷ [])

-- The operation as `thumb_disassemble` lists it.
unfoldable pub listing : WidthSpecifier → BranchForm → InstructionSpec
listing width (blx rm) = listed width tm_blx tc_none am_none (ot_reg rm ∷ [])
listing width (bx rm) = listed width tm_bx tc_none am_none (ot_reg rm ∷ [])
listing width (bkpt imm) = listed width tm_bkpt tc_none am_none (ot_immediate imm ∷ [])
listing width (svc imm) = listed width tm_svc tc_none am_none (ot_immediate imm ∷ [])
listing width (udf imm) = listed width tm_udf tc_none am_none (ot_immediate imm ∷ [])
listing width (bl simm) = listed width tm_bl tc_none am_none (ot_signed_immediate simm ∷ [])
listing width (b_always simm) = listed width tm_b tc_none am_none (ot_signed_immediate simm ∷ [])
listing width (b_when c simm) = listed width tm_b c am_none (ot_signed_immediate simm ∷ [])

-- Registers have 8 bits, immediates 32.
unfoldable pub IsBranchForm : BranchForm → Type 0
IsBranchForm (blx rm) = (IsU32 rm)
IsBranchForm (bx rm) = (IsU32 rm)
IsBranchForm (bkpt imm) = (IsU32 imm)
IsBranchForm (svc imm) = (IsU32 imm)
IsBranchForm (udf imm) = (IsU32 imm)
IsBranchForm (bl simm) = (IsU32 simm)
IsBranchForm (b_always simm) = (IsU32 simm)
IsBranchForm (b_when c simm) = (1 ≤ c) × (c ≤ tc_le) × (IsU32 simm)

-- No offset is one that an encoder accepts and its field cannot hold.
unfoldable pub IsOutsideGaps : BranchForm → Type 0
IsOutsideGaps (blx rm) = Unit
IsOutsideGaps (bx rm) = Unit
IsOutsideGaps (bkpt imm) = Unit
IsOutsideGaps (svc imm) = Unit
IsOutsideGaps (udf imm) = Unit
IsOutsideGaps (bl simm) = (in_gap 24 (label_of simm) ≡ false)
IsOutsideGaps (b_always simm) =
    (in_gap 11 (label_of simm) ≡ false) × (in_gap 24 (label_of simm) ≡ false)
IsOutsideGaps (b_when c simm) =
    (in_gap 8 (label_of simm) ≡ false) × (in_gap 20 (label_of simm) ≡ false)

-- The operands that the 16-bit encodings have room for.
unfoldable pub fits_short : BranchForm → Bool
fits_short (blx rm) = ltb rm (2 ^ 4)
fits_short (bx rm) = ltb rm (2 ^ 4)
fits_short (bkpt imm) = ltb imm (2 ^ 8)
fits_short (svc imm) = ltb imm (2 ^ 8)
fits_short (udf imm) = ltb imm (2 ^ 8)
fits_short (bl simm) = false
fits_short (b_always simm) =
    (label_of simm) % 2 == 0
    && (ltb (label_of simm) (2 ^ 12) || leb (2 ^ 32 - 2 ^ 12) (label_of simm))
fits_short (b_when c simm) =
    (label_of simm) % 2 == 0
    && (ltb (label_of simm) (2 ^ 9) || leb (2 ^ 32 - 2 ^ 9) (label_of simm))

-- The operands that the 32-bit encodings have room for.
unfoldable pub fits_long : BranchForm → Bool
fits_long (blx rm) = false
fits_long (bx rm) = false
fits_long (bkpt imm) = false
fits_long (svc imm) = false
fits_long (udf imm) = ltb imm (2 ^ 16)
fits_long (bl simm) =
    (label_of simm) % 2 == 0
    && (ltb (label_of simm) (2 ^ 25) || leb (2 ^ 32 - 2 ^ 25) (label_of simm))
fits_long (b_always simm) =
    (label_of simm) % 2 == 0
    && (ltb (label_of simm) (2 ^ 25) || leb (2 ^ 32 - 2 ^ 25) (label_of simm))
fits_long (b_when c simm) =
    (label_of simm) % 2 == 0
    && (ltb (label_of simm) (2 ^ 21) || leb (2 ^ 32 - 2 ^ 21) (label_of simm))

module _ (into : ℕ) (width : WidthSpecifier) (condition : ℕ) (mode : AddressingMode) where
  -- B, BL, BLX, BX, BKPT, SVC or UDF with 32-bit operands, a condition of B from EQ to LE and an
  -- offset outside the gaps assembles exactly when its operand fits an encoding that the width allows,
  -- the short one first; what it stores then is disassembled as the same instruction in that width.
  pub branch-ReadsBack :
      (f : BranchForm)
      → IsBranchForm f
      → IsOutsideGaps f
      → ReadsBack into
          (listing tws_narrow f)
          (listing tws_wide f)
          (thumb_assemble (written width condition mode f))
        × (stored (thumb_assemble (written width condition mode f))
            ≡ chosen width (fits_short f) (fits_long f))
  unfolding written listing IsBranchForm IsOutsideGaps fits_short fits_long
  branch-ReadsBack (blx rm) h g =
      ((blx-ReadsBack into width condition mode rm h), (blx-stored width condition mode rm h))
  branch-ReadsBack (bx rm) h g =
      ((bx-ReadsBack into width condition mode rm h), (bx-stored width condition mode rm h))
  branch-ReadsBack (bkpt imm) h g =
      ((bkpt-ReadsBack into width condition mode imm h), (bkpt-stored width condition mode imm h))
  branch-ReadsBack (svc imm) h g =
      ((svc-ReadsBack into width condition mode imm h), (svc-stored width condition mode imm h))
  branch-ReadsBack (udf imm) h g =
      ((udf-ReadsBack into width condition mode imm h), (udf-stored width condition mode imm h))
  branch-ReadsBack (bl simm) h g =
      ((bl-ReadsBack into width condition mode simm h g), (bl-stored width condition mode simm h))
  branch-ReadsBack (b_always simm) h g =
      ((b-ReadsBack into width mode simm h g.0 g.1), (b-stored width mode simm h))
  branch-ReadsBack (b_when c simm) h g = (
    (b_cond-ReadsBack into width mode c simm h.0 h.1 h.2 g.0 g.1),
    (b_cond-stored width mode c simm h.0 h.1 h.2),
  )
