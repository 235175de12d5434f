-- ===== src/Thumb/Assemble/Forms/Move.antt =====
-- MOV, MOVS and MOVW of monitor/thumb_asm.c: every way to write them, what they assemble to and what that is
-- disassembled as.
use tw_monitor.Common.{ℕ, ◌^◌, ◌<◌, ◌≡◌, [], ◌∷◌, ◌||◌, ◌&&◌, Bool, not, false, ltb}
use tw_monitor.Common.{◌==◌}
use tw_monitor.Encoding.Macros.{IsU32}
use tw_monitor.Thumb.Spec.{
  WidthSpecifier, tws_narrow, tws_wide, AddressingMode, am_none, tc_none, InstructionSpec,
}
use tw_monitor.Thumb.Spec.{ot_reg, ot_immediate, tm_mov, tm_movs, tm_movw}
use tw_monitor.Thumb.Listing.Format.{listed}
use tw_monitor.Thumb.Assemble.{thumb_assemble}
use tw_monitor.Thumb.Assemble.ReadBack.Rules.{ReadsBack}
use tw_monitor.Thumb.Assemble.ReadBack.Move.{
  mov_register-ReadsBack, movs_register-ReadsBack, movw-ReadsBack, mov_immediate-ReadsBack,
  movs_immediate-ReadsBack,
}
use tw_monitor.Thumb.Assemble.Accept.Width.{stored, chosen}
use tw_monitor.Thumb.Assemble.Accept.Move.{
  mov_register-stored, movs_register-stored, movw-stored, mov_immediate-stored,
  movs_immediate-stored,
}

pub data MoveForm : Type 0 where
  mov_register movs_register movw mov_immediate movs_immediate : ℕ → ℕ → MoveForm

-- The operation as `thumb_assemble` is given it.
unfoldable pub written : WidthSpecifier → ℕ → AddressingMode → MoveForm → InstructionSpec
written width condition mode (mov_register rd rm) =
    listed width tm_mov condition mode (ot_reg rd ∷ ot_reg rm ∷ [])
written width condition mode (movs_register rd rm) =
    listed width tm_movs condition mode (ot_reg rd ∷ ot_reg rm ∷ [])
written width condition mode (movw rd imm) =
    listed width tm_movw condition mode (ot_reg rd ∷ ot_immediate imm ∷ [])
written width condition mode (mov_immediate rd imm) =
    listed width tm_mov condition mode (ot_reg rd ∷ ot_immediate imm ∷ [])
written width condition mode (movs_immediate rd imm) =
    listed width tm_movs condition mode (ot_reg rd ∷ ot_immediate imm ∷ [])

-- The operation as `thumb_disassemble` lists it.
unfoldable pub listing : WidthSpecifier → MoveForm → InstructionSpec
listing width (mov_register rd rm) =
    listed width tm_mov tc_none am_none (ot_reg rd ∷ ot_reg rm ∷ [])
listing width (movs_register rd rm) =
    listed width tm_movs tc_none am_none (ot_reg rd ∷ ot_reg rm ∷ [])
listing width (movw rd imm) =
    listed width tm_movw tc_none am_none (ot_reg rd ∷ ot_immediate imm ∷ [])
listing width (mov_immediate rd imm) =
    listed width tm_movw tc_none am_none (ot_reg rd ∷ ot_immediate imm ∷ [])
listing width (movs_immediate rd imm) =
    listed width tm_movs tc_none am_none (ot_reg rd ∷ ot_immediate imm ∷ [])

-- Registers have 8 bits, immediates 32.
unfoldable pub IsMoveForm : MoveForm → Type 0
IsMoveForm (mov_register rd rm) = (rd < 2 ^ 8) × (rm < 2 ^ 8)
IsMoveForm (movs_register rd rm) = (rd < 2 ^ 8) × (rm < 2 ^ 8)
IsMoveForm (movw rd imm) = (IsU32 rd) × (IsU32 imm)
IsMoveForm (mov_immediate rd imm) = (IsU32 rd) × (IsU32 imm)
IsMoveForm (movs_immediate rd imm) = (rd < 2 ^ 8) × (IsU32 imm)

-- The operands that the 16-bit encodings have room for.
unfoldable pub fits_short : MoveForm → Bool
fits_short (mov_register rd rm) = ltb rd (2 ^ 4) && ltb rm (2 ^ 4)
fits_short (movs_register rd rm) = ltb rd (2 ^ 3) && ltb rm (2 ^ 3)
fits_short (movw rd imm) = false
fits_short (mov_immediate rd imm) = false
fits_short (movs_immediate rd imm) = ltb rd (2 ^ 3) && ltb imm (2 ^ 8)

-- The operands that the 32-bit encodings have room for.
unfoldable pub fits_long : MoveForm → Bool
fits_long (mov_register rd rm) = ltb rd (2 ^ 4) && ltb rm (2 ^ 4)
fits_long (movs_register rd rm) = ltb rd (2 ^ 4) && ltb rm (2 ^ 4)
fits_long (movw rd imm) = not (rd == 13 || rd == 15) && ltb rd (2 ^ 4) && ltb imm (2 ^ 16)
fits_long (mov_immediate rd imm) = not (rd == 13 || rd == 15) && ltb rd (2 ^ 4) && ltb imm (2 ^ 16)
fits_long (movs_immediate rd imm) = false

module _ (into : ℕ) (width : WidthSpecifier) (condition : ℕ) (mode : AddressingMode) where
  -- A form of MOV, MOVS or MOVW with 8-bit registers and 32-bit immediates assembles exactly when its
  -- operands fit an encoding that the width allows, the short one first; what it stores then is
  -- disassembled as the same instruction in that width (MOV of an immediate as the MOVW that it is).
  pub move-ReadsBack :
      (f : MoveForm)
      → IsMoveForm f
      → ReadsBack into
          (listing tws_narrow f)
          (listing tws_wide f)
          (thumb_assemble (written width condition mode f))
        × (stored (thumb_assemble (written width condition mode f))
            ≡ chosen width (fits_short f) (fits_long f))
  unfolding written listing IsMoveForm fits_short fits_long
  move-ReadsBack (mov_register rd rm) h = (
    (mov_register-ReadsBack into width condition mode rd rm h.0 h.1),
    (mov_register-stored width condition mode rd rm h.0 h.1),
  )
  move-ReadsBack (movs_register rd rm) h = (
    (movs_register-ReadsBack into width condition mode rd rm h.0 h.1),
    (movs_register-stored width condition mode rd rm h.0 h.1),
  )
  move-ReadsBack (movw rd imm) h = (
    (movw-ReadsBack into width condition mode rd imm h.0 h.1),
    (movw-stored width condition mode rd imm h.0 h.1),
  )
  move-ReadsBack (mov_immediate rd imm) h = (
    (mov_immediate-ReadsBack into width condition mode rd imm h.0 h.1),
    (mov_immediate-stored width condition mode rd imm h.0 h.1),
  )
  move-ReadsBack (movs_immediate rd imm) h = (
    (movs_immediate-ReadsBack into width condition mode rd imm h.0 h.1),
    (movs_immediate-stored width condition mode rd imm h.0 h.1),
  )
