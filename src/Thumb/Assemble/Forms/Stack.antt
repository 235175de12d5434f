-- ===== src/Thumb/Assemble/Forms/Stack.antt =====
-- PUSH and POP of monitor/thumb_asm.c: what they assemble to and what that is disassembled as.
use tw_monitor.Common.{
  ℕ, ◌/◌, ◌%◌, ◌^◌, ◌<◌, ◌≡◌, ◌≢◌, [], ◌∷◌, ◌||◌, ◌&&◌, Bool, false, not, ltb, arith,
}
use tw_monitor.Common.{◌==◌}
use tw_monitor.Thumb.Spec.{
  WidthSpecifier, tws_narrow, tws_wide, AddressingMode, tc_none, InstructionSpec,
}
use tw_monitor.Thumb.Spec.{am_none, ot_reglist, tm_push, tm_pop}
use tw_monitor.Thumb.Listing.Format.{listed}
use tw_monitor.Thumb.Registers.{thumb_count_register_list}
use tw_monitor.Thumb.Registers.Counts.{ones, thumb_count_register_list-ones}
use tw_monitor.Thumb.Assemble.{thumb_assemble}
use tw_monitor.Thumb.Assemble.ReadBack.Rules.{ReadsBack}
use tw_monitor.Thumb.Assemble.ReadBack.Stack.{push-ReadsBack, pop-ReadsBack}
use tw_monitor.Thumb.Assemble.Accept.Width.{stored, chosen}
use tw_monitor.Thumb.Assemble.Accept.Stack.{push-stored, pop-stored}

pub data StackForm : Type 0 where
  pushed popped : ℕ → StackForm

-- The operation as `thumb_assemble` is given it.
unfoldable pub written : WidthSpecifier → ℕ → AddressingMode → StackForm → InstructionSpec
written width condition mode (pushed r) = listed width tm_push condition mode (ot_reglist r ∷ [])
written width condition mode (popped r) = listed width tm_pop condition mode (ot_reglist r ∷ [])

-- The operation as `thumb_disassemble` lists it.
unfoldable pub listing : WidthSpecifier → StackForm → InstructionSpec
listing width (pushed r) = listed width tm_push tc_none am_none (ot_reglist r ∷ [])
listing width (popped r) = listed width tm_pop tc_none am_none (ot_reglist r ∷ [])

-- A register list has 16 bits. A single register is popped by a load, and listed as one.
unfoldable pub IsStackForm : StackForm → Type 0
IsStackForm (pushed r) = r < 2 ^ 16
IsStackForm (popped r) = (r < 2 ^ 16) × (ones 16 r ≢ 1)

-- The lists that the 16-bit encodings have room for: R0 to R7 with LR in PUSH, and with PC in POP.
unfoldable pub fits_short : StackForm → Bool
fits_short (pushed r) = not (r == 0) && r / 2 ^ 15 == 0 && ltb (r % 2 ^ 14) (2 ^ 8)
fits_short (popped r) = not (r == 0) && r / 2 ^ 14 % 2 == 0 && ltb (r % 2 ^ 14) (2 ^ 8)

-- The lists that the 32-bit encodings have room for: any register alone in PUSH, and R0 to R12 with
-- LR, in POP with PC too.
unfoldable pub fits_long : StackForm → Bool
fits_long (pushed r) =
    ones 16 r == 1 || (not (r == 0) && r / 2 ^ 15 == 0 && ltb (r % 2 ^ 14) (2 ^ 13))
fits_long (popped r) = not (r == 0) && ltb (r % 2 ^ 14) (2 ^ 13)

several_lem : (r : ℕ) → r < 2 ^ 16 → ones 16 r ≢ 1 → thumb_count_register_list r == 1 ≡ false
several_lem r h several = ground (arith, thumb_count_register_list-ones r h)

module _ (into : ℕ) (width : WidthSpecifier) (condition : ℕ) (mode : AddressingMode) where
  -- PUSH of a 16-bit register list, or POP of one that is not a single register, assembles exactly
  -- when the list fits an encoding that the width allows, the short one first; what it stores then is
  -- disassembled as the same instruction in that width, with the same list.
  pub stack-ReadsBack :
      (f : StackForm)
      → IsStackForm f
      → ReadsBack into
          (listing tws_narrow f)
          (listing tws_wide f)
          (thumb_assemble (written width condition mode f))
        × (stored (thumb_assemble (written width condition mode f))
            ≡ chosen width (fits_short f) (fits_long f))
  unfolding written listing IsStackForm fits_short fits_long
  stack-ReadsBack (pushed r) h =
      ((push-ReadsBack into width condition mode r h), (push-stored width condition mode r h))
  stack-ReadsBack (popped r) h =
      let several = several_lem r h.0 h.1 in
      (
        (pop-ReadsBack into width condition mode r h.0 several),
        (pop-stored width condition mode r h.0 several),
      )
