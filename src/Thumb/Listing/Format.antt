-- ===== src/Thumb/Listing/Format.antt =====
-- An instruction laid out from its operands, as the disassembler of monitor/thumb_asm.c fills it in.
use tw_monitor.Common.{ℕ, ◌==◌, if◌then◌else◌, [], ◌∷◌, List, length}
use tw_monitor.Thumb.Spec.{Mnemonic, AddressingMode, am_offset, am_preindex, am_postindex}
use tw_monitor.Thumb.Spec.{WidthSpecifier, Operand, Operands, ot_none, InstructionSpec}

unfoldable pub operands_of : List Operand → Operands
operands_of [] = record { op0 = ot_none; op1 = ot_none; op2 = ot_none; op3 = ot_none }
operands_of (a ∷ []) = record { op0 = a; op1 = ot_none; op2 = ot_none; op3 = ot_none }
operands_of (a ∷ b ∷ []) = record { op0 = a; op1 = b; op2 = ot_none; op3 = ot_none }
operands_of (a ∷ b ∷ c ∷ []) = record { op0 = a; op1 = b; op2 = c; op3 = ot_none }
operands_of (a ∷ b ∷ c ∷ d ∷ os) = record { op0 = a; op1 = b; op2 = c; op3 = d }

unfoldable pub listed :
    WidthSpecifier → Mnemonic → ℕ → AddressingMode → List Operand → InstructionSpec
unfolding operands_of
listed width mnemonic condition mode os = record {
  mnemonic = mnemonic;
  condition = condition;
  width = width;
  addressing_mode = mode;
  operand_count = length os;
  operands = operands_of os;
}

unfoldable pub load_mode : ℕ → ℕ → AddressingMode
load_mode index writeback =
    if writeback == 0 then am_offset else if index == 0 then am_postindex else am_preindex
