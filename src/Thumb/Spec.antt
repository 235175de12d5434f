-- ===== src/Thumb/Spec.antt =====
-- The instruction format that assembler and disassembler share: monitor/thumb_asm.h and the setters
-- of monitor/thumb_asm.c. `none` is a failed assertion, which halts the monitor.
use tw_monitor.Common.{ℕ, zero, suc, ◌+◌, ◌/◌, ◌%◌, ◌^◌, Bool, ◌&&◌, not, Option, some}
use tw_monitor.Common.{List, [], ◌∷◌, ltb, ◌==◌, ◌>>=◌, ◌>>◌, guard, if◌then◌else◌}

pub data Mnemonic : Type 0 where
  tm_unknown tm_add tm_adds tm_addw tm_b tm_bkpt tm_bl tm_blx tm_bx tm_cmp tm_ldr : Mnemonic
  tm_nop tm_mov tm_movs tm_movw tm_pop tm_push tm_sub tm_subs tm_subw tm_svc tm_udf : Mnemonic

-- `enum thumb_condition` is kept as its number: `parts.cond + 1` is stored with no check.
abbrev pub tc_none : ℕ
tc_none = 0

abbrev pub tc_le : ℕ
tc_le = 14

abbrev pub tc_al : ℕ
tc_al = 15

pub data AddressingMode : Type 0 where
  am_none am_offset am_preindex am_postindex : AddressingMode

pub data WidthSpecifier : Type 0 where
  tws_auto tws_narrow tws_wide : WidthSpecifier

-- An `int` is its bit pattern.
pub data Operand : Type 0 where
  ot_none : Operand
  ot_reg : ℕ → Operand
  ot_reglist : ℕ → Operand
  ot_immediate : ℕ → Operand
  ot_signed_immediate : ℕ → Operand
  ot_lsl_shift : ℕ → Operand

-- `operands[THUMB_MAX_OPERANDS]`.
pub record Operands : Type 0 where
  pub op0 : Operand
  pub op1 : Operand
  pub op2 : Operand
  pub op3 : Operand

pub record InstructionSpec : Type 0 where
  pub mnemonic : Mnemonic
  pub condition : ℕ
  pub width : WidthSpecifier
  pub addressing_mode : AddressingMode
  pub operand_count : ℕ
  pub operands : Operands

-- `struct thumb_instruction_spec instruction = {}`
abbrev pub blank : InstructionSpec
blank = record {
  mnemonic = tm_unknown;
  condition = tc_none;
  width = tws_auto;
  addressing_mode = am_none;
  operand_count = 0;
  operands = record { op0 = ot_none; op1 = ot_none; op2 = ot_none; op3 = ot_none };
}

unfoldable pub set_operand : ℕ → Operand → Operands → Operands
set_operand zero o os = record os { op0 = o }
set_operand (suc zero) o os = record os { op1 = o }
set_operand (suc (suc zero)) o os = record os { op2 = o }
set_operand (suc (suc (suc n))) o os = record os { op3 = o }

-- `*new_operand(instruction) = operand`, as in each `thumb_add_operand_...`.
unfoldable pub add_operand : Operand → InstructionSpec → Option InstructionSpec
unfolding set_operand
add_operand o ins = do
  guard (ltb ins.operand_count 4)
  some (record ins {
    operands = set_operand ins.operand_count o ins.operands;
    operand_count = suc ins.operand_count;
  })

-- Several such calls in a row.
unfoldable pub add_operands : List Operand → InstructionSpec → Option InstructionSpec
unfolding add_operand
add_operands [] ins = some ins
add_operands (o ∷ os) ins = do ins' ← add_operand o ins; add_operands os ins'

-- `thumb_t`: the halfword at the address, and the word of which it is the lower half.
abbrev pub narrow_half : ℕ → ℕ
narrow_half word = word % 2 ^ 16

unfoldable pub thumb_is_wide_instruction : ℕ → Bool
thumb_is_wide_instruction ins =
    narrow_half ins / 2 ^ 13 == 7 && not (narrow_half ins / 2 ^ 11 % 2 ^ 2 == 0)

-- The address after the instruction.
unfoldable pub thumb_ins_ptr_increment : ℕ → ℕ → ℕ
unfolding thumb_is_wide_instruction
thumb_ins_ptr_increment ins insptr =
    (insptr + (if thumb_is_wide_instruction ins then 4 else 2)) % 2 ^ 32
