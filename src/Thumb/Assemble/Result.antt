-- ===== src/Thumb/Assemble/Result.antt =====
-- What `thumb_assemble` of monitor/thumb_asm.c answers, and the tests at the head of its cases.
use tw_monitor.Common.{ℕ, ◌%◌, ◌^◌, Bool, true, false, Option, none, some, if◌then◌else◌}
use tw_monitor.Encoding.Macros.{Word, narrow, wide}
use tw_monitor.Thumb.Spec.{Operand, ot_none, ot_reg, ot_reglist, ot_immediate, ot_signed_immediate}
use tw_monitor.Thumb.Spec.{ot_lsl_shift, WidthSpecifier, tws_auto, tws_narrow, tws_wide}

-- `AR_NARROW_SUCCESS` and `AR_WIDE_SUCCESS` carry what the encoder stored.
pub data AssembleResult : Type 0 where
  fail_bad_mnemonic fail_invalid_width fail_invalid_operand : AssembleResult
  narrow_success : ℕ → AssembleResult
  wide_success : ℕ → AssembleResult

-- `none` is the encoder's result 0, and `narrow` and `wide` are its 16 and 32.
abbrev pub encoder_to_asm_result : Option Word → AssembleResult
encoder_to_asm_result none = fail_invalid_operand
encoder_to_asm_result (some (narrow w)) = narrow_success w
encoder_to_asm_result (some (wide w)) = wide_success w

-- `result = encode(...); if (result != 0) return encoder_to_asm_result(result);`
abbrev pub try_encoding : Option Word → AssembleResult → AssembleResult
try_encoding none next = next
try_encoding (some w) next = encoder_to_asm_result (some w)

abbrev pub can_be_narrow : WidthSpecifier → Bool
can_be_narrow tws_auto = true
can_be_narrow tws_narrow = true
can_be_narrow tws_wide = false

abbrev pub can_be_wide : WidthSpecifier → Bool
can_be_wide tws_auto = true
can_be_wide tws_narrow = false
can_be_wide tws_wide = true

-- `ENSURE_NARROW()` and `ENSURE_WIDE()` before the rest of a case.
abbrev pub ensure_narrow : WidthSpecifier → AssembleResult → AssembleResult
ensure_narrow width rest = if can_be_narrow width then rest else fail_invalid_width

abbrev pub ensure_wide : WidthSpecifier → AssembleResult → AssembleResult
ensure_wide width rest = if can_be_wide width then rest else fail_invalid_width

abbrev pub is_reg : Operand → Bool
is_reg (ot_reg r) = true
is_reg _ = false

abbrev pub is_reglist : Operand → Bool
is_reglist (ot_reglist l) = true
is_reglist _ = false

abbrev pub is_immediate : Operand → Bool
is_immediate (ot_immediate i) = true
is_immediate _ = false

abbrev pub is_signed_immediate : Operand → Bool
is_signed_immediate (ot_signed_immediate i) = true
is_signed_immediate _ = false

abbrev pub is_lsl_shift : Operand → Bool
is_lsl_shift (ot_lsl_shift s) = true
is_lsl_shift _ = false

-- The union of the operand's values.
abbrev pub value : Operand → ℕ
value ot_none = 0
value (ot_reg r) = r
value (ot_reglist l) = l
value (ot_immediate i) = i
value (ot_signed_immediate i) = i
value (ot_lsl_shift s) = s

-- `uint8_t R = operand.reg`
abbrev pub reg8 : Operand → ℕ
reg8 o = value o % 2 ^ 8

abbrev pub to_bit : Bool → ℕ
to_bit true = 1
to_bit false = 0
