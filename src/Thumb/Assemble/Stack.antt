-- ===== src/Thumb/Assemble/Stack.antt =====
-- The cases POP and PUSH of `thumb_assemble` in monitor/thumb_asm.c.
use tw_monitor.Common.{ℕ, ◌%◌, ◌^◌, Bool, not, ◌&&◌, ◌||◌, ◌==◌, if◌then◌else◌, bit_and, bit_or}
use tw_monitor.Encoding.Macros.{not32}
use tw_monitor.Encoding.Pop.{encode_pop_t1, encode_pop_t2, encode_pop_t3}
use tw_monitor.Encoding.Push.{encode_push_t1, encode_push_t2, encode_push_t3}
use tw_monitor.Thumb.Spec.{InstructionSpec}
use tw_monitor.Thumb.Registers.{thumb_count_register_list, top_register}
use tw_monitor.Thumb.Assemble.Result.{AssembleResult, fail_invalid_operand, fail_invalid_width}
use tw_monitor.Thumb.Assemble.Result.{try_encoding, can_be_narrow, can_be_wide, is_reglist, value}
use tw_monitor.Thumb.Assemble.Result.{to_bit}

-- `!!(reglist & (1 << bit))`
unfoldable pub has_register : ℕ → ℕ → Bool
has_register reglist bit = not (bit_and reglist (2 ^ bit) == 0)

-- The register list without LR and PC, and without LR.
unfoldable pub without_lr_pc : ℕ → ℕ
without_lr_pc reglist = bit_and reglist (not32 (bit_or (2 ^ 14) (2 ^ 15)))

unfoldable pub without_lr : ℕ → ℕ
without_lr reglist = bit_and reglist (not32 (2 ^ 14))

unfoldable pub assemble_pop : InstructionSpec → AssembleResult
assemble_pop spec =
    if not (spec.operand_count == 1) || not (is_reglist spec.operands.op0)
    then fail_invalid_operand
    else (let reglist = value spec.operands.op0 % 2 ^ 16 in
        let regcount = thumb_count_register_list reglist in
        let lr = has_register reglist 14 in
        let pc = has_register reglist 15 in
        let regs = without_lr_pc reglist in
        let rt = if lr then 14 else (if pc then 15 else top_register regs) in
        let single = try_encoding (encode_pop_t3 (record { rt = rt })) fail_invalid_width in
        let several =
          try_encoding (encode_pop_t2 (record { regs = regs; lr = to_bit lr; pc = to_bit pc }))
            fail_invalid_width in
        let long =
          if can_be_wide spec.width
          then (if regcount == 1 then single else several)
          else fail_invalid_width in
        if regcount == 0
        then fail_invalid_operand
        else if can_be_narrow spec.width && not lr
        then try_encoding (encode_pop_t1 (record { pc = to_bit pc; regs = regs })) long
        else long)

unfoldable pub assemble_push : InstructionSpec → AssembleResult
assemble_push spec =
    if not (spec.operand_count == 1) || not (is_reglist spec.operands.op0)
    then fail_invalid_operand
    else (let reglist = value spec.operands.op0 % 2 ^ 16 in
        let regcount = thumb_count_register_list reglist in
        let lr = has_register reglist 14 in
        let regs = without_lr reglist in
        let rt = if lr then 14 else top_register regs in
        let single = try_encoding (encode_push_t3 (record { rt = rt })) fail_invalid_width in
        let several =
          try_encoding (encode_push_t2 (record { regs = regs; lr = to_bit lr }))
            fail_invalid_width in
        let long =
          if can_be_wide spec.width
          then (if regcount == 1 then single else several)
          else fail_invalid_width in
        if regcount == 0
        then fail_invalid_operand
        else if can_be_narrow spec.width
        then try_encoding (encode_push_t1 (record { lr = to_bit lr; regs = regs })) long
        else long)
