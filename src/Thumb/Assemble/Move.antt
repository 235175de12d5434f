-- ===== src/Thumb/Assemble/Move.antt =====
-- The cases MOV, MOVS and MOVW of `thumb_assemble` in monitor/thumb_asm.c.
use tw_monitor.Common.{ℕ, ◌%◌, ◌^◌, not, ◌||◌, ◌==◌, if◌then◌else◌}
use tw_monitor.Encoding.Move.{encode_movs_i_t1, encode_movw_i_t3, encode_mov_r_t1}
use tw_monitor.Encoding.Move.{encode_movs_r_t2_noit, encode_mov_r_t3_opt_s}
use tw_monitor.Thumb.Spec.{InstructionSpec, Operand, ot_reg, ot_immediate}
use tw_monitor.Thumb.Assemble.Result.{AssembleResult, fail_invalid_operand, fail_invalid_width}
use tw_monitor.Thumb.Assemble.Result.{encoder_to_asm_result, try_encoding, can_be_narrow}
use tw_monitor.Thumb.Assemble.Result.{can_be_wide, ensure_wide, is_reg, is_immediate, value, reg8}

unfoldable pub assemble_movw : InstructionSpec → AssembleResult
assemble_movw spec = ensure_wide spec.width (
    if not (spec.operand_count == 2)
      || not (is_reg spec.operands.op0)
      || not (is_immediate spec.operands.op1)
    then fail_invalid_operand
    else (let rd = value spec.operands.op0 in
        if rd == 15 || rd == 13
        then fail_invalid_operand
        else encoder_to_asm_result
            (encode_movw_i_t3 (record { rd = rd; imm16 = value spec.operands.op1 }))))

unfoldable pub assemble_mov_second : InstructionSpec → ℕ → Operand → AssembleResult
unfolding assemble_movw
assemble_mov_second spec rd (ot_immediate i) =
    if rd == 15 || rd == 13 then fail_invalid_operand else assemble_movw spec
assemble_mov_second spec rd (ot_reg r) =
    let long =
      if can_be_wide spec.width
      then encoder_to_asm_result
          (encode_mov_r_t3_opt_s (record { setflags = 0; rm = r % 2 ^ 8; rd = rd }))
      else fail_invalid_width in
    if can_be_narrow spec.width
    then try_encoding (encode_mov_r_t1 (record { rd = rd; rm = r % 2 ^ 8 })) long
    else long
assemble_mov_second spec rd _ = fail_invalid_operand

unfoldable pub assemble_mov : InstructionSpec → AssembleResult
unfolding assemble_mov_second
assemble_mov spec =
    if not (spec.operand_count == 2) || not (is_reg spec.operands.op0)
    then fail_invalid_operand
    else assemble_mov_second spec (reg8 spec.operands.op0) spec.operands.op1

unfoldable pub assemble_movs_second : InstructionSpec → ℕ → Operand → AssembleResult
assemble_movs_second spec rd (ot_immediate immediate) =
    if rd == 15 || rd == 13
    then fail_invalid_operand
    else if can_be_narrow spec.width
    then try_encoding (encode_movs_i_t1 (record { rd = rd; imm8 = immediate })) fail_invalid_width
    else fail_invalid_width
assemble_movs_second spec rd (ot_reg r) =
    let long =
      if can_be_wide spec.width
      then encoder_to_asm_result
          (encode_mov_r_t3_opt_s (record { setflags = 1; rm = r % 2 ^ 8; rd = rd }))
      else fail_invalid_width in
    if can_be_narrow spec.width
    then try_encoding (encode_movs_r_t2_noit (record { rm = r % 2 ^ 8; rd = rd })) long
    else long
assemble_movs_second spec rd _ = fail_invalid_operand

unfoldable pub assemble_movs : InstructionSpec → AssembleResult
unfolding assemble_movs_second
assemble_movs spec =
    if not (spec.operand_count == 2) || not (is_reg spec.operands.op0)
    then fail_invalid_operand
    else assemble_movs_second spec (reg8 spec.operands.op0) spec.operands.op1
