-- ===== src/Thumb/Assemble/Branch.antt =====
-- The cases B, BL, BLX, BX, BKPT, SVC, UDF and NOP of `thumb_assemble` in monitor/thumb_asm.c.
use tw_monitor.Common.{ℕ, ◌+◌, ◌-◌, ◌%◌, ◌^◌, not, ◌&&◌, ◌||◌, ◌==◌, if◌then◌else◌}
use tw_monitor.Encoding.BranchNarrow.{encode_b_cond_t1_noit, encode_b_t2, encode_blx_t1}
use tw_monitor.Encoding.BranchNarrow.{encode_bx_t1}
use tw_monitor.Encoding.BranchWide.{encode_b_cond_t3_noit, encode_b_t4, encode_bl_t1}
use tw_monitor.Encoding.Trap.{encode_bkpt_t1, encode_svc_t1, encode_udf_t1, encode_udf_t2}
use tw_monitor.Encoding.Trap.{encode_nop_t1, encode_nop_t2}
use tw_monitor.Thumb.Spec.{InstructionSpec, tc_none, WidthSpecifier, tws_auto, tws_narrow, tws_wide}
use tw_monitor.Thumb.Assemble.Result.{AssembleResult, fail_invalid_operand, fail_invalid_width}
use tw_monitor.Thumb.Assemble.Result.{encoder_to_asm_result, try_encoding, can_be_narrow}
use tw_monitor.Thumb.Assemble.Result.{can_be_wide, ensure_narrow, ensure_wide, is_reg, is_immediate}
use tw_monitor.Thumb.Assemble.Result.{is_signed_immediate, value}

-- `int32_t label = simm - 4`: the processor counts from four bytes ahead.
unfoldable pub label_of : ℕ → ℕ
label_of simm = (simm + 2 ^ 32 - 4) % 2 ^ 32

-- `condition - 1` in a `uint32_t`.
unfoldable pub cond_of : ℕ → ℕ
cond_of condition = (condition + 2 ^ 32 - 1) % 2 ^ 32

unfoldable pub assemble_b : InstructionSpec → AssembleResult
unfolding label_of cond_of
assemble_b spec =
    if not (spec.operand_count == 1) || not (is_signed_immediate spec.operands.op0)
    then fail_invalid_operand
    else (let label = label_of (value spec.operands.op0) in
        let long =
          if can_be_wide spec.width
          then (if spec.condition == tc_none
              then encoder_to_asm_result (encode_b_t4 (record { simm25 = label }))
              else encoder_to_asm_result (
                  encode_b_cond_t3_noit (record { cond = cond_of spec.condition; simm21 = label })))
          else fail_invalid_width in
        if can_be_narrow spec.width
        then (if spec.condition == tc_none
            then try_encoding (encode_b_t2 (record { simm11 = label })) long
            else try_encoding
                (encode_b_cond_t1_noit (record { cond = cond_of spec.condition; simm8 = label }))
                long)
        else long)

unfoldable pub assemble_bl : InstructionSpec → AssembleResult
unfolding label_of
assemble_bl spec = ensure_wide spec.width (
    if spec.operand_count == 1 && is_signed_immediate spec.operands.op0
    then encoder_to_asm_result
        (encode_bl_t1 (record { simm25 = label_of (value spec.operands.op0) }))
    else fail_invalid_operand)

unfoldable pub assemble_blx : InstructionSpec → AssembleResult
assemble_blx spec = ensure_narrow spec.width (
    if spec.operand_count == 1 && is_reg spec.operands.op0
    then encoder_to_asm_result (encode_blx_t1 (record { rm = value spec.operands.op0 }))
    else fail_invalid_operand)

unfoldable pub assemble_bx : InstructionSpec → AssembleResult
assemble_bx spec = ensure_narrow spec.width (
    if spec.operand_count == 1 && is_reg spec.operands.op0
    then encoder_to_asm_result (encode_bx_t1 (record { rm = value spec.operands.op0 }))
    else fail_invalid_operand)

unfoldable pub assemble_bkpt : InstructionSpec → AssembleResult
assemble_bkpt spec = ensure_narrow spec.width (
    if spec.operand_count == 1 && is_immediate spec.operands.op0
    then encoder_to_asm_result (encode_bkpt_t1 (record { imm8 = value spec.operands.op0 }))
    else fail_invalid_operand)

unfoldable pub assemble_svc : InstructionSpec → AssembleResult
assemble_svc spec = ensure_narrow spec.width (
    if spec.operand_count == 1 && is_immediate spec.operands.op0
    then encoder_to_asm_result (encode_svc_t1 (record { imm8 = value spec.operands.op0 }))
    else fail_invalid_operand)

unfoldable pub assemble_udf : InstructionSpec → AssembleResult
assemble_udf spec =
    if not (spec.operand_count == 1) || not (is_immediate spec.operands.op0)
    then fail_invalid_operand
    else (let long =
          if can_be_wide spec.width
          then encoder_to_asm_result (encode_udf_t2 (record { imm16 = value spec.operands.op0 }))
          else fail_invalid_width in
        if can_be_narrow spec.width
        then try_encoding (encode_udf_t1 (record { imm8 = value spec.operands.op0 })) long
        else long)

unfoldable pub assemble_nop_width : WidthSpecifier → AssembleResult
assemble_nop_width tws_wide = encoder_to_asm_result encode_nop_t2
assemble_nop_width tws_narrow = encoder_to_asm_result encode_nop_t1
assemble_nop_width tws_auto = encoder_to_asm_result encode_nop_t1

unfoldable pub assemble_nop : InstructionSpec → AssembleResult
unfolding assemble_nop_width
assemble_nop spec =
    if not (spec.operand_count == 0) then fail_invalid_operand else assemble_nop_width spec.width
