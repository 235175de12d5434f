-- ===== src/Thumb/Assemble/Arithmetic.antt =====
-- The cases ADD, ADDS, ADDW, SUB, SUBS, SUBW and CMP of `thumb_assemble` in monitor/thumb_asm.c.
use tw_monitor.Common.{ℕ, ◌%◌, ◌^◌, Bool, not, ◌||◌, ◌==◌, if◌then◌else◌}
use tw_monitor.Encoding.Add.{encode_adds_i_t1, encode_adds_i_t2, encode_addw_i_t4}
use tw_monitor.Encoding.Add.{encode_adds_r_t1, encode_add_r_t2}
use tw_monitor.Encoding.Sub.{encode_subs_i_t1, encode_subs_i_t2, encode_subw_i_t4}
use tw_monitor.Encoding.Sub.{encode_subs_r_t1}
use tw_monitor.Encoding.Compare.{encode_cmp_i_t1, encode_cmp_r_t1, encode_cmp_r_t2}
use tw_monitor.Thumb.Spec.{InstructionSpec, Operand, ot_reg, ot_immediate}
use tw_monitor.Thumb.Assemble.Result.{AssembleResult, fail_invalid_operand, fail_invalid_width}
use tw_monitor.Thumb.Assemble.Result.{encoder_to_asm_result, try_encoding, ensure_narrow}
use tw_monitor.Thumb.Assemble.Result.{ensure_wide, is_reg, is_immediate, value, reg8}

-- `operand_count != 3 || operands[0].type != OT_REG || operands[1].type != OT_REG`
abbrev pub is_not_reg_reg_any : InstructionSpec → Bool
is_not_reg_reg_any spec =
    not (spec.operand_count == 3)
    || not (is_reg spec.operands.op0)
    || not (is_reg spec.operands.op1)

unfoldable pub assemble_addw : InstructionSpec → AssembleResult
assemble_addw spec = ensure_wide spec.width (
    if is_not_reg_reg_any spec || not (is_immediate spec.operands.op2)
    then fail_invalid_operand
    else (let rd = reg8 spec.operands.op0 in
        let rn = reg8 spec.operands.op1 in
        let immediate = value spec.operands.op2 in
        if rn == 13 || rn == 15
        then fail_invalid_operand
        else encoder_to_asm_result
            (encode_addw_i_t4 (record { rd = rd; rn = rn; imm12 = immediate }))))

-- The inner `switch` of ADD, by the type of the third operand.
unfoldable pub assemble_add_third : InstructionSpec → ℕ → ℕ → Operand → AssembleResult
unfolding assemble_addw
assemble_add_third spec rd rn (ot_immediate i) =
    if rn == 13 || rn == 15 then fail_invalid_operand else assemble_addw spec
assemble_add_third spec rd rn (ot_reg r) = ensure_narrow spec.width (
    if rd == rn
    then encoder_to_asm_result (encode_add_r_t2 (record { rdn = rd; rm = r % 2 ^ 8 }))
    else fail_invalid_width)
assemble_add_third spec rd rn _ = fail_invalid_operand

unfoldable pub assemble_add : InstructionSpec → AssembleResult
unfolding assemble_add_third
assemble_add spec =
    if is_not_reg_reg_any spec
    then fail_invalid_operand
    else assemble_add_third spec (reg8 spec.operands.op0) (reg8 spec.operands.op1) spec.operands.op2

unfoldable pub assemble_adds_third : InstructionSpec → ℕ → ℕ → Operand → AssembleResult
assemble_adds_third spec rd rn (ot_immediate immediate) = ensure_narrow spec.width (
    try_encoding (encode_adds_i_t1 (record { imm3 = immediate; rn = rn; rd = rd })) (
      if rd == rn
      then encoder_to_asm_result (encode_adds_i_t2 (record { rdn = rd; imm8 = immediate }))
      else fail_invalid_width))
assemble_adds_third spec rd rn (ot_reg r) =
    ensure_narrow spec.width
      (encoder_to_asm_result (encode_adds_r_t1 (record { rm = r % 2 ^ 8; rn = rn; rd = rd })))
assemble_adds_third spec rd rn _ = fail_invalid_operand

unfoldable pub assemble_adds : InstructionSpec → AssembleResult
unfolding assemble_adds_third
assemble_adds spec =
    if is_not_reg_reg_any spec
    then fail_invalid_operand
    else assemble_adds_third spec (reg8 spec.operands.op0) (reg8 spec.operands.op1)
        spec.operands.op2

unfoldable pub assemble_subw : InstructionSpec → AssembleResult
assemble_subw spec = ensure_wide spec.width (
    if is_not_reg_reg_any spec || not (is_immediate spec.operands.op2)
    then fail_invalid_operand
    else (let rd = reg8 spec.operands.op0 in
        let rn = reg8 spec.operands.op1 in
        let immediate = value spec.operands.op2 in
        if rn == 13 || rn == 15
        then fail_invalid_operand
        else encoder_to_asm_result
            (encode_subw_i_t4 (record { rd = rd; rn = rn; imm12 = immediate }))))

-- SUB has no register form yet.
unfoldable pub assemble_sub_third : InstructionSpec → ℕ → Operand → AssembleResult
unfolding assemble_subw
assemble_sub_third spec rn (ot_immediate i) =
    if rn == 13 || rn == 15 then fail_invalid_operand else assemble_subw spec
assemble_sub_third spec rn (ot_reg r) = fail_invalid_width
assemble_sub_third spec rn _ = fail_invalid_operand

unfoldable pub assemble_sub : InstructionSpec → AssembleResult
unfolding assemble_sub_third
assemble_sub spec =
    if is_not_reg_reg_any spec
    then fail_invalid_operand
    else assemble_sub_third spec (reg8 spec.operands.op1) spec.operands.op2

unfoldable pub assemble_subs_third : InstructionSpec → ℕ → ℕ → Operand → AssembleResult
assemble_subs_third spec rd rn (ot_immediate immediate) = ensure_narrow spec.width (
    try_encoding (encode_subs_i_t1 (record { imm3 = immediate; rn = rn; rd = rd })) (
      if rd == rn
      then encoder_to_asm_result (encode_subs_i_t2 (record { rdn = rd; imm8 = immediate }))
      else fail_invalid_width))
assemble_subs_third spec rd rn (ot_reg r) =
    ensure_narrow spec.width
      (encoder_to_asm_result (encode_subs_r_t1 (record { rm = r % 2 ^ 8; rn = rn; rd = rd })))
assemble_subs_third spec rd rn _ = fail_invalid_operand

unfoldable pub assemble_subs : InstructionSpec → AssembleResult
unfolding assemble_subs_third
assemble_subs spec =
    if is_not_reg_reg_any spec
    then fail_invalid_operand
    else assemble_subs_third spec (reg8 spec.operands.op0) (reg8 spec.operands.op1)
        spec.operands.op2

unfoldable pub assemble_cmp_second : ℕ → Operand → AssembleResult
assemble_cmp_second rn (ot_immediate i) =
    encoder_to_asm_result (encode_cmp_i_t1 (record { rn = rn; imm8 = i }))
assemble_cmp_second rn (ot_reg r) =
    try_encoding (encode_cmp_r_t1 (record { rm = r % 2 ^ 8; rn = rn }))
      (encoder_to_asm_result (encode_cmp_r_t2 (record { rn = rn; rm = r % 2 ^ 8 })))
assemble_cmp_second rn _ = fail_invalid_operand

unfoldable pub assemble_cmp : InstructionSpec → AssembleResult
unfolding assemble_cmp_second
assemble_cmp spec = ensure_narrow spec.width (
    if not (spec.operand_count == 2) || not (is_reg spec.operands.op0)
    then fail_invalid_operand
    else assemble_cmp_second (reg8 spec.operands.op0) spec.operands.op1)
