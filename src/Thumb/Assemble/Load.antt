-- ===== src/Thumb/Assemble/Load.antt =====
-- The case LDR of `thumb_assemble` in monitor/thumb_asm.c.
use tw_monitor.Common.{ℕ, ◌-◌, ◌%◌, ◌^◌, Bool, true, false, Option, none, some, not, ◌&&◌, ◌||◌}
use tw_monitor.Common.{◌==◌, ltb, if◌then◌else◌}
use tw_monitor.Encoding.Macros.{is_negative}
use tw_monitor.Encoding.LoadNarrow.{encode_ldr_i_t1, encode_ldr_i_t2_sponly, encode_ldr_lit_t1}
use tw_monitor.Encoding.LoadNarrow.{encode_ldr_r_t1}
use tw_monitor.Encoding.LoadWide.{encode_ldr_i_t3, encode_ldr_i_t4, encode_ldr_lit_t2}
use tw_monitor.Encoding.LoadWide.{encode_ldr_r_t2_lsl}
use tw_monitor.Thumb.Spec.{InstructionSpec, Operand, ot_reg, ot_signed_immediate, AddressingMode}
use tw_monitor.Thumb.Spec.{am_none, am_offset, am_preindex, am_postindex}
use tw_monitor.Thumb.Assemble.Result.{AssembleResult, fail_invalid_operand, fail_invalid_width}
use tw_monitor.Thumb.Assemble.Result.{encoder_to_asm_result, try_encoding, can_be_narrow}
use tw_monitor.Thumb.Assemble.Result.{can_be_wide, is_reg, is_lsl_shift, value, reg8, to_bit}

abbrev pub is_am_none : AddressingMode → Bool
is_am_none am_none = true
is_am_none _ = false

abbrev pub is_am_offset : AddressingMode → Bool
is_am_offset am_offset = true
is_am_offset _ = false

-- `parts.index` and `parts.writeback` of LDR (immediate) T4.
abbrev pub index_of : AddressingMode → ℕ
index_of am_postindex = 0
index_of _ = 1

abbrev pub writeback_of : AddressingMode → ℕ
writeback_of am_preindex = 1
writeback_of am_postindex = 1
writeback_of _ = 0

-- The shift of a load by register: the fourth operand, if there is one. `none` is a return.
unfoldable pub lsl_shift_of : InstructionSpec → Option ℕ
lsl_shift_of spec =
    if spec.operand_count == 4
    then (if is_lsl_shift spec.operands.op3 then some (value spec.operands.op3) else none)
    else some 0

unfoldable pub assemble_ldr_register : InstructionSpec → ℕ → ℕ → ℕ → Option ℕ → AssembleResult
assemble_ldr_register spec rt rn rm none = fail_invalid_operand
assemble_ldr_register spec rt rn rm (some lsl_shift) =
    if not (is_am_offset spec.addressing_mode)
    then fail_invalid_operand
    else (let long =
          if can_be_wide spec.width
          then encoder_to_asm_result (
              encode_ldr_r_t2_lsl
                (record { rt = rt; lsl_shift_imm2 = lsl_shift; rm = rm; rn = rn }))
          else fail_invalid_width in
        if can_be_narrow spec.width && lsl_shift == 0
        then try_encoding (encode_ldr_r_t1 (record { rm = rm; rn = rn; rt = rt })) long
        else long)

-- `neg_offset ? -imm_offset : imm_offset`
unfoldable pub magnitude : ℕ → ℕ
magnitude imm_offset = if is_negative imm_offset then (2 ^ 32 - imm_offset) % 2 ^ 32 else imm_offset

-- The wide encodings that take the sign apart: the literal form at the PC, then T4.
unfoldable pub assemble_ldr_signed : InstructionSpec → ℕ → ℕ → ℕ → AssembleResult
unfolding magnitude
assemble_ldr_signed spec rt rn imm_offset =
    let add = to_bit (not (is_negative imm_offset)) in
    let indexed = encoder_to_asm_result (
      encode_ldr_i_t4 (record {
        rt = rt;
        index = index_of spec.addressing_mode;
        add = add;
        writeback = writeback_of spec.addressing_mode;
        imm8 = magnitude imm_offset;
        rn = rn;
      })) in
    if not (can_be_wide spec.width)
    then fail_invalid_width
    else if rn == 15 && is_am_offset spec.addressing_mode
    then try_encoding
        (encode_ldr_lit_t2 (record { rt = rt; imm12 = magnitude imm_offset; add = add })) indexed
    else indexed

-- The narrow encodings of a base and an unsigned offset.
unfoldable pub assemble_ldr_narrow : ℕ → ℕ → ℕ → AssembleResult → AssembleResult
assemble_ldr_narrow rt rn imm_offset next =
    let low =
      try_encoding (encode_ldr_i_t1 (record { imm7 = imm_offset; rn = rn; rt = rt })) next in
    if rn == 13
    then try_encoding (encode_ldr_i_t2_sponly (record { rt = rt; imm10 = imm_offset })) low
    else if rn == 15
    then try_encoding (encode_ldr_lit_t1 (record { rt = rt; imm10 = imm_offset })) low
    else low

unfoldable pub assemble_ldr_immediate : InstructionSpec → ℕ → ℕ → ℕ → AssembleResult
unfolding assemble_ldr_signed assemble_ldr_narrow
assemble_ldr_immediate spec rt rn imm_offset =
    if not (spec.operand_count == 3)
    then fail_invalid_operand
    else (let last = assemble_ldr_signed spec rt rn imm_offset in
        let long =
          if can_be_wide spec.width
          then try_encoding (encode_ldr_i_t3 (record { rt = rt; imm12 = imm_offset; rn = rn })) last
          else last in
        if is_am_offset spec.addressing_mode && not (is_negative imm_offset)
        then (if can_be_narrow spec.width then assemble_ldr_narrow rt rn imm_offset long else long)
        else last)

unfoldable pub assemble_ldr_third : InstructionSpec → ℕ → ℕ → Operand → AssembleResult
unfolding assemble_ldr_register assemble_ldr_immediate lsl_shift_of
assemble_ldr_third spec rt rn (ot_reg r) =
    assemble_ldr_register spec rt rn (r % 2 ^ 8) (lsl_shift_of spec)
assemble_ldr_third spec rt rn (ot_signed_immediate i) = assemble_ldr_immediate spec rt rn i
assemble_ldr_third spec rt rn _ = fail_invalid_operand

unfoldable pub assemble_ldr : InstructionSpec → AssembleResult
unfolding assemble_ldr_third
assemble_ldr spec =
    if ltb spec.operand_count 3
      || ltb 4 spec.operand_count
      || is_am_none spec.addressing_mode
      || not (is_reg spec.operands.op0)
      || not (is_reg spec.operands.op1)
    then fail_invalid_operand
    else assemble_ldr_third spec (reg8 spec.operands.op0) (reg8 spec.operands.op1) spec.operands.op2
