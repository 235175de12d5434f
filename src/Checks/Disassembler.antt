-- ===== src/Checks/Disassembler.antt =====
-- `thumb_disassemble` of monitor/thumb_asm.c and its register lists at concrete words.
use tw_monitor.Common.{◌≡◌, refl, ◌↔◌, true, false, none, some, arith}
use tw_monitor.Encoding.Macros.{bit_extract}
use tw_monitor.Encoding.Narrow
use tw_monitor.Encoding.Wide
use tw_monitor.Encoding.Narrow.{bx_t1}
use tw_monitor.Encoding.Wide.{ldr_i_t4}
use tw_monitor.Encoding.BranchNarrow.{match_bx_t1}
use tw_monitor.Encoding.LoadWide.{match_ldr_i_t4}
use tw_monitor.Thumb.Spec.{narrow_half, thumb_is_wide_instruction}
use tw_monitor.Thumb.Disassemble.{thumb_disassemble}
use tw_monitor.Thumb.Disassemble.Laws.{thumb_disassemble-narrow}
use tw_monitor.Thumb.Disassemble.Laws.{
  narrow-thumb_is_wide_instruction, wide-thumb_is_wide_instruction,
}
use tw_monitor.Thumb.Disassemble.Total.{thumb_disassemble-eq_none_iff, IsUndefinedLoad}
use tw_monitor.Thumb.Listing.Narrow.{narrow_listing}
use tw_monitor.Thumb.Registers.{thumb_count_register_list, top_register}
use tw_monitor.Thumb.Registers.Counts.{ones, thumb_count_register_list-ones, top_register-bounds}

-- BX LR, before another halfword.
thumb_disassemble-narrow_example :
    thumb_disassemble 0xbf004770
    ≡ some (narrow_listing bx_t1 (Narrow.decode bx_t1 (narrow_half 0xbf004770)))
unfolding Narrow.matches match_bx_t1 bit_extract
thumb_disassemble-narrow_example = thumb_disassemble-narrow bx_t1 0xbf004770 refl tt

narrow-thumb_is_wide_instruction_example : thumb_is_wide_instruction 0xbf004770 ≡ false
unfolding Narrow.matches match_bx_t1 bit_extract
narrow-thumb_is_wide_instruction_example = narrow-thumb_is_wide_instruction bx_t1 0xbf004770 refl

-- LDR r1, [r2], #4.
wide-thumb_is_wide_instruction_example : thumb_is_wide_instruction 0x1b04f852 ≡ true
unfolding Wide.matches match_ldr_i_t4 bit_extract
wide-thumb_is_wide_instruction_example = wide-thumb_is_wide_instruction ldr_i_t4 0x1b04f852 refl

-- The word of a load with neither index nor writeback.
thumb_disassemble-eq_none_iff_example :
    (thumb_disassemble 0x1804f852 ≡ none)
    ↔ ((thumb_is_wide_instruction 0x1804f852 ≡ true) × IsUndefinedLoad 0x1804f852)
thumb_disassemble-eq_none_iff_example = thumb_disassemble-eq_none_iff 0x1804f852

thumb_count_register_list-ones_example : thumb_count_register_list 0x40f0 ≡ ones 16 0x40f0
thumb_count_register_list-ones_example = thumb_count_register_list-ones 0x40f0 (omega arith)

top_register-bounds_example : top_register 0x10ff ≡ 12
top_register-bounds_example =
    top_register-bounds 12 0x10ff (omega arith) (omega arith) (omega arith)
