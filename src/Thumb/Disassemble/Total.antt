-- ===== src/Thumb/Disassemble/Total.antt =====
-- When `thumb_disassemble` of monitor/thumb_asm.c fails an assertion.
use tw_monitor.Common.{ℕ, ◌≡◌, ◌≢◌, ◌↔◌, true, none, arith}
use tw_monitor.Encoding.LoadWide.{match_ldr_i_t4, decode_ldr_i_t4}
use tw_monitor.Thumb.Spec.{blank, add_operands, thumb_is_wide_instruction, narrow_half}
use tw_monitor.Thumb.Spec.{tws_wide, tws_narrow}
use tw_monitor.Thumb.Disassemble.{thumb_disassemble}
use tw_monitor.Thumb.Disassemble.Narrow.{disassemble_narrow, narrow_undefined_to_branch}
use tw_monitor.Thumb.Disassemble.Narrow.{narrow_loads_to_push, narrow_compare_to_subtract}
use tw_monitor.Thumb.Disassemble.Wide.{disassemble_wide, wide_undefined_to_branch, wide_loads}
use tw_monitor.Thumb.Disassemble.Wide.{wide_link_to_subtract, indexed_mode}
use tw_monitor.Thumb.Disassemble.Wide.Order.{ldr_i_t4_first}

module _ (ins : ℕ) where
  compare_to_subtract-ne-none :
      narrow_compare_to_subtract (record blank { width = tws_narrow }) ins ≢ none
  unfolding narrow_compare_to_subtract add_operands
  compare_to_subtract-ne-none = ground arith

  loads_to_push-ne-none : narrow_loads_to_push (record blank { width = tws_narrow }) ins ≢ none
  unfolding narrow_loads_to_push add_operands
  loads_to_push-ne-none = ground (arith, compare_to_subtract-ne-none)

  -- No 16-bit instruction fails an assertion.
  pub disassemble_narrow-ne-none : disassemble_narrow ins ≢ none
  unfolding disassemble_narrow narrow_undefined_to_branch add_operands
  disassemble_narrow-ne-none = ground (arith, loads_to_push-ne-none)

  link_to_subtract-ne-none : wide_link_to_subtract (record blank { width = tws_wide }) ins ≢ none
  unfolding wide_link_to_subtract add_operands
  link_to_subtract-ne-none = ground arith

  -- A load with neither of its index and writeback bits.
  abbrev pub IsUndefinedLoad : Type 0
  IsUndefinedLoad =
      (match_ldr_i_t4 ins ≡ true)
      × ((decode_ldr_i_t4 ins).index ≡ 0)
      × ((decode_ldr_i_t4 ins).writeback ≡ 0)

  loads-eq_none : wide_loads (record blank { width = tws_wide }) ins ≡ none → IsUndefinedLoad
  unfolding wide_loads add_operands indexed_mode
  loads-eq_none h = ground (arith, link_to_subtract-ne-none)

  disassemble_wide-eq_none : disassemble_wide ins ≡ none → IsUndefinedLoad
  unfolding disassemble_wide wide_undefined_to_branch add_operands
  disassemble_wide-eq_none h = ground (arith, loads-eq_none)

  undefined_load-eq_none : IsUndefinedLoad → disassemble_wide ins ≡ none
  unfolding disassemble_wide wide_undefined_to_branch wide_loads indexed_mode
  undefined_load-eq_none u =
      let n = ldr_i_t4_first ins u.0 in rw (n.0, n.1, n.2, n.3, n.4, n.5, n.6, u.0, u.1, u.2)

-- The disassembler fails an assertion on exactly the wide words that encode a load with neither
-- index nor writeback.
pub thumb_disassemble-eq_none_iff :
    (word : ℕ)
    → (thumb_disassemble word ≡ none)
      ↔ ((thumb_is_wide_instruction word ≡ true) × IsUndefinedLoad word)
unfolding thumb_disassemble
thumb_disassemble-eq_none_iff word = ground (
  arith,
  disassemble_narrow-ne-none (narrow_half word),
  disassemble_wide-eq_none word,
  undefined_load-eq_none word,
)
