-- ===== src/Thumb/Disassemble.antt =====
-- `thumb_disassemble` of monitor/thumb_asm.c on the word at the address.
pub mod Narrow
pub mod Wide
pub mod Total
pub mod Laws
use tw_monitor.Common.{ℕ, Option, if◌then◌else◌}
use tw_monitor.Thumb.Spec.{InstructionSpec, narrow_half, thumb_is_wide_instruction}
use Narrow.{disassemble_narrow}
use Wide.{disassemble_wide}

unfoldable pub thumb_disassemble : ℕ → Option InstructionSpec
thumb_disassemble word =
    if thumb_is_wide_instruction word
    then disassemble_wide word
    else disassemble_narrow (narrow_half word)
