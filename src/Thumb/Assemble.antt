-- ===== src/Thumb/Assemble.antt =====
-- `thumb_assemble` of monitor/thumb_asm.c.
pub mod Result
pub mod Arithmetic
pub mod Branch
pub mod Load
pub mod Move
pub mod Stack
pub mod Lists
pub mod ReadBack
pub mod Accept
pub mod Forms
use tw_monitor.Common.{ℕ, ◌+◌, ◌*◌, ◌/◌, ◌^◌}
use tw_monitor.Thumb.Spec.{InstructionSpec, Mnemonic, tm_unknown, tm_add, tm_adds, tm_addw, tm_b}
use tw_monitor.Thumb.Spec.{tm_bkpt, tm_bl, tm_blx, tm_bx, tm_cmp, tm_ldr, tm_nop, tm_mov, tm_movs}
use tw_monitor.Thumb.Spec.{tm_movw, tm_pop, tm_push, tm_sub, tm_subs, tm_subw, tm_svc, tm_udf}
use Result.{AssembleResult, fail_bad_mnemonic, narrow_success, wide_success}
use Arithmetic.{assemble_add, assemble_adds, assemble_addw, assemble_sub, assemble_subs}
use Arithmetic.{assemble_subw, assemble_cmp}
use Branch.{assemble_b, assemble_bl, assemble_blx, assemble_bx, assemble_bkpt, assemble_svc}
use Branch.{assemble_udf, assemble_nop}
use Load.{assemble_ldr}
use Move.{assemble_mov, assemble_movs, assemble_movw}
use Stack.{assemble_pop, assemble_push}

-- The `switch` on the mnemonic.
unfoldable pub assemble_mnemonic : Mnemonic → InstructionSpec → AssembleResult
assemble_mnemonic tm_unknown spec = fail_bad_mnemonic
assemble_mnemonic tm_add spec = assemble_add spec
assemble_mnemonic tm_adds spec = assemble_adds spec
assemble_mnemonic tm_addw spec = assemble_addw spec
assemble_mnemonic tm_b spec = assemble_b spec
assemble_mnemonic tm_bkpt spec = assemble_bkpt spec
assemble_mnemonic tm_bl spec = assemble_bl spec
assemble_mnemonic tm_blx spec = assemble_blx spec
assemble_mnemonic tm_bx spec = assemble_bx spec
assemble_mnemonic tm_cmp spec = assemble_cmp spec
assemble_mnemonic tm_ldr spec = assemble_ldr spec
assemble_mnemonic tm_nop spec = assemble_nop spec
assemble_mnemonic tm_mov spec = assemble_mov spec
assemble_mnemonic tm_movs spec = assemble_movs spec
assemble_mnemonic tm_movw spec = assemble_movw spec
assemble_mnemonic tm_pop spec = assemble_pop spec
assemble_mnemonic tm_push spec = assemble_push spec
assemble_mnemonic tm_sub spec = assemble_sub spec
assemble_mnemonic tm_subs spec = assemble_subs spec
assemble_mnemonic tm_subw spec = assemble_subw spec
assemble_mnemonic tm_svc spec = assemble_svc spec
assemble_mnemonic tm_udf spec = assemble_udf spec

unfoldable pub thumb_assemble : InstructionSpec → AssembleResult
unfolding assemble_mnemonic
thumb_assemble spec = assemble_mnemonic spec.mnemonic spec

-- `*into` afterwards: a narrow store leaves the upper half alone, a failure the whole word.
unfoldable pub into_after : ℕ → AssembleResult → ℕ
into_after into (narrow_success w) = into / 2 ^ 16 * 2 ^ 16 + w
into_after into (wide_success w) = w
into_after into _ = into
