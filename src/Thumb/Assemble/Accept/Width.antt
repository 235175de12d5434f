-- ===== src/Thumb/Assemble/Accept/Width.antt =====
-- What `thumb_assemble` of monitor/thumb_asm.c stores: nothing, 16 bits or 32.
use tw_monitor.Common.{Bool, ◌&&◌, if◌then◌else◌}
use tw_monitor.Thumb.Spec.{WidthSpecifier}
use tw_monitor.Thumb.Assemble.Result.{AssembleResult, can_be_narrow, can_be_wide}
use tw_monitor.Thumb.Assemble.Result.{narrow_success, wide_success}

pub data Stored : Type 0 where
  nothing bits16 bits32 : Stored

abbrev pub stored : AssembleResult → Stored
stored (narrow_success w) = bits16
stored (wide_success w) = bits32
stored _ = nothing

-- The short encoding where the width allows it and the operands fit it, else the long one.
abbrev pub chosen : WidthSpecifier → Bool → Bool → Stored
chosen width short long =
    if can_be_narrow width && short
    then bits16
    else if can_be_wide width && long
    then bits32
    else nothing
