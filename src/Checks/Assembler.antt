-- ===== src/Checks/Assembler.antt =====
-- `thumb_assemble` of monitor/thumb_asm.c at concrete instructions.
use tw_monitor.Common.{◌≡◌, refl, arith}
use tw_monitor.Common.{◌/◌, ◌∷◌, [], some}
use tw_monitor.Thumb.Spec.{tc_al, tm_b, tm_udf, ot_immediate, ot_signed_immediate}
use tw_monitor.Thumb.Listing.Format.{listed}
use tw_monitor.Thumb.Disassemble.{thumb_disassemble}
use tw_monitor.Thumb.Assemble.{into_after}
use tw_monitor.Thumb.Assemble.Forms.Always.{b_al-reads_udf}
use tw_monitor.Thumb.Spec.{tws_auto, tws_narrow, tws_wide, am_none, tc_none}
use tw_monitor.Thumb.Assemble.{thumb_assemble}
use tw_monitor.Thumb.Assemble.Branch.{label_of}
use tw_monitor.Thumb.Assemble.ReadBack.Rules.{ReadsBack}
use tw_monitor.Thumb.Assemble.Accept.Width.{stored, chosen}
use tw_monitor.Thumb.Assemble.Forms.Move
use tw_monitor.Thumb.Assemble.Forms.Move.{mov_register, move-ReadsBack, IsMoveForm}
use tw_monitor.Thumb.Assemble.Forms.Arithmetic
use tw_monitor.Thumb.Assemble.Forms.Arithmetic.{
  adds_immediate, arithmetic-ReadsBack, IsArithmeticForm,
}
use tw_monitor.Thumb.Assemble.Forms.Load
use tw_monitor.Thumb.Assemble.Forms.Load.{from_above, load-ReadsBack, IsLoadForm, IsListedBack}
use tw_monitor.Thumb.Assemble.Forms.Stack
use tw_monitor.Thumb.Assemble.Forms.Stack.{pushed, stack-ReadsBack, IsStackForm}
use tw_monitor.Thumb.Assemble.Forms.Branch
use tw_monitor.Thumb.Assemble.Forms.Branch.{b_when, branch-ReadsBack, IsBranchForm, IsOutsideGaps}

-- MOV R9, SP
move-ReadsBack_example :
    ReadsBack 0
      (Move.listing tws_narrow (mov_register 9 13))
      (Move.listing tws_wide (mov_register 9 13))
      (thumb_assemble (Move.written tws_auto tc_none am_none (mov_register 9 13)))
    × (stored (thumb_assemble (Move.written tws_auto tc_none am_none (mov_register 9 13)))
        ≡ chosen tws_auto
            (Move.fits_short (mov_register 9 13))
            (Move.fits_long (mov_register 9 13)))
unfolding IsMoveForm
move-ReadsBack_example =
    move-ReadsBack 0 tws_auto tc_none am_none (mov_register 9 13) (omega arith, omega arith)

-- ADDS R1, R1, #200
arithmetic-ReadsBack_example :
    ReadsBack 0
      (Arithmetic.listing tws_narrow (adds_immediate 1 1 200))
      (Arithmetic.listing tws_wide (adds_immediate 1 1 200))
      (thumb_assemble (Arithmetic.written tws_narrow tc_none am_none (adds_immediate 1 1 200)))
    × (stored
          (thumb_assemble (Arithmetic.written tws_narrow tc_none am_none (adds_immediate 1 1 200)))
        ≡ chosen tws_narrow
            (Arithmetic.fits_short (adds_immediate 1 1 200))
            (Arithmetic.fits_long (adds_immediate 1 1 200)))
unfolding IsArithmeticForm
arithmetic-ReadsBack_example =
    arithmetic-ReadsBack 0 tws_narrow tc_none am_none (adds_immediate 1 1 200)
      (omega arith, omega arith, omega arith)

-- BNE to 1024 bytes ahead
branch-ReadsBack_example :
    ReadsBack 0
      (Branch.listing tws_narrow (b_when 2 1028))
      (Branch.listing tws_wide (b_when 2 1028))
      (thumb_assemble (Branch.written tws_auto tc_none am_none (b_when 2 1028)))
    × (stored (thumb_assemble (Branch.written tws_auto tc_none am_none (b_when 2 1028)))
        ≡ chosen tws_auto (Branch.fits_short (b_when 2 1028)) (Branch.fits_long (b_when 2 1028)))
unfolding IsBranchForm IsOutsideGaps label_of
branch-ReadsBack_example =
    branch-ReadsBack 0 tws_auto tc_none am_none (b_when 2 1028)
      (omega arith, omega arith, omega arith) (refl, refl)

-- LDR R1, [R2, #64]
load-ReadsBack_example :
    ReadsBack 0
      (Load.listing_short (from_above 1 2 64))
      (Load.listing_long (from_above 1 2 64))
      (thumb_assemble (Load.written tws_auto tc_none (from_above 1 2 64)))
    × (stored (thumb_assemble (Load.written tws_auto tc_none (from_above 1 2 64)))
        ≡ chosen tws_auto
            (Load.fits_short (from_above 1 2 64))
            (Load.fits_long (from_above 1 2 64)))
unfolding IsLoadForm IsListedBack
load-ReadsBack_example =
    load-ReadsBack 0 tws_auto tc_none (from_above 1 2 64) (omega arith, omega arith, omega arith)
      refl

-- PUSH {R4, R5, R6, R7, LR}
stack-ReadsBack_example :
    ReadsBack 0
      (Stack.listing tws_narrow (pushed 0x40f0))
      (Stack.listing tws_wide (pushed 0x40f0))
      (thumb_assemble (Stack.written tws_auto tc_none am_none (pushed 0x40f0)))
    × (stored (thumb_assemble (Stack.written tws_auto tc_none am_none (pushed 0x40f0)))
        ≡ chosen tws_auto (Stack.fits_short (pushed 0x40f0)) (Stack.fits_long (pushed 0x40f0)))
unfolding IsStackForm
stack-ReadsBack_example = stack-ReadsBack 0 tws_auto tc_none am_none (pushed 0x40f0) (omega arith)

-- BAL to 104 bytes ahead
b_al-reads_udf_example :
    thumb_disassemble (
      into_after 0
        (thumb_assemble (listed tws_auto tm_b tc_al am_none (ot_signed_immediate 104 ∷ []))))
    ≡ some (listed tws_narrow tm_udf tc_none am_none (ot_immediate (label_of 104 / 2) ∷ []))
unfolding label_of
b_al-reads_udf_example = b_al-reads_udf 0 tws_auto am_none 104 refl refl (omega arith)
