-- ===== src/Thumb/Assemble/Accept/Branch.antt =====
-- When B, BL, BLX, BX, BKPT, SVC and UDF of monitor/thumb_asm.c assemble, and to how many bits.
use tw_monitor.Common.{ℕ, ◌-◌, ◌%◌, ◌^◌, ◌<◌, ◌≤◌, ◌≡◌, arith, [], ◌∷◌, ◌||◌, ◌&&◌, false, ltb, leb}
use tw_monitor.Common.{◌==◌}
use tw_monitor.Encoding.Macros.{IsU32}
use tw_monitor.Thumb.Spec.{
  WidthSpecifier, AddressingMode, ot_reg, ot_immediate, ot_signed_immediate,
}
use tw_monitor.Thumb.Spec.{tm_b, tm_bkpt, tm_bl, tm_blx, tm_bx, tm_svc, tm_udf}
use tw_monitor.Thumb.Listing.Format.{listed}
use tw_monitor.Thumb.Assemble.{thumb_assemble}
use tw_monitor.Thumb.Assemble.Branch.{
  assemble_b, assemble_bkpt, assemble_bl, assemble_blx, assemble_bx, assemble_svc, assemble_udf,
}
use tw_monitor.Thumb.Assemble.Accept.Width.{stored, chosen}
use tw_monitor.Thumb.Assemble.Branch.{label_of, cond_of}
use tw_monitor.Thumb.Assemble.ReadBack.Branch.{label_of-IsU32}
use tw_monitor.Thumb.Spec.{tc_none, tc_le}
use tw_monitor.Encoding.BranchNarrow.RoundTrip.{b_cond_t1_noit_accepts}
use tw_monitor.Encoding.BranchNarrow.RoundTrip.{b_t2_accepts}
use tw_monitor.Encoding.BranchNarrow.RoundTrip.{blx_t1_accepts}
use tw_monitor.Encoding.BranchNarrow.RoundTrip.{bx_t1_accepts}
use tw_monitor.Encoding.BranchNarrow.RoundTrip.{encode_b_cond_t1_noit_lem}
use tw_monitor.Encoding.BranchNarrow.RoundTrip.{encode_b_t2_lem}
use tw_monitor.Encoding.BranchNarrow.RoundTrip.{encode_blx_t1_lem}
use tw_monitor.Encoding.BranchNarrow.RoundTrip.{encode_bx_t1_lem}
use tw_monitor.Encoding.BranchWide.Conditional.{b_cond_t3_noit_accepts}
use tw_monitor.Encoding.BranchWide.Conditional.{encode_b_cond_t3_noit_lem}
use tw_monitor.Encoding.BranchWide.Jump.{b_t4_accepts}
use tw_monitor.Encoding.BranchWide.Jump.{encode_b_t4_lem}
use tw_monitor.Encoding.BranchWide.Link.{bl_t1_accepts}
use tw_monitor.Encoding.BranchWide.Link.{encode_bl_t1_lem}
use tw_monitor.Encoding.Trap.RoundTrip.{bkpt_t1_accepts}
use tw_monitor.Encoding.Trap.RoundTrip.{encode_bkpt_t1_lem}
use tw_monitor.Encoding.Trap.RoundTrip.{encode_svc_t1_lem}
use tw_monitor.Encoding.Trap.RoundTrip.{encode_udf_t1_lem}
use tw_monitor.Encoding.Trap.RoundTrip.{encode_udf_t2_lem}
use tw_monitor.Encoding.Trap.RoundTrip.{svc_t1_accepts}
use tw_monitor.Encoding.Trap.RoundTrip.{udf_t1_accepts}
use tw_monitor.Encoding.Trap.RoundTrip.{udf_t2_accepts}

cond_of-small : (c : ℕ) → 1 ≤ c → c ≤ tc_le → cond_of c < 14
unfolding cond_of
cond_of-small c lo hi = omega arith

module _ (width : WidthSpecifier) (condition : ℕ) (mode : AddressingMode) where
  pub blx-stored :
      (rm : ℕ)
      → IsU32 rm
      → stored (thumb_assemble (listed width tm_blx condition mode (ot_reg rm ∷ [])))
        ≡ chosen width (ltb rm (2 ^ 4)) (false)
  unfolding thumb_assemble assemble_blx listed blx_t1_accepts
  blx-stored rm h_rm = ground (arith, encode_blx_t1_lem (record { rm = rm }) (omega (arith)))

  pub bx-stored :
      (rm : ℕ)
      → IsU32 rm
      → stored (thumb_assemble (listed width tm_bx condition mode (ot_reg rm ∷ [])))
        ≡ chosen width (ltb rm (2 ^ 4)) (false)
  unfolding thumb_assemble assemble_bx listed bx_t1_accepts
  bx-stored rm h_rm = ground (arith, encode_bx_t1_lem (record { rm = rm }) (omega (arith)))

  pub bkpt-stored :
      (imm : ℕ)
      → IsU32 imm
      → stored (thumb_assemble (listed width tm_bkpt condition mode (ot_immediate imm ∷ [])))
        ≡ chosen width (ltb imm (2 ^ 8)) (false)
  unfolding thumb_assemble assemble_bkpt listed bkpt_t1_accepts
  bkpt-stored imm h_imm = ground (arith, encode_bkpt_t1_lem (record { imm8 = imm }) (omega (arith)))

  pub svc-stored :
      (imm : ℕ)
      → IsU32 imm
      → stored (thumb_assemble (listed width tm_svc condition mode (ot_immediate imm ∷ [])))
        ≡ chosen width (ltb imm (2 ^ 8)) (false)
  unfolding thumb_assemble assemble_svc listed svc_t1_accepts
  svc-stored imm h_imm = ground (arith, encode_svc_t1_lem (record { imm8 = imm }) (omega (arith)))

  pub udf-stored :
      (imm : ℕ)
      → IsU32 imm
      → stored (thumb_assemble (listed width tm_udf condition mode (ot_immediate imm ∷ [])))
        ≡ chosen width (ltb imm (2 ^ 8)) (ltb imm (2 ^ 16))
  unfolding thumb_assemble assemble_udf listed udf_t1_accepts udf_t2_accepts
  udf-stored imm h_imm = ground (
    arith,
    encode_udf_t1_lem (record { imm8 = imm }) (omega (arith)),
    encode_udf_t2_lem (record { imm16 = imm }) (omega (arith)),
  )

  pub bl-stored :
      (simm : ℕ)
      → IsU32 simm
      → stored (thumb_assemble (listed width tm_bl condition mode (ot_signed_immediate simm ∷ [])))
        ≡ chosen width (false) (
            (label_of simm) % 2 == 0
            && (ltb (label_of simm) (2 ^ 25) || leb (2 ^ 32 - 2 ^ 25) (label_of simm)))
  unfolding thumb_assemble assemble_bl listed bl_t1_accepts
  bl-stored simm h_simm = ground (
    arith,
    encode_bl_t1_lem (record { simm25 = label_of simm }) (omega (arith, label_of-IsU32 simm)),
  )

module _ (width : WidthSpecifier) (mode : AddressingMode) where
  pub b-stored :
      (simm : ℕ)
      → IsU32 simm
      → stored (thumb_assemble (listed width tm_b tc_none mode (ot_signed_immediate simm ∷ [])))
        ≡ chosen width
            ((label_of simm) % 2 == 0
              && (ltb (label_of simm) (2 ^ 12) || leb (2 ^ 32 - 2 ^ 12) (label_of simm)))
            ((label_of simm) % 2 == 0
              && (ltb (label_of simm) (2 ^ 25) || leb (2 ^ 32 - 2 ^ 25) (label_of simm)))
  unfolding thumb_assemble assemble_b listed b_t2_accepts b_t4_accepts
  b-stored simm h_simm = ground (
    arith,
    encode_b_t2_lem (record { simm11 = label_of simm }) (omega (arith, label_of-IsU32 simm)),
    encode_b_t4_lem (record { simm25 = label_of simm }) (omega (arith, label_of-IsU32 simm)),
  )

module _ (width : WidthSpecifier) (mode : AddressingMode) where
  pub b_cond-stored :
      (c simm : ℕ)
      → 1 ≤ c
      → c ≤ tc_le
      → IsU32 simm
      → stored (thumb_assemble (listed width tm_b c mode (ot_signed_immediate simm ∷ [])))
        ≡ chosen width
            ((label_of simm) % 2 == 0
              && (ltb (label_of simm) (2 ^ 9) || leb (2 ^ 32 - 2 ^ 9) (label_of simm)))
            ((label_of simm) % 2 == 0
              && (ltb (label_of simm) (2 ^ 21) || leb (2 ^ 32 - 2 ^ 21) (label_of simm)))
  unfolding thumb_assemble assemble_b listed b_cond_t1_noit_accepts b_cond_t3_noit_accepts
  b_cond-stored c simm lo hi h_simm = ground (
    arith,
    encode_b_cond_t1_noit_lem (record { cond = cond_of c; simm8 = label_of simm })
        (omega (arith, label_of-IsU32 simm, cond_of-small c lo hi)),
    encode_b_cond_t3_noit_lem (record { cond = cond_of c; simm21 = label_of simm })
        (omega (arith, label_of-IsU32 simm, cond_of-small c lo hi)),
  )
