-- ===== src/Encoding/Gaps.antt =====
-- Offsets that the encoders of monitor/autogen_encodings/t32_encoding.c accept and their fields cannot
-- hold: the range check is made on the shifted offset with the width of the unshifted one.
use tw_monitor.Common.{ℕ, ◌+◌, ◌-◌, ◌*◌, ◌/◌, ◌%◌, ◌^◌, ◌≤◌, ◌<◌, ◌≡◌, refl, some, arith}
use tw_monitor.Encoding.Macros.{narrow, shl32, bit_extract_lem, or32_lem, signed_extend_lem}
use tw_monitor.Encoding.BranchNarrow.{encode_b_t2, decode_b_t2}
use tw_monitor.Encoding.BranchNarrow.{encode_b_cond_t1_noit, decode_b_cond_t1_noit}
use tw_monitor.Encoding.BranchNarrow.RoundTrip.{b_t2_accepts, b_t2_word, encode_b_t2_lem}
use tw_monitor.Encoding.BranchNarrow.RoundTrip.{b_cond_t1_noit_accepts, b_cond_t1_noit_word}
use tw_monitor.Encoding.BranchNarrow.RoundTrip.{encode_b_cond_t1_noit_lem}
use tw_monitor.Encoding.LoadNarrow.{encode_ldr_i_t1, decode_ldr_i_t1}
use tw_monitor.Encoding.LoadNarrow.RoundTrip.{ldr_i_t1_accepts, ldr_i_t1_word, encode_ldr_i_t1_lem}

-- B (T2) accepts an even offset from 2^11 up to 2^12, and encodes the one 2^12 lower.
pub b_t2-wraps :
    (simm11 : ℕ)
    → simm11 % 2 ≡ 0
    → 2 ^ 11 ≤ simm11
    → simm11 < 2 ^ 12
    → (encode_b_t2 (record { simm11 = simm11 })
        ≡ some (narrow (b_t2_word (record { simm11 = simm11 }))))
      × (decode_b_t2 (b_t2_word (record { simm11 = simm11 }))
          ≡ record { simm11 = simm11 + (2 ^ 32 - 2 ^ 12) })
unfolding b_t2_accepts b_t2_word decode_b_t2 shl32
b_t2-wraps simm11 even lo hi =
    let w = b_t2_word (record { simm11 = simm11 }) in
    ground (
      arith,
      encode_b_t2_lem (record { simm11 = simm11 }) (omega arith),
      bit_extract_lem w 0 11,
      or32_lem 0 11 0 (w / 2 ^ 0 % 2 ^ 11),
      signed_extend_lem 11 10 21 (0 + (w / 2 ^ 0 % 2 ^ 11) * 2 ^ 0) refl refl refl,
    )

-- B with a condition (T1) accepts an even offset from 2^8 up to 2^9, and encodes the one 2^9 lower.
pub b_cond_t1_noit-wraps :
    (cond simm8 : ℕ)
    → cond < 2 ^ 4
    → simm8 % 2 ≡ 0
    → 2 ^ 8 ≤ simm8
    → simm8 < 2 ^ 9
    → (encode_b_cond_t1_noit (record { cond = cond; simm8 = simm8 })
        ≡ some (narrow (b_cond_t1_noit_word (record { cond = cond; simm8 = simm8 }))))
      × (decode_b_cond_t1_noit (b_cond_t1_noit_word (record { cond = cond; simm8 = simm8 }))
          ≡ record { cond = cond; simm8 = simm8 + (2 ^ 32 - 2 ^ 9) })
unfolding b_cond_t1_noit_accepts b_cond_t1_noit_word decode_b_cond_t1_noit shl32
b_cond_t1_noit-wraps cond simm8 c even lo hi =
    let w = b_cond_t1_noit_word (record { cond = cond; simm8 = simm8 }) in
    ground (
      arith,
      encode_b_cond_t1_noit_lem (record { cond = cond; simm8 = simm8 }) (omega arith),
      bit_extract_lem w 8 4,
      bit_extract_lem w 0 8,
      or32_lem 0 8 0 (w / 2 ^ 0 % 2 ^ 8),
      signed_extend_lem 8 7 24 (0 + (w / 2 ^ 0 % 2 ^ 8) * 2 ^ 0) refl refl refl,
    )

-- LDR (immediate, T1) accepts an offset below 2^9 that is a multiple of 4, and encodes what is left
-- of it modulo 2^7.
pub ldr_i_t1-wraps :
    (rt rn imm7 : ℕ)
    → rt < 2 ^ 3
    → rn < 2 ^ 3
    → imm7 % 4 ≡ 0
    → imm7 < 2 ^ 9
    → (encode_ldr_i_t1 (record { rt = rt; rn = rn; imm7 = imm7 })
        ≡ some (narrow (ldr_i_t1_word (record { rt = rt; rn = rn; imm7 = imm7 }))))
      × (decode_ldr_i_t1 (ldr_i_t1_word (record { rt = rt; rn = rn; imm7 = imm7 }))
          ≡ record { rt = rt; rn = rn; imm7 = imm7 % 2 ^ 7 })
unfolding ldr_i_t1_accepts ldr_i_t1_word decode_ldr_i_t1 shl32
ldr_i_t1-wraps rt rn imm7 t n four hi =
    let w = ldr_i_t1_word (record { rt = rt; rn = rn; imm7 = imm7 }) in
    ground (
      arith,
      encode_ldr_i_t1_lem (record { rt = rt; rn = rn; imm7 = imm7 }) (omega arith),
      bit_extract_lem w 6 5,
      bit_extract_lem w 3 3,
      bit_extract_lem w 0 3,
      or32_lem 0 5 0 (w / 2 ^ 6 % 2 ^ 5),
    )
