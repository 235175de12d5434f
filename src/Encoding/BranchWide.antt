-- ===== src/Encoding/BranchWide.antt =====
-- The encodings of the 32-bit branches B and BL, from monitor/autogen_encodings/t32_encoding.c and .h.
pub mod Offset
pub mod Conditional
pub mod Jump
pub mod Link
use tw_monitor.Common.{ℕ, bit_and, bit_xor, Bool, ◌&&◌, Option, some, ◌==◌, guard, ◌>>◌}
use tw_monitor.Encoding.Macros.{Word, wide, not32, shl32, asr32, or32, bit_mask, bit_extract}
use tw_monitor.Encoding.Macros.{bit_extract_signed, unsigned_check_fit, signed_check_fit}
use tw_monitor.Encoding.Macros.{signed_extend}

pub record BCondT3NoitParts : Type 0 where
  pub cond : ℕ
  pub simm21 : ℕ

unfoldable pub match_b_cond_t3_noit : ℕ → Bool
match_b_cond_t3_noit field =
    (bit_extract field 30 2 == 0x2)
    && (bit_extract field 28 1 == 0x0)
    && (bit_extract field 11 5 == 0x1E)

unfoldable pub encode_b_cond_t3_noit : BCondT3NoitParts → Option Word
encode_b_cond_t3_noit parts = do
  let encoded : ℕ = 0x8000f000
  guard (bit_extract_signed parts.simm21 0 1 == 0)
  guard (signed_check_fit (asr32 parts.simm21 1) 21)
  let sign = bit_extract_signed parts.simm21 20 1
  let j2 = bit_extract_signed parts.simm21 19 1
  let j1 = bit_extract_signed parts.simm21 18 1
  let imm6 = bit_extract_signed parts.simm21 12 6
  let imm11 = bit_extract_signed parts.simm21 1 11
  let encoded1 = or32 encoded (shl32 j1 29)
  let encoded2 = or32 encoded1 (shl32 j2 27)
  let encoded3 = or32 encoded2 (shl32 imm11 16)
  let encoded4 = or32 encoded3 (shl32 sign 10)
  guard (unsigned_check_fit parts.cond 4)
  let encoded5 = or32 encoded4 (shl32 parts.cond 6)
  let encoded6 = or32 encoded5 (shl32 imm6 0)
  some (wide encoded6)

unfoldable pub decode_b_cond_t3_noit : ℕ → BCondT3NoitParts
decode_b_cond_t3_noit field =
    let j1 = bit_extract field 29 1 in
    let j2 = bit_extract field 27 1 in
    let imm11 = bit_extract field 16 11 in
    let sign = bit_extract field 10 1 in
    let imm6 = bit_extract field 0 6 in
    let simm21 =
      or32 (or32 (or32 (or32 (or32 0 (shl32 sign 19)) (shl32 j2 18)) (shl32 j1 17)) (shl32 imm6 11))
        (shl32 imm11 0) in
    record { cond = bit_extract field 6 4; simm21 = shl32 (signed_extend simm21 20) 1 }

pub record Bt4Parts : Type 0 where
  pub simm25 : ℕ

unfoldable pub match_b_t4 : ℕ → Bool
match_b_t4 field =
    (bit_extract field 30 2 == 0x2)
    && (bit_extract field 28 1 == 0x1)
    && (bit_extract field 11 5 == 0x1E)

unfoldable pub encode_b_t4 : Bt4Parts → Option Word
encode_b_t4 parts = do
  let encoded : ℕ = 0x9000f000
  guard (bit_extract_signed parts.simm25 0 1 == 0)
  guard (signed_check_fit (asr32 parts.simm25 1) 25)
  let sign = bit_extract_signed parts.simm25 24 1
  let i1 = bit_extract_signed parts.simm25 23 1
  let i2 = bit_extract_signed parts.simm25 22 1
  let imm10 = bit_extract_signed parts.simm25 12 10
  let imm11 = bit_extract_signed parts.simm25 1 11
  let encoded1 = or32 encoded (shl32 (bit_and (bit_xor (not32 i1) sign) (bit_mask 1)) 29)
  let encoded2 = or32 encoded1 (shl32 (bit_and (bit_xor (not32 i2) sign) (bit_mask 1)) 27)
  let encoded3 = or32 encoded2 (shl32 imm11 16)
  let encoded4 = or32 encoded3 (shl32 sign 10)
  let encoded5 = or32 encoded4 (shl32 imm10 0)
  some (wide encoded5)

unfoldable pub decode_b_t4 : ℕ → Bt4Parts
decode_b_t4 field =
    let imm11 = bit_extract field 16 11 in
    let sign = bit_extract field 10 1 in
    let imm10 = bit_extract field 0 10 in
    let i2 = bit_and (not32 (bit_xor (bit_extract field 27 1) sign)) (bit_mask 1) in
    let i1 = bit_and (not32 (bit_xor (bit_extract field 29 1) sign)) (bit_mask 1) in
    let simm25 =
      or32
        (or32 (or32 (or32 (or32 0 (shl32 sign 23)) (shl32 i1 22)) (shl32 i2 21)) (shl32 imm10 11))
        (shl32 imm11 0) in
    record { simm25 = shl32 (signed_extend simm25 24) 1 }

pub record BlT1Parts : Type 0 where
  pub simm25 : ℕ

unfoldable pub match_bl_t1 : ℕ → Bool
match_bl_t1 field =
    (bit_extract field 30 2 == 0x3)
    && (bit_extract field 28 1 == 0x1)
    && (bit_extract field 11 5 == 0x1E)

unfoldable pub encode_bl_t1 : BlT1Parts → Option Word
encode_bl_t1 parts = do
  let encoded : ℕ = 0xd000f000
  guard (bit_extract_signed parts.simm25 0 1 == 0)
  guard (signed_check_fit (asr32 parts.simm25 1) 25)
  let sign = bit_extract_signed parts.simm25 24 1
  let i1 = bit_extract_signed parts.simm25 23 1
  let i2 = bit_extract_signed parts.simm25 22 1
  let imm10 = bit_extract_signed parts.simm25 12 10
  let imm11 = bit_extract_signed parts.simm25 1 11
  let encoded1 = or32 encoded (shl32 (bit_and (bit_xor (not32 i1) sign) (bit_mask 1)) 29)
  let encoded2 = or32 encoded1 (shl32 (bit_and (bit_xor (not32 i2) sign) (bit_mask 1)) 27)
  let encoded3 = or32 encoded2 (shl32 imm11 16)
  let encoded4 = or32 encoded3 (shl32 sign 10)
  let encoded5 = or32 encoded4 (shl32 imm10 0)
  some (wide encoded5)

unfoldable pub decode_bl_t1 : ℕ → BlT1Parts
decode_bl_t1 field =
    let imm11 = bit_extract field 16 11 in
    let sign = bit_extract field 10 1 in
    let imm10 = bit_extract field 0 10 in
    let i2 = bit_and (not32 (bit_xor (bit_extract field 27 1) sign)) (bit_mask 1) in
    let i1 = bit_and (not32 (bit_xor (bit_extract field 29 1) sign)) (bit_mask 1) in
    let simm25 =
      or32
        (or32 (or32 (or32 (or32 0 (shl32 sign 23)) (shl32 i1 22)) (shl32 i2 21)) (shl32 imm10 11))
        (shl32 imm11 0) in
    record { simm25 = shl32 (signed_extend simm25 24) 1 }
