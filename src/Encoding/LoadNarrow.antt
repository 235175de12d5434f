-- ===== src/Encoding/LoadNarrow.antt =====
-- The encodings of the 16-bit loads, from monitor/autogen_encodings/t32_encoding.c and .h.
pub mod RoundTrip
use tw_monitor.Common.{ℕ, ◌/◌, ◌^◌, Bool, Option, some, ◌==◌, guard, ◌>>◌}
use tw_monitor.Encoding.Macros.{Word, narrow, shl32, or16, or32, bit_extract, unsigned_check_fit}

pub record LdrIt1Parts : Type 0 where
  pub rt : ℕ
  pub rn : ℕ
  pub imm7 : ℕ

unfoldable pub match_ldr_i_t1 : ℕ → Bool
match_ldr_i_t1 field = bit_extract field 11 5 == 0xD

unfoldable pub encode_ldr_i_t1 : LdrIt1Parts → Option Word
encode_ldr_i_t1 parts = do
  let encoded : ℕ = 0x6800
  guard (bit_extract parts.imm7 0 2 == 0)
  guard (unsigned_check_fit (parts.imm7 / 2 ^ 2) 7)
  let imm5 = bit_extract parts.imm7 2 5
  let encoded1 = or16 encoded (shl32 imm5 6)
  guard (unsigned_check_fit parts.rn 3)
  let encoded2 = or16 encoded1 (shl32 parts.rn 3)
  guard (unsigned_check_fit parts.rt 3)
  let encoded3 = or16 encoded2 (shl32 parts.rt 0)
  some (narrow encoded3)

unfoldable pub decode_ldr_i_t1 : ℕ → LdrIt1Parts
decode_ldr_i_t1 field =
    let imm5 = bit_extract field 6 5 in
    let imm7 = or32 0 (shl32 imm5 0) in
    record { rt = bit_extract field 0 3; rn = bit_extract field 3 3; imm7 = shl32 imm7 2 }

pub record LdrIt2SponlyParts : Type 0 where
  pub rt : ℕ
  pub imm10 : ℕ

unfoldable pub match_ldr_i_t2_sponly : ℕ → Bool
match_ldr_i_t2_sponly field = bit_extract field 11 5 == 0x13

unfoldable pub encode_ldr_i_t2_sponly : LdrIt2SponlyParts → Option Word
encode_ldr_i_t2_sponly parts = do
  let encoded : ℕ = 0x9800
  guard (bit_extract parts.imm10 0 2 == 0)
  guard (unsigned_check_fit (parts.imm10 / 2 ^ 2) 10)
  let imm8 = bit_extract parts.imm10 2 8
  guard (unsigned_check_fit parts.rt 3)
  let encoded1 = or16 encoded (shl32 parts.rt 8)
  let encoded2 = or16 encoded1 (shl32 imm8 0)
  some (narrow encoded2)

unfoldable pub decode_ldr_i_t2_sponly : ℕ → LdrIt2SponlyParts
decode_ldr_i_t2_sponly field =
    let imm8 = bit_extract field 0 8 in
    let imm10 = or32 0 (shl32 imm8 0) in
    record { rt = bit_extract field 8 3; imm10 = shl32 imm10 2 }

pub record LdrLitT1Parts : Type 0 where
  pub rt : ℕ
  pub imm10 : ℕ

unfoldable pub match_ldr_lit_t1 : ℕ → Bool
match_ldr_lit_t1 field = bit_extract field 11 5 == 0x9

unfoldable pub encode_ldr_lit_t1 : LdrLitT1Parts → Option Word
encode_ldr_lit_t1 parts = do
  let encoded : ℕ = 0x4800
  guard (bit_extract parts.imm10 0 2 == 0)
  guard (unsigned_check_fit (parts.imm10 / 2 ^ 2) 10)
  let imm8 = bit_extract parts.imm10 2 8
  guard (unsigned_check_fit parts.rt 3)
  let encoded1 = or16 encoded (shl32 parts.rt 8)
  let encoded2 = or16 encoded1 (shl32 imm8 0)
  some (narrow encoded2)

unfoldable pub decode_ldr_lit_t1 : ℕ → LdrLitT1Parts
decode_ldr_lit_t1 field =
    let imm8 = bit_extract field 0 8 in
    let imm10 = or32 0 (shl32 imm8 0) in
    record { rt = bit_extract field 8 3; imm10 = shl32 imm10 2 }

pub record LdrRt1Parts : Type 0 where
  pub rm : ℕ
  pub rn : ℕ
  pub rt : ℕ

unfoldable pub match_ldr_r_t1 : ℕ → Bool
match_ldr_r_t1 field = bit_extract field 9 7 == 0x2C

unfoldable pub encode_ldr_r_t1 : LdrRt1Parts → Option Word
encode_ldr_r_t1 parts = do
  let encoded : ℕ = 0x5800
  guard (unsigned_check_fit parts.rm 3)
  let encoded1 = or16 encoded (shl32 parts.rm 6)
  guard (unsigned_check_fit parts.rn 3)
  let encoded2 = or16 encoded1 (shl32 parts.rn 3)
  guard (unsigned_check_fit parts.rt 3)
  let encoded3 = or16 encoded2 (shl32 parts.rt 0)
  some (narrow encoded3)

unfoldable pub decode_ldr_r_t1 : ℕ → LdrRt1Parts
decode_ldr_r_t1 field = record {
  rm = bit_extract field 6 3;
  rn = bit_extract field 3 3;
  rt = bit_extract field 0 3;
}
