-- ===== src/Encoding/Add.antt =====
-- The encodings of ADD, ADDS and ADDW, from monitor/autogen_encodings/t32_encoding.c and .h.
pub mod RoundTrip
use tw_monitor.Common.{ℕ, ◌/◌, ◌^◌, Bool, ◌&&◌, Option, some, ◌==◌, guard, ◌>>◌}
use tw_monitor.Encoding.Macros.{Word, narrow, wide, shl32, or16, or32, bit_extract}
use tw_monitor.Encoding.Macros.{unsigned_check_fit}

pub record AddsIt1Parts : Type 0 where
  pub imm3 : ℕ
  pub rn : ℕ
  pub rd : ℕ

unfoldable pub match_adds_i_t1 : ℕ → Bool
match_adds_i_t1 field = bit_extract field 9 7 == 0xE

unfoldable pub encode_adds_i_t1 : AddsIt1Parts → Option Word
encode_adds_i_t1 parts = do
  let encoded : ℕ = 0x1c00
  guard (unsigned_check_fit parts.imm3 3)
  let encoded1 = or16 encoded (shl32 parts.imm3 6)
  guard (unsigned_check_fit parts.rn 3)
  let encoded2 = or16 encoded1 (shl32 parts.rn 3)
  guard (unsigned_check_fit parts.rd 3)
  let encoded3 = or16 encoded2 (shl32 parts.rd 0)
  some (narrow encoded3)

unfoldable pub decode_adds_i_t1 : ℕ → AddsIt1Parts
decode_adds_i_t1 field = record {
  imm3 = bit_extract field 6 3;
  rn = bit_extract field 3 3;
  rd = bit_extract field 0 3;
}

pub record AddsIt2Parts : Type 0 where
  pub rdn : ℕ
  pub imm8 : ℕ

unfoldable pub match_adds_i_t2 : ℕ → Bool
match_adds_i_t2 field = bit_extract field 11 5 == 0x6

unfoldable pub encode_adds_i_t2 : AddsIt2Parts → Option Word
encode_adds_i_t2 parts = do
  let encoded : ℕ = 0x3000
  guard (unsigned_check_fit parts.rdn 3)
  let encoded1 = or16 encoded (shl32 parts.rdn 8)
  guard (unsigned_check_fit parts.imm8 8)
  let encoded2 = or16 encoded1 (shl32 parts.imm8 0)
  some (narrow encoded2)

unfoldable pub decode_adds_i_t2 : ℕ → AddsIt2Parts
decode_adds_i_t2 field = record { rdn = bit_extract field 8 3; imm8 = bit_extract field 0 8 }

pub record AddwIt4Parts : Type 0 where
  pub rd : ℕ
  pub rn : ℕ
  pub imm12 : ℕ

unfoldable pub match_addw_i_t4 : ℕ → Bool
match_addw_i_t4 field =
    (bit_extract field 31 1 == 0x0)
    && (bit_extract field 11 5 == 0x1E)
    && (bit_extract field 4 6 == 0x20)

unfoldable pub encode_addw_i_t4 : AddwIt4Parts → Option Word
encode_addw_i_t4 parts = do
  let encoded : ℕ = 0xf200
  guard (unsigned_check_fit (parts.imm12 / 2 ^ 0) 12)
  let i = bit_extract parts.imm12 11 1
  let imm3 = bit_extract parts.imm12 8 3
  let imm8 = bit_extract parts.imm12 0 8
  let encoded1 = or32 encoded (shl32 imm3 28)
  guard (unsigned_check_fit parts.rd 4)
  let encoded2 = or32 encoded1 (shl32 parts.rd 24)
  let encoded3 = or32 encoded2 (shl32 imm8 16)
  let encoded4 = or32 encoded3 (shl32 i 10)
  guard (unsigned_check_fit parts.rn 4)
  let encoded5 = or32 encoded4 (shl32 parts.rn 0)
  some (wide encoded5)

unfoldable pub decode_addw_i_t4 : ℕ → AddwIt4Parts
decode_addw_i_t4 field =
    let imm3 = bit_extract field 28 3 in
    let imm8 = bit_extract field 16 8 in
    let i = bit_extract field 10 1 in
    record {
      rd = bit_extract field 24 4;
      rn = bit_extract field 0 4;
      imm12 = or32 (or32 (or32 0 (shl32 i 11)) (shl32 imm3 8)) (shl32 imm8 0);
    }

pub record AddsRt1Parts : Type 0 where
  pub rm : ℕ
  pub rn : ℕ
  pub rd : ℕ

unfoldable pub match_adds_r_t1 : ℕ → Bool
match_adds_r_t1 field = bit_extract field 9 7 == 0xC

unfoldable pub encode_adds_r_t1 : AddsRt1Parts → Option Word
encode_adds_r_t1 parts = do
  let encoded : ℕ = 0x1800
  guard (unsigned_check_fit parts.rm 3)
  let encoded1 = or16 encoded (shl32 parts.rm 6)
  guard (unsigned_check_fit parts.rn 3)
  let encoded2 = or16 encoded1 (shl32 parts.rn 3)
  guard (unsigned_check_fit parts.rd 3)
  let encoded3 = or16 encoded2 (shl32 parts.rd 0)
  some (narrow encoded3)

unfoldable pub decode_adds_r_t1 : ℕ → AddsRt1Parts
decode_adds_r_t1 field = record {
  rm = bit_extract field 6 3;
  rn = bit_extract field 3 3;
  rd = bit_extract field 0 3;
}

pub record AddRt2Parts : Type 0 where
  pub rdn : ℕ
  pub rm : ℕ

unfoldable pub match_add_r_t2 : ℕ → Bool
match_add_r_t2 field = bit_extract field 8 8 == 0x44

unfoldable pub encode_add_r_t2 : AddRt2Parts → Option Word
encode_add_r_t2 parts = do
  let encoded : ℕ = 0x4400
  guard (unsigned_check_fit (parts.rdn / 2 ^ 0) 4)
  let rdn_3 = bit_extract parts.rdn 3 1
  let rdn_2_0 = bit_extract parts.rdn 0 3
  let encoded1 = or16 encoded (shl32 rdn_3 7)
  guard (unsigned_check_fit parts.rm 4)
  let encoded2 = or16 encoded1 (shl32 parts.rm 3)
  let encoded3 = or16 encoded2 (shl32 rdn_2_0 0)
  some (narrow encoded3)

unfoldable pub decode_add_r_t2 : ℕ → AddRt2Parts
decode_add_r_t2 field =
    let rdn_3 = bit_extract field 7 1 in
    let rdn_2_0 = bit_extract field 0 3 in
    record { rdn = or32 (or32 0 (shl32 rdn_3 3)) (shl32 rdn_2_0 0); rm = bit_extract field 3 4 }
