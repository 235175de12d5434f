-- ===== src/Encoding/Sub.antt =====
-- The encodings of SUBS and SUBW, from monitor/autogen_encodings/t32_encoding.c and .h.
pub mod RoundTrip
use tw_monitor.Common.{ℕ, ◌/◌, ◌^◌, Bool, ◌&&◌, Option, some, ◌==◌, guard, ◌>>◌}
use tw_monitor.Encoding.Macros.{Word, narrow, wide, shl32, or16, or32, bit_extract}
use tw_monitor.Encoding.Macros.{unsigned_check_fit}

pub record SubsIt1Parts : Type 0 where
  pub imm3 : ℕ
  pub rn : ℕ
  pub rd : ℕ

unfoldable pub match_subs_i_t1 : ℕ → Bool
match_subs_i_t1 field = bit_extract field 9 7 == 0xF

unfoldable pub encode_subs_i_t1 : SubsIt1Parts → Option Word
encode_subs_i_t1 parts = do
  let encoded : ℕ = 0x1e00
  guard (unsigned_check_fit parts.imm3 3)
  let encoded1 = or16 encoded (shl32 parts.imm3 6)
  guard (unsigned_check_fit parts.rn 3)
  let encoded2 = or16 encoded1 (shl32 parts.rn 3)
  guard (unsigned_check_fit parts.rd 3)
  let encoded3 = or16 encoded2 (shl32 parts.rd 0)
  some (narrow encoded3)

unfoldable pub decode_subs_i_t1 : ℕ → SubsIt1Parts
decode_subs_i_t1 field = record {
  imm3 = bit_extract field 6 3;
  rn = bit_extract field 3 3;
  rd = bit_extract field 0 3;
}

pub record SubsIt2Parts : Type 0 where
  pub rdn : ℕ
  pub imm8 : ℕ

unfoldable pub match_subs_i_t2 : ℕ → Bool
match_subs_i_t2 field = bit_extract field 11 5 == 0x7

unfoldable pub encode_subs_i_t2 : SubsIt2Parts → Option Word
encode_subs_i_t2 parts = do
  let encoded : ℕ = 0x3800
  guard (unsigned_check_fit parts.rdn 3)
  let encoded1 = or16 encoded (shl32 parts.rdn 8)
  guard (unsigned_check_fit parts.imm8 8)
  let encoded2 = or16 encoded1 (shl32 parts.imm8 0)
  some (narrow encoded2)

unfoldable pub decode_subs_i_t2 : ℕ → SubsIt2Parts
decode_subs_i_t2 field = record { rdn = bit_extract field 8 3; imm8 = bit_extract field 0 8 }

pub record SubwIt4Parts : Type 0 where
  pub rd : ℕ
  pub rn : ℕ
  pub imm12 : ℕ

unfoldable pub match_subw_i_t4 : ℕ → Bool
match_subw_i_t4 field =
    (bit_extract field 31 1 == 0x0)
    && (bit_extract field 11 5 == 0x1E)
    && (bit_extract field 4 6 == 0x2A)

unfoldable pub encode_subw_i_t4 : SubwIt4Parts → Option Word
encode_subw_i_t4 parts = do
  let encoded : ℕ = 0xf2a0
  guard (unsigned_check_fit (parts.imm12 / 2 ^ 0) 12)
  let i = bit_extract parts.imm12 11 1
  let imm3 = bit_extract parts.imm12 8 3
  let imm8 = bit_extract parts.imm12 0 8
  let encoded1 = or32 encoded (shl32 imm3 28)
  guard (unsigned_check_fit parts.rd 4)
  let encoded2 = or32 encoded1 (shl32 parts.rd 24)
  let encoded3 = or32 encoded2 (shl32 imm8 16)
  let encoded4 = or32 encoded3 (shl32 i 10)
  guard (unsigned_check_fit parts.rn 4)
  let encoded5 = or32 encoded4 (shl32 parts.rn 0)
  some (wide encoded5)

unfoldable pub decode_subw_i_t4 : ℕ → SubwIt4Parts
decode_subw_i_t4 field =
    let imm3 = bit_extract field 28 3 in
    let imm8 = bit_extract field 16 8 in
    let i = bit_extract field 10 1 in
    record {
      rd = bit_extract field 24 4;
      rn = bit_extract field 0 4;
      imm12 = or32 (or32 (or32 0 (shl32 i 11)) (shl32 imm3 8)) (shl32 imm8 0);
    }

pub record SubsRt1Parts : Type 0 where
  pub rm : ℕ
  pub rn : ℕ
  pub rd : ℕ

unfoldable pub match_subs_r_t1 : ℕ → Bool
match_subs_r_t1 field = bit_extract field 9 7 == 0xD

unfoldable pub encode_subs_r_t1 : SubsRt1Parts → Option Word
encode_subs_r_t1 parts = do
  let encoded : ℕ = 0x1a00
  guard (unsigned_check_fit parts.rm 3)
  let encoded1 = or16 encoded (shl32 parts.rm 6)
  guard (unsigned_check_fit parts.rn 3)
  let encoded2 = or16 encoded1 (shl32 parts.rn 3)
  guard (unsigned_check_fit parts.rd 3)
  let encoded3 = or16 encoded2 (shl32 parts.rd 0)
  some (narrow encoded3)

unfoldable pub decode_subs_r_t1 : ℕ → SubsRt1Parts
decode_subs_r_t1 field = record {
  rm = bit_extract field 6 3;
  rn = bit_extract field 3 3;
  rd = bit_extract field 0 3;
}
