-- ===== src/Encoding/Compare.antt =====
-- The encodings of CMP, from monitor/autogen_encodings/t32_encoding.c and .h.
pub mod RoundTrip
use tw_monitor.Common.{ℕ, ◌/◌, ◌^◌, Bool, Option, some, ◌==◌, guard, ◌>>◌}
use tw_monitor.Encoding.Macros.{Word, narrow, shl32, or16, or32, bit_extract, unsigned_check_fit}

pub record CmpIt1Parts : Type 0 where
  pub rn : ℕ
  pub imm8 : ℕ

unfoldable pub match_cmp_i_t1 : ℕ → Bool
match_cmp_i_t1 field = bit_extract field 11 5 == 0x5

unfoldable pub encode_cmp_i_t1 : CmpIt1Parts → Option Word
encode_cmp_i_t1 parts = do
  let encoded : ℕ = 0x2800
  guard (unsigned_check_fit parts.rn 3)
  let encoded1 = or16 encoded (shl32 parts.rn 8)
  guard (unsigned_check_fit parts.imm8 8)
  let encoded2 = or16 encoded1 (shl32 parts.imm8 0)
  some (narrow encoded2)

unfoldable pub decode_cmp_i_t1 : ℕ → CmpIt1Parts
decode_cmp_i_t1 field = record { rn = bit_extract field 8 3; imm8 = bit_extract field 0 8 }

pub record CmpRt1Parts : Type 0 where
  pub rm : ℕ
  pub rn : ℕ

unfoldable pub match_cmp_r_t1 : ℕ → Bool
match_cmp_r_t1 field = bit_extract field 6 10 == 0x10A

unfoldable pub encode_cmp_r_t1 : CmpRt1Parts → Option Word
encode_cmp_r_t1 parts = do
  let encoded : ℕ = 0x4280
  guard (unsigned_check_fit parts.rm 3)
  let encoded1 = or16 encoded (shl32 parts.rm 3)
  guard (unsigned_check_fit parts.rn 3)
  let encoded2 = or16 encoded1 (shl32 parts.rn 0)
  some (narrow encoded2)

unfoldable pub decode_cmp_r_t1 : ℕ → CmpRt1Parts
decode_cmp_r_t1 field = record { rm = bit_extract field 3 3; rn = bit_extract field 0 3 }

pub record CmpRt2Parts : Type 0 where
  pub rn : ℕ
  pub rm : ℕ

unfoldable pub match_cmp_r_t2 : ℕ → Bool
match_cmp_r_t2 field = bit_extract field 8 8 == 0x45

unfoldable pub encode_cmp_r_t2 : CmpRt2Parts → Option Word
encode_cmp_r_t2 parts = do
  let encoded : ℕ = 0x4500
  guard (unsigned_check_fit (parts.rn / 2 ^ 0) 4)
  let rn_3 = bit_extract parts.rn 3 1
  let rn_2_0 = bit_extract parts.rn 0 3
  let encoded1 = or16 encoded (shl32 rn_3 7)
  guard (unsigned_check_fit parts.rm 4)
  let encoded2 = or16 encoded1 (shl32 parts.rm 3)
  let encoded3 = or16 encoded2 (shl32 rn_2_0 0)
  some (narrow encoded3)

unfoldable pub decode_cmp_r_t2 : ℕ → CmpRt2Parts
decode_cmp_r_t2 field =
    let rn_3 = bit_extract field 7 1 in
    let rn_2_0 = bit_extract field 0 3 in
    record { rn = or32 (or32 0 (shl32 rn_3 3)) (shl32 rn_2_0 0); rm = bit_extract field 3 4 }
