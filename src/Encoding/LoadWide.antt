-- ===== src/Encoding/LoadWide.antt =====
-- The encodings of the 32-bit loads, from monitor/autogen_encodings/t32_encoding.c and .h.
pub mod RoundTrip
use tw_monitor.Common.{ℕ, Bool, ◌&&◌, Option, some, ◌==◌, guard, ◌>>◌}
use tw_monitor.Encoding.Macros.{Word, wide, shl32, or32, bit_extract, unsigned_check_fit}

pub record LdrIt3Parts : Type 0 where
  pub rt : ℕ
  pub imm12 : ℕ
  pub rn : ℕ

unfoldable pub match_ldr_i_t3 : ℕ → Bool
match_ldr_i_t3 field = bit_extract field 4 12 == 0xF8D

unfoldable pub encode_ldr_i_t3 : LdrIt3Parts → Option Word
encode_ldr_i_t3 parts = do
  let encoded : ℕ = 0xf8d0
  guard (unsigned_check_fit parts.rt 4)
  let encoded1 = or32 encoded (shl32 parts.rt 28)
  guard (unsigned_check_fit parts.imm12 12)
  let encoded2 = or32 encoded1 (shl32 parts.imm12 16)
  guard (unsigned_check_fit parts.rn 4)
  let encoded3 = or32 encoded2 (shl32 parts.rn 0)
  some (wide encoded3)

unfoldable pub decode_ldr_i_t3 : ℕ → LdrIt3Parts
decode_ldr_i_t3 field = record {
  rt = bit_extract field 28 4;
  imm12 = bit_extract field 16 12;
  rn = bit_extract field 0 4;
}

pub record LdrIt4Parts : Type 0 where
  pub rt : ℕ
  pub index : ℕ
  pub add : ℕ
  pub writeback : ℕ
  pub imm8 : ℕ
  pub rn : ℕ

unfoldable pub match_ldr_i_t4 : ℕ → Bool
match_ldr_i_t4 field = (bit_extract field 27 1 == 0x1) && (bit_extract field 4 12 == 0xF85)

unfoldable pub encode_ldr_i_t4 : LdrIt4Parts → Option Word
encode_ldr_i_t4 parts = do
  let encoded : ℕ = 0x800f850
  guard (unsigned_check_fit parts.rt 4)
  let encoded1 = or32 encoded (shl32 parts.rt 28)
  guard (unsigned_check_fit parts.index 1)
  let encoded2 = or32 encoded1 (shl32 parts.index 26)
  guard (unsigned_check_fit parts.add 1)
  let encoded3 = or32 encoded2 (shl32 parts.add 25)
  guard (unsigned_check_fit parts.writeback 1)
  let encoded4 = or32 encoded3 (shl32 parts.writeback 24)
  guard (unsigned_check_fit parts.imm8 8)
  let encoded5 = or32 encoded4 (shl32 parts.imm8 16)
  guard (unsigned_check_fit parts.rn 4)
  let encoded6 = or32 encoded5 (shl32 parts.rn 0)
  some (wide encoded6)

unfoldable pub decode_ldr_i_t4 : ℕ → LdrIt4Parts
decode_ldr_i_t4 field = record {
  rt = bit_extract field 28 4;
  index = bit_extract field 26 1;
  add = bit_extract field 25 1;
  writeback = bit_extract field 24 1;
  imm8 = bit_extract field 16 8;
  rn = bit_extract field 0 4;
}

pub record LdrLitT2Parts : Type 0 where
  pub rt : ℕ
  pub imm12 : ℕ
  pub add : ℕ

unfoldable pub match_ldr_lit_t2 : ℕ → Bool
match_ldr_lit_t2 field = (bit_extract field 8 8 == 0xF8) && (bit_extract field 0 7 == 0x5F)

unfoldable pub encode_ldr_lit_t2 : LdrLitT2Parts → Option Word
encode_ldr_lit_t2 parts = do
  let encoded : ℕ = 0xf85f
  guard (unsigned_check_fit parts.rt 4)
  let encoded1 = or32 encoded (shl32 parts.rt 28)
  guard (unsigned_check_fit parts.imm12 12)
  let encoded2 = or32 encoded1 (shl32 parts.imm12 16)
  guard (unsigned_check_fit parts.add 1)
  let encoded3 = or32 encoded2 (shl32 parts.add 7)
  some (wide encoded3)

unfoldable pub decode_ldr_lit_t2 : ℕ → LdrLitT2Parts
decode_ldr_lit_t2 field = record {
  rt = bit_extract field 28 4;
  imm12 = bit_extract field 16 12;
  add = bit_extract field 7 1;
}

pub record LdrRt2LslParts : Type 0 where
  pub rt : ℕ
  pub lsl_shift_imm2 : ℕ
  pub rm : ℕ
  pub rn : ℕ

unfoldable pub match_ldr_r_t2_lsl : ℕ → Bool
match_ldr_r_t2_lsl field = (bit_extract field 22 6 == 0x0) && (bit_extract field 4 12 == 0xF85)

unfoldable pub encode_ldr_r_t2_lsl : LdrRt2LslParts → Option Word
encode_ldr_r_t2_lsl parts = do
  let encoded : ℕ = 0xf850
  guard (unsigned_check_fit parts.rt 4)
  let encoded1 = or32 encoded (shl32 parts.rt 28)
  guard (unsigned_check_fit parts.lsl_shift_imm2 2)
  let encoded2 = or32 encoded1 (shl32 parts.lsl_shift_imm2 20)
  guard (unsigned_check_fit parts.rm 4)
  let encoded3 = or32 encoded2 (shl32 parts.rm 16)
  guard (unsigned_check_fit parts.rn 4)
  let encoded4 = or32 encoded3 (shl32 parts.rn 0)
  some (wide encoded4)

unfoldable pub decode_ldr_r_t2_lsl : ℕ → LdrRt2LslParts
decode_ldr_r_t2_lsl field = record {
  rt = bit_extract field 28 4;
  lsl_shift_imm2 = bit_extract field 20 2;
  rm = bit_extract field 16 4;
  rn = bit_extract field 0 4;
}
