-- ===== src/Encoding/BranchNarrow.antt =====
-- The encodings of the 16-bit branches B, BLX and BX, from monitor/autogen_encodings/t32_encoding.c and .h.
pub mod RoundTrip
use tw_monitor.Common.{ℕ, Bool, ◌&&◌, Option, some, ◌==◌, guard, ◌>>◌}
use tw_monitor.Encoding.Macros.{Word, narrow, shl32, asr32, or16, or32, bit_extract}
use tw_monitor.Encoding.Macros.{bit_extract_signed, unsigned_check_fit, signed_check_fit}
use tw_monitor.Encoding.Macros.{signed_extend}

pub record BCondT1NoitParts : Type 0 where
  pub cond : ℕ
  pub simm8 : ℕ

unfoldable pub match_b_cond_t1_noit : ℕ → Bool
match_b_cond_t1_noit field = bit_extract field 12 4 == 0xD

unfoldable pub encode_b_cond_t1_noit : BCondT1NoitParts → Option Word
encode_b_cond_t1_noit parts = do
  let encoded : ℕ = 0xd000
  guard (bit_extract_signed parts.simm8 0 1 == 0)
  guard (signed_check_fit (asr32 parts.simm8 1) 9)
  let imm8 = bit_extract_signed parts.simm8 1 8
  guard (unsigned_check_fit parts.cond 4)
  let encoded1 = or16 encoded (shl32 parts.cond 8)
  let encoded2 = or16 encoded1 (shl32 imm8 0)
  some (narrow encoded2)

unfoldable pub decode_b_cond_t1_noit : ℕ → BCondT1NoitParts
decode_b_cond_t1_noit field =
    let imm8 = bit_extract field 0 8 in
    let simm8 = or32 0 (shl32 imm8 0) in
    record { cond = bit_extract field 8 4; simm8 = shl32 (signed_extend simm8 8) 1 }

pub record Bt2Parts : Type 0 where
  pub simm11 : ℕ

unfoldable pub match_b_t2 : ℕ → Bool
match_b_t2 field = bit_extract field 11 5 == 0x1C

unfoldable pub encode_b_t2 : Bt2Parts → Option Word
encode_b_t2 parts = do
  let encoded : ℕ = 0xe000
  guard (bit_extract_signed parts.simm11 0 1 == 0)
  guard (signed_check_fit (asr32 parts.simm11 1) 12)
  let imm11 = bit_extract_signed parts.simm11 1 11
  let encoded1 = or16 encoded (shl32 imm11 0)
  some (narrow encoded1)

unfoldable pub decode_b_t2 : ℕ → Bt2Parts
decode_b_t2 field =
    let imm11 = bit_extract field 0 11 in
    let simm11 = or32 0 (shl32 imm11 0) in record { simm11 = shl32 (signed_extend simm11 11) 1 }

pub record BlxT1Parts : Type 0 where
  pub rm : ℕ

unfoldable pub match_blx_t1 : ℕ → Bool
match_blx_t1 field = (bit_extract field 7 9 == 0x8F) && (bit_extract field 0 3 == 0x0)

unfoldable pub encode_blx_t1 : BlxT1Parts → Option Word
encode_blx_t1 parts = do
  let encoded : ℕ = 0x4780
  guard (unsigned_check_fit parts.rm 4)
  let encoded1 = or16 encoded (shl32 parts.rm 3)
  some (narrow encoded1)

unfoldable pub decode_blx_t1 : ℕ → BlxT1Parts
decode_blx_t1 field = record { rm = bit_extract field 3 4 }

pub record BxT1Parts : Type 0 where
  pub rm : ℕ

unfoldable pub match_bx_t1 : ℕ → Bool
match_bx_t1 field = (bit_extract field 7 9 == 0x8E) && (bit_extract field 0 3 == 0x0)

unfoldable pub encode_bx_t1 : BxT1Parts → Option Word
encode_bx_t1 parts = do
  let encoded : ℕ = 0x4700
  guard (unsigned_check_fit parts.rm 4)
  let encoded1 = or16 encoded (shl32 parts.rm 3)
  some (narrow encoded1)

unfoldable pub decode_bx_t1 : ℕ → BxT1Parts
decode_bx_t1 field = record { rm = bit_extract field 3 4 }
