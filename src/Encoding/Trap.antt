-- ===== src/Encoding/Trap.antt =====
-- The encodings of BKPT, SVC, UDF and NOP, from monitor/autogen_encodings/t32_encoding.c and .h.
pub mod RoundTrip
use tw_monitor.Common.{ℕ, ◌/◌, ◌^◌, Bool, ◌&&◌, Option, some, ◌==◌, guard, ◌>>◌}
use tw_monitor.Encoding.Macros.{Word, narrow, wide, shl32, or16, or32, bit_extract}
use tw_monitor.Encoding.Macros.{unsigned_check_fit}

pub record BkptT1Parts : Type 0 where
  pub imm8 : ℕ

unfoldable pub match_bkpt_t1 : ℕ → Bool
match_bkpt_t1 field = bit_extract field 8 8 == 0xBE

unfoldable pub encode_bkpt_t1 : BkptT1Parts → Option Word
encode_bkpt_t1 parts = do
  let encoded : ℕ = 0xbe00
  guard (unsigned_check_fit parts.imm8 8)
  let encoded1 = or16 encoded (shl32 parts.imm8 0)
  some (narrow encoded1)

unfoldable pub decode_bkpt_t1 : ℕ → BkptT1Parts
decode_bkpt_t1 field = record { imm8 = bit_extract field 0 8 }

pub record SvcT1Parts : Type 0 where
  pub imm8 : ℕ

unfoldable pub match_svc_t1 : ℕ → Bool
match_svc_t1 field = bit_extract field 8 8 == 0xDF

unfoldable pub encode_svc_t1 : SvcT1Parts → Option Word
encode_svc_t1 parts = do
  let encoded : ℕ = 0xdf00
  guard (unsigned_check_fit parts.imm8 8)
  let encoded1 = or16 encoded (shl32 parts.imm8 0)
  some (narrow encoded1)

unfoldable pub decode_svc_t1 : ℕ → SvcT1Parts
decode_svc_t1 field = record { imm8 = bit_extract field 0 8 }

pub record UdfT1Parts : Type 0 where
  pub imm8 : ℕ

unfoldable pub match_udf_t1 : ℕ → Bool
match_udf_t1 field = bit_extract field 8 8 == 0xDE

unfoldable pub encode_udf_t1 : UdfT1Parts → Option Word
encode_udf_t1 parts = do
  let encoded : ℕ = 0xde00
  guard (unsigned_check_fit parts.imm8 8)
  let encoded1 = or16 encoded (shl32 parts.imm8 0)
  some (narrow encoded1)

unfoldable pub decode_udf_t1 : ℕ → UdfT1Parts
decode_udf_t1 field = record { imm8 = bit_extract field 0 8 }

pub record UdfT2Parts : Type 0 where
  pub imm16 : ℕ

unfoldable pub match_udf_t2 : ℕ → Bool
match_udf_t2 field = (bit_extract field 28 4 == 0xA) && (bit_extract field 4 12 == 0xF7F)

unfoldable pub encode_udf_t2 : UdfT2Parts → Option Word
encode_udf_t2 parts = do
  let encoded : ℕ = 0xa000f7f0
  guard (unsigned_check_fit (parts.imm16 / 2 ^ 0) 16)
  let imm4 = bit_extract parts.imm16 12 4
  let imm12 = bit_extract parts.imm16 0 12
  let encoded1 = or32 encoded (shl32 imm12 16)
  let encoded2 = or32 encoded1 (shl32 imm4 0)
  some (wide encoded2)

unfoldable pub decode_udf_t2 : ℕ → UdfT2Parts
decode_udf_t2 field =
    let imm12 = bit_extract field 16 12 in
    let imm4 = bit_extract field 0 4 in
    record { imm16 = or32 (or32 0 (shl32 imm4 12)) (shl32 imm12 0) }

unfoldable pub match_nop_t1 : ℕ → Bool
match_nop_t1 field = bit_extract field 0 16 == 0xBF00

unfoldable pub encode_nop_t1 : Option Word
encode_nop_t1 = some (narrow 0xbf00)

unfoldable pub match_nop_t2 : ℕ → Bool
match_nop_t2 field = (bit_extract field 16 16 == 0x8000) && (bit_extract field 0 16 == 0xF3AF)

unfoldable pub encode_nop_t2 : Option Word
encode_nop_t2 = some (wide 0x8000f3af)
