-- ===== src/Encoding/Pop.antt =====
-- The encodings of POP, from monitor/autogen_encodings/t32_encoding.c and .h.
pub mod RoundTrip
use tw_monitor.Common.{ℕ, Bool, ◌&&◌, Option, some, ◌==◌, guard, ◌>>◌}
use tw_monitor.Encoding.Macros.{Word, narrow, wide, shl32, or16, or32, bit_extract}
use tw_monitor.Encoding.Macros.{unsigned_check_fit}

pub record PopT1Parts : Type 0 where
  pub pc : ℕ
  pub regs : ℕ

unfoldable pub match_pop_t1 : ℕ → Bool
match_pop_t1 field = bit_extract field 9 7 == 0x5E

unfoldable pub encode_pop_t1 : PopT1Parts → Option Word
encode_pop_t1 parts = do
  let encoded : ℕ = 0xbc00
  guard (unsigned_check_fit parts.pc 1)
  let encoded1 = or16 encoded (shl32 parts.pc 8)
  guard (unsigned_check_fit parts.regs 8)
  let encoded2 = or16 encoded1 (shl32 parts.regs 0)
  some (narrow encoded2)

unfoldable pub decode_pop_t1 : ℕ → PopT1Parts
decode_pop_t1 field = record { pc = bit_extract field 8 1; regs = bit_extract field 0 8 }

pub record PopT2Parts : Type 0 where
  pub pc : ℕ
  pub lr : ℕ
  pub regs : ℕ

unfoldable pub match_pop_t2 : ℕ → Bool
match_pop_t2 field = (bit_extract field 29 1 == 0x0) && (bit_extract field 0 16 == 0xE8BD)

unfoldable pub encode_pop_t2 : PopT2Parts → Option Word
encode_pop_t2 parts = do
  let encoded : ℕ = 0xe8bd
  guard (unsigned_check_fit parts.pc 1)
  let encoded1 = or32 encoded (shl32 parts.pc 31)
  guard (unsigned_check_fit parts.lr 1)
  let encoded2 = or32 encoded1 (shl32 parts.lr 30)
  guard (unsigned_check_fit parts.regs 13)
  let encoded3 = or32 encoded2 (shl32 parts.regs 16)
  some (wide encoded3)

unfoldable pub decode_pop_t2 : ℕ → PopT2Parts
decode_pop_t2 field = record {
  pc = bit_extract field 31 1;
  lr = bit_extract field 30 1;
  regs = bit_extract field 16 13;
}

pub record PopT3Parts : Type 0 where
  pub rt : ℕ

unfoldable pub match_pop_t3 : ℕ → Bool
match_pop_t3 field = (bit_extract field 16 12 == 0xB04) && (bit_extract field 0 16 == 0xF85D)

unfoldable pub encode_pop_t3 : PopT3Parts → Option Word
encode_pop_t3 parts = do
  let encoded : ℕ = 0xb04f85d
  guard (unsigned_check_fit parts.rt 4)
  let encoded1 = or32 encoded (shl32 parts.rt 28)
  some (wide encoded1)

unfoldable pub decode_pop_t3 : ℕ → PopT3Parts
decode_pop_t3 field = record { rt = bit_extract field 28 4 }
