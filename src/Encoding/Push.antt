-- ===== src/Encoding/Push.antt =====
-- The encodings of PUSH, from monitor/autogen_encodings/t32_encoding.c and .h.
pub mod RoundTrip
use tw_monitor.Common.{ℕ, Bool, ◌&&◌, Option, some, ◌==◌, guard, ◌>>◌}
use tw_monitor.Encoding.Macros.{Word, narrow, wide, shl32, or16, or32, bit_extract}
use tw_monitor.Encoding.Macros.{unsigned_check_fit}

pub record PushT1Parts : Type 0 where
  pub lr : ℕ
  pub regs : ℕ

unfoldable pub match_push_t1 : ℕ → Bool
match_push_t1 field = bit_extract field 9 7 == 0x5A

unfoldable pub encode_push_t1 : PushT1Parts → Option Word
encode_push_t1 parts = do
  let encoded : ℕ = 0xb400
  guard (unsigned_check_fit parts.lr 1)
  let encoded1 = or16 encoded (shl32 parts.lr 8)
  guard (unsigned_check_fit parts.regs 8)
  let encoded2 = or16 encoded1 (shl32 parts.regs 0)
  some (narrow encoded2)

unfoldable pub decode_push_t1 : ℕ → PushT1Parts
decode_push_t1 field = record { lr = bit_extract field 8 1; regs = bit_extract field 0 8 }

pub record PushT2Parts : Type 0 where
  pub lr : ℕ
  pub regs : ℕ

unfoldable pub match_push_t2 : ℕ → Bool
match_push_t2 field =
    (bit_extract field 31 1 == 0x0)
    && (bit_extract field 29 1 == 0x0)
    && (bit_extract field 0 16 == 0xE92D)

unfoldable pub encode_push_t2 : PushT2Parts → Option Word
encode_push_t2 parts = do
  let encoded : ℕ = 0xe92d
  guard (unsigned_check_fit parts.lr 1)
  let encoded1 = or32 encoded (shl32 parts.lr 30)
  guard (unsigned_check_fit parts.regs 13)
  let encoded2 = or32 encoded1 (shl32 parts.regs 16)
  some (wide encoded2)

unfoldable pub decode_push_t2 : ℕ → PushT2Parts
decode_push_t2 field = record { lr = bit_extract field 30 1; regs = bit_extract field 16 13 }

pub record PushT3Parts : Type 0 where
  pub rt : ℕ

unfoldable pub match_push_t3 : ℕ → Bool
match_push_t3 field = (bit_extract field 16 12 == 0xD04) && (bit_extract field 0 16 == 0xF84D)

unfoldable pub encode_push_t3 : PushT3Parts → Option Word
encode_push_t3 parts = do
  let encoded : ℕ = 0xd04f84d
  guard (unsigned_check_fit parts.rt 4)
  let encoded1 = or32 encoded (shl32 parts.rt 28)
  some (wide encoded1)

unfoldable pub decode_push_t3 : ℕ → PushT3Parts
decode_push_t3 field = record { rt = bit_extract field 28 4 }
