-- ===== src/Encoding/Macros/Defs.antt =====
-- The macros at the top of monitor/autogen_encodings/t32_encoding.c, and the C operators that they
-- and the encoders use. `unsigned long` has 32 bits on the target, and an `int32_t` is its bit
-- pattern, a number below 2^32.
use tw_monitor.Common.{ℕ, ◌-◌, ◌*◌, ◌/◌, ◌%◌, ◌^◌, ◌<◌, bit_and, bit_or, Bool, not}
use tw_monitor.Common.{ltb, ◌==◌, if◌then◌else◌}

-- What an encoder stores through `out`: 16 bits, or 32.
pub data Word : Type 0 where
  narrow : ℕ → Word
  wide : ℕ → Word

abbrev pub IsU32 : ℕ → Type 0
IsU32 n = n < 2 ^ 32

abbrev pub not32 : ℕ → ℕ
not32 x = 2 ^ 32 - 1 - x

-- `x << k` of a `uint32_t`.
unfoldable pub shl32 : ℕ → ℕ → ℕ
shl32 x k = x * 2 ^ k % 2 ^ 32

abbrev pub is_negative : ℕ → Bool
is_negative x = not (ltb x (2 ^ 31))

-- `x >> k` of an `int32_t`: the sign bit is copied.
unfoldable pub asr32 : ℕ → ℕ → ℕ
asr32 x k = if is_negative x then not32 (not32 x / 2 ^ k) else x / 2 ^ k

-- `encoded |= x` on a `uint16_t` and on a `uint32_t`.
unfoldable pub or16 : ℕ → ℕ → ℕ
or16 encoded x = bit_or encoded x % 2 ^ 16

unfoldable pub or32 : ℕ → ℕ → ℕ
or32 encoded x = bit_or encoded x

abbrev pub bit : ℕ → ℕ
bit n = 2 ^ n

abbrev pub bit_mask : ℕ → ℕ
bit_mask width = bit width - 1

unfoldable pub bit_extract : ℕ → ℕ → ℕ → ℕ
bit_extract value position width = bit_and (value / 2 ^ position) (bit_mask width)

-- The same macro at an `int32_t`.
unfoldable pub bit_extract_signed : ℕ → ℕ → ℕ → ℕ
unfolding asr32
bit_extract_signed value position width = bit_and (asr32 value position) (bit_mask width)

unfoldable pub unsigned_check_fit : ℕ → ℕ → Bool
unsigned_check_fit value width = bit_and value (not32 (bit_mask width)) == 0

unfoldable pub signed_check_fit : ℕ → ℕ → Bool
unfolding unsigned_check_fit
signed_check_fit value width =
    unsigned_check_fit (if is_negative value then 2 ^ 32 - value - 1 else value) (width - 1)

unfoldable pub sign_bit_set : ℕ → ℕ → Bool
sign_bit_set value width = not (bit_and value (bit (width - 1)) == 0)

unfoldable pub signed_extend : ℕ → ℕ → ℕ
unfolding sign_bit_set
signed_extend value old_width =
    if sign_bit_set value old_width then bit_or value (not32 (bit_mask old_width)) else value
