-- ===== src/Encoding/Pop/RoundTrip.antt =====
-- Encoding and decoding POP: monitor/autogen_encodings/t32_encoding.c.
use tw_monitor.Common.{ℕ, ◌+◌, ◌*◌, ◌^◌, ◌<◌, ◌≡◌, refl, Bool, true, ◌&&◌, none, some, arith, ltb}
use tw_monitor.Common.{if◌then◌else◌}
use tw_monitor.Encoding.Macros.{narrow, wide, IsU32, bit_extract_lem, unsigned_check_fit_lem}
use tw_monitor.Encoding.Macros.{or16_lem, or32_lem}
use tw_monitor.Encoding.Pop.{PopT1Parts, match_pop_t1, encode_pop_t1, decode_pop_t1, PopT2Parts}
use tw_monitor.Encoding.Pop.{match_pop_t2, encode_pop_t2, decode_pop_t2, PopT3Parts, match_pop_t3}
use tw_monitor.Encoding.Pop.{encode_pop_t3, decode_pop_t3}

-- Each field is a `uint32_t`.
pub record IsPopT1Parts (p : PopT1Parts) : Type 0 where
  pub pc_u32 : IsU32 p.pc
  pub regs_u32 : IsU32 p.regs

unfoldable pub pop_t1_accepts : PopT1Parts → Bool
pop_t1_accepts p = ltb p.pc (2 ^ 1) && ltb p.regs (2 ^ 8)

unfoldable pub pop_t1_word : PopT1Parts → ℕ
pop_t1_word p = 0xbc00 + p.pc * 2 ^ 8 + p.regs * 2 ^ 0

pub encode_pop_t1_lem :
    (p : PopT1Parts)
    → IsPopT1Parts p
    → encode_pop_t1 p ≡ (if pop_t1_accepts p then some (narrow (pop_t1_word p)) else none)
unfolding encode_pop_t1 pop_t1_accepts pop_t1_word
encode_pop_t1_lem p v = ground (
  arith,
  unsigned_check_fit_lem 1 31 p.pc refl refl,
  or16_lem 8 1 (0xbc00) p.pc,
  unsigned_check_fit_lem 8 24 p.regs refl refl,
  or16_lem 0 8 (0xbc00 + p.pc * 2 ^ 8) p.regs,
)

pub pop_t1_decodes :
    (p : PopT1Parts)
    → IsPopT1Parts p
    → (w : ℕ) → encode_pop_t1 p ≡ some (narrow w)
    → (w < 2 ^ 16) × (match_pop_t1 w ≡ true) × (decode_pop_t1 w ≡ p)
unfolding match_pop_t1 decode_pop_t1 pop_t1_accepts pop_t1_word
pop_t1_decodes p v w h = ground (
  arith,
  encode_pop_t1_lem p v,
  bit_extract_lem w 9 7,
  bit_extract_lem w 8 1,
  bit_extract_lem w 0 8,
)

pub pop_t1_encodes :
    (w : ℕ) → w < 2 ^ 16 → match_pop_t1 w ≡ true → encode_pop_t1 (decode_pop_t1 w) ≡ some (narrow w)
unfolding match_pop_t1 decode_pop_t1 pop_t1_accepts pop_t1_word
pop_t1_encodes w h m = ground (
  arith,
  encode_pop_t1_lem (decode_pop_t1 w),
  bit_extract_lem w 9 7,
  bit_extract_lem w 8 1,
  bit_extract_lem w 0 8,
)

-- Each field is a `uint32_t`.
pub record IsPopT2Parts (p : PopT2Parts) : Type 0 where
  pub pc_u32 : IsU32 p.pc
  pub lr_u32 : IsU32 p.lr
  pub regs_u32 : IsU32 p.regs

unfoldable pub pop_t2_accepts : PopT2Parts → Bool
pop_t2_accepts p = ltb p.pc (2 ^ 1) && ltb p.lr (2 ^ 1) && ltb p.regs (2 ^ 13)

unfoldable pub pop_t2_word : PopT2Parts → ℕ
pop_t2_word p = 0xe8bd + p.pc * 2 ^ 31 + p.lr * 2 ^ 30 + p.regs * 2 ^ 16

pub encode_pop_t2_lem :
    (p : PopT2Parts)
    → IsPopT2Parts p
    → encode_pop_t2 p ≡ (if pop_t2_accepts p then some (wide (pop_t2_word p)) else none)
unfolding encode_pop_t2 pop_t2_accepts pop_t2_word
encode_pop_t2_lem p v = ground (
  arith,
  unsigned_check_fit_lem 1 31 p.pc refl refl,
  or32_lem 31 1 (0xe8bd) p.pc,
  unsigned_check_fit_lem 1 31 p.lr refl refl,
  or32_lem 30 1 (0xe8bd + p.pc * 2 ^ 31) p.lr,
  unsigned_check_fit_lem 13 19 p.regs refl refl,
  or32_lem 16 13 (0xe8bd + p.pc * 2 ^ 31 + p.lr * 2 ^ 30) p.regs,
)

pub pop_t2_decodes :
    (p : PopT2Parts)
    → IsPopT2Parts p
    → (w : ℕ) → encode_pop_t2 p ≡ some (wide w)
    → (w < 2 ^ 32) × (match_pop_t2 w ≡ true) × (decode_pop_t2 w ≡ p)
unfolding match_pop_t2 decode_pop_t2 pop_t2_accepts pop_t2_word
pop_t2_decodes p v w h = ground (
  arith,
  encode_pop_t2_lem p v,
  bit_extract_lem w 29 1,
  bit_extract_lem w 0 16,
  bit_extract_lem w 31 1,
  bit_extract_lem w 30 1,
  bit_extract_lem w 16 13,
)

pub pop_t2_encodes :
    (w : ℕ) → w < 2 ^ 32 → match_pop_t2 w ≡ true → encode_pop_t2 (decode_pop_t2 w) ≡ some (wide w)
unfolding match_pop_t2 decode_pop_t2 pop_t2_accepts pop_t2_word
pop_t2_encodes w h m = ground (
  arith,
  encode_pop_t2_lem (decode_pop_t2 w),
  bit_extract_lem w 29 1,
  bit_extract_lem w 0 16,
  bit_extract_lem w 31 1,
  bit_extract_lem w 30 1,
  bit_extract_lem w 16 13,
)

-- Each field is a `uint32_t`.
pub record IsPopT3Parts (p : PopT3Parts) : Type 0 where
  pub rt_u32 : IsU32 p.rt

unfoldable pub pop_t3_accepts : PopT3Parts → Bool
pop_t3_accepts p = ltb p.rt (2 ^ 4)

unfoldable pub pop_t3_word : PopT3Parts → ℕ
pop_t3_word p = 0xb04f85d + p.rt * 2 ^ 28

pub encode_pop_t3_lem :
    (p : PopT3Parts)
    → IsPopT3Parts p
    → encode_pop_t3 p ≡ (if pop_t3_accepts p then some (wide (pop_t3_word p)) else none)
unfolding encode_pop_t3 pop_t3_accepts pop_t3_word
encode_pop_t3_lem p v =
    ground (arith, unsigned_check_fit_lem 4 28 p.rt refl refl, or32_lem 28 4 (0xb04f85d) p.rt)

pub pop_t3_decodes :
    (p : PopT3Parts)
    → IsPopT3Parts p
    → (w : ℕ) → encode_pop_t3 p ≡ some (wide w)
    → (w < 2 ^ 32) × (match_pop_t3 w ≡ true) × (decode_pop_t3 w ≡ p)
unfolding match_pop_t3 decode_pop_t3 pop_t3_accepts pop_t3_word
pop_t3_decodes p v w h = ground (
  arith,
  encode_pop_t3_lem p v,
  bit_extract_lem w 16 12,
  bit_extract_lem w 0 16,
  bit_extract_lem w 28 4,
)

pub pop_t3_encodes :
    (w : ℕ) → w < 2 ^ 32 → match_pop_t3 w ≡ true → encode_pop_t3 (decode_pop_t3 w) ≡ some (wide w)
unfolding match_pop_t3 decode_pop_t3 pop_t3_accepts pop_t3_word
pop_t3_encodes w h m = ground (
  arith,
  encode_pop_t3_lem (decode_pop_t3 w),
  bit_extract_lem w 16 12,
  bit_extract_lem w 0 16,
  bit_extract_lem w 28 4,
)
