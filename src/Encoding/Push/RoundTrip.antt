-- ===== src/Encoding/Push/RoundTrip.antt =====
-- Encoding and decoding PUSH: monitor/autogen_encodings/t32_encoding.c.
use tw_monitor.Common.{ℕ, ◌+◌, ◌*◌, ◌^◌, ◌<◌, ◌≡◌, refl, Bool, true, ◌&&◌, none, some, arith, ltb}
use tw_monitor.Common.{if◌then◌else◌}
use tw_monitor.Encoding.Macros.{narrow, wide, IsU32, bit_extract_lem, unsigned_check_fit_lem}
use tw_monitor.Encoding.Macros.{or16_lem, or32_lem}
use tw_monitor.Encoding.Push.{PushT1Parts, match_push_t1, encode_push_t1, decode_push_t1}
use tw_monitor.Encoding.Push.{PushT2Parts, match_push_t2, encode_push_t2, decode_push_t2}
use tw_monitor.Encoding.Push.{PushT3Parts, match_push_t3, encode_push_t3, decode_push_t3}

-- Each field is a `uint32_t`.
pub record IsPushT1Parts (p : PushT1Parts) : Type 0 where
  pub lr_u32 : IsU32 p.lr
  pub regs_u32 : IsU32 p.regs

unfoldable pub push_t1_accepts : PushT1Parts → Bool
push_t1_accepts p = ltb p.lr (2 ^ 1) && ltb p.regs (2 ^ 8)

unfoldable pub push_t1_word : PushT1Parts → ℕ
push_t1_word p = 0xb400 + p.lr * 2 ^ 8 + p.regs * 2 ^ 0

pub encode_push_t1_lem :
    (p : PushT1Parts)
    → IsPushT1Parts p
    → encode_push_t1 p ≡ (if push_t1_accepts p then some (narrow (push_t1_word p)) else none)
unfolding encode_push_t1 push_t1_accepts push_t1_word
encode_push_t1_lem p v = ground (
  arith,
  unsigned_check_fit_lem 1 31 p.lr refl refl,
  or16_lem 8 1 (0xb400) p.lr,
  unsigned_check_fit_lem 8 24 p.regs refl refl,
  or16_lem 0 8 (0xb400 + p.lr * 2 ^ 8) p.regs,
)

pub push_t1_decodes :
    (p : PushT1Parts)
    → IsPushT1Parts p
    → (w : ℕ) → encode_push_t1 p ≡ some (narrow w)
    → (w < 2 ^ 16) × (match_push_t1 w ≡ true) × (decode_push_t1 w ≡ p)
unfolding match_push_t1 decode_push_t1 push_t1_accepts push_t1_word
push_t1_decodes p v w h = ground (
  arith,
  encode_push_t1_lem p v,
  bit_extract_lem w 9 7,
  bit_extract_lem w 8 1,
  bit_extract_lem w 0 8,
)

pub push_t1_encodes :
    (w : ℕ)
    → w < 2 ^ 16
    → match_push_t1 w ≡ true
    → encode_push_t1 (decode_push_t1 w) ≡ some (narrow w)
unfolding match_push_t1 decode_push_t1 push_t1_accepts push_t1_word
push_t1_encodes w h m = ground (
  arith,
  encode_push_t1_lem (decode_push_t1 w),
  bit_extract_lem w 9 7,
  bit_extract_lem w 8 1,
  bit_extract_lem w 0 8,
)

-- Each field is a `uint32_t`.
pub record IsPushT2Parts (p : PushT2Parts) : Type 0 where
  pub lr_u32 : IsU32 p.lr
  pub regs_u32 : IsU32 p.regs

unfoldable pub push_t2_accepts : PushT2Parts → Bool
push_t2_accepts p = ltb p.lr (2 ^ 1) && ltb p.regs (2 ^ 13)

unfoldable pub push_t2_word : PushT2Parts → ℕ
push_t2_word p = 0xe92d + p.lr * 2 ^ 30 + p.regs * 2 ^ 16

pub encode_push_t2_lem :
    (p : PushT2Parts)
    → IsPushT2Parts p
    → encode_push_t2 p ≡ (if push_t2_accepts p then some (wide (push_t2_word p)) else none)
unfolding encode_push_t2 push_t2_accepts push_t2_word
encode_push_t2_lem p v = ground (
  arith,
  unsigned_check_fit_lem 1 31 p.lr refl refl,
  or32_lem 30 1 (0xe92d) p.lr,
  unsigned_check_fit_lem 13 19 p.regs refl refl,
  or32_lem 16 13 (0xe92d + p.lr * 2 ^ 30) p.regs,
)

pub push_t2_decodes :
    (p : PushT2Parts)
    → IsPushT2Parts p
    → (w : ℕ) → encode_push_t2 p ≡ some (wide w)
    → (w < 2 ^ 32) × (match_push_t2 w ≡ true) × (decode_push_t2 w ≡ p)
unfolding match_push_t2 decode_push_t2 push_t2_accepts push_t2_word
push_t2_decodes p v w h = ground (
  arith,
  encode_push_t2_lem p v,
  bit_extract_lem w 31 1,
  bit_extract_lem w 29 1,
  bit_extract_lem w 0 16,
  bit_extract_lem w 30 1,
  bit_extract_lem w 16 13,
)

pub push_t2_encodes :
    (w : ℕ)
    → w < 2 ^ 32
    → match_push_t2 w ≡ true
    → encode_push_t2 (decode_push_t2 w) ≡ some (wide w)
unfolding match_push_t2 decode_push_t2 push_t2_accepts push_t2_word
push_t2_encodes w h m = ground (
  arith,
  encode_push_t2_lem (decode_push_t2 w),
  bit_extract_lem w 31 1,
  bit_extract_lem w 29 1,
  bit_extract_lem w 0 16,
  bit_extract_lem w 30 1,
  bit_extract_lem w 16 13,
)

-- Each field is a `uint32_t`.
pub record IsPushT3Parts (p : PushT3Parts) : Type 0 where
  pub rt_u32 : IsU32 p.rt

unfoldable pub push_t3_accepts : PushT3Parts → Bool
push_t3_accepts p = ltb p.rt (2 ^ 4)

unfoldable pub push_t3_word : PushT3Parts → ℕ
push_t3_word p = 0xd04f84d + p.rt * 2 ^ 28

pub encode_push_t3_lem :
    (p : PushT3Parts)
    → IsPushT3Parts p
    → encode_push_t3 p ≡ (if push_t3_accepts p then some (wide (push_t3_word p)) else none)
unfolding encode_push_t3 push_t3_accepts push_t3_word
encode_push_t3_lem p v =
    ground (arith, unsigned_check_fit_lem 4 28 p.rt refl refl, or32_lem 28 4 (0xd04f84d) p.rt)

pub push_t3_decodes :
    (p : PushT3Parts)
    → IsPushT3Parts p
    → (w : ℕ) → encode_push_t3 p ≡ some (wide w)
    → (w < 2 ^ 32) × (match_push_t3 w ≡ true) × (decode_push_t3 w ≡ p)
unfolding match_push_t3 decode_push_t3 push_t3_accepts push_t3_word
push_t3_decodes p v w h = ground (
  arith,
  encode_push_t3_lem p v,
  bit_extract_lem w 16 12,
  bit_extract_lem w 0 16,
  bit_extract_lem w 28 4,
)

pub push_t3_encodes :
    (w : ℕ)
    → w < 2 ^ 32
    → match_push_t3 w ≡ true
    → encode_push_t3 (decode_push_t3 w) ≡ some (wide w)
unfolding match_push_t3 decode_push_t3 push_t3_accepts push_t3_word
push_t3_encodes w h m = ground (
  arith,
  encode_push_t3_lem (decode_push_t3 w),
  bit_extract_lem w 16 12,
  bit_extract_lem w 0 16,
  bit_extract_lem w 28 4,
)
