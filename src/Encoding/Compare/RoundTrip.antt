-- ===== src/Encoding/Compare/RoundTrip.antt =====
-- Encoding and decoding CMP: monitor/autogen_encodings/t32_encoding.c.
use tw_monitor.Common.{ℕ, ◌+◌, ◌*◌, ◌/◌, ◌%◌, ◌^◌, ◌<◌, ◌≡◌, refl, Bool, true, ◌&&◌, none, some}
use tw_monitor.Common.{arith, ltb, if◌then◌else◌}
use tw_monitor.Encoding.Macros.{narrow, IsU32, bit_extract_lem, unsigned_check_fit_lem, or16_lem}
use tw_monitor.Encoding.Macros.{or32_lem}
use tw_monitor.Encoding.Compare.{CmpIt1Parts, match_cmp_i_t1, encode_cmp_i_t1, decode_cmp_i_t1}
use tw_monitor.Encoding.Compare.{CmpRt1Parts, match_cmp_r_t1, encode_cmp_r_t1, decode_cmp_r_t1}
use tw_monitor.Encoding.Compare.{CmpRt2Parts, match_cmp_r_t2, encode_cmp_r_t2, decode_cmp_r_t2}

-- Each field is a `uint32_t`.
pub record IsCmpIt1Parts (p : CmpIt1Parts) : Type 0 where
  pub rn_u32 : IsU32 p.rn
  pub imm8_u32 : IsU32 p.imm8

unfoldable pub cmp_i_t1_accepts : CmpIt1Parts → Bool
cmp_i_t1_accepts p = ltb p.rn (2 ^ 3) && ltb p.imm8 (2 ^ 8)

unfoldable pub cmp_i_t1_word : CmpIt1Parts → ℕ
cmp_i_t1_word p = 0x2800 + p.rn * 2 ^ 8 + p.imm8 * 2 ^ 0

pub encode_cmp_i_t1_lem :
    (p : CmpIt1Parts)
    → IsCmpIt1Parts p
    → encode_cmp_i_t1 p ≡ (if cmp_i_t1_accepts p then some (narrow (cmp_i_t1_word p)) else none)
unfolding encode_cmp_i_t1 cmp_i_t1_accepts cmp_i_t1_word
encode_cmp_i_t1_lem p v = ground (
  arith,
  unsigned_check_fit_lem 3 29 p.rn refl refl,
  or16_lem 8 3 (0x2800) p.rn,
  unsigned_check_fit_lem 8 24 p.imm8 refl refl,
  or16_lem 0 8 (0x2800 + p.rn * 2 ^ 8) p.imm8,
)

pub cmp_i_t1_decodes :
    (p : CmpIt1Parts)
    → IsCmpIt1Parts p
    → (w : ℕ) → encode_cmp_i_t1 p ≡ some (narrow w)
    → (w < 2 ^ 16) × (match_cmp_i_t1 w ≡ true) × (decode_cmp_i_t1 w ≡ p)
unfolding match_cmp_i_t1 decode_cmp_i_t1 cmp_i_t1_accepts cmp_i_t1_word
cmp_i_t1_decodes p v w h = ground (
  arith,
  encode_cmp_i_t1_lem p v,
  bit_extract_lem w 11 5,
  bit_extract_lem w 8 3,
  bit_extract_lem w 0 8,
)

pub cmp_i_t1_encodes :
    (w : ℕ)
    → w < 2 ^ 16
    → match_cmp_i_t1 w ≡ true
    → encode_cmp_i_t1 (decode_cmp_i_t1 w) ≡ some (narrow w)
unfolding match_cmp_i_t1 decode_cmp_i_t1 cmp_i_t1_accepts cmp_i_t1_word
cmp_i_t1_encodes w h m = ground (
  arith,
  encode_cmp_i_t1_lem (decode_cmp_i_t1 w),
  bit_extract_lem w 11 5,
  bit_extract_lem w 8 3,
  bit_extract_lem w 0 8,
)

-- Each field is a `uint32_t`.
pub record IsCmpRt1Parts (p : CmpRt1Parts) : Type 0 where
  pub rm_u32 : IsU32 p.rm
  pub rn_u32 : IsU32 p.rn

unfoldable pub cmp_r_t1_accepts : CmpRt1Parts → Bool
cmp_r_t1_accepts p = ltb p.rm (2 ^ 3) && ltb p.rn (2 ^ 3)

unfoldable pub cmp_r_t1_word : CmpRt1Parts → ℕ
cmp_r_t1_word p = 0x4280 + p.rm * 2 ^ 3 + p.rn * 2 ^ 0

pub encode_cmp_r_t1_lem :
    (p : CmpRt1Parts)
    → IsCmpRt1Parts p
    → encode_cmp_r_t1 p ≡ (if cmp_r_t1_accepts p then some (narrow (cmp_r_t1_word p)) else none)
unfolding encode_cmp_r_t1 cmp_r_t1_accepts cmp_r_t1_word
encode_cmp_r_t1_lem p v = ground (
  arith,
  unsigned_check_fit_lem 3 29 p.rm refl refl,
  or16_lem 3 3 (0x4280) p.rm,
  unsigned_check_fit_lem 3 29 p.rn refl refl,
  or16_lem 0 3 (0x4280 + p.rm * 2 ^ 3) p.rn,
)

pub cmp_r_t1_decodes :
    (p : CmpRt1Parts)
    → IsCmpRt1Parts p
    → (w : ℕ) → encode_cmp_r_t1 p ≡ some (narrow w)
    → (w < 2 ^ 16) × (match_cmp_r_t1 w ≡ true) × (decode_cmp_r_t1 w ≡ p)
unfolding match_cmp_r_t1 decode_cmp_r_t1 cmp_r_t1_accepts cmp_r_t1_word
cmp_r_t1_decodes p v w h = ground (
  arith,
  encode_cmp_r_t1_lem p v,
  bit_extract_lem w 6 10,
  bit_extract_lem w 3 3,
  bit_extract_lem w 0 3,
)

pub cmp_r_t1_encodes :
    (w : ℕ)
    → w < 2 ^ 16
    → match_cmp_r_t1 w ≡ true
    → encode_cmp_r_t1 (decode_cmp_r_t1 w) ≡ some (narrow w)
unfolding match_cmp_r_t1 decode_cmp_r_t1 cmp_r_t1_accepts cmp_r_t1_word
cmp_r_t1_encodes w h m = ground (
  arith,
  encode_cmp_r_t1_lem (decode_cmp_r_t1 w),
  bit_extract_lem w 6 10,
  bit_extract_lem w 3 3,
  bit_extract_lem w 0 3,
)

-- Each field is a `uint32_t`.
pub record IsCmpRt2Parts (p : CmpRt2Parts) : Type 0 where
  pub rn_u32 : IsU32 p.rn
  pub rm_u32 : IsU32 p.rm

unfoldable pub cmp_r_t2_accepts : CmpRt2Parts → Bool
cmp_r_t2_accepts p = ltb p.rn (2 ^ 4) && ltb p.rm (2 ^ 4)

unfoldable pub cmp_r_t2_word : CmpRt2Parts → ℕ
cmp_r_t2_word p =
    0x4500 + (p.rn / 2 ^ 3 % 2 ^ 1) * 2 ^ 7 + p.rm * 2 ^ 3 + (p.rn / 2 ^ 0 % 2 ^ 3) * 2 ^ 0

pub encode_cmp_r_t2_lem :
    (p : CmpRt2Parts)
    → IsCmpRt2Parts p
    → encode_cmp_r_t2 p ≡ (if cmp_r_t2_accepts p then some (narrow (cmp_r_t2_word p)) else none)
unfolding encode_cmp_r_t2 cmp_r_t2_accepts cmp_r_t2_word
encode_cmp_r_t2_lem p v = ground (
  arith,
  unsigned_check_fit_lem 4 28 (p.rn / 2 ^ 0) refl refl,
  bit_extract_lem p.rn 3 1,
  bit_extract_lem p.rn 0 3,
  or16_lem 7 1 (0x4500) (p.rn / 2 ^ 3 % 2 ^ 1),
  unsigned_check_fit_lem 4 28 p.rm refl refl,
  or16_lem 3 4 (0x4500 + (p.rn / 2 ^ 3 % 2 ^ 1) * 2 ^ 7) p.rm,
  or16_lem 0 3 (0x4500 + (p.rn / 2 ^ 3 % 2 ^ 1) * 2 ^ 7 + p.rm * 2 ^ 3) (p.rn / 2 ^ 0 % 2 ^ 3),
)

pub cmp_r_t2_decodes :
    (p : CmpRt2Parts)
    → IsCmpRt2Parts p
    → (w : ℕ) → encode_cmp_r_t2 p ≡ some (narrow w)
    → (w < 2 ^ 16) × (match_cmp_r_t2 w ≡ true) × (decode_cmp_r_t2 w ≡ p)
unfolding match_cmp_r_t2 decode_cmp_r_t2 cmp_r_t2_accepts cmp_r_t2_word
cmp_r_t2_decodes p v w h = ground (
  arith,
  encode_cmp_r_t2_lem p v,
  bit_extract_lem w 8 8,
  bit_extract_lem w 7 1,
  bit_extract_lem w 3 4,
  bit_extract_lem w 0 3,
  or32_lem 3 1 (0) (w / 2 ^ 7 % 2 ^ 1),
  or32_lem 0 3 (0 + (w / 2 ^ 7 % 2 ^ 1) * 2 ^ 3) (w / 2 ^ 0 % 2 ^ 3),
)

pub cmp_r_t2_encodes :
    (w : ℕ)
    → w < 2 ^ 16
    → match_cmp_r_t2 w ≡ true
    → encode_cmp_r_t2 (decode_cmp_r_t2 w) ≡ some (narrow w)
unfolding match_cmp_r_t2 decode_cmp_r_t2 cmp_r_t2_accepts cmp_r_t2_word
cmp_r_t2_encodes w h m = ground (
  arith,
  encode_cmp_r_t2_lem (decode_cmp_r_t2 w),
  bit_extract_lem w 8 8,
  bit_extract_lem w 7 1,
  bit_extract_lem w 3 4,
  bit_extract_lem w 0 3,
  or32_lem 3 1 (0) (w / 2 ^ 7 % 2 ^ 1),
  or32_lem 0 3 (0 + (w / 2 ^ 7 % 2 ^ 1) * 2 ^ 3) (w / 2 ^ 0 % 2 ^ 3),
)
