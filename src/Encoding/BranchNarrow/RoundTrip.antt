-- ===== src/Encoding/BranchNarrow/RoundTrip.antt =====
-- Encoding and decoding the 16-bit branches B, BLX and BX: monitor/autogen_encodings/t32_encoding.c.
use tw_monitor.Common.{ℕ, ◌+◌, ◌-◌, ◌*◌, ◌/◌, ◌%◌, ◌^◌, ◌≤◌, ◌<◌, ◌≡◌, refl, ◌⊎◌, Bool, true}
use tw_monitor.Common.{◌&&◌, ◌||◌, none, some, arith, ltb, leb, ◌==◌, if◌then◌else◌}
use tw_monitor.Encoding.Macros.{narrow, IsU32, shl32, asr32, bit_extract_lem}
use tw_monitor.Encoding.Macros.{bit_extract_signed_lem, unsigned_check_fit_lem}
use tw_monitor.Encoding.Macros.{signed_check_fit_lem, signed_extend_lem, or16_lem, or32_lem}
use tw_monitor.Encoding.BranchNarrow.{BCondT1NoitParts, match_b_cond_t1_noit}
use tw_monitor.Encoding.BranchNarrow.{encode_b_cond_t1_noit, decode_b_cond_t1_noit, Bt2Parts}
use tw_monitor.Encoding.BranchNarrow.{match_b_t2, encode_b_t2, decode_b_t2, BlxT1Parts}
use tw_monitor.Encoding.BranchNarrow.{match_blx_t1, encode_blx_t1, decode_blx_t1, BxT1Parts}
use tw_monitor.Encoding.BranchNarrow.{match_bx_t1, encode_bx_t1, decode_bx_t1}

-- Each field is a `uint32_t` or an `int32_t`.
pub record IsBCondT1NoitParts (p : BCondT1NoitParts) : Type 0 where
  pub cond_u32 : IsU32 p.cond
  pub simm8_u32 : IsU32 p.simm8

unfoldable pub b_cond_t1_noit_accepts : BCondT1NoitParts → Bool
b_cond_t1_noit_accepts p =
    p.simm8 % 2 ^ 1 == 0
    && (ltb p.simm8 (2 ^ 9) || leb (2 ^ 32 - 2 ^ 9) p.simm8)
    && ltb p.cond (2 ^ 4)

unfoldable pub b_cond_t1_noit_word : BCondT1NoitParts → ℕ
b_cond_t1_noit_word p = 0xd000 + p.cond * 2 ^ 8 + (p.simm8 / 2 ^ 1 % 2 ^ 8) * 2 ^ 0

-- The offsets that the field can hold.
abbrev pub InRangeBCondT1NoitParts : BCondT1NoitParts → Type 0
InRangeBCondT1NoitParts p = (p.simm8 < 2 ^ 8) ⊎ (2 ^ 32 - 2 ^ 8 ≤ p.simm8)

pub encode_b_cond_t1_noit_lem :
    (p : BCondT1NoitParts)
    → IsBCondT1NoitParts p
    → encode_b_cond_t1_noit p
      ≡ (if b_cond_t1_noit_accepts p then some (narrow (b_cond_t1_noit_word p)) else none)
unfolding encode_b_cond_t1_noit b_cond_t1_noit_accepts b_cond_t1_noit_word asr32
encode_b_cond_t1_noit_lem p v = ground (
  arith,
  bit_extract_signed_lem p.simm8 0 1,
  signed_check_fit_lem 9 8 24 (asr32 p.simm8 1) refl refl refl,
  bit_extract_signed_lem p.simm8 1 8,
  unsigned_check_fit_lem 4 28 p.cond refl refl,
  or16_lem 8 4 (0xd000) p.cond,
  or16_lem 0 8 (0xd000 + p.cond * 2 ^ 8) (p.simm8 / 2 ^ 1 % 2 ^ 8),
)

pub b_cond_t1_noit_decodes :
    (p : BCondT1NoitParts)
    → IsBCondT1NoitParts p
    → InRangeBCondT1NoitParts p
    → (w : ℕ) → encode_b_cond_t1_noit p ≡ some (narrow w)
    → (w < 2 ^ 16) × (match_b_cond_t1_noit w ≡ true) × (decode_b_cond_t1_noit w ≡ p)
unfolding match_b_cond_t1_noit decode_b_cond_t1_noit b_cond_t1_noit_accepts b_cond_t1_noit_word
    shl32
b_cond_t1_noit_decodes p v r w h = ground (
  arith,
  encode_b_cond_t1_noit_lem p v,
  bit_extract_lem w 12 4,
  bit_extract_lem w 8 4,
  bit_extract_lem w 0 8,
  or32_lem 0 8 (0) (w / 2 ^ 0 % 2 ^ 8),
  signed_extend_lem 8 7 24 (0 + (w / 2 ^ 0 % 2 ^ 8) * 2 ^ 0) refl refl refl,
)

pub b_cond_t1_noit_encodes :
    (w : ℕ)
    → w < 2 ^ 16
    → match_b_cond_t1_noit w ≡ true
    → encode_b_cond_t1_noit (decode_b_cond_t1_noit w) ≡ some (narrow w)
unfolding match_b_cond_t1_noit decode_b_cond_t1_noit b_cond_t1_noit_accepts b_cond_t1_noit_word
    shl32
b_cond_t1_noit_encodes w h m = ground (
  arith,
  encode_b_cond_t1_noit_lem (decode_b_cond_t1_noit w),
  bit_extract_lem w 12 4,
  bit_extract_lem w 8 4,
  bit_extract_lem w 0 8,
  or32_lem 0 8 (0) (w / 2 ^ 0 % 2 ^ 8),
  signed_extend_lem 8 7 24 (0 + (w / 2 ^ 0 % 2 ^ 8) * 2 ^ 0) refl refl refl,
)

-- Each field is a `uint32_t` or an `int32_t`.
pub record IsBt2Parts (p : Bt2Parts) : Type 0 where
  pub simm11_u32 : IsU32 p.simm11

unfoldable pub b_t2_accepts : Bt2Parts → Bool
b_t2_accepts p = p.simm11 % 2 ^ 1 == 0 && (ltb p.simm11 (2 ^ 12) || leb (2 ^ 32 - 2 ^ 12) p.simm11)

unfoldable pub b_t2_word : Bt2Parts → ℕ
b_t2_word p = 0xe000 + (p.simm11 / 2 ^ 1 % 2 ^ 11) * 2 ^ 0

-- The offsets that the field can hold.
abbrev pub InRangeBt2Parts : Bt2Parts → Type 0
InRangeBt2Parts p = (p.simm11 < 2 ^ 11) ⊎ (2 ^ 32 - 2 ^ 11 ≤ p.simm11)

pub encode_b_t2_lem :
    (p : Bt2Parts)
    → IsBt2Parts p
    → encode_b_t2 p ≡ (if b_t2_accepts p then some (narrow (b_t2_word p)) else none)
unfolding encode_b_t2 b_t2_accepts b_t2_word asr32
encode_b_t2_lem p v = ground (
  arith,
  bit_extract_signed_lem p.simm11 0 1,
  signed_check_fit_lem 12 11 21 (asr32 p.simm11 1) refl refl refl,
  bit_extract_signed_lem p.simm11 1 11,
  or16_lem 0 11 (0xe000) (p.simm11 / 2 ^ 1 % 2 ^ 11),
)

pub b_t2_decodes :
    (p : Bt2Parts)
    → IsBt2Parts p
    → InRangeBt2Parts p
    → (w : ℕ) → encode_b_t2 p ≡ some (narrow w)
    → (w < 2 ^ 16) × (match_b_t2 w ≡ true) × (decode_b_t2 w ≡ p)
unfolding match_b_t2 decode_b_t2 b_t2_accepts b_t2_word shl32
b_t2_decodes p v r w h = ground (
  arith,
  encode_b_t2_lem p v,
  bit_extract_lem w 11 5,
  bit_extract_lem w 0 11,
  or32_lem 0 11 (0) (w / 2 ^ 0 % 2 ^ 11),
  signed_extend_lem 11 10 21 (0 + (w / 2 ^ 0 % 2 ^ 11) * 2 ^ 0) refl refl refl,
)

pub b_t2_encodes :
    (w : ℕ) → w < 2 ^ 16 → match_b_t2 w ≡ true → encode_b_t2 (decode_b_t2 w) ≡ some (narrow w)
unfolding match_b_t2 decode_b_t2 b_t2_accepts b_t2_word shl32
b_t2_encodes w h m = ground (
  arith,
  encode_b_t2_lem (decode_b_t2 w),
  bit_extract_lem w 11 5,
  bit_extract_lem w 0 11,
  or32_lem 0 11 (0) (w / 2 ^ 0 % 2 ^ 11),
  signed_extend_lem 11 10 21 (0 + (w / 2 ^ 0 % 2 ^ 11) * 2 ^ 0) refl refl refl,
)

-- Each field is a `uint32_t`.
pub record IsBlxT1Parts (p : BlxT1Parts) : Type 0 where
  pub rm_u32 : IsU32 p.rm

unfoldable pub blx_t1_accepts : BlxT1Parts → Bool
blx_t1_accepts p = ltb p.rm (2 ^ 4)

unfoldable pub blx_t1_word : BlxT1Parts → ℕ
blx_t1_word p = 0x4780 + p.rm * 2 ^ 3

pub encode_blx_t1_lem :
    (p : BlxT1Parts)
    → IsBlxT1Parts p
    → encode_blx_t1 p ≡ (if blx_t1_accepts p then some (narrow (blx_t1_word p)) else none)
unfolding encode_blx_t1 blx_t1_accepts blx_t1_word
encode_blx_t1_lem p v =
    ground (arith, unsigned_check_fit_lem 4 28 p.rm refl refl, or16_lem 3 4 (0x4780) p.rm)

pub blx_t1_decodes :
    (p : BlxT1Parts)
    → IsBlxT1Parts p
    → (w : ℕ) → encode_blx_t1 p ≡ some (narrow w)
    → (w < 2 ^ 16) × (match_blx_t1 w ≡ true) × (decode_blx_t1 w ≡ p)
unfolding match_blx_t1 decode_blx_t1 blx_t1_accepts blx_t1_word
blx_t1_decodes p v w h = ground (
  arith,
  encode_blx_t1_lem p v,
  bit_extract_lem w 7 9,
  bit_extract_lem w 0 3,
  bit_extract_lem w 3 4,
)

pub blx_t1_encodes :
    (w : ℕ) → w < 2 ^ 16 → match_blx_t1 w ≡ true → encode_blx_t1 (decode_blx_t1 w) ≡ some (narrow w)
unfolding match_blx_t1 decode_blx_t1 blx_t1_accepts blx_t1_word
blx_t1_encodes w h m = ground (
  arith,
  encode_blx_t1_lem (decode_blx_t1 w),
  bit_extract_lem w 7 9,
  bit_extract_lem w 0 3,
  bit_extract_lem w 3 4,
)

-- Each field is a `uint32_t`.
pub record IsBxT1Parts (p : BxT1Parts) : Type 0 where
  pub rm_u32 : IsU32 p.rm

unfoldable pub bx_t1_accepts : BxT1Parts → Bool
bx_t1_accepts p = ltb p.rm (2 ^ 4)

unfoldable pub bx_t1_word : BxT1Parts → ℕ
bx_t1_word p = 0x4700 + p.rm * 2 ^ 3

pub encode_bx_t1_lem :
    (p : BxT1Parts)
    → IsBxT1Parts p
    → encode_bx_t1 p ≡ (if bx_t1_accepts p then some (narrow (bx_t1_word p)) else none)
unfolding encode_bx_t1 bx_t1_accepts bx_t1_word
encode_bx_t1_lem p v =
    ground (arith, unsigned_check_fit_lem 4 28 p.rm refl refl, or16_lem 3 4 (0x4700) p.rm)

pub bx_t1_decodes :
    (p : BxT1Parts)
    → IsBxT1Parts p
    → (w : ℕ) → encode_bx_t1 p ≡ some (narrow w)
    → (w < 2 ^ 16) × (match_bx_t1 w ≡ true) × (decode_bx_t1 w ≡ p)
unfolding match_bx_t1 decode_bx_t1 bx_t1_accepts bx_t1_word
bx_t1_decodes p v w h = ground (
  arith,
  encode_bx_t1_lem p v,
  bit_extract_lem w 7 9,
  bit_extract_lem w 0 3,
  bit_extract_lem w 3 4,
)

pub bx_t1_encodes :
    (w : ℕ) → w < 2 ^ 16 → match_bx_t1 w ≡ true → encode_bx_t1 (decode_bx_t1 w) ≡ some (narrow w)
unfolding match_bx_t1 decode_bx_t1 bx_t1_accepts bx_t1_word
bx_t1_encodes w h m = ground (
  arith,
  encode_bx_t1_lem (decode_bx_t1 w),
  bit_extract_lem w 7 9,
  bit_extract_lem w 0 3,
  bit_extract_lem w 3 4,
)
