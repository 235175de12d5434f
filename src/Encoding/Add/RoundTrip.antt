-- ===== src/Encoding/Add/RoundTrip.antt =====
-- Encoding and decoding ADD, ADDS and ADDW: monitor/autogen_encodings/t32_encoding.c.
use tw_monitor.Common.{ℕ, ◌+◌, ◌*◌, ◌/◌, ◌%◌, ◌^◌, ◌<◌, ◌≡◌, refl, Bool, true, ◌&&◌, none, some}
use tw_monitor.Common.{arith, ltb, if◌then◌else◌}
use tw_monitor.Encoding.Macros.{narrow, wide, IsU32, shl32, bit_extract_lem}
use tw_monitor.Encoding.Macros.{unsigned_check_fit_lem, or16_lem, or32_lem}
use tw_monitor.Encoding.Add.{AddsIt1Parts, match_adds_i_t1, encode_adds_i_t1, decode_adds_i_t1}
use tw_monitor.Encoding.Add.{AddsIt2Parts, match_adds_i_t2, encode_adds_i_t2, decode_adds_i_t2}
use tw_monitor.Encoding.Add.{AddwIt4Parts, match_addw_i_t4, encode_addw_i_t4, decode_addw_i_t4}
use tw_monitor.Encoding.Add.{AddsRt1Parts, match_adds_r_t1, encode_adds_r_t1, decode_adds_r_t1}
use tw_monitor.Encoding.Add.{AddRt2Parts, match_add_r_t2, encode_add_r_t2, decode_add_r_t2}

-- Each field is a `uint32_t`.
pub record IsAddsIt1Parts (p : AddsIt1Parts) : Type 0 where
  pub imm3_u32 : IsU32 p.imm3
  pub rn_u32 : IsU32 p.rn
  pub rd_u32 : IsU32 p.rd

unfoldable pub adds_i_t1_accepts : AddsIt1Parts → Bool
adds_i_t1_accepts p = ltb p.imm3 (2 ^ 3) && ltb p.rn (2 ^ 3) && ltb p.rd (2 ^ 3)

unfoldable pub adds_i_t1_word : AddsIt1Parts → ℕ
adds_i_t1_word p = 0x1c00 + p.imm3 * 2 ^ 6 + p.rn * 2 ^ 3 + p.rd * 2 ^ 0

pub encode_adds_i_t1_lem :
    (p : AddsIt1Parts)
    → IsAddsIt1Parts p
    → encode_adds_i_t1 p ≡ (if adds_i_t1_accepts p then some (narrow (adds_i_t1_word p)) else none)
unfolding encode_adds_i_t1 adds_i_t1_accepts adds_i_t1_word
encode_adds_i_t1_lem p v = ground (
  arith,
  unsigned_check_fit_lem 3 29 p.imm3 refl refl,
  or16_lem 6 3 (0x1c00) p.imm3,
  unsigned_check_fit_lem 3 29 p.rn refl refl,
  or16_lem 3 3 (0x1c00 + p.imm3 * 2 ^ 6) p.rn,
  unsigned_check_fit_lem 3 29 p.rd refl refl,
  or16_lem 0 3 (0x1c00 + p.imm3 * 2 ^ 6 + p.rn * 2 ^ 3) p.rd,
)

pub adds_i_t1_decodes :
    (p : AddsIt1Parts)
    → IsAddsIt1Parts p
    → (w : ℕ) → encode_adds_i_t1 p ≡ some (narrow w)
    → (w < 2 ^ 16) × (match_adds_i_t1 w ≡ true) × (decode_adds_i_t1 w ≡ p)
unfolding match_adds_i_t1 decode_adds_i_t1 adds_i_t1_accepts adds_i_t1_word
adds_i_t1_decodes p v w h = ground (
  arith,
  encode_adds_i_t1_lem p v,
  bit_extract_lem w 9 7,
  bit_extract_lem w 6 3,
  bit_extract_lem w 3 3,
  bit_extract_lem w 0 3,
)

pub adds_i_t1_encodes :
    (w : ℕ)
    → w < 2 ^ 16
    → match_adds_i_t1 w ≡ true
    → encode_adds_i_t1 (decode_adds_i_t1 w) ≡ some (narrow w)
unfolding match_adds_i_t1 decode_adds_i_t1 adds_i_t1_accepts adds_i_t1_word
adds_i_t1_encodes w h m = ground (
  arith,
  encode_adds_i_t1_lem (decode_adds_i_t1 w),
  bit_extract_lem w 9 7,
  bit_extract_lem w 6 3,
  bit_extract_lem w 3 3,
  bit_extract_lem w 0 3,
)

-- Each field is a `uint32_t`.
pub record IsAddsIt2Parts (p : AddsIt2Parts) : Type 0 where
  pub rdn_u32 : IsU32 p.rdn
  pub imm8_u32 : IsU32 p.imm8

unfoldable pub adds_i_t2_accepts : AddsIt2Parts → Bool
adds_i_t2_accepts p = ltb p.rdn (2 ^ 3) && ltb p.imm8 (2 ^ 8)

unfoldable pub adds_i_t2_word : AddsIt2Parts → ℕ
adds_i_t2_word p = 0x3000 + p.rdn * 2 ^ 8 + p.imm8 * 2 ^ 0

pub encode_adds_i_t2_lem :
    (p : AddsIt2Parts)
    → IsAddsIt2Parts p
    → encode_adds_i_t2 p ≡ (if adds_i_t2_accepts p then some (narrow (adds_i_t2_word p)) else none)
unfolding encode_adds_i_t2 adds_i_t2_accepts adds_i_t2_word
encode_adds_i_t2_lem p v = ground (
  arith,
  unsigned_check_fit_lem 3 29 p.rdn refl refl,
  or16_lem 8 3 (0x3000) p.rdn,
  unsigned_check_fit_lem 8 24 p.imm8 refl refl,
  or16_lem 0 8 (0x3000 + p.rdn * 2 ^ 8) p.imm8,
)

pub adds_i_t2_decodes :
    (p : AddsIt2Parts)
    → IsAddsIt2Parts p
    → (w : ℕ) → encode_adds_i_t2 p ≡ some (narrow w)
    → (w < 2 ^ 16) × (match_adds_i_t2 w ≡ true) × (decode_adds_i_t2 w ≡ p)
unfolding match_adds_i_t2 decode_adds_i_t2 adds_i_t2_accepts adds_i_t2_word
adds_i_t2_decodes p v w h = ground (
  arith,
  encode_adds_i_t2_lem p v,
  bit_extract_lem w 11 5,
  bit_extract_lem w 8 3,
  bit_extract_lem w 0 8,
)

pub adds_i_t2_encodes :
    (w : ℕ)
    → w < 2 ^ 16
    → match_adds_i_t2 w ≡ true
    → encode_adds_i_t2 (decode_adds_i_t2 w) ≡ some (narrow w)
unfolding match_adds_i_t2 decode_adds_i_t2 adds_i_t2_accepts adds_i_t2_word
adds_i_t2_encodes w h m = ground (
  arith,
  encode_adds_i_t2_lem (decode_adds_i_t2 w),
  bit_extract_lem w 11 5,
  bit_extract_lem w 8 3,
  bit_extract_lem w 0 8,
)

-- Each field is a `uint32_t`.
pub record IsAddwIt4Parts (p : AddwIt4Parts) : Type 0 where
  pub rd_u32 : IsU32 p.rd
  pub rn_u32 : IsU32 p.rn
  pub imm12_u32 : IsU32 p.imm12

unfoldable pub addw_i_t4_accepts : AddwIt4Parts → Bool
addw_i_t4_accepts p = ltb p.imm12 (2 ^ 12) && ltb p.rd (2 ^ 4) && ltb p.rn (2 ^ 4)

unfoldable pub addw_i_t4_word : AddwIt4Parts → ℕ
addw_i_t4_word p =
    0xf200
    + (p.imm12 / 2 ^ 8 % 2 ^ 3) * 2 ^ 28
    + p.rd * 2 ^ 24
    + (p.imm12 / 2 ^ 0 % 2 ^ 8) * 2 ^ 16
    + (p.imm12 / 2 ^ 11 % 2 ^ 1) * 2 ^ 10
    + p.rn * 2 ^ 0

pub encode_addw_i_t4_lem :
    (p : AddwIt4Parts)
    → IsAddwIt4Parts p
    → encode_addw_i_t4 p ≡ (if addw_i_t4_accepts p then some (wide (addw_i_t4_word p)) else none)
unfolding encode_addw_i_t4 addw_i_t4_accepts addw_i_t4_word
encode_addw_i_t4_lem p v = ground (
  arith,
  unsigned_check_fit_lem 12 20 (p.imm12 / 2 ^ 0) refl refl,
  bit_extract_lem p.imm12 11 1,
  bit_extract_lem p.imm12 8 3,
  bit_extract_lem p.imm12 0 8,
  or32_lem 28 3 (0xf200) (p.imm12 / 2 ^ 8 % 2 ^ 3),
  unsigned_check_fit_lem 4 28 p.rd refl refl,
  or32_lem 24 4 (0xf200 + (p.imm12 / 2 ^ 8 % 2 ^ 3) * 2 ^ 28) p.rd,
  or32_lem 16 8 (0xf200 + (p.imm12 / 2 ^ 8 % 2 ^ 3) * 2 ^ 28 + p.rd * 2 ^ 24)
      (p.imm12 / 2 ^ 0 % 2 ^ 8),
  or32_lem 10 1
      (0xf200
        + (p.imm12 / 2 ^ 8 % 2 ^ 3) * 2 ^ 28
        + p.rd * 2 ^ 24
        + (p.imm12 / 2 ^ 0 % 2 ^ 8) * 2 ^ 16)
      (p.imm12 / 2 ^ 11 % 2 ^ 1),
  unsigned_check_fit_lem 4 28 p.rn refl refl,
  or32_lem 0 4
      (0xf200
        + (p.imm12 / 2 ^ 8 % 2 ^ 3) * 2 ^ 28
        + p.rd * 2 ^ 24
        + (p.imm12 / 2 ^ 0 % 2 ^ 8) * 2 ^ 16
        + (p.imm12 / 2 ^ 11 % 2 ^ 1) * 2 ^ 10)
      p.rn,
)

pub addw_i_t4_decodes :
    (p : AddwIt4Parts)
    → IsAddwIt4Parts p
    → (w : ℕ) → encode_addw_i_t4 p ≡ some (wide w)
    → (w < 2 ^ 32) × (match_addw_i_t4 w ≡ true) × (decode_addw_i_t4 w ≡ p)
unfolding match_addw_i_t4 decode_addw_i_t4 addw_i_t4_accepts addw_i_t4_word shl32
addw_i_t4_decodes p v w h = ground (
  arith,
  encode_addw_i_t4_lem p v,
  bit_extract_lem w 31 1,
  bit_extract_lem w 11 5,
  bit_extract_lem w 4 6,
  bit_extract_lem w 28 3,
  bit_extract_lem w 24 4,
  bit_extract_lem w 16 8,
  bit_extract_lem w 10 1,
  bit_extract_lem w 0 4,
  or32_lem 11 1 (0) (w / 2 ^ 10 % 2 ^ 1),
  or32_lem 8 3 (0 + (w / 2 ^ 10 % 2 ^ 1) * 2 ^ 11) (w / 2 ^ 28 % 2 ^ 3),
  or32_lem 0 8 (0 + (w / 2 ^ 10 % 2 ^ 1) * 2 ^ 11 + (w / 2 ^ 28 % 2 ^ 3) * 2 ^ 8)
      (w / 2 ^ 16 % 2 ^ 8),
)

pub addw_i_t4_encodes :
    (w : ℕ)
    → w < 2 ^ 32
    → match_addw_i_t4 w ≡ true
    → encode_addw_i_t4 (decode_addw_i_t4 w) ≡ some (wide w)
unfolding match_addw_i_t4 decode_addw_i_t4 addw_i_t4_accepts addw_i_t4_word shl32
addw_i_t4_encodes w h m = ground (
  arith,
  encode_addw_i_t4_lem (decode_addw_i_t4 w),
  bit_extract_lem w 31 1,
  bit_extract_lem w 11 5,
  bit_extract_lem w 4 6,
  bit_extract_lem w 28 3,
  bit_extract_lem w 24 4,
  bit_extract_lem w 16 8,
  bit_extract_lem w 10 1,
  bit_extract_lem w 0 4,
  or32_lem 11 1 (0) (w / 2 ^ 10 % 2 ^ 1),
  or32_lem 8 3 (0 + (w / 2 ^ 10 % 2 ^ 1) * 2 ^ 11) (w / 2 ^ 28 % 2 ^ 3),
  or32_lem 0 8 (0 + (w / 2 ^ 10 % 2 ^ 1) * 2 ^ 11 + (w / 2 ^ 28 % 2 ^ 3) * 2 ^ 8)
      (w / 2 ^ 16 % 2 ^ 8),
)

-- Each field is a `uint32_t`.
pub record IsAddsRt1Parts (p : AddsRt1Parts) : Type 0 where
  pub rm_u32 : IsU32 p.rm
  pub rn_u32 : IsU32 p.rn
  pub rd_u32 : IsU32 p.rd

unfoldable pub adds_r_t1_accepts : AddsRt1Parts → Bool
adds_r_t1_accepts p = ltb p.rm (2 ^ 3) && ltb p.rn (2 ^ 3) && ltb p.rd (2 ^ 3)

unfoldable pub adds_r_t1_word : AddsRt1Parts → ℕ
adds_r_t1_word p = 0x1800 + p.rm * 2 ^ 6 + p.rn * 2 ^ 3 + p.rd * 2 ^ 0

pub encode_adds_r_t1_lem :
    (p : AddsRt1Parts)
    → IsAddsRt1Parts p
    → encode_adds_r_t1 p ≡ (if adds_r_t1_accepts p then some (narrow (adds_r_t1_word p)) else none)
unfolding encode_adds_r_t1 adds_r_t1_accepts adds_r_t1_word
encode_adds_r_t1_lem p v = ground (
  arith,
  unsigned_check_fit_lem 3 29 p.rm refl refl,
  or16_lem 6 3 (0x1800) p.rm,
  unsigned_check_fit_lem 3 29 p.rn refl refl,
  or16_lem 3 3 (0x1800 + p.rm * 2 ^ 6) p.rn,
  unsigned_check_fit_lem 3 29 p.rd refl refl,
  or16_lem 0 3 (0x1800 + p.rm * 2 ^ 6 + p.rn * 2 ^ 3) p.rd,
)

pub adds_r_t1_decodes :
    (p : AddsRt1Parts)
    → IsAddsRt1Parts p
    → (w : ℕ) → encode_adds_r_t1 p ≡ some (narrow w)
    → (w < 2 ^ 16) × (match_adds_r_t1 w ≡ true) × (decode_adds_r_t1 w ≡ p)
unfolding match_adds_r_t1 decode_adds_r_t1 adds_r_t1_accepts adds_r_t1_word
adds_r_t1_decodes p v w h = ground (
  arith,
  encode_adds_r_t1_lem p v,
  bit_extract_lem w 9 7,
  bit_extract_lem w 6 3,
  bit_extract_lem w 3 3,
  bit_extract_lem w 0 3,
)

pub adds_r_t1_encodes :
    (w : ℕ)
    → w < 2 ^ 16
    → match_adds_r_t1 w ≡ true
    → encode_adds_r_t1 (decode_adds_r_t1 w) ≡ some (narrow w)
unfolding match_adds_r_t1 decode_adds_r_t1 adds_r_t1_accepts adds_r_t1_word
adds_r_t1_encodes w h m = ground (
  arith,
  encode_adds_r_t1_lem (decode_adds_r_t1 w),
  bit_extract_lem w 9 7,
  bit_extract_lem w 6 3,
  bit_extract_lem w 3 3,
  bit_extract_lem w 0 3,
)

-- Each field is a `uint32_t`.
pub record IsAddRt2Parts (p : AddRt2Parts) : Type 0 where
  pub rdn_u32 : IsU32 p.rdn
  pub rm_u32 : IsU32 p.rm

unfoldable pub add_r_t2_accepts : AddRt2Parts → Bool
add_r_t2_accepts p = ltb p.rdn (2 ^ 4) && ltb p.rm (2 ^ 4)

unfoldable pub add_r_t2_word : AddRt2Parts → ℕ
add_r_t2_word p =
    0x4400 + (p.rdn / 2 ^ 3 % 2 ^ 1) * 2 ^ 7 + p.rm * 2 ^ 3 + (p.rdn / 2 ^ 0 % 2 ^ 3) * 2 ^ 0

pub encode_add_r_t2_lem :
    (p : AddRt2Parts)
    → IsAddRt2Parts p
    → encode_add_r_t2 p ≡ (if add_r_t2_accepts p then some (narrow (add_r_t2_word p)) else none)
unfolding encode_add_r_t2 add_r_t2_accepts add_r_t2_word
encode_add_r_t2_lem p v = ground (
  arith,
  unsigned_check_fit_lem 4 28 (p.rdn / 2 ^ 0) refl refl,
  bit_extract_lem p.rdn 3 1,
  bit_extract_lem p.rdn 0 3,
  or16_lem 7 1 (0x4400) (p.rdn / 2 ^ 3 % 2 ^ 1),
  unsigned_check_fit_lem 4 28 p.rm refl refl,
  or16_lem 3 4 (0x4400 + (p.rdn / 2 ^ 3 % 2 ^ 1) * 2 ^ 7) p.rm,
  or16_lem 0 3 (0x4400 + (p.rdn / 2 ^ 3 % 2 ^ 1) * 2 ^ 7 + p.rm * 2 ^ 3) (p.rdn / 2 ^ 0 % 2 ^ 3),
)

pub add_r_t2_decodes :
    (p : AddRt2Parts)
    → IsAddRt2Parts p
    → (w : ℕ) → encode_add_r_t2 p ≡ some (narrow w)
    → (w < 2 ^ 16) × (match_add_r_t2 w ≡ true) × (decode_add_r_t2 w ≡ p)
unfolding match_add_r_t2 decode_add_r_t2 add_r_t2_accepts add_r_t2_word
add_r_t2_decodes p v w h = ground (
  arith,
  encode_add_r_t2_lem p v,
  bit_extract_lem w 8 8,
  bit_extract_lem w 7 1,
  bit_extract_lem w 3 4,
  bit_extract_lem w 0 3,
  or32_lem 3 1 (0) (w / 2 ^ 7 % 2 ^ 1),
  or32_lem 0 3 (0 + (w / 2 ^ 7 % 2 ^ 1) * 2 ^ 3) (w / 2 ^ 0 % 2 ^ 3),
)

pub add_r_t2_encodes :
    (w : ℕ)
    → w < 2 ^ 16
    → match_add_r_t2 w ≡ true
    → encode_add_r_t2 (decode_add_r_t2 w) ≡ some (narrow w)
unfolding match_add_r_t2 decode_add_r_t2 add_r_t2_accepts add_r_t2_word
add_r_t2_encodes w h m = ground (
  arith,
  encode_add_r_t2_lem (decode_add_r_t2 w),
  bit_extract_lem w 8 8,
  bit_extract_lem w 7 1,
  bit_extract_lem w 3 4,
  bit_extract_lem w 0 3,
  or32_lem 3 1 (0) (w / 2 ^ 7 % 2 ^ 1),
  or32_lem 0 3 (0 + (w / 2 ^ 7 % 2 ^ 1) * 2 ^ 3) (w / 2 ^ 0 % 2 ^ 3),
)
