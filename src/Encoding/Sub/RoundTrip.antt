-- ===== src/Encoding/Sub/RoundTrip.antt =====
-- Encoding and decoding SUBS and SUBW: monitor/autogen_encodings/t32_encoding.c.
use tw_monitor.Common.{ℕ, ◌+◌, ◌*◌, ◌/◌, ◌%◌, ◌^◌, ◌<◌, ◌≡◌, refl, Bool, true, ◌&&◌, none, some}
use tw_monitor.Common.{arith, ltb, if◌then◌else◌}
use tw_monitor.Encoding.Macros.{narrow, wide, IsU32, shl32, bit_extract_lem}
use tw_monitor.Encoding.Macros.{unsigned_check_fit_lem, or16_lem, or32_lem}
use tw_monitor.Encoding.Sub.{SubsIt1Parts, match_subs_i_t1, encode_subs_i_t1, decode_subs_i_t1}
use tw_monitor.Encoding.Sub.{SubsIt2Parts, match_subs_i_t2, encode_subs_i_t2, decode_subs_i_t2}
use tw_monitor.Encoding.Sub.{SubwIt4Parts, match_subw_i_t4, encode_subw_i_t4, decode_subw_i_t4}
use tw_monitor.Encoding.Sub.{SubsRt1Parts, match_subs_r_t1, encode_subs_r_t1, decode_subs_r_t1}

-- Each field is a `uint32_t`.
pub record IsSubsIt1Parts (p : SubsIt1Parts) : Type 0 where
  pub imm3_u32 : IsU32 p.imm3
  pub rn_u32 : IsU32 p.rn
  pub rd_u32 : IsU32 p.rd

unfoldable pub subs_i_t1_accepts : SubsIt1Parts → Bool
subs_i_t1_accepts p = ltb p.imm3 (2 ^ 3) && ltb p.rn (2 ^ 3) && ltb p.rd (2 ^ 3)

unfoldable pub subs_i_t1_word : SubsIt1Parts → ℕ
subs_i_t1_word p = 0x1e00 + p.imm3 * 2 ^ 6 + p.rn * 2 ^ 3 + p.rd * 2 ^ 0

pub encode_subs_i_t1_lem :
    (p : SubsIt1Parts)
    → IsSubsIt1Parts p
    → encode_subs_i_t1 p ≡ (if subs_i_t1_accepts p then some (narrow (subs_i_t1_word p)) else none)
unfolding encode_subs_i_t1 subs_i_t1_accepts subs_i_t1_word
encode_subs_i_t1_lem p v = ground (
  arith,
  unsigned_check_fit_lem 3 29 p.imm3 refl refl,
  or16_lem 6 3 (0x1e00) p.imm3,
  unsigned_check_fit_lem 3 29 p.rn refl refl,
  or16_lem 3 3 (0x1e00 + p.imm3 * 2 ^ 6) p.rn,
  unsigned_check_fit_lem 3 29 p.rd refl refl,
  or16_lem 0 3 (0x1e00 + p.imm3 * 2 ^ 6 + p.rn * 2 ^ 3) p.rd,
)

pub subs_i_t1_decodes :
    (p : SubsIt1Parts)
    → IsSubsIt1Parts p
    → (w : ℕ) → encode_subs_i_t1 p ≡ some (narrow w)
    → (w < 2 ^ 16) × (match_subs_i_t1 w ≡ true) × (decode_subs_i_t1 w ≡ p)
unfolding match_subs_i_t1 decode_subs_i_t1 subs_i_t1_accepts subs_i_t1_word
subs_i_t1_decodes p v w h = ground (
  arith,
  encode_subs_i_t1_lem p v,
  bit_extract_lem w 9 7,
  bit_extract_lem w 6 3,
  bit_extract_lem w 3 3,
  bit_extract_lem w 0 3,
)

pub subs_i_t1_encodes :
    (w : ℕ)
    → w < 2 ^ 16
    → match_subs_i_t1 w ≡ true
    → encode_subs_i_t1 (decode_subs_i_t1 w) ≡ some (narrow w)
unfolding match_subs_i_t1 decode_subs_i_t1 subs_i_t1_accepts subs_i_t1_word
subs_i_t1_encodes w h m = ground (
  arith,
  encode_subs_i_t1_lem (decode_subs_i_t1 w),
  bit_extract_lem w 9 7,
  bit_extract_lem w 6 3,
  bit_extract_lem w 3 3,
  bit_extract_lem w 0 3,
)

-- Each field is a `uint32_t`.
pub record IsSubsIt2Parts (p : SubsIt2Parts) : Type 0 where
  pub rdn_u32 : IsU32 p.rdn
  pub imm8_u32 : IsU32 p.imm8

unfoldable pub subs_i_t2_accepts : SubsIt2Parts → Bool
subs_i_t2_accepts p = ltb p.rdn (2 ^ 3) && ltb p.imm8 (2 ^ 8)

unfoldable pub subs_i_t2_word : SubsIt2Parts → ℕ
subs_i_t2_word p = 0x3800 + p.rdn * 2 ^ 8 + p.imm8 * 2 ^ 0

pub encode_subs_i_t2_lem :
    (p : SubsIt2Parts)
    → IsSubsIt2Parts p
    → encode_subs_i_t2 p ≡ (if subs_i_t2_accepts p then some (narrow (subs_i_t2_word p)) else none)
unfolding encode_subs_i_t2 subs_i_t2_accepts subs_i_t2_word
encode_subs_i_t2_lem p v = ground (
  arith,
  unsigned_check_fit_lem 3 29 p.rdn refl refl,
  or16_lem 8 3 (0x3800) p.rdn,
  unsigned_check_fit_lem 8 24 p.imm8 refl refl,
  or16_lem 0 8 (0x3800 + p.rdn * 2 ^ 8) p.imm8,
)

pub subs_i_t2_decodes :
    (p : SubsIt2Parts)
    → IsSubsIt2Parts p
    → (w : ℕ) → encode_subs_i_t2 p ≡ some (narrow w)
    → (w < 2 ^ 16) × (match_subs_i_t2 w ≡ true) × (decode_subs_i_t2 w ≡ p)
unfolding match_subs_i_t2 decode_subs_i_t2 subs_i_t2_accepts subs_i_t2_word
subs_i_t2_decodes p v w h = ground (
  arith,
  encode_subs_i_t2_lem p v,
  bit_extract_lem w 11 5,
  bit_extract_lem w 8 3,
  bit_extract_lem w 0 8,
)

pub subs_i_t2_encodes :
    (w : ℕ)
    → w < 2 ^ 16
    → match_subs_i_t2 w ≡ true
    → encode_subs_i_t2 (decode_subs_i_t2 w) ≡ some (narrow w)
unfolding match_subs_i_t2 decode_subs_i_t2 subs_i_t2_accepts subs_i_t2_word
subs_i_t2_encodes w h m = ground (
  arith,
  encode_subs_i_t2_lem (decode_subs_i_t2 w),
  bit_extract_lem w 11 5,
  bit_extract_lem w 8 3,
  bit_extract_lem w 0 8,
)

-- Each field is a `uint32_t`.
pub record IsSubwIt4Parts (p : SubwIt4Parts) : Type 0 where
  pub rd_u32 : IsU32 p.rd
  pub rn_u32 : IsU32 p.rn
  pub imm12_u32 : IsU32 p.imm12

unfoldable pub subw_i_t4_accepts : SubwIt4Parts → Bool
subw_i_t4_accepts p = ltb p.imm12 (2 ^ 12) && ltb p.rd (2 ^ 4) && ltb p.rn (2 ^ 4)

unfoldable pub subw_i_t4_word : SubwIt4Parts → ℕ
subw_i_t4_word p =
    0xf2a0
    + (p.imm12 / 2 ^ 8 % 2 ^ 3) * 2 ^ 28
    + p.rd * 2 ^ 24
    + (p.imm12 / 2 ^ 0 % 2 ^ 8) * 2 ^ 16
    + (p.imm12 / 2 ^ 11 % 2 ^ 1) * 2 ^ 10
    + p.rn * 2 ^ 0

pub encode_subw_i_t4_lem :
    (p : SubwIt4Parts)
    → IsSubwIt4Parts p
    → encode_subw_i_t4 p ≡ (if subw_i_t4_accepts p then some (wide (subw_i_t4_word p)) else none)
unfolding encode_subw_i_t4 subw_i_t4_accepts subw_i_t4_word
encode_subw_i_t4_lem p v = ground (
  arith,
  unsigned_check_fit_lem 12 20 (p.imm12 / 2 ^ 0) refl refl,
  bit_extract_lem p.imm12 11 1,
  bit_extract_lem p.imm12 8 3,
  bit_extract_lem p.imm12 0 8,
  or32_lem 28 3 (0xf2a0) (p.imm12 / 2 ^ 8 % 2 ^ 3),
  unsigned_check_fit_lem 4 28 p.rd refl refl,
  or32_lem 24 4 (0xf2a0 + (p.imm12 / 2 ^ 8 % 2 ^ 3) * 2 ^ 28) p.rd,
  or32_lem 16 8 (0xf2a0 + (p.imm12 / 2 ^ 8 % 2 ^ 3) * 2 ^ 28 + p.rd * 2 ^ 24)
      (p.imm12 / 2 ^ 0 % 2 ^ 8),
  or32_lem 10 1
      (0xf2a0
        + (p.imm12 / 2 ^ 8 % 2 ^ 3) * 2 ^ 28
        + p.rd * 2 ^ 24
        + (p.imm12 / 2 ^ 0 % 2 ^ 8) * 2 ^ 16)
      (p.imm12 / 2 ^ 11 % 2 ^ 1),
  unsigned_check_fit_lem 4 28 p.rn refl refl,
  or32_lem 0 4
      (0xf2a0
        + (p.imm12 / 2 ^ 8 % 2 ^ 3) * 2 ^ 28
        + p.rd * 2 ^ 24
        + (p.imm12 / 2 ^ 0 % 2 ^ 8) * 2 ^ 16
        + (p.imm12 / 2 ^ 11 % 2 ^ 1) * 2 ^ 10)
      p.rn,
)

pub subw_i_t4_decodes :
    (p : SubwIt4Parts)
    → IsSubwIt4Parts p
    → (w : ℕ) → encode_subw_i_t4 p ≡ some (wide w)
    → (w < 2 ^ 32) × (match_subw_i_t4 w ≡ true) × (decode_subw_i_t4 w ≡ p)
unfolding match_subw_i_t4 decode_subw_i_t4 subw_i_t4_accepts subw_i_t4_word shl32
subw_i_t4_decodes p v w h = ground (
  arith,
  encode_subw_i_t4_lem p v,
  bit_extract_lem w 31 1,
  bit_extract_lem w 11 5,
  bit_extract_lem w 4 6,
  bit_extract_lem w 28 3,
  bit_extract_lem w 24 4,
  bit_extract_lem w 16 8,
  bit_extract_lem w 10 1,
  bit_extract_lem w 0 4,
  or32_lem 11 1 (0) (w / 2 ^ 10 % 2 ^ 1),
  or32_lem 8 3 (0 + (w / 2 ^ 10 % 2 ^ 1) * 2 ^ 11) (w / 2 ^ 28 % 2 ^ 3),
  or32_lem 0 8 (0 + (w / 2 ^ 10 % 2 ^ 1) * 2 ^ 11 + (w / 2 ^ 28 % 2 ^ 3) * 2 ^ 8)
      (w / 2 ^ 16 % 2 ^ 8),
)

pub subw_i_t4_encodes :
    (w : ℕ)
    → w < 2 ^ 32
    → match_subw_i_t4 w ≡ true
    → encode_subw_i_t4 (decode_subw_i_t4 w) ≡ some (wide w)
unfolding match_subw_i_t4 decode_subw_i_t4 subw_i_t4_accepts subw_i_t4_word shl32
subw_i_t4_encodes w h m = ground (
  arith,
  encode_subw_i_t4_lem (decode_subw_i_t4 w),
  bit_extract_lem w 31 1,
  bit_extract_lem w 11 5,
  bit_extract_lem w 4 6,
  bit_extract_lem w 28 3,
  bit_extract_lem w 24 4,
  bit_extract_lem w 16 8,
  bit_extract_lem w 10 1,
  bit_extract_lem w 0 4,
  or32_lem 11 1 (0) (w / 2 ^ 10 % 2 ^ 1),
  or32_lem 8 3 (0 + (w / 2 ^ 10 % 2 ^ 1) * 2 ^ 11) (w / 2 ^ 28 % 2 ^ 3),
  or32_lem 0 8 (0 + (w / 2 ^ 10 % 2 ^ 1) * 2 ^ 11 + (w / 2 ^ 28 % 2 ^ 3) * 2 ^ 8)
      (w / 2 ^ 16 % 2 ^ 8),
)

-- Each field is a `uint32_t`.
pub record IsSubsRt1Parts (p : SubsRt1Parts) : Type 0 where
  pub rm_u32 : IsU32 p.rm
  pub rn_u32 : IsU32 p.rn
  pub rd_u32 : IsU32 p.rd

unfoldable pub subs_r_t1_accepts : SubsRt1Parts → Bool
subs_r_t1_accepts p = ltb p.rm (2 ^ 3) && ltb p.rn (2 ^ 3) && ltb p.rd (2 ^ 3)

unfoldable pub subs_r_t1_word : SubsRt1Parts → ℕ
subs_r_t1_word p = 0x1a00 + p.rm * 2 ^ 6 + p.rn * 2 ^ 3 + p.rd * 2 ^ 0

pub encode_subs_r_t1_lem :
    (p : SubsRt1Parts)
    → IsSubsRt1Parts p
    → encode_subs_r_t1 p ≡ (if subs_r_t1_accepts p then some (narrow (subs_r_t1_word p)) else none)
unfolding encode_subs_r_t1 subs_r_t1_accepts subs_r_t1_word
encode_subs_r_t1_lem p v = ground (
  arith,
  unsigned_check_fit_lem 3 29 p.rm refl refl,
  or16_lem 6 3 (0x1a00) p.rm,
  unsigned_check_fit_lem 3 29 p.rn refl refl,
  or16_lem 3 3 (0x1a00 + p.rm * 2 ^ 6) p.rn,
  unsigned_check_fit_lem 3 29 p.rd refl refl,
  or16_lem 0 3 (0x1a00 + p.rm * 2 ^ 6 + p.rn * 2 ^ 3) p.rd,
)

pub subs_r_t1_decodes :
    (p : SubsRt1Parts)
    → IsSubsRt1Parts p
    → (w : ℕ) → encode_subs_r_t1 p ≡ some (narrow w)
    → (w < 2 ^ 16) × (match_subs_r_t1 w ≡ true) × (decode_subs_r_t1 w ≡ p)
unfolding match_subs_r_t1 decode_subs_r_t1 subs_r_t1_accepts subs_r_t1_word
subs_r_t1_decodes p v w h = ground (
  arith,
  encode_subs_r_t1_lem p v,
  bit_extract_lem w 9 7,
  bit_extract_lem w 6 3,
  bit_extract_lem w 3 3,
  bit_extract_lem w 0 3,
)

pub subs_r_t1_encodes :
    (w : ℕ)
    → w < 2 ^ 16
    → match_subs_r_t1 w ≡ true
    → encode_subs_r_t1 (decode_subs_r_t1 w) ≡ some (narrow w)
unfolding match_subs_r_t1 decode_subs_r_t1 subs_r_t1_accepts subs_r_t1_word
subs_r_t1_encodes w h m = ground (
  arith,
  encode_subs_r_t1_lem (decode_subs_r_t1 w),
  bit_extract_lem w 9 7,
  bit_extract_lem w 6 3,
  bit_extract_lem w 3 3,
  bit_extract_lem w 0 3,
)
