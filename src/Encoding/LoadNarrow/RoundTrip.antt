-- ===== src/Encoding/LoadNarrow/RoundTrip.antt =====
-- Encoding and decoding the 16-bit loads: monitor/autogen_encodings/t32_encoding.c.
use tw_monitor.Common.{ℕ, ◌+◌, ◌*◌, ◌/◌, ◌%◌, ◌^◌, ◌<◌, ◌≡◌, refl, Bool, true, ◌&&◌, none, some}
use tw_monitor.Common.{arith, ltb, ◌==◌, if◌then◌else◌}
use tw_monitor.Encoding.Macros.{narrow, IsU32, shl32, bit_extract_lem, unsigned_check_fit_lem}
use tw_monitor.Encoding.Macros.{or16_lem, or32_lem}
use tw_monitor.Encoding.LoadNarrow.{LdrIt1Parts, match_ldr_i_t1, encode_ldr_i_t1, decode_ldr_i_t1}
use tw_monitor.Encoding.LoadNarrow.{LdrIt2SponlyParts, match_ldr_i_t2_sponly}
use tw_monitor.Encoding.LoadNarrow.{encode_ldr_i_t2_sponly, decode_ldr_i_t2_sponly, LdrLitT1Parts}
use tw_monitor.Encoding.LoadNarrow.{match_ldr_lit_t1, encode_ldr_lit_t1, decode_ldr_lit_t1}
use tw_monitor.Encoding.LoadNarrow.{LdrRt1Parts, match_ldr_r_t1, encode_ldr_r_t1, decode_ldr_r_t1}

-- Each field is a `uint32_t`.
pub record IsLdrIt1Parts (p : LdrIt1Parts) : Type 0 where
  pub rt_u32 : IsU32 p.rt
  pub rn_u32 : IsU32 p.rn
  pub imm7_u32 : IsU32 p.imm7

unfoldable pub ldr_i_t1_accepts : LdrIt1Parts → Bool
ldr_i_t1_accepts p =
    p.imm7 % 2 ^ 2 == 0 && ltb p.imm7 (2 ^ 9) && ltb p.rn (2 ^ 3) && ltb p.rt (2 ^ 3)

unfoldable pub ldr_i_t1_word : LdrIt1Parts → ℕ
ldr_i_t1_word p = 0x6800 + (p.imm7 / 2 ^ 2 % 2 ^ 5) * 2 ^ 6 + p.rn * 2 ^ 3 + p.rt * 2 ^ 0

-- The offsets that the field can hold.
abbrev pub InRangeLdrIt1Parts : LdrIt1Parts → Type 0
InRangeLdrIt1Parts p = p.imm7 < 2 ^ 7

pub encode_ldr_i_t1_lem :
    (p : LdrIt1Parts)
    → IsLdrIt1Parts p
    → encode_ldr_i_t1 p ≡ (if ldr_i_t1_accepts p then some (narrow (ldr_i_t1_word p)) else none)
unfolding encode_ldr_i_t1 ldr_i_t1_accepts ldr_i_t1_word
encode_ldr_i_t1_lem p v = ground (
  arith,
  bit_extract_lem p.imm7 0 2,
  unsigned_check_fit_lem 7 25 (p.imm7 / 2 ^ 2) refl refl,
  bit_extract_lem p.imm7 2 5,
  or16_lem 6 5 (0x6800) (p.imm7 / 2 ^ 2 % 2 ^ 5),
  unsigned_check_fit_lem 3 29 p.rn refl refl,
  or16_lem 3 3 (0x6800 + (p.imm7 / 2 ^ 2 % 2 ^ 5) * 2 ^ 6) p.rn,
  unsigned_check_fit_lem 3 29 p.rt refl refl,
  or16_lem 0 3 (0x6800 + (p.imm7 / 2 ^ 2 % 2 ^ 5) * 2 ^ 6 + p.rn * 2 ^ 3) p.rt,
)

pub ldr_i_t1_decodes :
    (p : LdrIt1Parts)
    → IsLdrIt1Parts p
    → InRangeLdrIt1Parts p
    → (w : ℕ) → encode_ldr_i_t1 p ≡ some (narrow w)
    → (w < 2 ^ 16) × (match_ldr_i_t1 w ≡ true) × (decode_ldr_i_t1 w ≡ p)
unfolding match_ldr_i_t1 decode_ldr_i_t1 ldr_i_t1_accepts ldr_i_t1_word shl32
ldr_i_t1_decodes p v r w h = ground (
  arith,
  encode_ldr_i_t1_lem p v,
  bit_extract_lem w 11 5,
  bit_extract_lem w 6 5,
  bit_extract_lem w 3 3,
  bit_extract_lem w 0 3,
  or32_lem 0 5 (0) (w / 2 ^ 6 % 2 ^ 5),
)

pub ldr_i_t1_encodes :
    (w : ℕ)
    → w < 2 ^ 16
    → match_ldr_i_t1 w ≡ true
    → encode_ldr_i_t1 (decode_ldr_i_t1 w) ≡ some (narrow w)
unfolding match_ldr_i_t1 decode_ldr_i_t1 ldr_i_t1_accepts ldr_i_t1_word shl32
ldr_i_t1_encodes w h m = ground (
  arith,
  encode_ldr_i_t1_lem (decode_ldr_i_t1 w),
  bit_extract_lem w 11 5,
  bit_extract_lem w 6 5,
  bit_extract_lem w 3 3,
  bit_extract_lem w 0 3,
  or32_lem 0 5 (0) (w / 2 ^ 6 % 2 ^ 5),
)

-- Each field is a `uint32_t`.
pub record IsLdrIt2SponlyParts (p : LdrIt2SponlyParts) : Type 0 where
  pub rt_u32 : IsU32 p.rt
  pub imm10_u32 : IsU32 p.imm10

unfoldable pub ldr_i_t2_sponly_accepts : LdrIt2SponlyParts → Bool
ldr_i_t2_sponly_accepts p = p.imm10 % 2 ^ 2 == 0 && ltb p.imm10 (2 ^ 12) && ltb p.rt (2 ^ 3)

unfoldable pub ldr_i_t2_sponly_word : LdrIt2SponlyParts → ℕ
ldr_i_t2_sponly_word p = 0x9800 + p.rt * 2 ^ 8 + (p.imm10 / 2 ^ 2 % 2 ^ 8) * 2 ^ 0

-- The offsets that the field can hold.
abbrev pub InRangeLdrIt2SponlyParts : LdrIt2SponlyParts → Type 0
InRangeLdrIt2SponlyParts p = p.imm10 < 2 ^ 10

pub encode_ldr_i_t2_sponly_lem :
    (p : LdrIt2SponlyParts)
    → IsLdrIt2SponlyParts p
    → encode_ldr_i_t2_sponly p
      ≡ (if ldr_i_t2_sponly_accepts p then some (narrow (ldr_i_t2_sponly_word p)) else none)
unfolding encode_ldr_i_t2_sponly ldr_i_t2_sponly_accepts ldr_i_t2_sponly_word
encode_ldr_i_t2_sponly_lem p v = ground (
  arith,
  bit_extract_lem p.imm10 0 2,
  unsigned_check_fit_lem 10 22 (p.imm10 / 2 ^ 2) refl refl,
  bit_extract_lem p.imm10 2 8,
  unsigned_check_fit_lem 3 29 p.rt refl refl,
  or16_lem 8 3 (0x9800) p.rt,
  or16_lem 0 8 (0x9800 + p.rt * 2 ^ 8) (p.imm10 / 2 ^ 2 % 2 ^ 8),
)

pub ldr_i_t2_sponly_decodes :
    (p : LdrIt2SponlyParts)
    → IsLdrIt2SponlyParts p
    → InRangeLdrIt2SponlyParts p
    → (w : ℕ) → encode_ldr_i_t2_sponly p ≡ some (narrow w)
    → (w < 2 ^ 16) × (match_ldr_i_t2_sponly w ≡ true) × (decode_ldr_i_t2_sponly w ≡ p)
unfolding match_ldr_i_t2_sponly decode_ldr_i_t2_sponly ldr_i_t2_sponly_accepts ldr_i_t2_sponly_word
    shl32
ldr_i_t2_sponly_decodes p v r w h = ground (
  arith,
  encode_ldr_i_t2_sponly_lem p v,
  bit_extract_lem w 11 5,
  bit_extract_lem w 8 3,
  bit_extract_lem w 0 8,
  or32_lem 0 8 (0) (w / 2 ^ 0 % 2 ^ 8),
)

pub ldr_i_t2_sponly_encodes :
    (w : ℕ)
    → w < 2 ^ 16
    → match_ldr_i_t2_sponly w ≡ true
    → encode_ldr_i_t2_sponly (decode_ldr_i_t2_sponly w) ≡ some (narrow w)
unfolding match_ldr_i_t2_sponly decode_ldr_i_t2_sponly ldr_i_t2_sponly_accepts ldr_i_t2_sponly_word
    shl32
ldr_i_t2_sponly_encodes w h m = ground (
  arith,
  encode_ldr_i_t2_sponly_lem (decode_ldr_i_t2_sponly w),
  bit_extract_lem w 11 5,
  bit_extract_lem w 8 3,
  bit_extract_lem w 0 8,
  or32_lem 0 8 (0) (w / 2 ^ 0 % 2 ^ 8),
)

-- Each field is a `uint32_t`.
pub record IsLdrLitT1Parts (p : LdrLitT1Parts) : Type 0 where
  pub rt_u32 : IsU32 p.rt
  pub imm10_u32 : IsU32 p.imm10

unfoldable pub ldr_lit_t1_accepts : LdrLitT1Parts → Bool
ldr_lit_t1_accepts p = p.imm10 % 2 ^ 2 == 0 && ltb p.imm10 (2 ^ 12) && ltb p.rt (2 ^ 3)

unfoldable pub ldr_lit_t1_word : LdrLitT1Parts → ℕ
ldr_lit_t1_word p = 0x4800 + p.rt * 2 ^ 8 + (p.imm10 / 2 ^ 2 % 2 ^ 8) * 2 ^ 0

-- The offsets that the field can hold.
abbrev pub InRangeLdrLitT1Parts : LdrLitT1Parts → Type 0
InRangeLdrLitT1Parts p = p.imm10 < 2 ^ 10

pub encode_ldr_lit_t1_lem :
    (p : LdrLitT1Parts)
    → IsLdrLitT1Parts p
    → encode_ldr_lit_t1 p
      ≡ (if ldr_lit_t1_accepts p then some (narrow (ldr_lit_t1_word p)) else none)
unfolding encode_ldr_lit_t1 ldr_lit_t1_accepts ldr_lit_t1_word
encode_ldr_lit_t1_lem p v = ground (
  arith,
  bit_extract_lem p.imm10 0 2,
  unsigned_check_fit_lem 10 22 (p.imm10 / 2 ^ 2) refl refl,
  bit_extract_lem p.imm10 2 8,
  unsigned_check_fit_lem 3 29 p.rt refl refl,
  or16_lem 8 3 (0x4800) p.rt,
  or16_lem 0 8 (0x4800 + p.rt * 2 ^ 8) (p.imm10 / 2 ^ 2 % 2 ^ 8),
)

pub ldr_lit_t1_decodes :
    (p : LdrLitT1Parts)
    → IsLdrLitT1Parts p
    → InRangeLdrLitT1Parts p
    → (w : ℕ) → encode_ldr_lit_t1 p ≡ some (narrow w)
    → (w < 2 ^ 16) × (match_ldr_lit_t1 w ≡ true) × (decode_ldr_lit_t1 w ≡ p)
unfolding match_ldr_lit_t1 decode_ldr_lit_t1 ldr_lit_t1_accepts ldr_lit_t1_word shl32
ldr_lit_t1_decodes p v r w h = ground (
  arith,
  encode_ldr_lit_t1_lem p v,
  bit_extract_lem w 11 5,
  bit_extract_lem w 8 3,
  bit_extract_lem w 0 8,
  or32_lem 0 8 (0) (w / 2 ^ 0 % 2 ^ 8),
)

pub ldr_lit_t1_encodes :
    (w : ℕ)
    → w < 2 ^ 16
    → match_ldr_lit_t1 w ≡ true
    → encode_ldr_lit_t1 (decode_ldr_lit_t1 w) ≡ some (narrow w)
unfolding match_ldr_lit_t1 decode_ldr_lit_t1 ldr_lit_t1_accepts ldr_lit_t1_word shl32
ldr_lit_t1_encodes w h m = ground (
  arith,
  encode_ldr_lit_t1_lem (decode_ldr_lit_t1 w),
  bit_extract_lem w 11 5,
  bit_extract_lem w 8 3,
  bit_extract_lem w 0 8,
  or32_lem 0 8 (0) (w / 2 ^ 0 % 2 ^ 8),
)

-- Each field is a `uint32_t`.
pub record IsLdrRt1Parts (p : LdrRt1Parts) : Type 0 where
  pub rm_u32 : IsU32 p.rm
  pub rn_u32 : IsU32 p.rn
  pub rt_u32 : IsU32 p.rt

unfoldable pub ldr_r_t1_accepts : LdrRt1Parts → Bool
ldr_r_t1_accepts p = ltb p.rm (2 ^ 3) && ltb p.rn (2 ^ 3) && ltb p.rt (2 ^ 3)

unfoldable pub ldr_r_t1_word : LdrRt1Parts → ℕ
ldr_r_t1_word p = 0x5800 + p.rm * 2 ^ 6 + p.rn * 2 ^ 3 + p.rt * 2 ^ 0

pub encode_ldr_r_t1_lem :
    (p : LdrRt1Parts)
    → IsLdrRt1Parts p
    → encode_ldr_r_t1 p ≡ (if ldr_r_t1_accepts p then some (narrow (ldr_r_t1_word p)) else none)
unfolding encode_ldr_r_t1 ldr_r_t1_accepts ldr_r_t1_word
encode_ldr_r_t1_lem p v = ground (
  arith,
  unsigned_check_fit_lem 3 29 p.rm refl refl,
  or16_lem 6 3 (0x5800) p.rm,
  unsigned_check_fit_lem 3 29 p.rn refl refl,
  or16_lem 3 3 (0x5800 + p.rm * 2 ^ 6) p.rn,
  unsigned_check_fit_lem 3 29 p.rt refl refl,
  or16_lem 0 3 (0x5800 + p.rm * 2 ^ 6 + p.rn * 2 ^ 3) p.rt,
)

pub ldr_r_t1_decodes :
    (p : LdrRt1Parts)
    → IsLdrRt1Parts p
    → (w : ℕ) → encode_ldr_r_t1 p ≡ some (narrow w)
    → (w < 2 ^ 16) × (match_ldr_r_t1 w ≡ true) × (decode_ldr_r_t1 w ≡ p)
unfolding match_ldr_r_t1 decode_ldr_r_t1 ldr_r_t1_accepts ldr_r_t1_word
ldr_r_t1_decodes p v w h = ground (
  arith,
  encode_ldr_r_t1_lem p v,
  bit_extract_lem w 9 7,
  bit_extract_lem w 6 3,
  bit_extract_lem w 3 3,
  bit_extract_lem w 0 3,
)

pub ldr_r_t1_encodes :
    (w : ℕ)
    → w < 2 ^ 16
    → match_ldr_r_t1 w ≡ true
    → encode_ldr_r_t1 (decode_ldr_r_t1 w) ≡ some (narrow w)
unfolding match_ldr_r_t1 decode_ldr_r_t1 ldr_r_t1_accepts ldr_r_t1_word
ldr_r_t1_encodes w h m = ground (
  arith,
  encode_ldr_r_t1_lem (decode_ldr_r_t1 w),
  bit_extract_lem w 9 7,
  bit_extract_lem w 6 3,
  bit_extract_lem w 3 3,
  bit_extract_lem w 0 3,
)
