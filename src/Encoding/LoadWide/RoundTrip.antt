-- ===== src/Encoding/LoadWide/RoundTrip.antt =====
-- Encoding and decoding the 32-bit loads: monitor/autogen_encodings/t32_encoding.c.
use tw_monitor.Common.{ℕ, ◌+◌, ◌*◌, ◌^◌, ◌<◌, ◌≡◌, refl, Bool, true, ◌&&◌, none, some, arith, ltb}
use tw_monitor.Common.{if◌then◌else◌}
use tw_monitor.Encoding.Macros.{wide, IsU32, bit_extract_lem, unsigned_check_fit_lem, or32_lem}
use tw_monitor.Encoding.LoadWide.{LdrIt3Parts, match_ldr_i_t3, encode_ldr_i_t3, decode_ldr_i_t3}
use tw_monitor.Encoding.LoadWide.{LdrIt4Parts, match_ldr_i_t4, encode_ldr_i_t4, decode_ldr_i_t4}
use tw_monitor.Encoding.LoadWide.{LdrLitT2Parts, match_ldr_lit_t2, encode_ldr_lit_t2}
use tw_monitor.Encoding.LoadWide.{decode_ldr_lit_t2, LdrRt2LslParts, match_ldr_r_t2_lsl}
use tw_monitor.Encoding.LoadWide.{encode_ldr_r_t2_lsl, decode_ldr_r_t2_lsl}

-- Each field is a `uint32_t`.
pub record IsLdrIt3Parts (p : LdrIt3Parts) : Type 0 where
  pub rt_u32 : IsU32 p.rt
  pub imm12_u32 : IsU32 p.imm12
  pub rn_u32 : IsU32 p.rn

unfoldable pub ldr_i_t3_accepts : LdrIt3Parts → Bool
ldr_i_t3_accepts p = ltb p.rt (2 ^ 4) && ltb p.imm12 (2 ^ 12) && ltb p.rn (2 ^ 4)

unfoldable pub ldr_i_t3_word : LdrIt3Parts → ℕ
ldr_i_t3_word p = 0xf8d0 + p.rt * 2 ^ 28 + p.imm12 * 2 ^ 16 + p.rn * 2 ^ 0

pub encode_ldr_i_t3_lem :
    (p : LdrIt3Parts)
    → IsLdrIt3Parts p
    → encode_ldr_i_t3 p ≡ (if ldr_i_t3_accepts p then some (wide (ldr_i_t3_word p)) else none)
unfolding encode_ldr_i_t3 ldr_i_t3_accepts ldr_i_t3_word
encode_ldr_i_t3_lem p v = ground (
  arith,
  unsigned_check_fit_lem 4 28 p.rt refl refl,
  or32_lem 28 4 (0xf8d0) p.rt,
  unsigned_check_fit_lem 12 20 p.imm12 refl refl,
  or32_lem 16 12 (0xf8d0 + p.rt * 2 ^ 28) p.imm12,
  unsigned_check_fit_lem 4 28 p.rn refl refl,
  or32_lem 0 4 (0xf8d0 + p.rt * 2 ^ 28 + p.imm12 * 2 ^ 16) p.rn,
)

pub ldr_i_t3_decodes :
    (p : LdrIt3Parts)
    → IsLdrIt3Parts p
    → (w : ℕ) → encode_ldr_i_t3 p ≡ some (wide w)
    → (w < 2 ^ 32) × (match_ldr_i_t3 w ≡ true) × (decode_ldr_i_t3 w ≡ p)
unfolding match_ldr_i_t3 decode_ldr_i_t3 ldr_i_t3_accepts ldr_i_t3_word
ldr_i_t3_decodes p v w h = ground (
  arith,
  encode_ldr_i_t3_lem p v,
  bit_extract_lem w 4 12,
  bit_extract_lem w 28 4,
  bit_extract_lem w 16 12,
  bit_extract_lem w 0 4,
)

pub ldr_i_t3_encodes :
    (w : ℕ)
    → w < 2 ^ 32
    → match_ldr_i_t3 w ≡ true
    → encode_ldr_i_t3 (decode_ldr_i_t3 w) ≡ some (wide w)
unfolding match_ldr_i_t3 decode_ldr_i_t3 ldr_i_t3_accepts ldr_i_t3_word
ldr_i_t3_encodes w h m = ground (
  arith,
  encode_ldr_i_t3_lem (decode_ldr_i_t3 w),
  bit_extract_lem w 4 12,
  bit_extract_lem w 28 4,
  bit_extract_lem w 16 12,
  bit_extract_lem w 0 4,
)

-- Each field is a `uint32_t`.
pub record IsLdrIt4Parts (p : LdrIt4Parts) : Type 0 where
  pub rt_u32 : IsU32 p.rt
  pub index_u32 : IsU32 p.index
  pub add_u32 : IsU32 p.add
  pub writeback_u32 : IsU32 p.writeback
  pub imm8_u32 : IsU32 p.imm8
  pub rn_u32 : IsU32 p.rn

unfoldable pub ldr_i_t4_accepts : LdrIt4Parts → Bool
ldr_i_t4_accepts p =
    ltb p.rt (2 ^ 4)
    && ltb p.index (2 ^ 1)
    && ltb p.add (2 ^ 1)
    && ltb p.writeback (2 ^ 1)
    && ltb p.imm8 (2 ^ 8)
    && ltb p.rn (2 ^ 4)

unfoldable pub ldr_i_t4_word : LdrIt4Parts → ℕ
ldr_i_t4_word p =
    0x800f850
    + p.rt * 2 ^ 28
    + p.index * 2 ^ 26
    + p.add * 2 ^ 25
    + p.writeback * 2 ^ 24
    + p.imm8 * 2 ^ 16
    + p.rn * 2 ^ 0

pub encode_ldr_i_t4_lem :
    (p : LdrIt4Parts)
    → IsLdrIt4Parts p
    → encode_ldr_i_t4 p ≡ (if ldr_i_t4_accepts p then some (wide (ldr_i_t4_word p)) else none)
unfolding encode_ldr_i_t4 ldr_i_t4_accepts ldr_i_t4_word
encode_ldr_i_t4_lem p v = ground (
  arith,
  unsigned_check_fit_lem 4 28 p.rt refl refl,
  or32_lem 28 4 (0x800f850) p.rt,
  unsigned_check_fit_lem 1 31 p.index refl refl,
  or32_lem 26 1 (0x800f850 + p.rt * 2 ^ 28) p.index,
  unsigned_check_fit_lem 1 31 p.add refl refl,
  or32_lem 25 1 (0x800f850 + p.rt * 2 ^ 28 + p.index * 2 ^ 26) p.add,
  unsigned_check_fit_lem 1 31 p.writeback refl refl,
  or32_lem 24 1 (0x800f850 + p.rt * 2 ^ 28 + p.index * 2 ^ 26 + p.add * 2 ^ 25) p.writeback,
  unsigned_check_fit_lem 8 24 p.imm8 refl refl,
  or32_lem 16 8
      (0x800f850 + p.rt * 2 ^ 28 + p.index * 2 ^ 26 + p.add * 2 ^ 25 + p.writeback * 2 ^ 24) p.imm8,
  unsigned_check_fit_lem 4 28 p.rn refl refl,
  or32_lem 0 4
      (0x800f850
        + p.rt * 2 ^ 28
        + p.index * 2 ^ 26
        + p.add * 2 ^ 25
        + p.writeback * 2 ^ 24
        + p.imm8 * 2 ^ 16)
      p.rn,
)

pub ldr_i_t4_decodes :
    (p : LdrIt4Parts)
    → IsLdrIt4Parts p
    → (w : ℕ) → encode_ldr_i_t4 p ≡ some (wide w)
    → (w < 2 ^ 32) × (match_ldr_i_t4 w ≡ true) × (decode_ldr_i_t4 w ≡ p)
unfolding match_ldr_i_t4 decode_ldr_i_t4 ldr_i_t4_accepts ldr_i_t4_word
ldr_i_t4_decodes p v w h = ground (
  arith,
  encode_ldr_i_t4_lem p v,
  bit_extract_lem w 27 1,
  bit_extract_lem w 4 12,
  bit_extract_lem w 28 4,
  bit_extract_lem w 26 1,
  bit_extract_lem w 25 1,
  bit_extract_lem w 24 1,
  bit_extract_lem w 16 8,
  bit_extract_lem w 0 4,
)

pub ldr_i_t4_encodes :
    (w : ℕ)
    → w < 2 ^ 32
    → match_ldr_i_t4 w ≡ true
    → encode_ldr_i_t4 (decode_ldr_i_t4 w) ≡ some (wide w)
unfolding match_ldr_i_t4 decode_ldr_i_t4 ldr_i_t4_accepts ldr_i_t4_word
ldr_i_t4_encodes w h m = ground (
  arith,
  encode_ldr_i_t4_lem (decode_ldr_i_t4 w),
  bit_extract_lem w 27 1,
  bit_extract_lem w 4 12,
  bit_extract_lem w 28 4,
  bit_extract_lem w 26 1,
  bit_extract_lem w 25 1,
  bit_extract_lem w 24 1,
  bit_extract_lem w 16 8,
  bit_extract_lem w 0 4,
)

-- Each field is a `uint32_t`.
pub record IsLdrLitT2Parts (p : LdrLitT2Parts) : Type 0 where
  pub rt_u32 : IsU32 p.rt
  pub imm12_u32 : IsU32 p.imm12
  pub add_u32 : IsU32 p.add

unfoldable pub ldr_lit_t2_accepts : LdrLitT2Parts → Bool
ldr_lit_t2_accepts p = ltb p.rt (2 ^ 4) && ltb p.imm12 (2 ^ 12) && ltb p.add (2 ^ 1)

unfoldable pub ldr_lit_t2_word : LdrLitT2Parts → ℕ
ldr_lit_t2_word p = 0xf85f + p.rt * 2 ^ 28 + p.imm12 * 2 ^ 16 + p.add * 2 ^ 7

pub encode_ldr_lit_t2_lem :
    (p : LdrLitT2Parts)
    → IsLdrLitT2Parts p
    → encode_ldr_lit_t2 p ≡ (if ldr_lit_t2_accepts p then some (wide (ldr_lit_t2_word p)) else none)
unfolding encode_ldr_lit_t2 ldr_lit_t2_accepts ldr_lit_t2_word
encode_ldr_lit_t2_lem p v = ground (
  arith,
  unsigned_check_fit_lem 4 28 p.rt refl refl,
  or32_lem 28 4 (0xf85f) p.rt,
  unsigned_check_fit_lem 12 20 p.imm12 refl refl,
  or32_lem 16 12 (0xf85f + p.rt * 2 ^ 28) p.imm12,
  unsigned_check_fit_lem 1 31 p.add refl refl,
  or32_lem 7 1 (0xf85f + p.rt * 2 ^ 28 + p.imm12 * 2 ^ 16) p.add,
)

pub ldr_lit_t2_decodes :
    (p : LdrLitT2Parts)
    → IsLdrLitT2Parts p
    → (w : ℕ) → encode_ldr_lit_t2 p ≡ some (wide w)
    → (w < 2 ^ 32) × (match_ldr_lit_t2 w ≡ true) × (decode_ldr_lit_t2 w ≡ p)
unfolding match_ldr_lit_t2 decode_ldr_lit_t2 ldr_lit_t2_accepts ldr_lit_t2_word
ldr_lit_t2_decodes p v w h = ground (
  arith,
  encode_ldr_lit_t2_lem p v,
  bit_extract_lem w 8 8,
  bit_extract_lem w 0 7,
  bit_extract_lem w 28 4,
  bit_extract_lem w 16 12,
  bit_extract_lem w 7 1,
)

pub ldr_lit_t2_encodes :
    (w : ℕ)
    → w < 2 ^ 32
    → match_ldr_lit_t2 w ≡ true
    → encode_ldr_lit_t2 (decode_ldr_lit_t2 w) ≡ some (wide w)
unfolding match_ldr_lit_t2 decode_ldr_lit_t2 ldr_lit_t2_accepts ldr_lit_t2_word
ldr_lit_t2_encodes w h m = ground (
  arith,
  encode_ldr_lit_t2_lem (decode_ldr_lit_t2 w),
  bit_extract_lem w 8 8,
  bit_extract_lem w 0 7,
  bit_extract_lem w 28 4,
  bit_extract_lem w 16 12,
  bit_extract_lem w 7 1,
)

-- Each field is a `uint32_t`.
pub record IsLdrRt2LslParts (p : LdrRt2LslParts) : Type 0 where
  pub rt_u32 : IsU32 p.rt
  pub lsl_shift_imm2_u32 : IsU32 p.lsl_shift_imm2
  pub rm_u32 : IsU32 p.rm
  pub rn_u32 : IsU32 p.rn

unfoldable pub ldr_r_t2_lsl_accepts : LdrRt2LslParts → Bool
ldr_r_t2_lsl_accepts p =
    ltb p.rt (2 ^ 4) && ltb p.lsl_shift_imm2 (2 ^ 2) && ltb p.rm (2 ^ 4) && ltb p.rn (2 ^ 4)

unfoldable pub ldr_r_t2_lsl_word : LdrRt2LslParts → ℕ
ldr_r_t2_lsl_word p =
    0xf850 + p.rt * 2 ^ 28 + p.lsl_shift_imm2 * 2 ^ 20 + p.rm * 2 ^ 16 + p.rn * 2 ^ 0

pub encode_ldr_r_t2_lsl_lem :
    (p : LdrRt2LslParts)
    → IsLdrRt2LslParts p
    → encode_ldr_r_t2_lsl p
      ≡ (if ldr_r_t2_lsl_accepts p then some (wide (ldr_r_t2_lsl_word p)) else none)
unfolding encode_ldr_r_t2_lsl ldr_r_t2_lsl_accepts ldr_r_t2_lsl_word
encode_ldr_r_t2_lsl_lem p v = ground (
  arith,
  unsigned_check_fit_lem 4 28 p.rt refl refl,
  or32_lem 28 4 (0xf850) p.rt,
  unsigned_check_fit_lem 2 30 p.lsl_shift_imm2 refl refl,
  or32_lem 20 2 (0xf850 + p.rt * 2 ^ 28) p.lsl_shift_imm2,
  unsigned_check_fit_lem 4 28 p.rm refl refl,
  or32_lem 16 4 (0xf850 + p.rt * 2 ^ 28 + p.lsl_shift_imm2 * 2 ^ 20) p.rm,
  unsigned_check_fit_lem 4 28 p.rn refl refl,
  or32_lem 0 4 (0xf850 + p.rt * 2 ^ 28 + p.lsl_shift_imm2 * 2 ^ 20 + p.rm * 2 ^ 16) p.rn,
)

pub ldr_r_t2_lsl_decodes :
    (p : LdrRt2LslParts)
    → IsLdrRt2LslParts p
    → (w : ℕ) → encode_ldr_r_t2_lsl p ≡ some (wide w)
    → (w < 2 ^ 32) × (match_ldr_r_t2_lsl w ≡ true) × (decode_ldr_r_t2_lsl w ≡ p)
unfolding match_ldr_r_t2_lsl decode_ldr_r_t2_lsl ldr_r_t2_lsl_accepts ldr_r_t2_lsl_word
ldr_r_t2_lsl_decodes p v w h = ground (
  arith,
  encode_ldr_r_t2_lsl_lem p v,
  bit_extract_lem w 22 6,
  bit_extract_lem w 4 12,
  bit_extract_lem w 28 4,
  bit_extract_lem w 20 2,
  bit_extract_lem w 16 4,
  bit_extract_lem w 0 4,
)

pub ldr_r_t2_lsl_encodes :
    (w : ℕ)
    → w < 2 ^ 32
    → match_ldr_r_t2_lsl w ≡ true
    → encode_ldr_r_t2_lsl (decode_ldr_r_t2_lsl w) ≡ some (wide w)
unfolding match_ldr_r_t2_lsl decode_ldr_r_t2_lsl ldr_r_t2_lsl_accepts ldr_r_t2_lsl_word
ldr_r_t2_lsl_encodes w h m = ground (
  arith,
  encode_ldr_r_t2_lsl_lem (decode_ldr_r_t2_lsl w),
  bit_extract_lem w 22 6,
  bit_extract_lem w 4 12,
  bit_extract_lem w 28 4,
  bit_extract_lem w 20 2,
  bit_extract_lem w 16 4,
  bit_extract_lem w 0 4,
)
