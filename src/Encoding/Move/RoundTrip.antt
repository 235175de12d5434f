-- ===== src/Encoding/Move/RoundTrip.antt =====
-- Encoding and decoding MOV, MOVS and MOVW: monitor/autogen_encodings/t32_encoding.c.
use tw_monitor.Common.{ℕ, ◌+◌, ◌*◌, ◌/◌, ◌%◌, ◌^◌, ◌<◌, ◌≡◌, refl, Bool, true, ◌&&◌, none, some}
use tw_monitor.Common.{arith, ltb, if◌then◌else◌}
use tw_monitor.Encoding.Macros.{narrow, wide, IsU32, shl32, bit_extract_lem}
use tw_monitor.Encoding.Macros.{unsigned_check_fit_lem, or16_lem, or32_lem}
use tw_monitor.Encoding.Move.{MovsIt1Parts, match_movs_i_t1, encode_movs_i_t1, decode_movs_i_t1}
use tw_monitor.Encoding.Move.{MovwIt3Parts, match_movw_i_t3, encode_movw_i_t3, decode_movw_i_t3}
use tw_monitor.Encoding.Move.{MovRt1Parts, match_mov_r_t1, encode_mov_r_t1, decode_mov_r_t1}
use tw_monitor.Encoding.Move.{MovsRt2NoitParts, match_movs_r_t2_noit, encode_movs_r_t2_noit}
use tw_monitor.Encoding.Move.{decode_movs_r_t2_noit, MovRt3OptSParts, match_mov_r_t3_opt_s}
use tw_monitor.Encoding.Move.{encode_mov_r_t3_opt_s, decode_mov_r_t3_opt_s}

-- Each field is a `uint32_t`.
pub record IsMovsIt1Parts (p : MovsIt1Parts) : Type 0 where
  pub rd_u32 : IsU32 p.rd
  pub imm8_u32 : IsU32 p.imm8

unfoldable pub movs_i_t1_accepts : MovsIt1Parts → Bool
movs_i_t1_accepts p = ltb p.rd (2 ^ 3) && ltb p.imm8 (2 ^ 8)

unfoldable pub movs_i_t1_word : MovsIt1Parts → ℕ
movs_i_t1_word p = 0x2000 + p.rd * 2 ^ 8 + p.imm8 * 2 ^ 0

pub encode_movs_i_t1_lem :
    (p : MovsIt1Parts)
    → IsMovsIt1Parts p
    → encode_movs_i_t1 p ≡ (if movs_i_t1_accepts p then some (narrow (movs_i_t1_word p)) else none)
unfolding encode_movs_i_t1 movs_i_t1_accepts movs_i_t1_word
encode_movs_i_t1_lem p v = ground (
  arith,
  unsigned_check_fit_lem 3 29 p.rd refl refl,
  or16_lem 8 3 (0x2000) p.rd,
  unsigned_check_fit_lem 8 24 p.imm8 refl refl,
  or16_lem 0 8 (0x2000 + p.rd * 2 ^ 8) p.imm8,
)

pub movs_i_t1_decodes :
    (p : MovsIt1Parts)
    → IsMovsIt1Parts p
    → (w : ℕ) → encode_movs_i_t1 p ≡ some (narrow w)
    → (w < 2 ^ 16) × (match_movs_i_t1 w ≡ true) × (decode_movs_i_t1 w ≡ p)
unfolding match_movs_i_t1 decode_movs_i_t1 movs_i_t1_accepts movs_i_t1_word
movs_i_t1_decodes p v w h = ground (
  arith,
  encode_movs_i_t1_lem p v,
  bit_extract_lem w 11 5,
  bit_extract_lem w 8 3,
  bit_extract_lem w 0 8,
)

pub movs_i_t1_encodes :
    (w : ℕ)
    → w < 2 ^ 16
    → match_movs_i_t1 w ≡ true
    → encode_movs_i_t1 (decode_movs_i_t1 w) ≡ some (narrow w)
unfolding match_movs_i_t1 decode_movs_i_t1 movs_i_t1_accepts movs_i_t1_word
movs_i_t1_encodes w h m = ground (
  arith,
  encode_movs_i_t1_lem (decode_movs_i_t1 w),
  bit_extract_lem w 11 5,
  bit_extract_lem w 8 3,
  bit_extract_lem w 0 8,
)

-- Each field is a `uint32_t`.
pub record IsMovwIt3Parts (p : MovwIt3Parts) : Type 0 where
  pub rd_u32 : IsU32 p.rd
  pub imm16_u32 : IsU32 p.imm16

unfoldable pub movw_i_t3_accepts : MovwIt3Parts → Bool
movw_i_t3_accepts p = ltb p.imm16 (2 ^ 16) && ltb p.rd (2 ^ 4)

unfoldable pub movw_i_t3_word : MovwIt3Parts → ℕ
movw_i_t3_word p =
    0xf240
    + (p.imm16 / 2 ^ 8 % 2 ^ 3) * 2 ^ 28
    + p.rd * 2 ^ 24
    + (p.imm16 / 2 ^ 0 % 2 ^ 8) * 2 ^ 16
    + (p.imm16 / 2 ^ 11 % 2 ^ 1) * 2 ^ 10
    + (p.imm16 / 2 ^ 12 % 2 ^ 4) * 2 ^ 0

pub encode_movw_i_t3_lem :
    (p : MovwIt3Parts)
    → IsMovwIt3Parts p
    → encode_movw_i_t3 p ≡ (if movw_i_t3_accepts p then some (wide (movw_i_t3_word p)) else none)
unfolding encode_movw_i_t3 movw_i_t3_accepts movw_i_t3_word
encode_movw_i_t3_lem p v = ground (
  arith,
  unsigned_check_fit_lem 16 16 (p.imm16 / 2 ^ 0) refl refl,
  bit_extract_lem p.imm16 12 4,
  bit_extract_lem p.imm16 11 1,
  bit_extract_lem p.imm16 8 3,
  bit_extract_lem p.imm16 0 8,
  or32_lem 28 3 (0xf240) (p.imm16 / 2 ^ 8 % 2 ^ 3),
  unsigned_check_fit_lem 4 28 p.rd refl refl,
  or32_lem 24 4 (0xf240 + (p.imm16 / 2 ^ 8 % 2 ^ 3) * 2 ^ 28) p.rd,
  or32_lem 16 8 (0xf240 + (p.imm16 / 2 ^ 8 % 2 ^ 3) * 2 ^ 28 + p.rd * 2 ^ 24)
      (p.imm16 / 2 ^ 0 % 2 ^ 8),
  or32_lem 10 1
      (0xf240
        + (p.imm16 / 2 ^ 8 % 2 ^ 3) * 2 ^ 28
        + p.rd * 2 ^ 24
        + (p.imm16 / 2 ^ 0 % 2 ^ 8) * 2 ^ 16)
      (p.imm16 / 2 ^ 11 % 2 ^ 1),
  or32_lem 0 4
      (0xf240
        + (p.imm16 / 2 ^ 8 % 2 ^ 3) * 2 ^ 28
        + p.rd * 2 ^ 24
        + (p.imm16 / 2 ^ 0 % 2 ^ 8) * 2 ^ 16
        + (p.imm16 / 2 ^ 11 % 2 ^ 1) * 2 ^ 10)
      (p.imm16 / 2 ^ 12 % 2 ^ 4),
)

pub movw_i_t3_decodes :
    (p : MovwIt3Parts)
    → IsMovwIt3Parts p
    → (w : ℕ) → encode_movw_i_t3 p ≡ some (wide w)
    → (w < 2 ^ 32) × (match_movw_i_t3 w ≡ true) × (decode_movw_i_t3 w ≡ p)
unfolding match_movw_i_t3 decode_movw_i_t3 movw_i_t3_accepts movw_i_t3_word shl32
movw_i_t3_decodes p v w h = ground (
  arith,
  encode_movw_i_t3_lem p v,
  bit_extract_lem w 31 1,
  bit_extract_lem w 11 5,
  bit_extract_lem w 4 6,
  bit_extract_lem w 28 3,
  bit_extract_lem w 24 4,
  bit_extract_lem w 16 8,
  bit_extract_lem w 10 1,
  bit_extract_lem w 0 4,
  or32_lem 12 4 (0) (w / 2 ^ 0 % 2 ^ 4),
  or32_lem 11 1 (0 + (w / 2 ^ 0 % 2 ^ 4) * 2 ^ 12) (w / 2 ^ 10 % 2 ^ 1),
  or32_lem 8 3 (0 + (w / 2 ^ 0 % 2 ^ 4) * 2 ^ 12 + (w / 2 ^ 10 % 2 ^ 1) * 2 ^ 11)
      (w / 2 ^ 28 % 2 ^ 3),
  or32_lem 0 8
      (0
        + (w / 2 ^ 0 % 2 ^ 4) * 2 ^ 12
        + (w / 2 ^ 10 % 2 ^ 1) * 2 ^ 11
        + (w / 2 ^ 28 % 2 ^ 3) * 2 ^ 8)
      (w / 2 ^ 16 % 2 ^ 8),
)

pub movw_i_t3_encodes :
    (w : ℕ)
    → w < 2 ^ 32
    → match_movw_i_t3 w ≡ true
    → encode_movw_i_t3 (decode_movw_i_t3 w) ≡ some (wide w)
unfolding match_movw_i_t3 decode_movw_i_t3 movw_i_t3_accepts movw_i_t3_word shl32
movw_i_t3_encodes w h m = ground (
  arith,
  encode_movw_i_t3_lem (decode_movw_i_t3 w),
  bit_extract_lem w 31 1,
  bit_extract_lem w 11 5,
  bit_extract_lem w 4 6,
  bit_extract_lem w 28 3,
  bit_extract_lem w 24 4,
  bit_extract_lem w 16 8,
  bit_extract_lem w 10 1,
  bit_extract_lem w 0 4,
  or32_lem 12 4 (0) (w / 2 ^ 0 % 2 ^ 4),
  or32_lem 11 1 (0 + (w / 2 ^ 0 % 2 ^ 4) * 2 ^ 12) (w / 2 ^ 10 % 2 ^ 1),
  or32_lem 8 3 (0 + (w / 2 ^ 0 % 2 ^ 4) * 2 ^ 12 + (w / 2 ^ 10 % 2 ^ 1) * 2 ^ 11)
      (w / 2 ^ 28 % 2 ^ 3),
  or32_lem 0 8
      (0
        + (w / 2 ^ 0 % 2 ^ 4) * 2 ^ 12
        + (w / 2 ^ 10 % 2 ^ 1) * 2 ^ 11
        + (w / 2 ^ 28 % 2 ^ 3) * 2 ^ 8)
      (w / 2 ^ 16 % 2 ^ 8),
)

-- Each field is a `uint32_t`.
pub record IsMovRt1Parts (p : MovRt1Parts) : Type 0 where
  pub rm_u32 : IsU32 p.rm
  pub rd_u32 : IsU32 p.rd

unfoldable pub mov_r_t1_accepts : MovRt1Parts → Bool
mov_r_t1_accepts p = ltb p.rd (2 ^ 4) && ltb p.rm (2 ^ 4)

unfoldable pub mov_r_t1_word : MovRt1Parts → ℕ
mov_r_t1_word p =
    0x4600 + (p.rd / 2 ^ 3 % 2 ^ 1) * 2 ^ 7 + p.rm * 2 ^ 3 + (p.rd / 2 ^ 0 % 2 ^ 3) * 2 ^ 0

pub encode_mov_r_t1_lem :
    (p : MovRt1Parts)
    → IsMovRt1Parts p
    → encode_mov_r_t1 p ≡ (if mov_r_t1_accepts p then some (narrow (mov_r_t1_word p)) else none)
unfolding encode_mov_r_t1 mov_r_t1_accepts mov_r_t1_word
encode_mov_r_t1_lem p v = ground (
  arith,
  unsigned_check_fit_lem 4 28 (p.rd / 2 ^ 0) refl refl,
  bit_extract_lem p.rd 3 1,
  bit_extract_lem p.rd 0 3,
  or16_lem 7 1 (0x4600) (p.rd / 2 ^ 3 % 2 ^ 1),
  unsigned_check_fit_lem 4 28 p.rm refl refl,
  or16_lem 3 4 (0x4600 + (p.rd / 2 ^ 3 % 2 ^ 1) * 2 ^ 7) p.rm,
  or16_lem 0 3 (0x4600 + (p.rd / 2 ^ 3 % 2 ^ 1) * 2 ^ 7 + p.rm * 2 ^ 3) (p.rd / 2 ^ 0 % 2 ^ 3),
)

pub mov_r_t1_decodes :
    (p : MovRt1Parts)
    → IsMovRt1Parts p
    → (w : ℕ) → encode_mov_r_t1 p ≡ some (narrow w)
    → (w < 2 ^ 16) × (match_mov_r_t1 w ≡ true) × (decode_mov_r_t1 w ≡ p)
unfolding match_mov_r_t1 decode_mov_r_t1 mov_r_t1_accepts mov_r_t1_word
mov_r_t1_decodes p v w h = ground (
  arith,
  encode_mov_r_t1_lem p v,
  bit_extract_lem w 8 8,
  bit_extract_lem w 7 1,
  bit_extract_lem w 3 4,
  bit_extract_lem w 0 3,
  or32_lem 3 1 (0) (w / 2 ^ 7 % 2 ^ 1),
  or32_lem 0 3 (0 + (w / 2 ^ 7 % 2 ^ 1) * 2 ^ 3) (w / 2 ^ 0 % 2 ^ 3),
)

pub mov_r_t1_encodes :
    (w : ℕ)
    → w < 2 ^ 16
    → match_mov_r_t1 w ≡ true
    → encode_mov_r_t1 (decode_mov_r_t1 w) ≡ some (narrow w)
unfolding match_mov_r_t1 decode_mov_r_t1 mov_r_t1_accepts mov_r_t1_word
mov_r_t1_encodes w h m = ground (
  arith,
  encode_mov_r_t1_lem (decode_mov_r_t1 w),
  bit_extract_lem w 8 8,
  bit_extract_lem w 7 1,
  bit_extract_lem w 3 4,
  bit_extract_lem w 0 3,
  or32_lem 3 1 (0) (w / 2 ^ 7 % 2 ^ 1),
  or32_lem 0 3 (0 + (w / 2 ^ 7 % 2 ^ 1) * 2 ^ 3) (w / 2 ^ 0 % 2 ^ 3),
)

-- Each field is a `uint32_t`.
pub record IsMovsRt2NoitParts (p : MovsRt2NoitParts) : Type 0 where
  pub rm_u32 : IsU32 p.rm
  pub rd_u32 : IsU32 p.rd

unfoldable pub movs_r_t2_noit_accepts : MovsRt2NoitParts → Bool
movs_r_t2_noit_accepts p = ltb p.rm (2 ^ 3) && ltb p.rd (2 ^ 3)

unfoldable pub movs_r_t2_noit_word : MovsRt2NoitParts → ℕ
movs_r_t2_noit_word p = 0x0 + p.rm * 2 ^ 3 + p.rd * 2 ^ 0

pub encode_movs_r_t2_noit_lem :
    (p : MovsRt2NoitParts)
    → IsMovsRt2NoitParts p
    → encode_movs_r_t2_noit p
      ≡ (if movs_r_t2_noit_accepts p then some (narrow (movs_r_t2_noit_word p)) else none)
unfolding encode_movs_r_t2_noit movs_r_t2_noit_accepts movs_r_t2_noit_word
encode_movs_r_t2_noit_lem p v = ground (
  arith,
  unsigned_check_fit_lem 3 29 p.rm refl refl,
  or16_lem 3 3 (0x0) p.rm,
  unsigned_check_fit_lem 3 29 p.rd refl refl,
  or16_lem 0 3 (0x0 + p.rm * 2 ^ 3) p.rd,
)

pub movs_r_t2_noit_decodes :
    (p : MovsRt2NoitParts)
    → IsMovsRt2NoitParts p
    → (w : ℕ) → encode_movs_r_t2_noit p ≡ some (narrow w)
    → (w < 2 ^ 16) × (match_movs_r_t2_noit w ≡ true) × (decode_movs_r_t2_noit w ≡ p)
unfolding match_movs_r_t2_noit decode_movs_r_t2_noit movs_r_t2_noit_accepts movs_r_t2_noit_word
movs_r_t2_noit_decodes p v w h = ground (
  arith,
  encode_movs_r_t2_noit_lem p v,
  bit_extract_lem w 6 10,
  bit_extract_lem w 3 3,
  bit_extract_lem w 0 3,
)

pub movs_r_t2_noit_encodes :
    (w : ℕ)
    → w < 2 ^ 16
    → match_movs_r_t2_noit w ≡ true
    → encode_movs_r_t2_noit (decode_movs_r_t2_noit w) ≡ some (narrow w)
unfolding match_movs_r_t2_noit decode_movs_r_t2_noit movs_r_t2_noit_accepts movs_r_t2_noit_word
movs_r_t2_noit_encodes w h m = ground (
  arith,
  encode_movs_r_t2_noit_lem (decode_movs_r_t2_noit w),
  bit_extract_lem w 6 10,
  bit_extract_lem w 3 3,
  bit_extract_lem w 0 3,
)

-- Each field is a `uint32_t`.
pub record IsMovRt3OptSParts (p : MovRt3OptSParts) : Type 0 where
  pub rd_u32 : IsU32 p.rd
  pub rm_u32 : IsU32 p.rm
  pub setflags_u32 : IsU32 p.setflags

unfoldable pub mov_r_t3_opt_s_accepts : MovRt3OptSParts → Bool
mov_r_t3_opt_s_accepts p = ltb p.rd (2 ^ 4) && ltb p.rm (2 ^ 4) && ltb p.setflags (2 ^ 1)

unfoldable pub mov_r_t3_opt_s_word : MovRt3OptSParts → ℕ
mov_r_t3_opt_s_word p = 0xea4f + p.rd * 2 ^ 24 + p.rm * 2 ^ 16 + p.setflags * 2 ^ 4

pub encode_mov_r_t3_opt_s_lem :
    (p : MovRt3OptSParts)
    → IsMovRt3OptSParts p
    → encode_mov_r_t3_opt_s p
      ≡ (if mov_r_t3_opt_s_accepts p then some (wide (mov_r_t3_opt_s_word p)) else none)
unfolding encode_mov_r_t3_opt_s mov_r_t3_opt_s_accepts mov_r_t3_opt_s_word
encode_mov_r_t3_opt_s_lem p v = ground (
  arith,
  unsigned_check_fit_lem 4 28 p.rd refl refl,
  or32_lem 24 4 (0xea4f) p.rd,
  unsigned_check_fit_lem 4 28 p.rm refl refl,
  or32_lem 16 4 (0xea4f + p.rd * 2 ^ 24) p.rm,
  unsigned_check_fit_lem 1 31 p.setflags refl refl,
  or32_lem 4 1 (0xea4f + p.rd * 2 ^ 24 + p.rm * 2 ^ 16) p.setflags,
)

pub mov_r_t3_opt_s_decodes :
    (p : MovRt3OptSParts)
    → IsMovRt3OptSParts p
    → (w : ℕ) → encode_mov_r_t3_opt_s p ≡ some (wide w)
    → (w < 2 ^ 32) × (match_mov_r_t3_opt_s w ≡ true) × (decode_mov_r_t3_opt_s w ≡ p)
unfolding match_mov_r_t3_opt_s decode_mov_r_t3_opt_s mov_r_t3_opt_s_accepts mov_r_t3_opt_s_word
mov_r_t3_opt_s_decodes p v w h = ground (
  arith,
  encode_mov_r_t3_opt_s_lem p v,
  bit_extract_lem w 28 4,
  bit_extract_lem w 20 4,
  bit_extract_lem w 5 11,
  bit_extract_lem w 0 4,
  bit_extract_lem w 24 4,
  bit_extract_lem w 16 4,
  bit_extract_lem w 4 1,
)

pub mov_r_t3_opt_s_encodes :
    (w : ℕ)
    → w < 2 ^ 32
    → match_mov_r_t3_opt_s w ≡ true
    → encode_mov_r_t3_opt_s (decode_mov_r_t3_opt_s w) ≡ some (wide w)
unfolding match_mov_r_t3_opt_s decode_mov_r_t3_opt_s mov_r_t3_opt_s_accepts mov_r_t3_opt_s_word
mov_r_t3_opt_s_encodes w h m = ground (
  arith,
  encode_mov_r_t3_opt_s_lem (decode_mov_r_t3_opt_s w),
  bit_extract_lem w 28 4,
  bit_extract_lem w 20 4,
  bit_extract_lem w 5 11,
  bit_extract_lem w 0 4,
  bit_extract_lem w 24 4,
  bit_extract_lem w 16 4,
  bit_extract_lem w 4 1,
)
