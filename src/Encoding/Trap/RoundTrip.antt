-- ===== src/Encoding/Trap/RoundTrip.antt =====
-- Encoding and decoding BKPT, SVC, UDF and NOP: monitor/autogen_encodings/t32_encoding.c.
use tw_monitor.Common.{ℕ, ◌+◌, ◌*◌, ◌/◌, ◌%◌, ◌^◌, ◌<◌, ◌≡◌, refl, Bool, true, none, some, arith}
use tw_monitor.Common.{ltb, if◌then◌else◌}
use tw_monitor.Encoding.Macros.{narrow, wide, IsU32, shl32, bit_extract_lem}
use tw_monitor.Encoding.Macros.{unsigned_check_fit_lem, or16_lem, or32_lem}
use tw_monitor.Encoding.Trap.{BkptT1Parts, match_bkpt_t1, encode_bkpt_t1, decode_bkpt_t1}
use tw_monitor.Encoding.Trap.{SvcT1Parts, match_svc_t1, encode_svc_t1, decode_svc_t1, UdfT1Parts}
use tw_monitor.Encoding.Trap.{match_udf_t1, encode_udf_t1, decode_udf_t1, UdfT2Parts}
use tw_monitor.Encoding.Trap.{match_udf_t2, encode_udf_t2, decode_udf_t2, match_nop_t1}
use tw_monitor.Encoding.Trap.{encode_nop_t1, match_nop_t2, encode_nop_t2}

-- Each field is a `uint32_t`.
pub record IsBkptT1Parts (p : BkptT1Parts) : Type 0 where
  pub imm8_u32 : IsU32 p.imm8

unfoldable pub bkpt_t1_accepts : BkptT1Parts → Bool
bkpt_t1_accepts p = ltb p.imm8 (2 ^ 8)

unfoldable pub bkpt_t1_word : BkptT1Parts → ℕ
bkpt_t1_word p = 0xbe00 + p.imm8 * 2 ^ 0

pub encode_bkpt_t1_lem :
    (p : BkptT1Parts)
    → IsBkptT1Parts p
    → encode_bkpt_t1 p ≡ (if bkpt_t1_accepts p then some (narrow (bkpt_t1_word p)) else none)
unfolding encode_bkpt_t1 bkpt_t1_accepts bkpt_t1_word
encode_bkpt_t1_lem p v =
    ground (arith, unsigned_check_fit_lem 8 24 p.imm8 refl refl, or16_lem 0 8 (0xbe00) p.imm8)

pub bkpt_t1_decodes :
    (p : BkptT1Parts)
    → IsBkptT1Parts p
    → (w : ℕ) → encode_bkpt_t1 p ≡ some (narrow w)
    → (w < 2 ^ 16) × (match_bkpt_t1 w ≡ true) × (decode_bkpt_t1 w ≡ p)
unfolding match_bkpt_t1 decode_bkpt_t1 bkpt_t1_accepts bkpt_t1_word
bkpt_t1_decodes p v w h =
    ground (arith, encode_bkpt_t1_lem p v, bit_extract_lem w 8 8, bit_extract_lem w 0 8)

pub bkpt_t1_encodes :
    (w : ℕ)
    → w < 2 ^ 16
    → match_bkpt_t1 w ≡ true
    → encode_bkpt_t1 (decode_bkpt_t1 w) ≡ some (narrow w)
unfolding match_bkpt_t1 decode_bkpt_t1 bkpt_t1_accepts bkpt_t1_word
bkpt_t1_encodes w h m =
    ground
      (arith, encode_bkpt_t1_lem (decode_bkpt_t1 w), bit_extract_lem w 8 8, bit_extract_lem w 0 8)

-- Each field is a `uint32_t`.
pub record IsSvcT1Parts (p : SvcT1Parts) : Type 0 where
  pub imm8_u32 : IsU32 p.imm8

unfoldable pub svc_t1_accepts : SvcT1Parts → Bool
svc_t1_accepts p = ltb p.imm8 (2 ^ 8)

unfoldable pub svc_t1_word : SvcT1Parts → ℕ
svc_t1_word p = 0xdf00 + p.imm8 * 2 ^ 0

pub encode_svc_t1_lem :
    (p : SvcT1Parts)
    → IsSvcT1Parts p
    → encode_svc_t1 p ≡ (if svc_t1_accepts p then some (narrow (svc_t1_word p)) else none)
unfolding encode_svc_t1 svc_t1_accepts svc_t1_word
encode_svc_t1_lem p v =
    ground (arith, unsigned_check_fit_lem 8 24 p.imm8 refl refl, or16_lem 0 8 (0xdf00) p.imm8)

pub svc_t1_decodes :
    (p : SvcT1Parts)
    → IsSvcT1Parts p
    → (w : ℕ) → encode_svc_t1 p ≡ some (narrow w)
    → (w < 2 ^ 16) × (match_svc_t1 w ≡ true) × (decode_svc_t1 w ≡ p)
unfolding match_svc_t1 decode_svc_t1 svc_t1_accepts svc_t1_word
svc_t1_decodes p v w h =
    ground (arith, encode_svc_t1_lem p v, bit_extract_lem w 8 8, bit_extract_lem w 0 8)

pub svc_t1_encodes :
    (w : ℕ) → w < 2 ^ 16 → match_svc_t1 w ≡ true → encode_svc_t1 (decode_svc_t1 w) ≡ some (narrow w)
unfolding match_svc_t1 decode_svc_t1 svc_t1_accepts svc_t1_word
svc_t1_encodes w h m =
    ground
      (arith, encode_svc_t1_lem (decode_svc_t1 w), bit_extract_lem w 8 8, bit_extract_lem w 0 8)

-- Each field is a `uint32_t`.
pub record IsUdfT1Parts (p : UdfT1Parts) : Type 0 where
  pub imm8_u32 : IsU32 p.imm8

unfoldable pub udf_t1_accepts : UdfT1Parts → Bool
udf_t1_accepts p = ltb p.imm8 (2 ^ 8)

unfoldable pub udf_t1_word : UdfT1Parts → ℕ
udf_t1_word p = 0xde00 + p.imm8 * 2 ^ 0

pub encode_udf_t1_lem :
    (p : UdfT1Parts)
    → IsUdfT1Parts p
    → encode_udf_t1 p ≡ (if udf_t1_accepts p then some (narrow (udf_t1_word p)) else none)
unfolding encode_udf_t1 udf_t1_accepts udf_t1_word
encode_udf_t1_lem p v =
    ground (arith, unsigned_check_fit_lem 8 24 p.imm8 refl refl, or16_lem 0 8 (0xde00) p.imm8)

pub udf_t1_decodes :
    (p : UdfT1Parts)
    → IsUdfT1Parts p
    → (w : ℕ) → encode_udf_t1 p ≡ some (narrow w)
    → (w < 2 ^ 16) × (match_udf_t1 w ≡ true) × (decode_udf_t1 w ≡ p)
unfolding match_udf_t1 decode_udf_t1 udf_t1_accepts udf_t1_word
udf_t1_decodes p v w h =
    ground (arith, encode_udf_t1_lem p v, bit_extract_lem w 8 8, bit_extract_lem w 0 8)

pub udf_t1_encodes :
    (w : ℕ) → w < 2 ^ 16 → match_udf_t1 w ≡ true → encode_udf_t1 (decode_udf_t1 w) ≡ some (narrow w)
unfolding match_udf_t1 decode_udf_t1 udf_t1_accepts udf_t1_word
udf_t1_encodes w h m =
    ground
      (arith, encode_udf_t1_lem (decode_udf_t1 w), bit_extract_lem w 8 8, bit_extract_lem w 0 8)

-- Each field is a `uint32_t`.
pub record IsUdfT2Parts (p : UdfT2Parts) : Type 0 where
  pub imm16_u32 : IsU32 p.imm16

unfoldable pub udf_t2_accepts : UdfT2Parts → Bool
udf_t2_accepts p = ltb p.imm16 (2 ^ 16)

unfoldable pub udf_t2_word : UdfT2Parts → ℕ
udf_t2_word p =
    0xa000f7f0 + (p.imm16 / 2 ^ 0 % 2 ^ 12) * 2 ^ 16 + (p.imm16 / 2 ^ 12 % 2 ^ 4) * 2 ^ 0

pub encode_udf_t2_lem :
    (p : UdfT2Parts)
    → IsUdfT2Parts p
    → encode_udf_t2 p ≡ (if udf_t2_accepts p then some (wide (udf_t2_word p)) else none)
unfolding encode_udf_t2 udf_t2_accepts udf_t2_word
encode_udf_t2_lem p v = ground (
  arith,
  unsigned_check_fit_lem 16 16 (p.imm16 / 2 ^ 0) refl refl,
  bit_extract_lem p.imm16 12 4,
  bit_extract_lem p.imm16 0 12,
  or32_lem 16 12 (0xa000f7f0) (p.imm16 / 2 ^ 0 % 2 ^ 12),
  or32_lem 0 4 (0xa000f7f0 + (p.imm16 / 2 ^ 0 % 2 ^ 12) * 2 ^ 16) (p.imm16 / 2 ^ 12 % 2 ^ 4),
)

pub udf_t2_decodes :
    (p : UdfT2Parts)
    → IsUdfT2Parts p
    → (w : ℕ) → encode_udf_t2 p ≡ some (wide w)
    → (w < 2 ^ 32) × (match_udf_t2 w ≡ true) × (decode_udf_t2 w ≡ p)
unfolding match_udf_t2 decode_udf_t2 udf_t2_accepts udf_t2_word shl32
udf_t2_decodes p v w h = ground (
  arith,
  encode_udf_t2_lem p v,
  bit_extract_lem w 28 4,
  bit_extract_lem w 4 12,
  bit_extract_lem w 16 12,
  bit_extract_lem w 0 4,
  or32_lem 12 4 (0) (w / 2 ^ 0 % 2 ^ 4),
  or32_lem 0 12 (0 + (w / 2 ^ 0 % 2 ^ 4) * 2 ^ 12) (w / 2 ^ 16 % 2 ^ 12),
)

pub udf_t2_encodes :
    (w : ℕ) → w < 2 ^ 32 → match_udf_t2 w ≡ true → encode_udf_t2 (decode_udf_t2 w) ≡ some (wide w)
unfolding match_udf_t2 decode_udf_t2 udf_t2_accepts udf_t2_word shl32
udf_t2_encodes w h m = ground (
  arith,
  encode_udf_t2_lem (decode_udf_t2 w),
  bit_extract_lem w 28 4,
  bit_extract_lem w 4 12,
  bit_extract_lem w 16 12,
  bit_extract_lem w 0 4,
  or32_lem 12 4 (0) (w / 2 ^ 0 % 2 ^ 4),
  or32_lem 0 12 (0 + (w / 2 ^ 0 % 2 ^ 4) * 2 ^ 12) (w / 2 ^ 16 % 2 ^ 12),
)

pub nop_t1_decodes :
    (w : ℕ) → encode_nop_t1 ≡ some (narrow w) → (w < 2 ^ 16) × (match_nop_t1 w ≡ true)
unfolding encode_nop_t1 match_nop_t1
nop_t1_decodes w h = ground (arith, bit_extract_lem w 0 16)

pub nop_t1_encodes : (w : ℕ) → w < 2 ^ 16 → match_nop_t1 w ≡ true → encode_nop_t1 ≡ some (narrow w)
unfolding encode_nop_t1 match_nop_t1
nop_t1_encodes w h m = ground (arith, bit_extract_lem w 0 16)

pub nop_t2_decodes :
    (w : ℕ) → encode_nop_t2 ≡ some (wide w) → (w < 2 ^ 32) × (match_nop_t2 w ≡ true)
unfolding encode_nop_t2 match_nop_t2
nop_t2_decodes w h = ground (arith, bit_extract_lem w 16 16, bit_extract_lem w 0 16)

pub nop_t2_encodes : (w : ℕ) → w < 2 ^ 32 → match_nop_t2 w ≡ true → encode_nop_t2 ≡ some (wide w)
unfolding encode_nop_t2 match_nop_t2
nop_t2_encodes w h m = ground (arith, bit_extract_lem w 16 16, bit_extract_lem w 0 16)
