-- ===== src/Encoding/BranchWide/Link.antt =====
-- Encoding and decoding BL: t32_encoding.c in monitor/autogen_encodings.
use tw_monitor.Common.{ℕ, ◌+◌, ◌-◌, ◌*◌, ◌/◌, ◌%◌, ◌^◌, ◌≤◌, ◌<◌, ◌≡◌, refl, ◌⊎◌, Bool, true}
use tw_monitor.Common.{◌&&◌, ◌||◌, none, some, arith, ltb, leb, ◌==◌, if◌then◌else◌, ◌↔◌, ◌∙◌}
use tw_monitor.Encoding.Macros.{wide, IsU32, asr32, bit_extract_lem, bit_extract_signed_lem}
use tw_monitor.Encoding.Macros.{signed_check_fit_lem, signed_extend_lem, or32_lem, same_bit_lem}
use tw_monitor.Encoding.Macros.{bit_same_lem}
use tw_monitor.Encoding.BranchWide.{BlT1Parts, match_bl_t1, encode_bl_t1, decode_bl_t1}
use tw_monitor.Encoding.BranchWide.Offset.{join25, join25-split, offset25, offset25-half}
use tw_monitor.Encoding.BranchWide.Offset.{offset25_lem, split-join25, same, same_twice}

-- The field is an `int32_t`.
pub record IsBlT1Parts (p : BlT1Parts) : Type 0 where
  pub simm25_u32 : IsU32 p.simm25

unfoldable pub bl_t1_accepts : BlT1Parts → Bool
bl_t1_accepts p = p.simm25 % 2 ^ 1 == 0 && (ltb p.simm25 (2 ^ 25) || leb (2 ^ 32 - 2 ^ 25) p.simm25)

-- The offsets that the field can hold.
abbrev pub InRangeBlT1Parts : BlT1Parts → Type 0
InRangeBlT1Parts p = (p.simm25 < 2 ^ 24) ⊎ (2 ^ 32 - 2 ^ 24 ≤ p.simm25)

bl_t1_pack : ℕ → ℕ → ℕ → ℕ → ℕ → ℕ
bl_t1_pack sign i1 i2 imm10 imm11 =
    0xd000f000
    + same i1 sign * 2 ^ 29
    + same i2 sign * 2 ^ 27
    + imm11 * 2 ^ 16
    + sign * 2 ^ 10
    + imm10

unfoldable pub bl_t1_word : BlT1Parts → ℕ
unfolding bl_t1_pack
bl_t1_word p =
    bl_t1_pack (p.simm25 / 2 ^ 24 % 2) (p.simm25 / 2 ^ 23 % 2) (p.simm25 / 2 ^ 22 % 2)
      (p.simm25 / 2 ^ 12 % 2 ^ 10) (p.simm25 / 2 % 2 ^ 11)

pub encode_bl_t1_lem :
    (p : BlT1Parts)
    → IsBlT1Parts p
    → encode_bl_t1 p ≡ (if bl_t1_accepts p then some (wide (bl_t1_word p)) else none)
unfolding encode_bl_t1 bl_t1_accepts bl_t1_word asr32
encode_bl_t1_lem p v = ground (
  arith,
  bit_extract_signed_lem p.simm25 0 1,
  signed_check_fit_lem 25 24 8 (asr32 p.simm25 1) refl refl refl,
  bit_extract_signed_lem p.simm25 24 1,
  bit_extract_signed_lem p.simm25 23 1,
  bit_extract_signed_lem p.simm25 22 1,
  bit_extract_signed_lem p.simm25 12 10,
  bit_extract_signed_lem p.simm25 1 11,
  same_bit_lem (p.simm25 / 2 ^ 23 % 2 ^ 1) (p.simm25 / 2 ^ 24 % 2 ^ 1),
  or32_lem 29 1 (0xd000f000) ((1 + p.simm25 / 2 ^ 23 % 2 ^ 1 + p.simm25 / 2 ^ 24 % 2 ^ 1) % 2),
  same_bit_lem (p.simm25 / 2 ^ 22 % 2 ^ 1) (p.simm25 / 2 ^ 24 % 2 ^ 1),
  or32_lem 27 1
      (0xd000f000 + ((1 + p.simm25 / 2 ^ 23 % 2 ^ 1 + p.simm25 / 2 ^ 24 % 2 ^ 1) % 2) * 2 ^ 29)
      ((1 + p.simm25 / 2 ^ 22 % 2 ^ 1 + p.simm25 / 2 ^ 24 % 2 ^ 1) % 2),
  or32_lem 16 11
      (0xd000f000
        + ((1 + p.simm25 / 2 ^ 23 % 2 ^ 1 + p.simm25 / 2 ^ 24 % 2 ^ 1) % 2) * 2 ^ 29
        + ((1 + p.simm25 / 2 ^ 22 % 2 ^ 1 + p.simm25 / 2 ^ 24 % 2 ^ 1) % 2) * 2 ^ 27)
      (p.simm25 / 2 ^ 1 % 2 ^ 11),
  or32_lem 10 1
      (0xd000f000
        + ((1 + p.simm25 / 2 ^ 23 % 2 ^ 1 + p.simm25 / 2 ^ 24 % 2 ^ 1) % 2) * 2 ^ 29
        + ((1 + p.simm25 / 2 ^ 22 % 2 ^ 1 + p.simm25 / 2 ^ 24 % 2 ^ 1) % 2) * 2 ^ 27
        + (p.simm25 / 2 ^ 1 % 2 ^ 11) * 2 ^ 16)
      (p.simm25 / 2 ^ 24 % 2 ^ 1),
  or32_lem 0 10
      (0xd000f000
        + ((1 + p.simm25 / 2 ^ 23 % 2 ^ 1 + p.simm25 / 2 ^ 24 % 2 ^ 1) % 2) * 2 ^ 29
        + ((1 + p.simm25 / 2 ^ 22 % 2 ^ 1 + p.simm25 / 2 ^ 24 % 2 ^ 1) % 2) * 2 ^ 27
        + (p.simm25 / 2 ^ 1 % 2 ^ 11) * 2 ^ 16
        + (p.simm25 / 2 ^ 24 % 2 ^ 1) * 2 ^ 10)
      (p.simm25 / 2 ^ 12 % 2 ^ 10),
)

decode_bl_t1_lem :
    (w : ℕ)
    → decode_bl_t1 w ≡ record {
      simm25 = offset25 (
          join25
            (w / 2 ^ 10 % 2)
            (same (w / 2 ^ 29 % 2) (w / 2 ^ 10 % 2))
            (same (w / 2 ^ 27 % 2) (w / 2 ^ 10 % 2))
            (w % 2 ^ 10)
            (w / 2 ^ 16 % 2 ^ 11));
    }
unfolding decode_bl_t1
decode_bl_t1_lem w = ground (
  arith,
  bit_extract_lem w 16 11,
  bit_extract_lem w 10 1,
  bit_extract_lem w 0 10,
  bit_extract_lem w 27 1,
  bit_same_lem (w / 2 ^ 27 % 2) (w / 2 ^ 10 % 2 ^ 1),
  bit_extract_lem w 29 1,
  bit_same_lem (w / 2 ^ 29 % 2) (w / 2 ^ 10 % 2 ^ 1),
  or32_lem 23 1 (0) (w / 2 ^ 10 % 2 ^ 1),
  or32_lem 22 1 (0 + (w / 2 ^ 10 % 2 ^ 1) * 2 ^ 23)
      ((1 + w / 2 ^ 29 % 2 ^ 1 + w / 2 ^ 10 % 2 ^ 1) % 2),
  or32_lem 21 1
      (0
        + (w / 2 ^ 10 % 2 ^ 1) * 2 ^ 23
        + ((1 + w / 2 ^ 29 % 2 ^ 1 + w / 2 ^ 10 % 2 ^ 1) % 2) * 2 ^ 22)
      ((1 + w / 2 ^ 27 % 2 ^ 1 + w / 2 ^ 10 % 2 ^ 1) % 2),
  or32_lem 11 10
      (0
        + (w / 2 ^ 10 % 2 ^ 1) * 2 ^ 23
        + ((1 + w / 2 ^ 29 % 2 ^ 1 + w / 2 ^ 10 % 2 ^ 1) % 2) * 2 ^ 22
        + ((1 + w / 2 ^ 27 % 2 ^ 1 + w / 2 ^ 10 % 2 ^ 1) % 2) * 2 ^ 21)
      (w / 2 ^ 0 % 2 ^ 10),
  or32_lem 0 11
      (0
        + (w / 2 ^ 10 % 2 ^ 1) * 2 ^ 23
        + ((1 + w / 2 ^ 29 % 2 ^ 1 + w / 2 ^ 10 % 2 ^ 1) % 2) * 2 ^ 22
        + ((1 + w / 2 ^ 27 % 2 ^ 1 + w / 2 ^ 10 % 2 ^ 1) % 2) * 2 ^ 21
        + (w / 2 ^ 0 % 2 ^ 10) * 2 ^ 11)
      (w / 2 ^ 16 % 2 ^ 11),
  signed_extend_lem 24 23 8
      (0
        + (w / 2 ^ 10 % 2 ^ 1) * 2 ^ 23
        + ((1 + w / 2 ^ 29 % 2 ^ 1 + w / 2 ^ 10 % 2 ^ 1) % 2) * 2 ^ 22
        + ((1 + w / 2 ^ 27 % 2 ^ 1 + w / 2 ^ 10 % 2 ^ 1) % 2) * 2 ^ 21
        + (w / 2 ^ 0 % 2 ^ 10) * 2 ^ 11
        + (w / 2 ^ 16 % 2 ^ 11) * 2 ^ 0)
      refl refl refl,
)

bl_t1_pack_lem :
    (w sign i1 i2 imm10 imm11 : ℕ)
    → sign < 2
    → i1 < 2
    → i2 < 2
    → imm10 < 2 ^ 10
    → imm11 < 2 ^ 11
    → w ≡ bl_t1_pack sign i1 i2 imm10 imm11
    → (w < 2 ^ 32)
      × (w / 2 ^ 30 % 2 ^ 2 ≡ 3)
      × (w / 2 ^ 28 % 2 ≡ 1)
      × (w / 2 ^ 11 % 2 ^ 5 ≡ 0x1E)
      × (w / 2 ^ 10 % 2 ≡ sign)
      × (w / 2 ^ 29 % 2 ≡ same i1 sign)
      × (w / 2 ^ 27 % 2 ≡ same i2 sign)
      × (w % 2 ^ 10 ≡ imm10)
      × (w / 2 ^ 16 % 2 ^ 11 ≡ imm11)
unfolding bl_t1_pack
bl_t1_pack_lem w sign i1 i2 imm10 imm11 a b c d e h = omega arith

bl_t1_unpack :
    (w : ℕ)
    → w < 2 ^ 32
    → w / 2 ^ 30 % 2 ^ 2 ≡ 3
    → w / 2 ^ 28 % 2 ≡ 1
    → w / 2 ^ 11 % 2 ^ 5 ≡ 0x1E
    → bl_t1_pack
        (w / 2 ^ 10 % 2)
        (same (w / 2 ^ 29 % 2) (w / 2 ^ 10 % 2))
        (same (w / 2 ^ 27 % 2) (w / 2 ^ 10 % 2))
        (w % 2 ^ 10)
        (w / 2 ^ 16 % 2 ^ 11)
      ≡ w
unfolding bl_t1_pack
bl_t1_unpack w h a b c = omega arith

pub match_bl_t1_lem :
    (w : ℕ)
    → (match_bl_t1 w ≡ true)
      ↔ ((w / 2 ^ 30 % 2 ^ 2 ≡ 3) × (w / 2 ^ 28 % 2 ≡ 1) × (w / 2 ^ 11 % 2 ^ 5 ≡ 0x1E))
unfolding match_bl_t1
match_bl_t1_lem w =
    ground (arith, bit_extract_lem w 30 2, bit_extract_lem w 28 1, bit_extract_lem w 11 5)

pub bl_t1_decodes :
    (p : BlT1Parts)
    → IsBlT1Parts p
    → InRangeBlT1Parts p
    → (w : ℕ) → encode_bl_t1 p ≡ some (wide w)
    → (w < 2 ^ 32) × (match_bl_t1 w ≡ true) × (decode_bl_t1 w ≡ p)
unfolding bl_t1_accepts bl_t1_word
bl_t1_decodes p v r w h =
    let s : ℕ = p.simm25 / 2 ^ 24 % 2 in
    let i1 : ℕ = p.simm25 / 2 ^ 23 % 2 in
    let i2 : ℕ = p.simm25 / 2 ^ 22 % 2 in
    let accepted : (p.simm25 % 2 ≡ 0) × (w ≡ bl_t1_word p) = ground (arith, encode_bl_t1_lem p v) in
    let bits =
      bl_t1_pack_lem w s i1 i2 (p.simm25 / 2 ^ 12 % 2 ^ 10) (p.simm25 / 2 % 2 ^ 11) (omega arith)
        (omega arith) (omega arith) (omega arith) (omega arith) accepted.1 in
    let joined = join25-split p.simm25 in
    ground (
      arith,
      bits,
      match_bl_t1_lem w,
      decode_bl_t1_lem w,
      same_twice i1 s,
      same_twice i2 s,
      joined,
      offset25-half p.simm25 v.simm25_u32 accepted.0 r,
    )

pub bl_t1_encodes :
    (w : ℕ) → w < 2 ^ 32 → match_bl_t1 w ≡ true → encode_bl_t1 (decode_bl_t1 w) ≡ some (wide w)
unfolding bl_t1_accepts bl_t1_word
bl_t1_encodes w h m =
    let s : ℕ = w / 2 ^ 10 % 2 in
    let i1 : ℕ = same (w / 2 ^ 29 % 2) s in
    let i2 : ℕ = same (w / 2 ^ 27 % 2) s in
    let fixed = (match_bl_t1_lem w).0 m in
    let x : ℕ = join25 s i1 i2 (w % 2 ^ 10) (w / 2 ^ 16 % 2 ^ 11) in
    let v = offset25_lem x (omega arith) in
    let fields =
      split-join25 (offset25 x) s i1 i2 (w % 2 ^ 10) (w / 2 ^ 16 % 2 ^ 11) (omega arith)
        (omega arith) (omega arith) (omega arith) (omega arith) v.3 in
    rw (decode_bl_t1_lem w) (
      encode_bl_t1_lem (record { simm25 = offset25 x }) (record { simm25_u32 = v.0 })
      ∙ ground (arith, fields, v, bl_t1_unpack w h fixed.0 fixed.1 fixed.2))
