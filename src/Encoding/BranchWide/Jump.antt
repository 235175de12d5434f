-- ===== src/Encoding/BranchWide/Jump.antt =====
-- Encoding and decoding the 32-bit B, T4: t32_encoding.c in monitor/autogen_encodings.
use tw_monitor.Common.{ℕ, ◌+◌, ◌-◌, ◌*◌, ◌/◌, ◌%◌, ◌^◌, ◌≤◌, ◌<◌, ◌≡◌, refl, ◌⊎◌, Bool, true}
use tw_monitor.Common.{◌&&◌, ◌||◌, none, some, arith, ltb, leb, ◌==◌, if◌then◌else◌, ◌↔◌, ◌∙◌}
use tw_monitor.Encoding.Macros.{wide, IsU32, asr32, bit_extract_lem, bit_extract_signed_lem}
use tw_monitor.Encoding.Macros.{signed_check_fit_lem, signed_extend_lem, or32_lem, same_bit_lem}
use tw_monitor.Encoding.Macros.{bit_same_lem}
use tw_monitor.Encoding.BranchWide.{Bt4Parts, match_b_t4, encode_b_t4, decode_b_t4}
use tw_monitor.Encoding.BranchWide.Offset.{join25, join25-split, offset25, offset25-half}
use tw_monitor.Encoding.BranchWide.Offset.{offset25_lem, split-join25, same, same_twice}

-- The field is an `int32_t`.
pub record IsBt4Parts (p : Bt4Parts) : Type 0 where
  pub simm25_u32 : IsU32 p.simm25

unfoldable pub b_t4_accepts : Bt4Parts → Bool
b_t4_accepts p = p.simm25 % 2 ^ 1 == 0 && (ltb p.simm25 (2 ^ 25) || leb (2 ^ 32 - 2 ^ 25) p.simm25)

-- The offsets that the field can hold.
abbrev pub InRangeBt4Parts : Bt4Parts → Type 0
InRangeBt4Parts p = (p.simm25 < 2 ^ 24) ⊎ (2 ^ 32 - 2 ^ 24 ≤ p.simm25)

b_t4_pack : ℕ → ℕ → ℕ → ℕ → ℕ → ℕ
b_t4_pack sign i1 i2 imm10 imm11 =
    0x9000f000
    + same i1 sign * 2 ^ 29
    + same i2 sign * 2 ^ 27
    + imm11 * 2 ^ 16
    + sign * 2 ^ 10
    + imm10

unfoldable pub b_t4_word : Bt4Parts → ℕ
unfolding b_t4_pack
b_t4_word p =
    b_t4_pack (p.simm25 / 2 ^ 24 % 2) (p.simm25 / 2 ^ 23 % 2) (p.simm25 / 2 ^ 22 % 2)
      (p.simm25 / 2 ^ 12 % 2 ^ 10) (p.simm25 / 2 % 2 ^ 11)

pub encode_b_t4_lem :
    (p : Bt4Parts)
    → IsBt4Parts p
    → encode_b_t4 p ≡ (if b_t4_accepts p then some (wide (b_t4_word p)) else none)
unfolding encode_b_t4 b_t4_accepts b_t4_word asr32
encode_b_t4_lem p v = ground (
  arith,
  bit_extract_signed_lem p.simm25 0 1,
  signed_check_fit_lem 25 24 8 (asr32 p.simm25 1) refl refl refl,
  bit_extract_signed_lem p.simm25 24 1,
  bit_extract_signed_lem p.simm25 23 1,
  bit_extract_signed_lem p.simm25 22 1,
  bit_extract_signed_lem p.simm25 12 10,
  bit_extract_signed_lem p.simm25 1 11,
  same_bit_lem (p.simm25 / 2 ^ 23 % 2 ^ 1) (p.simm25 / 2 ^ 24 % 2 ^ 1),
  or32_lem 29 1 (0x9000f000) ((1 + p.simm25 / 2 ^ 23 % 2 ^ 1 + p.simm25 / 2 ^ 24 % 2 ^ 1) % 2),
  same_bit_lem (p.simm25 / 2 ^ 22 % 2 ^ 1) (p.simm25 / 2 ^ 24 % 2 ^ 1),
  or32_lem 27 1
      (0x9000f000 + ((1 + p.simm25 / 2 ^ 23 % 2 ^ 1 + p.simm25 / 2 ^ 24 % 2 ^ 1) % 2) * 2 ^ 29)
      ((1 + p.simm25 / 2 ^ 22 % 2 ^ 1 + p.simm25 / 2 ^ 24 % 2 ^ 1) % 2),
  or32_lem 16 11
      (0x9000f000
        + ((1 + p.simm25 / 2 ^ 23 % 2 ^ 1 + p.simm25 / 2 ^ 24 % 2 ^ 1) % 2) * 2 ^ 29
        + ((1 + p.simm25 / 2 ^ 22 % 2 ^ 1 + p.simm25 / 2 ^ 24 % 2 ^ 1) % 2) * 2 ^ 27)
      (p.simm25 / 2 ^ 1 % 2 ^ 11),
  or32_lem 10 1
      (0x9000f000
        + ((1 + p.simm25 / 2 ^ 23 % 2 ^ 1 + p.simm25 / 2 ^ 24 % 2 ^ 1) % 2) * 2 ^ 29
        + ((1 + p.simm25 / 2 ^ 22 % 2 ^ 1 + p.simm25 / 2 ^ 24 % 2 ^ 1) % 2) * 2 ^ 27
        + (p.simm25 / 2 ^ 1 % 2 ^ 11) * 2 ^ 16)
      (p.simm25 / 2 ^ 24 % 2 ^ 1),
  or32_lem 0 10
      (0x9000f000
        + ((1 + p.simm25 / 2 ^ 23 % 2 ^ 1 + p.simm25 / 2 ^ 24 % 2 ^ 1) % 2) * 2 ^ 29
        + ((1 + p.simm25 / 2 ^ 22 % 2 ^ 1 + p.simm25 / 2 ^ 24 % 2 ^ 1) % 2) * 2 ^ 27
        + (p.simm25 / 2 ^ 1 % 2 ^ 11) * 2 ^ 16
        + (p.simm25 / 2 ^ 24 % 2 ^ 1) * 2 ^ 10)
      (p.simm25 / 2 ^ 12 % 2 ^ 10),
)

decode_b_t4_lem :
    (w : ℕ)
    → decode_b_t4 w ≡ record {
      simm25 = offset25 (
          join25
            (w / 2 ^ 10 % 2)
            (same (w / 2 ^ 29 % 2) (w / 2 ^ 10 % 2))
            (same (w / 2 ^ 27 % 2) (w / 2 ^ 10 % 2))
            (w % 2 ^ 10)
            (w / 2 ^ 16 % 2 ^ 11));
    }
unfolding decode_b_t4
decode_b_t4_lem w = ground (
  arith,
  bit_extract_lem w 16 11,
  bit_extract_lem w 10 1,
  bit_extract_lem w 0 10,
  bit_extract_lem w 27 1,
  bit_same_lem (w / 2 ^ 27 % 2) (w / 2 ^ 10 % 2 ^ 1),
  bit_extract_lem w 29 1,
  bit_same_lem (w / 2 ^ 29 % 2) (w / 2 ^ 10 % 2 ^ 1),
  or32_lem 23 1 (0) (w / 2 ^ 10 % 2 ^ 1),
  or32_lem 22 1 (0 + (w / 2 ^ 10 % 2 ^ 1) * 2 ^ 23)
      ((1 + w / 2 ^ 29 % 2 ^ 1 + w / 2 ^ 10 % 2 ^ 1) % 2),
  or32_lem 21 1
      (0
        + (w / 2 ^ 10 % 2 ^ 1) * 2 ^ 23
        + ((1 + w / 2 ^ 29 % 2 ^ 1 + w / 2 ^ 10 % 2 ^ 1) % 2) * 2 ^ 22)
      ((1 + w / 2 ^ 27 % 2 ^ 1 + w / 2 ^ 10 % 2 ^ 1) % 2),
  or32_lem 11 10
      (0
        + (w / 2 ^ 10 % 2 ^ 1) * 2 ^ 23
        + ((1 + w / 2 ^ 29 % 2 ^ 1 + w / 2 ^ 10 % 2 ^ 1) % 2) * 2 ^ 22
        + ((1 + w / 2 ^ 27 % 2 ^ 1 + w / 2 ^ 10 % 2 ^ 1) % 2) * 2 ^ 21)
      (w / 2 ^ 0 % 2 ^ 10),
  or32_lem 0 11
      (0
        + (w / 2 ^ 10 % 2 ^ 1) * 2 ^ 23
        + ((1 + w / 2 ^ 29 % 2 ^ 1 + w / 2 ^ 10 % 2 ^ 1) % 2) * 2 ^ 22
        + ((1 + w / 2 ^ 27 % 2 ^ 1 + w / 2 ^ 10 % 2 ^ 1) % 2) * 2 ^ 21
        + (w / 2 ^ 0 % 2 ^ 10) * 2 ^ 11)
      (w / 2 ^ 16 % 2 ^ 11),
  signed_extend_lem 24 23 8
      (0
        + (w / 2 ^ 10 % 2 ^ 1) * 2 ^ 23
        + ((1 + w / 2 ^ 29 % 2 ^ 1 + w / 2 ^ 10 % 2 ^ 1) % 2) * 2 ^ 22
        + ((1 + w / 2 ^ 27 % 2 ^ 1 + w / 2 ^ 10 % 2 ^ 1) % 2) * 2 ^ 21
        + (w / 2 ^ 0 % 2 ^ 10) * 2 ^ 11
        + (w / 2 ^ 16 % 2 ^ 11) * 2 ^ 0)
      refl refl refl,
)

b_t4_pack_lem :
    (w sign i1 i2 imm10 imm11 : ℕ)
    → sign < 2
    → i1 < 2
    → i2 < 2
    → imm10 < 2 ^ 10
    → imm11 < 2 ^ 11
    → w ≡ b_t4_pack sign i1 i2 imm10 imm11
    → (w < 2 ^ 32)
      × (w / 2 ^ 30 % 2 ^ 2 ≡ 2)
      × (w / 2 ^ 28 % 2 ≡ 1)
      × (w / 2 ^ 11 % 2 ^ 5 ≡ 0x1E)
      × (w / 2 ^ 10 % 2 ≡ sign)
      × (w / 2 ^ 29 % 2 ≡ same i1 sign)
      × (w / 2 ^ 27 % 2 ≡ same i2 sign)
      × (w % 2 ^ 10 ≡ imm10)
      × (w / 2 ^ 16 % 2 ^ 11 ≡ imm11)
unfolding b_t4_pack
b_t4_pack_lem w sign i1 i2 imm10 imm11 a b c d e h = omega arith

b_t4_unpack :
    (w : ℕ)
    → w < 2 ^ 32
    → w / 2 ^ 30 % 2 ^ 2 ≡ 2
    → w / 2 ^ 28 % 2 ≡ 1
    → w / 2 ^ 11 % 2 ^ 5 ≡ 0x1E
    → b_t4_pack
        (w / 2 ^ 10 % 2)
        (same (w / 2 ^ 29 % 2) (w / 2 ^ 10 % 2))
        (same (w / 2 ^ 27 % 2) (w / 2 ^ 10 % 2))
        (w % 2 ^ 10)
        (w / 2 ^ 16 % 2 ^ 11)
      ≡ w
unfolding b_t4_pack
b_t4_unpack w h a b c = omega arith

pub match_b_t4_lem :
    (w : ℕ)
    → (match_b_t4 w ≡ true)
      ↔ ((w / 2 ^ 30 % 2 ^ 2 ≡ 2) × (w / 2 ^ 28 % 2 ≡ 1) × (w / 2 ^ 11 % 2 ^ 5 ≡ 0x1E))
unfolding match_b_t4
match_b_t4_lem w =
    ground (arith, bit_extract_lem w 30 2, bit_extract_lem w 28 1, bit_extract_lem w 11 5)

pub b_t4_decodes :
    (p : Bt4Parts)
    → IsBt4Parts p
    → InRangeBt4Parts p
    → (w : ℕ) → encode_b_t4 p ≡ some (wide w)
    → (w < 2 ^ 32) × (match_b_t4 w ≡ true) × (decode_b_t4 w ≡ p)
unfolding b_t4_accepts b_t4_word
b_t4_decodes p v r w h =
    let s : ℕ = p.simm25 / 2 ^ 24 % 2 in
    let i1 : ℕ = p.simm25 / 2 ^ 23 % 2 in
    let i2 : ℕ = p.simm25 / 2 ^ 22 % 2 in
    let accepted : (p.simm25 % 2 ≡ 0) × (w ≡ b_t4_word p) = ground (arith, encode_b_t4_lem p v) in
    let bits =
      b_t4_pack_lem w s i1 i2 (p.simm25 / 2 ^ 12 % 2 ^ 10) (p.simm25 / 2 % 2 ^ 11) (omega arith)
        (omega arith) (omega arith) (omega arith) (omega arith) accepted.1 in
    let joined = join25-split p.simm25 in
    ground (
      arith,
      bits,
      match_b_t4_lem w,
      decode_b_t4_lem w,
      same_twice i1 s,
      same_twice i2 s,
      joined,
      offset25-half p.simm25 v.simm25_u32 accepted.0 r,
    )

pub b_t4_encodes :
    (w : ℕ) → w < 2 ^ 32 → match_b_t4 w ≡ true → encode_b_t4 (decode_b_t4 w) ≡ some (wide w)
unfolding b_t4_accepts b_t4_word
b_t4_encodes w h m =
    let s : ℕ = w / 2 ^ 10 % 2 in
    let i1 : ℕ = same (w / 2 ^ 29 % 2) s in
    let i2 : ℕ = same (w / 2 ^ 27 % 2) s in
    let fixed = (match_b_t4_lem w).0 m in
    let x : ℕ = join25 s i1 i2 (w % 2 ^ 10) (w / 2 ^ 16 % 2 ^ 11) in
    let v = offset25_lem x (omega arith) in
    let fields =
      split-join25 (offset25 x) s i1 i2 (w % 2 ^ 10) (w / 2 ^ 16 % 2 ^ 11) (omega arith)
        (omega arith) (omega arith) (omega arith) (omega arith) v.3 in
    rw (decode_b_t4_lem w) (
      encode_b_t4_lem (record { simm25 = offset25 x }) (record { simm25_u32 = v.0 })
      ∙ ground (arith, fields, v, b_t4_unpack w h fixed.0 fixed.1 fixed.2))
