-- ===== src/Encoding/BranchWide/Conditional.antt =====
-- Encoding and decoding the conditional 32-bit B, T3: t32_encoding.c in monitor/autogen_encodings.
use tw_monitor.Common.{ℕ, ◌+◌, ◌-◌, ◌*◌, ◌/◌, ◌%◌, ◌^◌, ◌≤◌, ◌<◌, ◌≡◌, refl, ◌⊎◌, Bool, true}
use tw_monitor.Common.{◌&&◌, ◌||◌, none, some, arith, ltb, leb, ◌==◌, if◌then◌else◌, ◌↔◌, ◌∙◌}
use tw_monitor.Encoding.Macros.{wide, IsU32, shl32, asr32, or32, bit_extract_lem}
use tw_monitor.Encoding.Macros.{bit_extract_signed_lem, unsigned_check_fit_lem}
use tw_monitor.Encoding.Macros.{signed_check_fit_lem, signed_extend_lem, or32_lem}
use tw_monitor.Encoding.BranchWide.{BCondT3NoitParts, match_b_cond_t3_noit, encode_b_cond_t3_noit}
use tw_monitor.Encoding.BranchWide.{decode_b_cond_t3_noit}
use tw_monitor.Encoding.BranchWide.Offset.{join21, join21-split, offset21, offset21-half}
use tw_monitor.Encoding.BranchWide.Offset.{offset21_lem, split-join21}

-- The offset is an `int32_t` and the condition a `uint32_t`.
pub record IsBCondT3NoitParts (p : BCondT3NoitParts) : Type 0 where
  pub cond_u32 : IsU32 p.cond
  pub simm21_u32 : IsU32 p.simm21

unfoldable pub b_cond_t3_noit_accepts : BCondT3NoitParts → Bool
b_cond_t3_noit_accepts p =
    p.simm21 % 2 ^ 1 == 0
    && (ltb p.simm21 (2 ^ 21) || leb (2 ^ 32 - 2 ^ 21) p.simm21)
    && ltb p.cond (2 ^ 4)

-- The offsets that the field can hold.
abbrev pub InRangeBCondT3NoitParts : BCondT3NoitParts → Type 0
InRangeBCondT3NoitParts p = (p.simm21 < 2 ^ 20) ⊎ (2 ^ 32 - 2 ^ 20 ≤ p.simm21)

b_cond_t3_noit_pack : ℕ → ℕ → ℕ → ℕ → ℕ → ℕ → ℕ
b_cond_t3_noit_pack sign j2 j1 imm6 imm11 cond =
    0x8000f000 + j1 * 2 ^ 29 + j2 * 2 ^ 27 + imm11 * 2 ^ 16 + sign * 2 ^ 10 + cond * 2 ^ 6 + imm6

unfoldable pub b_cond_t3_noit_word : BCondT3NoitParts → ℕ
unfolding b_cond_t3_noit_pack
b_cond_t3_noit_word p =
    b_cond_t3_noit_pack (p.simm21 / 2 ^ 20 % 2) (p.simm21 / 2 ^ 19 % 2) (p.simm21 / 2 ^ 18 % 2)
      (p.simm21 / 2 ^ 12 % 2 ^ 6) (p.simm21 / 2 % 2 ^ 11) p.cond

-- The `|=` statements of the encoder, in their order.
b_cond_t3_noit_ors : ℕ → ℕ → ℕ → ℕ → ℕ → ℕ → ℕ
b_cond_t3_noit_ors sign j2 j1 imm6 imm11 cond =
    or32
      (or32
        (or32 (or32 (or32 (or32 0x8000f000 (shl32 j1 29)) (shl32 j2 27)) (shl32 imm11 16))
          (shl32 sign 10))
        (shl32 cond 6))
      (shl32 imm6 0)

b_cond_t3_noit_ors_lem :
    (sign j2 j1 imm6 imm11 cond : ℕ)
    → sign < 2
    → j2 < 2
    → j1 < 2
    → imm6 < 2 ^ 6
    → imm11 < 2 ^ 11
    → cond < 2 ^ 4
    → b_cond_t3_noit_ors sign j2 j1 imm6 imm11 cond ≡ b_cond_t3_noit_pack sign j2 j1 imm6 imm11 cond
unfolding b_cond_t3_noit_ors b_cond_t3_noit_pack
b_cond_t3_noit_ors_lem sign j2 j1 imm6 imm11 cond a b c d e f = ground (
  arith,
  or32_lem 29 1 0x8000f000 j1,
  or32_lem 27 1 (0x8000f000 + j1 * 2 ^ 29) j2,
  or32_lem 16 11 (0x8000f000 + j1 * 2 ^ 29 + j2 * 2 ^ 27) imm11,
  or32_lem 10 1 (0x8000f000 + j1 * 2 ^ 29 + j2 * 2 ^ 27 + imm11 * 2 ^ 16) sign,
  or32_lem 6 4 (0x8000f000 + j1 * 2 ^ 29 + j2 * 2 ^ 27 + imm11 * 2 ^ 16 + sign * 2 ^ 10) cond,
  or32_lem 0 6
      (0x8000f000 + j1 * 2 ^ 29 + j2 * 2 ^ 27 + imm11 * 2 ^ 16 + sign * 2 ^ 10 + cond * 2 ^ 6) imm6,
)

pub encode_b_cond_t3_noit_lem :
    (p : BCondT3NoitParts)
    → IsBCondT3NoitParts p
    → encode_b_cond_t3_noit p
      ≡ (if b_cond_t3_noit_accepts p then some (wide (b_cond_t3_noit_word p)) else none)
unfolding encode_b_cond_t3_noit b_cond_t3_noit_accepts b_cond_t3_noit_word b_cond_t3_noit_ors asr32
encode_b_cond_t3_noit_lem p v =
    let v21 : ℕ = p.simm21 in
    ground (
      arith,
      bit_extract_signed_lem p.simm21 0 1,
      signed_check_fit_lem 21 20 12 (asr32 p.simm21 1) refl refl refl,
      bit_extract_signed_lem p.simm21 20 1,
      bit_extract_signed_lem p.simm21 19 1,
      bit_extract_signed_lem p.simm21 18 1,
      bit_extract_signed_lem p.simm21 12 6,
      bit_extract_signed_lem p.simm21 1 11,
      unsigned_check_fit_lem 4 28 p.cond refl refl,
      b_cond_t3_noit_ors_lem (v21 / 2 ^ 20 % 2) (v21 / 2 ^ 19 % 2) (v21 / 2 ^ 18 % 2)
          (v21 / 2 ^ 12 % 2 ^ 6) (v21 / 2 % 2 ^ 11) p.cond (omega arith) (omega arith) (omega arith)
          (omega arith) (omega arith),
    )

decode_b_cond_t3_noit_lem :
    (w : ℕ)
    → decode_b_cond_t3_noit w ≡ record {
      cond = w / 2 ^ 6 % 2 ^ 4;
      simm21 = offset21 (
          join21
            (w / 2 ^ 10 % 2)
            (w / 2 ^ 27 % 2)
            (w / 2 ^ 29 % 2)
            (w % 2 ^ 6)
            (w / 2 ^ 16 % 2 ^ 11));
    }
unfolding decode_b_cond_t3_noit
decode_b_cond_t3_noit_lem w = ground (
  arith,
  bit_extract_lem w 29 1,
  bit_extract_lem w 27 1,
  bit_extract_lem w 16 11,
  bit_extract_lem w 10 1,
  bit_extract_lem w 6 4,
  bit_extract_lem w 0 6,
  or32_lem 19 1 (0) (w / 2 ^ 10 % 2 ^ 1),
  or32_lem 18 1 (0 + (w / 2 ^ 10 % 2 ^ 1) * 2 ^ 19) (w / 2 ^ 27 % 2 ^ 1),
  or32_lem 17 1 (0 + (w / 2 ^ 10 % 2 ^ 1) * 2 ^ 19 + (w / 2 ^ 27 % 2 ^ 1) * 2 ^ 18)
      (w / 2 ^ 29 % 2 ^ 1),
  or32_lem 11 6
      (0
        + (w / 2 ^ 10 % 2 ^ 1) * 2 ^ 19
        + (w / 2 ^ 27 % 2 ^ 1) * 2 ^ 18
        + (w / 2 ^ 29 % 2 ^ 1) * 2 ^ 17)
      (w / 2 ^ 0 % 2 ^ 6),
  or32_lem 0 11
      (0
        + (w / 2 ^ 10 % 2 ^ 1) * 2 ^ 19
        + (w / 2 ^ 27 % 2 ^ 1) * 2 ^ 18
        + (w / 2 ^ 29 % 2 ^ 1) * 2 ^ 17
        + (w / 2 ^ 0 % 2 ^ 6) * 2 ^ 11)
      (w / 2 ^ 16 % 2 ^ 11),
  signed_extend_lem 20 19 12
      (0
        + (w / 2 ^ 10 % 2 ^ 1) * 2 ^ 19
        + (w / 2 ^ 27 % 2 ^ 1) * 2 ^ 18
        + (w / 2 ^ 29 % 2 ^ 1) * 2 ^ 17
        + (w / 2 ^ 0 % 2 ^ 6) * 2 ^ 11
        + (w / 2 ^ 16 % 2 ^ 11) * 2 ^ 0)
      refl refl refl,
)

b_cond_t3_noit_pack_lem :
    (w sign j2 j1 imm6 imm11 cond : ℕ)
    → sign < 2
    → j2 < 2
    → j1 < 2
    → imm6 < 2 ^ 6
    → imm11 < 2 ^ 11
    → cond < 2 ^ 4
    → w ≡ b_cond_t3_noit_pack sign j2 j1 imm6 imm11 cond
    → (w < 2 ^ 32)
      × (w / 2 ^ 30 % 2 ^ 2 ≡ 2)
      × (w / 2 ^ 28 % 2 ≡ 0)
      × (w / 2 ^ 11 % 2 ^ 5 ≡ 0x1E)
      × (w / 2 ^ 10 % 2 ≡ sign)
      × (w / 2 ^ 27 % 2 ≡ j2)
      × (w / 2 ^ 29 % 2 ≡ j1)
      × (w % 2 ^ 6 ≡ imm6)
      × (w / 2 ^ 16 % 2 ^ 11 ≡ imm11)
      × (w / 2 ^ 6 % 2 ^ 4 ≡ cond)
unfolding b_cond_t3_noit_pack
b_cond_t3_noit_pack_lem w sign j2 j1 imm6 imm11 cond a b c d e f h = omega arith

b_cond_t3_noit_unpack :
    (w : ℕ)
    → w < 2 ^ 32
    → w / 2 ^ 30 % 2 ^ 2 ≡ 2
    → w / 2 ^ 28 % 2 ≡ 0
    → w / 2 ^ 11 % 2 ^ 5 ≡ 0x1E
    → b_cond_t3_noit_pack
        (w / 2 ^ 10 % 2)
        (w / 2 ^ 27 % 2)
        (w / 2 ^ 29 % 2)
        (w % 2 ^ 6)
        (w / 2 ^ 16 % 2 ^ 11)
        (w / 2 ^ 6 % 2 ^ 4)
      ≡ w
unfolding b_cond_t3_noit_pack
b_cond_t3_noit_unpack w h a b c = omega arith

pub match_b_cond_t3_noit_lem :
    (w : ℕ)
    → (match_b_cond_t3_noit w ≡ true)
      ↔ ((w / 2 ^ 30 % 2 ^ 2 ≡ 2) × (w / 2 ^ 28 % 2 ≡ 0) × (w / 2 ^ 11 % 2 ^ 5 ≡ 0x1E))
unfolding match_b_cond_t3_noit
match_b_cond_t3_noit_lem w =
    ground (arith, bit_extract_lem w 30 2, bit_extract_lem w 28 1, bit_extract_lem w 11 5)

pub b_cond_t3_noit_decodes :
    (p : BCondT3NoitParts)
    → IsBCondT3NoitParts p
    → InRangeBCondT3NoitParts p
    → (w : ℕ) → encode_b_cond_t3_noit p ≡ some (wide w)
    → (w < 2 ^ 32) × (match_b_cond_t3_noit w ≡ true) × (decode_b_cond_t3_noit w ≡ p)
unfolding b_cond_t3_noit_accepts b_cond_t3_noit_word
b_cond_t3_noit_decodes p v r w h =
    let accepted : (p.simm21 % 2 ≡ 0) × (p.cond < 2 ^ 4) × (w ≡ b_cond_t3_noit_word p) =
      ground (arith, encode_b_cond_t3_noit_lem p v) in
    let bits =
      b_cond_t3_noit_pack_lem w (p.simm21 / 2 ^ 20 % 2) (p.simm21 / 2 ^ 19 % 2)
        (p.simm21 / 2 ^ 18 % 2) (p.simm21 / 2 ^ 12 % 2 ^ 6) (p.simm21 / 2 % 2 ^ 11) p.cond
        (omega arith) (omega arith) (omega arith) (omega arith) (omega arith) accepted.1
        accepted.2 in
    ground (
      arith,
      bits,
      match_b_cond_t3_noit_lem w,
      decode_b_cond_t3_noit_lem w,
      join21-split p.simm21,
      offset21-half p.simm21 v.simm21_u32 accepted.0 r,
    )

pub b_cond_t3_noit_encodes :
    (w : ℕ)
    → w < 2 ^ 32
    → match_b_cond_t3_noit w ≡ true
    → encode_b_cond_t3_noit (decode_b_cond_t3_noit w) ≡ some (wide w)
unfolding b_cond_t3_noit_accepts b_cond_t3_noit_word
b_cond_t3_noit_encodes w h m =
    let s : ℕ = w / 2 ^ 10 % 2 in
    let j2 : ℕ = w / 2 ^ 27 % 2 in
    let j1 : ℕ = w / 2 ^ 29 % 2 in
    let fixed = (match_b_cond_t3_noit_lem w).0 m in
    let x : ℕ = join21 s j2 j1 (w % 2 ^ 6) (w / 2 ^ 16 % 2 ^ 11) in
    let v = offset21_lem x (omega arith) in
    let fields =
      split-join21 (offset21 x) s j2 j1 (w % 2 ^ 6) (w / 2 ^ 16 % 2 ^ 11) (omega arith)
        (omega arith) (omega arith) (omega arith) (omega arith) v.3 in
    rw (decode_b_cond_t3_noit_lem w) (
      encode_b_cond_t3_noit_lem (record { cond = w / 2 ^ 6 % 2 ^ 4; simm21 = offset21 x })
        (record { cond_u32 = omega arith; simm21_u32 = v.0 })
      ∙ ground (arith, fields, v, b_cond_t3_noit_unpack w h fixed.0 fixed.1 fixed.2))
