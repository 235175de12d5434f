-- ===== src/Encoding/BranchWide/Offset.antt =====
-- The offset of a 32-bit branch, whose bits are scattered over the word: t32_encoding.c in
-- monitor/autogen_encodings.
use tw_monitor.Common.{ℕ, ◌+◌, ◌-◌, ◌*◌, ◌/◌, ◌%◌, ◌^◌, ◌≤◌, ◌<◌, ◌≡◌, refl, ◌⊎◌, arith}
use tw_monitor.Encoding.Macros.{IsU32, shl32, signed_extend, signed_extend_lem}

abbrev pub join25 : ℕ → ℕ → ℕ → ℕ → ℕ → ℕ
join25 sign i1 i2 imm10 imm11 = sign * 2 ^ 23 + i1 * 2 ^ 22 + i2 * 2 ^ 21 + imm10 * 2 ^ 11 + imm11

abbrev pub join21 : ℕ → ℕ → ℕ → ℕ → ℕ → ℕ
join21 sign j2 j1 imm6 imm11 = sign * 2 ^ 19 + j2 * 2 ^ 18 + j1 * 2 ^ 17 + imm6 * 2 ^ 11 + imm11

pub join25-split :
    (v : ℕ)
    → join25
        (v / 2 ^ 24 % 2)
        (v / 2 ^ 23 % 2)
        (v / 2 ^ 22 % 2)
        (v / 2 ^ 12 % 2 ^ 10)
        (v / 2 % 2 ^ 11)
      ≡ v / 2 % 2 ^ 24
join25-split v = omega arith

pub join21-split :
    (v : ℕ)
    → join21
        (v / 2 ^ 20 % 2)
        (v / 2 ^ 19 % 2)
        (v / 2 ^ 18 % 2)
        (v / 2 ^ 12 % 2 ^ 6)
        (v / 2 % 2 ^ 11)
      ≡ v / 2 % 2 ^ 20
join21-split v = omega arith

-- What the decoders make of the joined bits: sign extension, then a shift by one.
abbrev pub offset25 : ℕ → ℕ
offset25 x = shl32 (signed_extend x 24) 1

abbrev pub offset21 : ℕ → ℕ
offset21 x = shl32 (signed_extend x 20) 1

pub offset25-half :
    (v : ℕ)
    → IsU32 v
    → v % 2 ≡ 0
    → (v < 2 ^ 24) ⊎ (2 ^ 32 - 2 ^ 24 ≤ v)
    → offset25 (v / 2 % 2 ^ 24) ≡ v
unfolding shl32
offset25-half v h e r = ground (arith, signed_extend_lem 24 23 8 (v / 2 % 2 ^ 24) refl refl refl)

pub offset21-half :
    (v : ℕ)
    → IsU32 v
    → v % 2 ≡ 0
    → (v < 2 ^ 20) ⊎ (2 ^ 32 - 2 ^ 20 ≤ v)
    → offset21 (v / 2 % 2 ^ 20) ≡ v
unfolding shl32
offset21-half v h e r = ground (arith, signed_extend_lem 20 19 12 (v / 2 % 2 ^ 20) refl refl refl)

-- The decoded offset is even, in range, and has the joined bits back.
pub offset25_lem :
    (x : ℕ)
    → x < 2 ^ 24
    → IsU32 (offset25 x)
      × (offset25 x % 2 ≡ 0)
      × ((offset25 x < 2 ^ 24) ⊎ (2 ^ 32 - 2 ^ 24 ≤ offset25 x))
      × (offset25 x / 2 % 2 ^ 24 ≡ x)
unfolding shl32
offset25_lem x h = ground (arith, signed_extend_lem 24 23 8 x refl refl refl)

pub offset21_lem :
    (x : ℕ)
    → x < 2 ^ 20
    → IsU32 (offset21 x)
      × (offset21 x % 2 ≡ 0)
      × ((offset21 x < 2 ^ 20) ⊎ (2 ^ 32 - 2 ^ 20 ≤ offset21 x))
      × (offset21 x / 2 % 2 ^ 20 ≡ x)
unfolding shl32
offset21_lem x h = ground (arith, signed_extend_lem 20 19 12 x refl refl refl)

-- The bits of a number whose half has given low bits.
pub split-join25 :
    (v sign i1 i2 imm10 imm11 : ℕ)
    → sign < 2
    → i1 < 2
    → i2 < 2
    → imm10 < 2 ^ 10
    → imm11 < 2 ^ 11
    → v / 2 % 2 ^ 24 ≡ join25 sign i1 i2 imm10 imm11
    → (v / 2 ^ 24 % 2 ≡ sign)
      × (v / 2 ^ 23 % 2 ≡ i1)
      × (v / 2 ^ 22 % 2 ≡ i2)
      × (v / 2 ^ 12 % 2 ^ 10 ≡ imm10)
      × (v / 2 % 2 ^ 11 ≡ imm11)
split-join25 v sign i1 i2 imm10 imm11 a b c d e h = omega arith

pub split-join21 :
    (v sign j2 j1 imm6 imm11 : ℕ)
    → sign < 2
    → j2 < 2
    → j1 < 2
    → imm6 < 2 ^ 6
    → imm11 < 2 ^ 11
    → v / 2 % 2 ^ 20 ≡ join21 sign j2 j1 imm6 imm11
    → (v / 2 ^ 20 % 2 ≡ sign)
      × (v / 2 ^ 19 % 2 ≡ j2)
      × (v / 2 ^ 18 % 2 ≡ j1)
      × (v / 2 ^ 12 % 2 ^ 6 ≡ imm6)
      × (v / 2 % 2 ^ 11 ≡ imm11)
split-join21 v sign j2 j1 imm6 imm11 a b c d e h = omega arith

-- Comparing with the sign twice gives a bit back.
abbrev pub same : ℕ → ℕ → ℕ
same bit sign = (1 + bit + sign) % 2

pub same_twice : (bit sign : ℕ) → bit < 2 → same (same bit sign) sign ≡ bit
same_twice bit sign h = omega arith
