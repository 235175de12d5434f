-- ===== src/Thumb/Assemble/Lists.antt =====
-- Taking LR and PC out of a register list: the masks of POP and PUSH in monitor/thumb_asm.c.
use tw_monitor.Common.{
  ℕ, zero, suc, ◌+◌, ◌-◌, ◌*◌, ◌/◌, ◌%◌, ◌^◌, ◌<◌, bit_and, ◌≡◌, refl, arith, ◌∙◌, ap, ◌⊎◌, inl,
  inr,
}
use tw_monitor.Common.Bits.{zero-bit_and, bit_and-zero, bit_and_mask, mul-pow-suc}
use tw_monitor.Common.Digits.{bit_and_lowest}
use tw_monitor.Thumb.Assemble.Result.{to_bit}
use tw_monitor.Thumb.Assemble.Stack.{has_register, without_lr, without_lr_pc}
use tw_monitor.Thumb.Registers.Counts.{ones}
use native.Mathlib.Nat.{pow-suc}

-- The digits below `k` and those from `k` on are taken apart from each other.
bit_and_blocks :
    (k a b c d : ℕ)
    → a < 2 ^ k
    → c < 2 ^ k
    → bit_and (a + b * 2 ^ k) (c + d * 2 ^ k) ≡ bit_and a c + bit_and b d * 2 ^ k
bit_and_blocks zero a b c d ha hc =
    let eb : a + b * 2 ^ 0 ≡ b = omega arith in
    let ed : c + d * 2 ^ 0 ≡ d = omega arith in
    let z : bit_and a c ≡ 0 = ap (λ (t : ℕ). bit_and t c) (omega arith) ∙ zero-bit_and c in
    rw (eb, ed, z) (omega arith)
bit_and_blocks (suc k) a b c d ha hc = ground (
  arith,
  pow-suc 2 k,
  mul-pow-suc b k,
  mul-pow-suc d k,
  mul-pow-suc (bit_and b d) k,
  bit_and_lowest (a + b * 2 ^ suc k) (c + d * 2 ^ suc k),
  bit_and_lowest a c,
  bit_and_blocks k (a / 2) b (c / 2) d,
)

-- A list against a mask, the lowest 14 registers and the others apart.
bit_and_list :
    (r low high : ℕ)
    → low < 2 ^ 14
    → bit_and r (low + high * 2 ^ 14)
      ≡ bit_and (r % 2 ^ 14) low + bit_and (r / 2 ^ 14) high * 2 ^ 14
bit_and_list r low high h =
    ap (λ (t : ℕ). bit_and t (low + high * 2 ^ 14)) (omega arith)
    ∙ bit_and_blocks 14 (r % 2 ^ 14) (r / 2 ^ 14) low high (omega arith) h

-- LR and PC are the two registers above the lowest 14.
high_masks :
    (q : ℕ)
    → q < 4
    → (bit_and q 1 ≡ q % 2)
      × (bit_and q 2 ≡ q / 2 * 2)
      × (bit_and q (2 ^ 18 - 2) ≡ q / 2 * 2)
      × (bit_and q (2 ^ 18 - 4) ≡ 0)
high_masks zero h = (refl, refl, refl, refl)
high_masks (suc zero) h = (refl, refl, refl, refl)
high_masks (suc (suc zero)) h = (refl, refl, refl, refl)
high_masks (suc (suc (suc zero))) h = (refl, refl, refl, refl)
high_masks (suc (suc (suc (suc q)))) h = absurd (omega arith)

module _ (r : ℕ) (h : r < 2 ^ 16) where
  pub has_lr_lem : to_bit (has_register r 14) ≡ r / 2 ^ 14 % 2
  unfolding has_register
  has_lr_lem = ground (
    arith,
    bit_and_list r 0 1 (omega arith),
    bit_and-zero (r % 2 ^ 14),
    high_masks (r / 2 ^ 14) (omega arith),
  )

  pub has_pc_lem : to_bit (has_register r 15) ≡ r / 2 ^ 15
  unfolding has_register
  has_pc_lem = ground (
    arith,
    bit_and_list r 0 2 (omega arith),
    bit_and-zero (r % 2 ^ 14),
    high_masks (r / 2 ^ 14) (omega arith),
  )

  pub without_lr_lem : without_lr r ≡ r % 2 ^ 14 + r / 2 ^ 15 * 2 ^ 15
  unfolding without_lr
  without_lr_lem = ground (
    arith,
    bit_and_list r (2 ^ 14 - 1) (2 ^ 18 - 2) (omega arith),
    bit_and_mask 14 (r % 2 ^ 14),
    high_masks (r / 2 ^ 14) (omega arith),
  )

  pub without_lr_pc_lem : without_lr_pc r ≡ r % 2 ^ 14
  unfolding without_lr_pc
  without_lr_pc_lem = ground (
    arith,
    bit_and_list r (2 ^ 14 - 1) (2 ^ 18 - 4) (omega arith),
    bit_and_mask 14 (r % 2 ^ 14),
    high_masks (r / 2 ^ 14) (omega arith),
  )

pub ones-eq_zero : (n x : ℕ) → x < 2 ^ n → ones n x ≡ 0 → x ≡ 0
unfolding ones
ones-eq_zero zero x h o = omega arith
ones-eq_zero (suc n) x h o = ground (arith, pow-suc 2 n, ones-eq_zero n (x / 2))

mod-cases : (x : ℕ) → (x % 2 ≡ 0) ⊎ (x % 2 ≡ 1)
mod-cases x = ground arith

-- A list with one register is its power of two.
pub ones-eq_one : (n x : ℕ) → x < 2 ^ n → ones n x ≡ 1 → (k : ℕ) × (k < n) × (x ≡ 2 ^ k)
unfolding ones
ones-eq_one zero x h o = absurd (omega arith)
ones-eq_one (suc n) x h o = elim (mod-cases x) [
  | inl even ↦
      let q = ones-eq_one n (x / 2) (omega (arith, pow-suc 2 n)) (omega arith) in
      (suc q.0, omega arith, omega (arith, pow-suc 2 q.0))
  | inr odd ↦ (
    zero,
    omega arith,
    omega (arith, pow-suc 2 n, ones-eq_zero n (x / 2) (omega (arith, pow-suc 2 n)) (omega arith)),
  )
]
