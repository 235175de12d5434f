-- ===== src/Thumb/Registers/Counts.antt =====
-- The loops over register lists in monitor/thumb_asm.c against the binary digits of the list.
use tw_monitor.Common.{ℕ, zero, suc, ◌+◌, ◌-◌, ◌/◌, ◌%◌, ◌^◌, ◌≤◌, ◌<◌, bit_and, ◌≡◌, refl}
use tw_monitor.Common.{◌∙◌, arith, if◌then◌else◌, ◌==◌}
use tw_monitor.Common.Bits.{zero-bit_and}
use tw_monitor.Common.Digits.{bit_and_lowest}
use tw_monitor.Thumb.Registers.{count_loop, thumb_count_register_list, top_loop, top_register}
use native.Mathlib.Nat.{zero-add, pow-suc, one-le-pow}

-- The ones among the lowest `n` binary digits.
unfoldable pub ones : ℕ → ℕ → ℕ
ones zero x = 0
ones (suc n) x = x % 2 + ones n (x / 2)

bit_and_self_below : (n a : ℕ) → a ≤ n → bit_and a a ≡ a
bit_and_self_below n zero h = refl
bit_and_self_below zero (suc a) h = absurd (omega arith)
bit_and_self_below (suc n) (suc a) h =
    omega (arith, bit_and_lowest (suc a) (suc a), bit_and_self_below n (suc a / 2))

bit_and_self : (a : ℕ) → bit_and a a ≡ a
bit_and_self a = bit_and_self_below a a (omega arith)

bit_and-le_below : (n a b : ℕ) → a ≤ n → bit_and a b ≤ a
bit_and-le_below n zero b h = omega (arith, zero-bit_and b)
bit_and-le_below zero (suc a) b h = absurd (omega arith)
bit_and-le_below (suc n) (suc a) b h =
    omega (arith, bit_and_lowest (suc a) b, bit_and-le_below n (suc a / 2) (b / 2))

-- `x & (x - 1)` has no lowest digit, and on the higher ones it is the same for the half.
clear_step :
    (x : ℕ)
    → 0 < x
    → (bit_and x (x - 1) % 2 ≡ 0)
      × (bit_and x (x - 1) / 2 ≡ (if x % 2 == 1 then x / 2 else bit_and (x / 2) (x / 2 - 1)))
clear_step x pos = ground (arith, bit_and_lowest x (x - 1), bit_and_self (x / 2))

ones-clear : (n x : ℕ) → 0 < x → x < 2 ^ n → ones n (bit_and x (x - 1)) + 1 ≡ ones n x
unfolding ones
ones-clear zero x pos small = absurd (omega arith)
ones-clear (suc n) x pos small = ground (arith, clear_step x pos, pow-suc 2 n, ones-clear n (x / 2))

ones-le : (n x : ℕ) → ones n x ≤ n
unfolding ones
ones-le zero x = omega arith
ones-le (suc n) x = omega (arith, ones-le n (x / 2))

ones-zero : (n : ℕ) → ones n 0 ≡ 0
unfolding ones
ones-zero zero = refl
ones-zero (suc n) = omega (arith, ones-zero n)

count_loop-ones :
    (fuel n x c : ℕ) → x < 2 ^ n → ones n x < fuel → count_loop fuel x c ≡ c + ones n x
unfolding count_loop
count_loop-ones zero n x c small enough = absurd (omega arith)
count_loop-ones (suc fuel) n x c small enough = ground (
  arith,
  ones-zero n,
  ones-clear n x,
  bit_and-le_below x x (x - 1),
  count_loop-ones fuel n (bit_and x (x - 1)) (c + 1),
)

-- The loop ends on every 16-bit list, and counts its ones.
pub thumb_count_register_list-ones :
    (reglist : ℕ) → reglist < 2 ^ 16 → thumb_count_register_list reglist ≡ ones 16 reglist
unfolding thumb_count_register_list
thumb_count_register_list-ones reglist small =
    count_loop-ones 17 16 reglist 0 small (omega (arith, ones-le 16 reglist)) ∙ zero-add _

top_loop-bounds :
    (fuel k x rt : ℕ) → k < fuel → 2 ^ k ≤ x → x < 2 ^ suc k → top_loop (suc fuel) x rt ≡ rt + k + 1
unfolding top_loop
top_loop-bounds zero k x rt h lo hi = absurd (omega arith)
top_loop-bounds (suc fuel) zero x rt h lo hi = ground arith
top_loop-bounds (suc fuel) (suc k) x rt h lo hi =
    ground (
      arith,
      pow-suc 2 k,
      pow-suc 2 (suc k),
      one-le-pow k 2,
      top_loop-bounds fuel k (x / 2) (rt + 1),
    )

-- The loop finds the highest register of a list that is not empty.
pub top_register-bounds :
    (k reglist : ℕ) → k < 16 → 2 ^ k ≤ reglist → reglist < 2 ^ suc k → top_register reglist ≡ k
unfolding top_register
top_register-bounds k reglist h lo hi = omega (arith, top_loop-bounds 16 k reglist 0 h lo hi)
