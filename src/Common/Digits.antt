-- ===== src/Common/Digits.antt =====
-- The lowest binary digit of `&`, `|` and `^`. The native operations stand for a recursion on
-- digits that takes fuel; these equations are free of it.
use Prim.Native.Nat.{ℕ, zero, suc, ◌+◌, ◌*◌, ◌/◌, ◌%◌, ◌≤◌, min, max, bit_and, bit_or}
use Prim.Native.Nat.{digits, bitwise, bit_and-bitwise, bit_or-bitwise}
use mathlib.Core.Path.{◌≡◌, refl}
use native.Mathlib.Omega.{arith}

module _ (tail : ℕ → ℕ) (digit : ℕ → ℕ → ℕ) where
  enough : (f g a b : ℕ) → a ≤ f → a ≤ g → digits tail digit f a b ≡ digits tail digit g a b
  enough zero zero a b p q = refl
  enough zero (suc g) zero b p q = refl
  enough zero (suc g) (suc a) b p q = absurd (omega arith)
  enough (suc f) zero zero b p q = refl
  enough (suc f) zero (suc a) b p q = absurd (omega arith)
  enough (suc f) (suc g) zero b p q = refl
  enough (suc f) (suc g) (suc a) b p q =
      rw (enough f g (suc a / 2) (b / 2) (omega arith) (omega arith))

  bitwise_lowest :
      (a b : ℕ)
      → bitwise tail digit (suc a) b
        ≡ bitwise tail digit (suc a / 2) (b / 2) * 2 + digit (suc a % 2) (b % 2)
  bitwise_lowest a b = omega (arith, enough a (suc a / 2) (suc a / 2) (b / 2) (omega arith))

pub bit_and_lowest : (a b : ℕ) → bit_and a b ≡ bit_and (a / 2) (b / 2) * 2 + min (a % 2) (b % 2)
bit_and_lowest zero b = simp bit_and-bitwise (omega arith)
bit_and_lowest (suc a) b = simp bit_and-bitwise (bitwise_lowest (λ y. 0) min a b)

pub bit_or_lowest : (a b : ℕ) → bit_or a b ≡ bit_or (a / 2) (b / 2) * 2 + max (a % 2) (b % 2)
bit_or_lowest zero b = simp bit_or-bitwise (omega arith)
bit_or_lowest (suc a) b = simp bit_or-bitwise (bitwise_lowest (λ y. y) max a b)
