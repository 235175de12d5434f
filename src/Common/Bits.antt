-- ===== src/Common/Bits.antt =====
-- Masks and disjoint fields of a word as arithmetic, at every position and width.
use Prim.Native.Nat.{
  ℕ, zero, suc, ◌+◌, ◌-◌, ◌*◌, ◌/◌, ◌%◌, ◌^◌, ◌≤◌, ◌<◌, bit_and, bit_or, bit_and-bitwise,
}
use mathlib.Core.Path.{◌≡◌, refl, sym, ap}
use native.Mathlib.Nat.{pow-suc, pow-succ', one-le-pow, mod-lt, div-add-mod', div-div-eq-div-mul}
use native.Mathlib.Omega.{arith}
use tw_monitor.Common.Digits.{bit_and_lowest, bit_or_lowest}

bit_or-zero_below : (n a : ℕ) → a ≤ n → bit_or a 0 ≡ a
bit_or-zero_below n zero h = refl
bit_or-zero_below zero (suc a) h = absurd (omega arith)
bit_or-zero_below (suc n) (suc a) h =
    omega (arith, bit_or_lowest (suc a) 0, bit_or-zero_below n (suc a / 2))

pub bit_or-zero : (a : ℕ) → bit_or a 0 ≡ a
bit_or-zero a = bit_or-zero_below a a (omega arith)

pub zero-bit_and : (b : ℕ) → bit_and 0 b ≡ 0
zero-bit_and b = bit_and-bitwise 0 b

bit_and-zero_below : (n a : ℕ) → a ≤ n → bit_and a 0 ≡ 0
bit_and-zero_below n zero h = refl
bit_and-zero_below zero (suc a) h = absurd (omega arith)
bit_and-zero_below (suc n) (suc a) h =
    omega (arith, bit_and_lowest (suc a) 0, bit_and-zero_below n (suc a / 2))

pub bit_and-zero : (a : ℕ) → bit_and a 0 ≡ 0
bit_and-zero a = bit_and-zero_below a a (omega arith)

-- A product by the next power of two, in the form that `omega` halves.
pub mul-pow-suc : (q k : ℕ) → q * 2 ^ suc k ≡ q * 2 ^ k * 2
mul-pow-suc q k = omega (arith, ap (λ (t : ℕ). q * t) (pow-suc 2 k))

div-pow-suc : (a k : ℕ) → a / 2 ^ suc k ≡ a / 2 / 2 ^ k
div-pow-suc a k = rw (pow-succ' 2 k) (sym (div-div-eq-div-mul a 2 (2 ^ k)))

-- `|` with a field below 2^w is a sum where the low `w` bits are clear.
bit_or_low : (w q r : ℕ) → r < 2 ^ w → bit_or (q * 2 ^ w) r ≡ q * 2 ^ w + r
bit_or_low zero q r h = let e : r ≡ 0 = omega arith in rw (e, bit_or-zero) (omega arith)
bit_or_low (suc w) q r h =
    ground
      (arith, bit_or_lowest (q * 2 ^ suc w) r, mul-pow-suc q w, pow-suc 2 w, bit_or_low w q (r / 2))

-- The same for a field at bit `k`: the bits of `a` from `k` on are clear over the field's width.
bit_or_field_at :
    (k w q low b : ℕ)
    → low < 2 ^ k
    → b < 2 ^ w
    → bit_or (q * 2 ^ w * 2 ^ k + low) (b * 2 ^ k) ≡ q * 2 ^ w * 2 ^ k + low + b * 2 ^ k
bit_or_field_at zero w q low b hl hb =
    let e : low ≡ 0 = omega arith in ground (arith, bit_or_low w q b)
bit_or_field_at (suc k) w q low b hl hb = ground (
  arith,
  bit_or_lowest (q * 2 ^ w * 2 ^ suc k + low) (b * 2 ^ suc k),
  mul-pow-suc (q * 2 ^ w) k,
  mul-pow-suc b k,
  pow-suc 2 k,
  bit_or_field_at k w q (low / 2) b,
)

pub bit_or_field :
    (k w a b : ℕ) → a / 2 ^ k % 2 ^ w ≡ 0 → b < 2 ^ w → bit_or a (b * 2 ^ k) ≡ a + b * 2 ^ k
bit_or_field k w a b clear fits =
    let high : a / 2 ^ k ≡ a / 2 ^ k / 2 ^ w * 2 ^ w =
      omega (arith, div-add-mod' (a / 2 ^ k) (2 ^ w)) in
    let whole : a ≡ a / 2 ^ k / 2 ^ w * 2 ^ w * 2 ^ k + a % 2 ^ k =
      omega (arith, div-add-mod' a (2 ^ k), ap (λ (t : ℕ). t * 2 ^ k) high) in
    ground (
      arith,
      whole,
      mod-lt a {m = 2 ^ k} (one-le-pow k 2 (omega arith)),
      bit_or_field_at k w (a / 2 ^ k / 2 ^ w) (a % 2 ^ k) b,
    )

bit_and_low : (w q r : ℕ) → r < 2 ^ w → bit_and (q * 2 ^ w + r) (2 ^ w - 1) ≡ r
bit_and_low zero q r h = rw bit_and-zero (omega arith)
bit_and_low (suc w) q r h = ground (
  arith,
  bit_and_lowest (q * 2 ^ suc w + r) (2 ^ suc w - 1),
  mul-pow-suc q w,
  pow-suc 2 w,
  one-le-pow w 2,
  bit_and_low w q (r / 2),
)

-- A mask of `w` low bits is a remainder.
pub bit_and_mask : (w a : ℕ) → bit_and a (2 ^ w - 1) ≡ a % 2 ^ w
bit_and_mask w a = ground (arith, one-le-pow w 2, bit_and_low w (a / 2 ^ w) (a % 2 ^ w))

-- A mask of `n` bits from bit `k` on.
pub bit_and_high : (k n a : ℕ) → bit_and a ((2 ^ n - 1) * 2 ^ k) ≡ a / 2 ^ k % 2 ^ n * 2 ^ k
bit_and_high zero n a = ground (arith, bit_and_mask n a)
bit_and_high (suc k) n a = ground (
  arith,
  bit_and_lowest a ((2 ^ n - 1) * 2 ^ suc k),
  mul-pow-suc (2 ^ n - 1) k,
  mul-pow-suc (a / 2 ^ suc k % 2 ^ n) k,
  div-pow-suc a k,
  bit_and_high k n (a / 2),
)
