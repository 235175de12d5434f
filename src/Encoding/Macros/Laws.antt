-- ===== src/Encoding/Macros/Laws.antt =====
-- What the macros compute, in plain arithmetic.
use tw_monitor.Common.{
  ℕ, zero, suc, ◌+◌, ◌-◌, ◌*◌, ◌/◌, ◌%◌, ◌^◌, ◌<◌, ◌≡◌, refl, ◌∙◌, ap, bit_and, bit_xor,
}
use tw_monitor.Common.{ltb, ◌==◌, if◌then◌else◌, not, arith}
use tw_monitor.Common.Bits.{bit_or_field, bit_and_mask, bit_and_high}
use tw_monitor.Encoding.Macros.Defs.{IsU32, not32, shl32, asr32, or16, or32, bit_mask}
use tw_monitor.Encoding.Macros.Defs.{bit_extract, bit_extract_signed, unsigned_check_fit}
use tw_monitor.Encoding.Macros.Defs.{signed_check_fit, sign_bit_set, signed_extend}
use native.Mathlib.Nat.{one-le-pow, mod-eq_of_lt, div-lt_iff_lt-mul, div-add-mod', mod-lt}

pub bit_extract_lem : (v p w : ℕ) → bit_extract v p w ≡ v / 2 ^ p % 2 ^ w
unfolding bit_extract
bit_extract_lem v p w = bit_and_mask w (v / 2 ^ p)

pub or16_lem :
    (k w a b : ℕ)
    → a / 2 ^ k % 2 ^ w ≡ 0
    → b < 2 ^ w
    → a + b * 2 ^ k < 2 ^ 16
    → or16 a (shl32 b k) ≡ a + b * 2 ^ k
unfolding or16 shl32
or16_lem k w a b clear fits small = ground (arith, bit_or_field k w a b)

pub or32_lem :
    (k w a b : ℕ)
    → a / 2 ^ k % 2 ^ w ≡ 0
    → b < 2 ^ w
    → a + b * 2 ^ k < 2 ^ 32
    → or32 a (shl32 b k) ≡ a + b * 2 ^ k
unfolding or32 shl32
or32_lem k w a b clear fits small = ground (arith, bit_or_field k w a b)

-- A number is below `m` exactly if its quotient by `m` vanishes.
quotient_test : (q r m : ℕ) → r < m → (q * m == 0) ≡ ltb (q * m + r) m
quotient_test zero r m h = ground (arith)
quotient_test (suc q) r m h = ground (arith)

high_bits_test : (v m : ℕ) → 0 < m → (v / m * m == 0) ≡ ltb v m
high_bits_test v m pos =
    quotient_test (v / m) (v % m) m (mod-lt v pos) ∙ ap (λ (t : ℕ). ltb t m) (div-add-mod' v m)

div-lt : (v m n : ℕ) → 0 < m → v < m * n → v / m < n
div-lt v m n pos h = (div-lt_iff_lt-mul {k = m} {x = v} {y = n} pos).1 (omega arith)

pow-pos : (k : ℕ) → 0 < 2 ^ k
pow-pos k = one-le-pow k 2 (omega arith)

bit_and-high_field :
    (w n v : ℕ) → v < 2 ^ w * 2 ^ n → bit_and v ((2 ^ n - 1) * 2 ^ w) ≡ v / 2 ^ w * 2 ^ w
bit_and-high_field w n v h =
    bit_and_high w n v
    ∙ ap (λ (t : ℕ). t * 2 ^ w) (mod-eq_of_lt (div-lt v (2 ^ w) (2 ^ n) (pow-pos w) h))

-- `w + n` is 32; at numerals both equations hold by computation.
pub unsigned_check_fit_lem :
    (w n v : ℕ)
    → not32 (bit_mask w) ≡ (2 ^ n - 1) * 2 ^ w
    → 2 ^ w * 2 ^ n ≡ 2 ^ 32
    → IsU32 v
    → unsigned_check_fit v w ≡ ltb v (2 ^ w)
unfolding unsigned_check_fit
unsigned_check_fit_lem w n v mask split small =
    ap (λ (t : ℕ). t == 0) (ap (bit_and v) mask ∙ bit_and-high_field w n v (omega (arith, split)))
    ∙ high_bits_test v (2 ^ w) (pow-pos w)

-- A signed value fits `w` bits if its magnitude fits one less.
pub signed_check_fit_lem :
    (w k n v : ℕ)
    → w - 1 ≡ k
    → not32 (bit_mask k) ≡ (2 ^ n - 1) * 2 ^ k
    → 2 ^ k * 2 ^ n ≡ 2 ^ 32
    → IsU32 v
    → signed_check_fit v w
      ≡ (if ltb v (2 ^ 31) then ltb v (2 ^ k) else ltb (2 ^ 32 - v - 1) (2 ^ k))
unfolding signed_check_fit
signed_check_fit_lem w k n v width mask split small = rw width (
    ground (
      arith,
      unsigned_check_fit_lem k n v mask split small,
      unsigned_check_fit_lem k n (2 ^ 32 - v - 1) mask split (omega arith),
    ))

pub sign_bit_set_lem :
    (w k v : ℕ) → w - 1 ≡ k → v < 2 ^ k * 2 → sign_bit_set v w ≡ not (ltb v (2 ^ k))
unfolding sign_bit_set
sign_bit_set_lem w k v width small =
    ap (λ (t : ℕ). not (bit_and v (2 ^ t) == 0)) width
    ∙ ap (λ (t : ℕ). not (t == 0))
        (ap (bit_and v) (omega arith) ∙ bit_and-high_field k 1 v (omega arith))
    ∙ ap not (high_bits_test v (2 ^ k) (pow-pos k))

pub signed_extend_lem :
    (w k n v : ℕ)
    → w - 1 ≡ k
    → 2 ^ w ≡ 2 ^ k * 2
    → not32 (bit_mask w) ≡ (2 ^ n - 1) * 2 ^ w
    → v < 2 ^ w
    → signed_extend v w ≡ (if ltb v (2 ^ k) then v else v + (2 ^ n - 1) * 2 ^ w)
unfolding signed_extend
signed_extend_lem w k n v width double mask small = ground (
  arith,
  sign_bit_set_lem w k v width,
  bit_or_field w n v (2 ^ n - 1),
  div-lt v (2 ^ w) 1,
  pow-pos w,
  pow-pos n,
)

-- On the bits that an `int32_t` has, `>>` reads the same field as on a `uint32_t`.
pub bit_extract_signed_lem :
    (v p w : ℕ)
    → asr32 v p % 2 ^ w ≡ v / 2 ^ p % 2 ^ w
    → bit_extract_signed v p w ≡ v / 2 ^ p % 2 ^ w
unfolding bit_extract_signed
bit_extract_signed_lem v p w same = bit_and_mask w (asr32 v p) ∙ same

-- `(~i ^ s) & 1` and `~(j ^ s) & 1` on single bits: whether the two are the same.
pub same_bit_lem :
    (i s : ℕ) → i < 2 → s < 2 → bit_and (bit_xor (not32 i) s) (bit_mask 1) ≡ (1 + i + s) % 2
same_bit_lem zero zero h k = refl
same_bit_lem zero (suc zero) h k = refl
same_bit_lem (suc zero) zero h k = refl
same_bit_lem (suc zero) (suc zero) h k = refl
same_bit_lem (suc (suc i)) s h k = absurd (omega arith)
same_bit_lem zero (suc (suc s)) h k = absurd (omega arith)
same_bit_lem (suc zero) (suc (suc s)) h k = absurd (omega arith)

pub bit_same_lem :
    (j s : ℕ) → j < 2 → s < 2 → bit_and (not32 (bit_xor j s)) (bit_mask 1) ≡ (1 + j + s) % 2
bit_same_lem zero zero h k = refl
bit_same_lem zero (suc zero) h k = refl
bit_same_lem (suc zero) zero h k = refl
bit_same_lem (suc zero) (suc zero) h k = refl
bit_same_lem (suc (suc j)) s h k = absurd (omega arith)
bit_same_lem zero (suc (suc s)) h k = absurd (omega arith)
bit_same_lem (suc zero) (suc (suc s)) h k = absurd (omega arith)
