-- ===== src/Common/Bits.antt =====
-- The C operators `&` and `|` on masks, as arithmetic. The native operations compute at numerals;
-- these are their laws at variables, from the recursion on binary digits that they stand for.
use Prim.Native.Nat.{
  ℕ, zero, suc, ◌+◌, ◌-◌, ◌*◌, ◌/◌, ◌%◌, ◌^◌, ◌≤◌, ◌<◌, min, max, bit_and, bit_or, digits,
  bit_and-bitwise, bit_or-bitwise,
}
use mathlib.Core.Path.{◌≡◌, refl, ap}
use native.Mathlib.Nat.{pow-suc, one-le-pow, div-add-mod, pow-le-pow_right}
use native.Mathlib.Decide.{dec_lt}
use native.Mathlib.Omega.{arith}

-- The digits above the lowest one do not depend on the fuel, if it covers the number.
module _ (rest : ℕ → ℕ) (f : ℕ → ℕ → ℕ) where
  refuel : (b a n : ℕ) → a ≤ n → (m : ℕ) → a ≤ m → digits rest f n a b ≡ digits rest f m a b
  refuel b zero zero p zero q = refl
  refuel b zero zero p (suc m) q = refl
  refuel b zero (suc n) p zero q = refl
  refuel b zero (suc n) p (suc m) q = refl
  refuel b (suc a) zero p m q = absurd (omega arith)
  refuel b (suc a) (suc n) p zero q = absurd (omega arith)
  refuel b (suc a) (suc n) p (suc m) q =
      omega (arith, refuel (b / 2) (suc a / 2) n (omega arith) m (omega arith))

-- The lowest digit of a conjunction, and of a disjunction.
digit_laws :
    (a b : ℕ)
    → (bit_and a b ≡ bit_and (a / 2) (b / 2) * 2 + min (a % 2) (b % 2))
      × (bit_or a b ≡ bit_or (a / 2) (b / 2) * 2 + max (a % 2) (b % 2))
digit_laws zero b = (
  omega (arith, bit_and-bitwise 0 b, bit_and-bitwise 0 (b / 2)),
  omega (arith, bit_or-bitwise 0 b, bit_or-bitwise 0 (b / 2)),
)
digit_laws (suc a) b =
    let q = suc a / 2 in
    let fits : q ≤ a = omega arith in
    let enough : q ≤ q = omega arith in
    (
      omega (
        arith,
        refuel (λ y. zero) min (b / 2) q a fits q enough,
        bit_and-bitwise q (b / 2),
        bit_and-bitwise (suc a) b,
      ),
      omega (
        arith,
        refuel (λ y. y) max (b / 2) q a fits q enough,
        bit_or-bitwise q (b / 2),
        bit_or-bitwise (suc a) b,
      ),
    )

bit_and_digit : (a b : ℕ) → bit_and a b ≡ bit_and (a / 2) (b / 2) * 2 + min (a % 2) (b % 2)
bit_and_digit a b = (digit_laws a b).0

bit_or_digit : (a b : ℕ) → bit_or a b ≡ bit_or (a / 2) (b / 2) * 2 + max (a % 2) (b % 2)
bit_or_digit a b = (digit_laws a b).1

-- Zero on the right, below a bound that the recursion goes down.
zeros_below : (bound a : ℕ) → a < bound → (bit_and a 0 ≡ 0) × (bit_or a 0 ≡ a)
zeros_below zero a h = absurd (omega arith)
zeros_below (suc bound) zero h = (refl, refl)
zeros_below (suc bound) (suc a) h =
    let half = zeros_below bound (suc a / 2) (omega arith) in
    let both = digit_laws (suc a) 0 in
    (omega (arith, half.0, both.0), omega (arith, half.1, both.1))

bit_and-zero : (a : ℕ) → bit_and a 0 ≡ 0
bit_and-zero a = (zeros_below (suc a) a (omega arith)).0

bit_or-zero : (a : ℕ) → bit_or a 0 ≡ a
bit_or-zero a = (zeros_below (suc a) a (omega arith)).1

double : (t k : ℕ) → t * 2 ^ suc k ≡ 2 * (t * 2 ^ k)
double t k = omega (arith, ap (λ (x : ℕ). t * x) (pow-suc 2 k))

-- `(q << k) | r`, for `r` of `k` bits.
pub bit_or_fields : (k q r : ℕ) → r < 2 ^ k → bit_or (q * 2 ^ k) r ≡ q * 2 ^ k + r
bit_or_fields zero q r h = ground (arith, bit_or-zero q)
bit_or_fields (suc k) q r h = ground (
  arith,
  bit_or_digit (q * 2 ^ suc k) r,
  double q k,
  pow-suc 2 k,
  bit_or_fields k q (r / 2) (omega (arith, pow-suc 2 k)),
)

pub low_fields : (k q r : ℕ) → r < 2 ^ k → bit_and (q * 2 ^ k + r) (2 ^ k - 1) ≡ r
low_fields zero q r h = ground (arith, bit_and-zero (q * 1 + r))
low_fields (suc k) q r h = ground (
  arith,
  bit_and_digit (q * 2 ^ suc k + r) (2 ^ suc k - 1),
  double q k,
  pow-suc 2 k,
  one-le-pow k 2,
  low_fields k q (r / 2) (omega (arith, pow-suc 2 k)),
)

-- `a & ((1 << k) - 1)`
pub bit_and_mask : (k a : ℕ) → bit_and a (2 ^ k - 1) ≡ a % 2 ^ k
bit_and_mask k a = ground (arith, one-le-pow k 2, low_fields k (a / 2 ^ k) (a % 2 ^ k))

bit_fields :
    (k q b r : ℕ)
    → b < 2
    → r < 2 ^ k
    → (bit_and ((q * 2 + b) * 2 ^ k + r) (2 ^ k) ≡ b * 2 ^ k)
      × (bit_or ((q * 2 + b) * 2 ^ k + r) (2 ^ k) ≡ (q * 2 + 1) * 2 ^ k + r)
bit_fields zero q b r hb h = (
  omega (arith, bit_and_digit ((q * 2 + b) * 1 + r) 1, bit_and-zero (((q * 2 + b) * 1 + r) / 2)),
  omega (arith, bit_or_digit ((q * 2 + b) * 1 + r) 1, bit_or-zero (((q * 2 + b) * 1 + r) / 2)),
)
bit_fields (suc k) q b r hb h =
    let ih = bit_fields k q b (r / 2) hb (omega (arith, pow-suc 2 k)) in
    (
      ground (
        arith,
        bit_and_digit ((q * 2 + b) * 2 ^ suc k + r) (2 ^ suc k),
        double (q * 2 + b) k,
        double b k,
        pow-suc 2 k,
        ih.0,
      ),
      ground (
        arith,
        bit_or_digit ((q * 2 + b) * 2 ^ suc k + r) (2 ^ suc k),
        double (q * 2 + b) k,
        double (q * 2 + 1) k,
        pow-suc 2 k,
        ih.1,
      ),
    )

bits_of : (k a : ℕ) → (a / 2 ^ k / 2 * 2 + a / 2 ^ k % 2) * 2 ^ k + a % 2 ^ k ≡ a
bits_of k a =
    let q = a / 2 ^ k in
    let whole : q / 2 * 2 + q % 2 ≡ q = omega arith in
    omega (arith, ap (λ (t : ℕ). t * 2 ^ k + a % 2 ^ k) whole, div-add-mod a (2 ^ k))

-- `a & (1 << k)`
pub bit_and_bit : (k a : ℕ) → bit_and a (2 ^ k) ≡ a / 2 ^ k % 2 * 2 ^ k
bit_and_bit k a =
    ground (
      arith,
      bits_of k a,
      one-le-pow k 2,
      (bit_fields k (a / 2 ^ k / 2) (a / 2 ^ k % 2) (a % 2 ^ k)),
    )

-- `a | (1 << k)`
pub bit_or_bit : (k a : ℕ) → bit_or a (2 ^ k) ≡ a + (1 - a / 2 ^ k % 2) * 2 ^ k
bit_or_bit k a =
    ground (
      arith,
      bits_of k a,
      one-le-pow k 2,
      (bit_fields k (a / 2 ^ k / 2) (a / 2 ^ k % 2) (a % 2 ^ k)),
    )

pub exponent_lt : (j m : ℕ) → 2 ^ j < 2 ^ m → j < m
exponent_lt j m h = elim (dec_lt j m) [
  | yes p ↦ p
  | no p ↦
      absurd (omega (arith, pow-le-pow_right {n = 2} (omega arith) {i = m} {j = j} (omega arith)))
]
