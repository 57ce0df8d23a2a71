-- ===== src/Hd/Ring/Index.antt =====
-- The arithmetic of ring indices in 64 bits, and of array sizes that are powers of two.
use Prim.Native.Nat.{◌∣◌}
use native.Mathlib.Nat.{
  one-dvd, pow-suc, mul-dvd-mul_right, mod-mod_of_dvd, pow-le-pow_right, mod-eq_of_lt,
  mod-eq-sub-mod, mod-add-mod, mod-lt,
}
use newhttp.Common.{
  ℕ, zero, suc, ◌+◌, ◌-◌, ◌*◌, ◌%◌, ◌^◌, ◌≤◌, ◌<◌, ◌≡◌, ◌≢◌, refl, ap, sym, ◌∙◌, arith, bit_and,
  some, ltb, Bool-cases, inl, inr, ltb→lt, ltb→ge,
}
use newhttp.Common.Bits.{exponent_lt, bit_and_mask}
use newhttp.Hd.Ring.{ring_size}

pow-dvd : (k m : ℕ) → k ≤ m → 2 ^ k ∣ 2 ^ m
pow-dvd zero m h = one-dvd (2 ^ m)
pow-dvd (suc k) zero h = absurd (omega arith)
pow-dvd (suc k) (suc m) h =
    rw (pow-suc 2 k, pow-suc 2 m) (mul-dvd-mul_right (2 ^ k) (pow-dvd k m (omega arith)) 2)

-- The low bits of an index are those of its 64-bit value.
pub low_index : (k a : ℕ) → k ≤ 64 → bit_and (a % 2 ^ 64) (2 ^ k - 1) ≡ a % 2 ^ k
low_index k a h = bit_and_mask k _ ∙ mod-mod_of_dvd (2 ^ k) a (pow-dvd k 64 h)

-- A power of two that is large enough is found.
pub ring_size_found :
    (fuel j bufsize : ℕ)
    → j ≤ 63
    → 63 < fuel + j
    → bufsize ≤ 2 ^ 63
    → (k : ℕ) × (ring_size fuel bufsize (2 ^ j) ≡ some (2 ^ k)) × (bufsize ≤ 2 ^ k) × (k ≤ 63)
unfolding ring_size
ring_size_found zero j bufsize a b c = absurd (omega arith)
ring_size_found (suc fuel) j bufsize a b c = elim (Bool-cases (ltb (2 ^ j) bufsize)) [
  | inl y ↦
      let below : j < 63 = exponent_lt j 63 (omega (arith, ltb→lt _ _ y)) in
      let double : 2 ^ j * 2 % 2 ^ 64 ≡ 2 ^ suc j =
        ap (λ x. x % 2 ^ 64) (sym (pow-suc 2 j))
        ∙ mod-eq_of_lt
            (omega (arith, pow-le-pow_right {n = 2} (omega arith) {i = suc j} {j = 63} below)) in
      rw (y, double) (ring_size_found fuel (suc j) bufsize below (omega arith) c)
  | inr n ↦ rw n (j, refl, ltb→ge _ _ n, a)
]

-- A step round a ring of `n` slots that is shorter than the ring leads to another slot.
pub mod-add_other : (n a d : ℕ) → 0 < d → d < n → a % n ≢ (a + d) % n
mod-add_other n a d p h e =
    let low = a % n in
    let whole : (a + d) % n ≡ (low + d) % n = sym (mod-add-mod a n d) in
    let b : low < n = mod-lt a (omega arith) in
    elim (Bool-cases (ltb (low + d) n)) [
      | inl y ↦ omega (arith, mod-eq_of_lt {n = low + d} {m = n} (ltb→lt _ _ y))
      | inr z ↦
          let c : n ≤ low + d = ltb→ge _ _ z in
          omega (
            arith,
            mod-eq-sub-mod {n = low + d} {m = n} c,
            mod-eq_of_lt {n = low + d - n} {m = n} (omega arith),
          )
    ]

-- The index before `first`, in 64 bits.
abbrev pub before : ℕ → ℕ
before first = (first + 2 ^ 64 - 1) % 2 ^ 64

pub before_next : (k first i : ℕ) → k ≤ 64 → (before first + suc i) % 2 ^ k ≡ (first + i) % 2 ^ k
before_next k first i h =
    let x = first + 2 ^ 64 - 1 in
    let d = pow-dvd k 64 h in
    let turn : (x + suc i) % 2 ^ 64 ≡ (first + i) % 2 ^ 64 = omega arith in
    sym (mod-add-mod (before first) (2 ^ k) (suc i))
    ∙ ap (λ m. (m + suc i) % 2 ^ k) (mod-mod_of_dvd (2 ^ k) x d)
    ∙ mod-add-mod x (2 ^ k) (suc i)
    ∙ sym (mod-mod_of_dvd (2 ^ k) (x + suc i) d)
    ∙ ap (λ m. m % 2 ^ k) turn
    ∙ mod-mod_of_dvd (2 ^ k) (first + i) d
