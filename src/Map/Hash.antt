-- ===== src/Map/Hash.antt =====
-- The slot that `hash` gives.
use newhttp.Common.{ℕ, ◌^◌, ◌≤◌, ◌<◌, ◌≡◌, suc, ap, sym, ◌∙◌, ◌*◌, arith}
use native.Mathlib.Nat.{mod-lt, one-le-pow, pow-le-pow_right, pow-suc}
use newhttp.Common.Bits.{bit_and_mask, exponent_lt}
use newhttp.Map.{hash}

-- The number of buckets is a power of two, and its indices fit an `int32_t`.
pub record IsTablelen (n : ℕ) : Type 0 where
  pub k : ℕ
  pub narrow : k ≤ 31
  pub power : n ≡ 2 ^ k

pub hash-lt : (h n : ℕ) → IsTablelen n → hash h n < n
unfolding hash
hash-lt h n v = rw (v.power, bit_and_mask v.k) (mod-lt _ (one-le-pow v.k 2 (omega arith)))

pub IsTablelen-small : {n : ℕ} → IsTablelen n → n ≤ 2 ^ 31
IsTablelen-small v =
    omega (arith, v.power, pow-le-pow_right {n = 2} (omega arith) {i = v.k} {j = 31} v.narrow)

pub IsTablelen-twice : {n : ℕ} → IsTablelen n → n ≤ 2 ^ 30 → IsTablelen (n * 2)
IsTablelen-twice v h = record {
  k = suc v.k;
  narrow = exponent_lt v.k 31 (omega (arith, v.power));
  power = ap (λ m. m * 2) v.power ∙ sym (pow-suc 2 v.k);
}
