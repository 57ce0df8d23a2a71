-- ===== src/Pq/Down.antt =====
-- `bubble_down`: an entry that is out of order with its children alone sinks to its place.
use newhttp.Common.{
  ℕ, zero, suc, ◌+◌, ◌*◌, ◌≤◌, ◌<◌, ◌≡◌, ◌≢◌, refl, arith, Bool, length, ◌==◌, Bool-cases, inl, inr,
  ap, ◌⊎◌, ==_iff,
}
use newhttp.Pq.{Pq, slot, swap, parent, bubble_down, min_index}
use newhttp.Pq.Slots.{IsIndexed, Rearranged-swap, slot-swap, exchange, length-swap}
use newhttp.Pq.Order.{Compares, InOrder, key_at, IsHeapFrom}
use newhttp.Pq.Up.{Ends, Ends-after, Rearranged-refl}

-- From `lo` on, all is in order but the entry at `i` and its children, and these are in order with
-- what is above `i`.
pub record Sinking (lo : ℕ) (at : ℕ → ℕ) (n i : ℕ) : Type 0 where
  pub others : (c : ℕ) → 0 < c → c < n → lo ≤ parent c → parent c ≢ i → at (parent c) ≤ at c
  pub around : (c : ℕ) → 0 < c → c < n → parent c ≡ i → 0 < i → lo ≤ parent i → at (parent i) ≤ at c

-- `m` is the place of the least key among those of `i` and its children.
record IsLeast (at : ℕ → ℕ) (n i m : ℕ) : Type 0 where
  pub least : (c : ℕ) → 0 < c → c < n → parent c ≡ i → at m ≤ at c
  pub place : (m ≡ i) ⊎ ((0 < m) × (m < n) × (parent m ≡ i) × (at m < at i))

Sinking-step :
    (lo : ℕ) (at at' : ℕ → ℕ) (n i m : ℕ)
    → 0 < m
    → m < n
    → parent m ≡ i
    → at m < at i
    → ((c : ℕ) → 0 < c → c < n → parent c ≡ i → at m ≤ at c)
    → ((k : ℕ) → at' k ≡ at (exchange i m k))
    → Sinking lo at n i
    → Sinking lo at' n m
Sinking-step lo at at' n i m p b e less l s r = record {
  others = λ c pc hc q d.
      grind (
        arith,
        s c,
        s (parent c),
        r.others c pc hc q,
        r.around c pc hc,
        l c pc hc,
        r.around m p b e,
      );
  around = λ c pc hc d pp q. grind (arith, s c, s (parent m), r.others c pc hc);
}

Sinking-settled :
    (lo : ℕ) (at : ℕ → ℕ) (n i : ℕ)
    → Sinking lo at n i
    → ((c : ℕ) → 0 < c → c < n → parent c ≡ i → at i ≤ at c)
    → InOrder lo at n
Sinking-settled lo at n i r l c p h q = grind (arith, r.others c p h q, l c p h)

module _ (less : ℕ → ℕ → Bool) (key : ℕ → ℕ) (compares : Compares less key) where
  min_index-IsLeast :
      (pq : Pq) (i : ℕ) → IsLeast (key_at key pq) (length pq.q) i (min_index less pq i)
  unfolding min_index
  min_index-IsLeast pq i =
      let j = i * 2 + 1 in
      let a = compares (slot pq j) (slot pq i) in
      elim (Bool-cases (less (slot pq j) (slot pq i))) [
        | inl y ↦
            let b = compares (slot pq (j + 1)) (slot pq j) in
            rw y (record { least = λ c p h e. grind (arith, a, b); place = grind (arith, a, b) })
        | inr n ↦
            let b = compares (slot pq (j + 1)) (slot pq i) in
            rw n (record { least = λ c p h e. grind (arith, a, b); place = grind (arith, a, b) })
      ]

  pub bubble_down-Ends :
      (lo fuel : ℕ) (pq : Pq) (i : ℕ)
      → 0 < fuel
      → length pq.q ≤ i + fuel
      → IsIndexed pq
      → Sinking lo (key_at key pq) (length pq.q) i
      → Ends (IsHeapFrom lo key) (bubble_down less fuel pq i) pq
  unfolding bubble_down
  bubble_down-Ends lo zero pq i p f x r = absurd (omega arith)
  bubble_down-Ends lo (suc fuel) pq i p f x r =
      let m = min_index less pq i in
      let l = min_index-IsLeast pq i in
      elim (Bool-cases (m == i)) [
        | inl y ↦
            let e : m ≡ i = (==_iff m i).0 y in
            rw y (
              pq,
              refl,
              Rearranged-refl x,
              Sinking-settled lo _ _ i r (λ c p h e'. grind (arith, l.least c p h e')),
            )
        | inr n ↦ elim l.place [
          | inl e ↦ absurd (cc (n, (==_iff m i).1 e))
          | inr (pm, hm, em, lm) ↦
              let size = length-swap pq i m in
              let far : i ≢ m = omega arith in
              let hi : i < length pq.q = omega arith in
              rw n (
                Ends-after (Rearranged-swap pq i m hi hm far x) (
                  bubble_down-Ends lo fuel (swap pq i m) m (omega arith) (omega arith)
                    (Rearranged-swap pq i m hi hm far x).indexed
                    (rw size (
                      Sinking-step lo (key_at key pq) _ _ i m pm hm em lm l.least
                        (λ k. ap key (slot-swap pq i m hi hm far k)) r))))
        ]
      ]
