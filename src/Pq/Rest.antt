-- ===== src/Pq/Rest.antt =====
-- The queue between two calls, and its first entry.
use newhttp.Common.{
  ℕ, ◌≤◌, ◌<◌, ◌≡◌, refl, arith, some, length, ◌==◌, Bool-cases, inl, inr, ◌⊎◌, ==_iff, none,
}
use newhttp.Pq.{Pq, slot, pq_top}
use newhttp.Pq.Slots.{IsIndexed, Contains}
use newhttp.Pq.Order.{key_at, IsHeap, first_least}

-- A queue at rest.
pub record IsPq (key : ℕ → ℕ) (pq : Pq) : Type 0 where
  pub indexed : IsIndexed pq
  pub heap : IsHeap key pq
  pub fits : length pq.q ≤ pq.capacity

-- `nghttp2_pq_top` gives an entry of the queue whose key is the least of all its entries' keys,
-- unless the queue is empty.
pub pq_top_lem :
    (key : ℕ → ℕ) (pq : Pq)
    → IsPq key pq
    → ((length pq.q ≡ 0) × (pq_top pq ≡ none))
      ⊎ ((e : ℕ) × (pq_top pq ≡ some e)
          × Contains pq e
          × ((e' : ℕ) → Contains pq e' → key e ≤ key e'))
unfolding pq_top
pq_top_lem key pq v = elim (Bool-cases (length pq.q == 0)) [
  | inl y ↦ rw y (inl ((==_iff _ 0).0 y, refl))
  | inr n ↦
      let h : 0 < length pq.q = ground arith in
      rw n (
        inr (
          slot pq 0,
          refl,
          (0, h, refl),
          λ e' (k, b, s). rw (← s) (first_least (key_at key pq) _ k v.heap b),
        ))
]
