-- ===== src/Pq/Up.antt =====
-- `bubble_up`: an entry that is out of order with its parent alone rises to its place.
use newhttp.Common.{
  ℕ, zero, suc, ◌≤◌, ◌<◌, ◌≡◌, ◌≢◌, refl, arith, Bool, Option, some, length, ◌∙◌, Bool-cases, inl,
  inr, sym, ap, ltb→lt, ltb→ge,
}
use newhttp.Pq.{Pq, slot, swap, parent, bubble_up}
use newhttp.Pq.Slots.{IsIndexed, Rearranged, Rearranged-swap, slot-swap, exchange, length-swap}
use newhttp.Pq.Order.{Compares, InOrder, key_at, IsHeap}

-- All is in order but the entry at `i` and its parent, and what is below `i` is also in order with
-- what is above it.
pub record Rising (at : ℕ → ℕ) (n i : ℕ) : Type 0 where
  pub others : (c : ℕ) → 0 < c → c < n → c ≢ i → at (parent c) ≤ at c
  pub around : (c : ℕ) → 0 < c → c < n → parent c ≡ i → 0 < i → at (parent i) ≤ at c

Rising-step :
    (at at' : ℕ → ℕ) (n i : ℕ)
    → 0 < i
    → i < n
    → ((k : ℕ) → at' k ≡ at (exchange (parent i) i k))
    → Rising at n i
    → at i < at (parent i)
    → Rising at' n (parent i)
Rising-step at at' n i p b s r less = record {
  others = λ c pc hc d. grind (arith, s c, s (parent c), r.others c pc hc, r.around c pc hc);
  around = λ c pc hc d pp. grind (
    arith,
    s c,
    s (parent (parent i)),
    r.others c pc hc,
    r.others (parent i) pp (omega arith) (omega arith),
  );
}

-- A rising entry that is not less than its parent is in order.
Rising-settled :
    (at : ℕ → ℕ) (n i : ℕ) → Rising at n i → (0 < i → at (parent i) ≤ at i) → InOrder 0 at n
Rising-settled at n i r s c p h _ = grind (arith, r.others c p h)

-- How a loop ends: it has the fuel it needs, keeps the entries, and leaves `P`.
abbrev pub Ends : (Pq → Type 0) → Option Pq → Pq → Type 0
Ends P run pq = (pq' : Pq) × (run ≡ some pq') × Rearranged pq pq' × P pq'

pub Rearranged-refl : {pq : Pq} → IsIndexed pq → Rearranged pq pq
Rearranged-refl p = record {
  size = refl;
  room = refl;
  indexed = p;
  kept = λ e h. h;
  old = λ e h. h;
}

pub Rearranged-trans : {p q r : Pq} → Rearranged p q → Rearranged q r → Rearranged p r
Rearranged-trans a b = record {
  size = b.size ∙ a.size;
  room = b.room ∙ a.room;
  indexed = b.indexed;
  kept = λ e h. b.kept e (a.kept e h);
  old = λ e h. a.old e (b.old e h);
}

pub Ends-after :
    {P : Pq → Type 0} {run : Option Pq} {pq pq' : Pq}
    → Rearranged pq pq'
    → Ends P run pq'
    → Ends P run pq
Ends-after a (end, e, b, h) = (end, e, Rearranged-trans a b, h)

module _ (less : ℕ → ℕ → Bool) (key : ℕ → ℕ) (compares : Compares less key) where
  pub bubble_up-Ends :
      (fuel : ℕ) (pq : Pq) (i : ℕ)
      → i ≤ fuel
      → i < length pq.q
      → IsIndexed pq
      → Rising (key_at key pq) (length pq.q) i
      → Ends (IsHeap key) (bubble_up less fuel pq i) pq
  unfolding bubble_up
  bubble_up-Ends fuel pq zero f h x r =
      (pq, refl, Rearranged-refl x, Rising-settled _ _ 0 r λ p. absurd (omega arith))
  bubble_up-Ends zero pq (suc i) f h x r = absurd (omega arith)
  bubble_up-Ends (suc fuel) pq (suc i) f h x r =
      let p = parent (suc i) in
      let c = compares (slot pq (suc i)) (slot pq p) in
      elim (Bool-cases (less (slot pq (suc i)) (slot pq p))) [
        | inl y ↦
            let near : p ≢ suc i = omega arith in
            let size = length-swap pq p (suc i) in
            rw y (
              Ends-after (Rearranged-swap pq p (suc i) (omega arith) h near x) (
                bubble_up-Ends fuel (swap pq p (suc i)) p (omega arith) (omega arith)
                  (Rearranged-swap pq p (suc i) (omega arith) h near x).indexed
                  (rw size (
                    Rising-step (key_at key pq) _ _ (suc i) (omega arith) h
                      (λ k. ap key (slot-swap pq p (suc i) (omega arith) h near k)) r
                      (ltb→lt _ _ (sym c ∙ y))))))
        | inr n ↦
            rw n (
              pq,
              refl,
              Rearranged-refl x,
              Rising-settled _ _ (suc i) r λ _. ltb→ge _ _ (sym c ∙ n),
            )
      ]
