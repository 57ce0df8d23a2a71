-- ===== src/Pq/Update.antt =====
-- `nghttp2_pq_update`: the heap made anew when the keys of its entries change.
use newhttp.Common.{
  ℕ, zero, suc, ◌≤◌, ◌≡◌, refl, arith, Bool, some, length, ◌==◌, ◌∙◌, Bool-cases, inl, inr, ==_iff,
  List, [], ◌∷◌, false, true, ◌||◌,
}
use newhttp.Pq.{Pq, slot, parent, heapify, update_each, pq_update}
use newhttp.Pq.Slots.{IsIndexed, Rearranged}
use newhttp.Pq.Order.{Compares, IsHeapFrom, IsHeap}
use newhttp.Pq.Up.{Ends, Ends-after, Rearranged-refl}
use newhttp.Pq.Down.{bubble_down-Ends}
use newhttp.Pq.Rest.{IsPq}

or-false : (a b : Bool) → (a || b) ≡ false → (a ≡ false) × (b ≡ false)
or-false true b h = absurd (cc h)
or-false false b h = (refl, h)

heapify-Ends :
    (less : ℕ → ℕ → Bool) (key : ℕ → ℕ) (compares : Compares less key) (pq : Pq) (i : ℕ)
    → i ≤ length pq.q
    → IsIndexed pq
    → IsHeapFrom i key pq
    → Ends (IsHeap key) (heapify less pq i) pq
unfolding heapify
heapify-Ends less key compares pq zero b x h = (pq, refl, Rearranged-refl x, h)
heapify-Ends less key compares pq (suc i) b x h =
    let (pq1, e, r, h1) =
      bubble_down-Ends less key compares i (length pq.q) pq i (omega arith) (omega arith) x
        (record {
          others = λ c p b' q d. h c p b' (omega arith);
          around = λ c p b' e z q. absurd (omega arith);
        }) in
    rw (heapify, e)
      (Ends-after r (heapify-Ends less key compares pq1 i (omega (arith, r.size)) r.indexed h1))

module _ {S : Type 0} (less : S → ℕ → ℕ → Bool) (key : S → ℕ → ℕ)
    (compares : (s : S) → Compares (less s) (key s)) (fun : ℕ → S → Bool × S) where
  -- The callback says when it changes a key.
  abbrev pub Reports : Type 0
  Reports = (e : ℕ) (s : S) → (fun e s).0 ≡ false → (x : ℕ) → key (fun e s).1 x ≡ key s x

  update_each_keeps :
      Reports
      → (es : List ℕ) (s : S) → (update_each fun es s).0 ≡ false
      → (x : ℕ) → key (update_each fun es s).1 x ≡ key s x
  unfolding update_each
  update_each_keeps report [] s h x = refl
  update_each_keeps report (e ∷ es) s h x =
      let (a, b) = or-false (fun e s).0 _ h in update_each_keeps report es _ b x ∙ report e s a x

  update_each_none : (es : List ℕ) (s : S) → length es ≡ 0 → update_each fun es s ≡ (false, s)
  unfolding update_each
  update_each_none [] s h = refl
  update_each_none (e ∷ es) s h = absurd (omega arith)

  -- `nghttp2_pq_update`, whose callback reports when it changes a key, leaves a heap of the same
  -- entries for the keys that the callback's calls on all the entries leave.
  pub pq_update_lem :
      (pq : Pq) (s : S)
      → Reports
      → IsPq (key s) pq
      → (pq' : Pq) × (pq_update less fun pq s ≡ some (pq', (update_each fun pq.q s).1))
        × Rearranged pq pq'
        × IsPq (key (update_each fun pq.q s).1) pq'
  unfolding pq_update
  pq_update_lem pq s report v = elim (Bool-cases (length pq.q == 0)) [
    | inl y ↦
        rw (y, update_each_none pq.q s ((==_iff _ 0).0 y)) (pq, refl, Rearranged-refl v.indexed, v)
    | inr n ↦ elim (Bool-cases (update_each fun pq.q s).0) [
      | inl y ↦
          let s' = (update_each fun pq.q s).1 in
          let (pq', e, r, h) =
            heapify-Ends (less s') (key s') (compares s') pq (length pq.q) (omega arith) v.indexed
              (λ c p b l. absurd (omega arith)) in
          rw (n, y, e)
            (
              pq',
              refl,
              r,
              record {
                indexed = r.indexed;
                heap = h;
                fits = omega (arith, r.size, r.room, v.fits);
              },
            )
      | inr z ↦
          let same = update_each_keeps report pq.q s z in
          rw (n, z)
            (
              pq,
              refl,
              Rearranged-refl v.indexed,
              record {
                indexed = v.indexed;
                fits = v.fits;
                heap = λ c p b l. rw (same (slot pq c), same (slot pq (parent c))) (v.heap c p b l);
              },
            )
    ]
  ]
