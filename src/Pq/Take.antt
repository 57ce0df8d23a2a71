-- ===== src/Pq/Take.antt =====
-- `nghttp2_pq_pop` and `nghttp2_pq_remove`: the entry that goes, and the heap that stays.
use newhttp.Common.{
  get_or-take, get_or-set, get_or-set_other, ℕ, ◌-◌, ◌≤◌, ◌<◌, ◌≡◌, ◌≢◌, refl, arith, Bool, Option,
  some, ltb, length, ◌==◌, if◌then◌else◌, ◌∙◌, Bool-cases, inl, inr, sym, ltb→lt, ltb→ge, ◌⊎◌, ◌↔◌,
  set, length-take, length-set,
}
use newhttp.Pq.{Pq, slot, put, shrink, parent, pq_pop, pq_remove}
use newhttp.Pq.Slots.{IsIndexed, Contains}
use newhttp.Pq.Order.{Compares, key_at, IsHeap}
use newhttp.Pq.Up.{Ends, Rising, bubble_up-Ends}
use newhttp.Pq.Down.{Sinking, bubble_down-Ends}
use newhttp.Pq.Rest.{IsPq}

-- The last entry takes the slot `i`, and the array gets shorter.
abbrev moved : Pq → ℕ → Pq
moved pq i = shrink (put pq i (slot pq (length pq.q - 1)))

module _ (pq : Pq) (i : ℕ) (hi : i < length pq.q) where
  length-moved : length (moved pq i).q ≡ length pq.q - 1
  length-moved =
      let last = slot pq (length pq.q - 1) in
      omega (
        arith,
        length-set pq.q i last,
        length-take (length (set pq.q i last) - 1) (set pq.q i last),
      )

  moved_at :
      (k : ℕ)
      → k < length pq.q - 1
      → slot (moved pq i) k ≡ slot pq (if k == i then length pq.q - 1 else k)
  moved_at k h =
      let last = slot pq (length pq.q - 1) in
      get_or-take (length (set pq.q i last) - 1) (set pq.q i last) 0 k
        (omega (arith, length-set pq.q i last))
      ∙ ground (arith, get_or-set pq.q i last 0 hi, get_or-set_other pq.q i k last 0)

  IsIndexed-moved : IsIndexed pq → IsIndexed (moved pq i)
  IsIndexed-moved x k h =
      let h' : k < length pq.q - 1 = omega (arith, length-moved) in
      grind (arith, moved_at k h', x k, x (length pq.q - 1))

  -- All the entries but that of slot `i` stay.
  Contains-moved :
      IsIndexed pq → (e : ℕ) → Contains (moved pq i) e ↔ (Contains pq e × (e ≢ slot pq i))
  Contains-moved x e = (
    (λ (k, h, s).
        let h' : k < length pq.q - 1 = omega (arith, length-moved) in
        let from = if k == i then length pq.q - 1 else k in
        (
          (from, ground (arith, length-moved), sym (moved_at k h') ∙ s),
          λ d. grind (arith, moved_at k h', x i hi, x k, x (length pq.q - 1)),
        )),
    (λ ((k, h, s), d).
        let to = if k == length pq.q - 1 then i else k in
        (to, grind (arith, length-moved), grind (arith, moved_at to))),
  )

-- `pq'` holds what `pq` holds but for `item`.
pub record Taken (key : ℕ → ℕ) (item : ℕ) (pq pq' : Pq) : Type 0 where
  pub valid : IsPq key pq'
  pub size : length pq'.q ≡ length pq.q - 1
  pub members : (e : ℕ) → Contains pq' e ↔ (Contains pq e × (e ≢ item))

Taken-after :
    (key : ℕ → ℕ) (run : Option Pq) (pq : Pq) (i : ℕ)
    → i < length pq.q
    → IsPq key pq
    → Ends (IsHeap key) run (moved pq i)
    → (pq' : Pq) × (run ≡ some pq') × Taken key (slot pq i) pq pq'
Taken-after key run pq i hi v (pq', e, r, h) = (
  pq',
  e,
  record {
    valid = record {
      indexed = r.indexed;
      heap = h;
      fits = omega (arith, length-moved pq i hi, r.size, r.room, v.fits);
    };
    size = r.size ∙ length-moved pq i hi;
    members = λ x.
        let m = Contains-moved pq i hi v.indexed x in
        ((λ c. m.0 (r.old x c)), (λ c. r.kept x (m.1 c)));
  },
)

Sinking-moved :
    (key : ℕ → ℕ) (pq : Pq) (i : ℕ) (hi : i < length pq.q)
    → IsHeap key pq
    → ((0 < i) → key_at key pq (parent i) ≤ key (slot pq (length pq.q - 1)))
    → Sinking 0 (key_at key (moved pq i)) (length (moved pq i).q) i
Sinking-moved key pq i hi h o = record {
  others = λ c p b q d.
      grind (arith, length-moved pq i hi, moved_at pq i hi c, moved_at pq i hi (parent c), h c);
  around = λ c p b e z q.
      grind
        (arith, length-moved pq i hi, moved_at pq i hi c, moved_at pq i hi (parent i), h c, h i);
}

Rising-moved :
    (key : ℕ → ℕ) (pq : Pq) (i : ℕ) (hi : i < length pq.q)
    → IsHeap key pq
    → key (slot pq (length pq.q - 1)) ≤ key (slot pq i)
    → Rising (key_at key (moved pq i)) (length (moved pq i).q) i
Rising-moved key pq i hi h o = record {
  others = λ c p b d.
      grind (arith, length-moved pq i hi, moved_at pq i hi c, moved_at pq i hi (parent c), h c);
  around = λ c p b e z.
      grind
        (arith, length-moved pq i hi, moved_at pq i hi c, moved_at pq i hi (parent i), h c, h i);
}

Taken-shrink :
    (key : ℕ → ℕ) (pq : Pq)
    → 0 < length pq.q
    → IsPq key pq
    → Taken key (slot pq (length pq.q - 1)) pq (shrink pq)
Taken-shrink key pq h v = record {
  valid = record {
    indexed = λ k b. grind (arith, size, at k, v.indexed k);
    heap = λ c p b z. grind (arith, size, at c, at (parent c), v.heap c);
    fits = omega (arith, size, v.fits);
  };
  size = size;
  members = λ e. (
    (λ (k, b, s).
        let b' : k < length pq.q - 1 = omega (arith, size) in
        (
          (k, omega arith, sym (at k b') ∙ s),
          λ d. grind (arith, at k b', v.indexed k, v.indexed (length pq.q - 1)),
        )),
    (λ ((k, b, s), d). (k, grind (arith, size), grind (arith, at k))),
  );
}
  where
    size : length (shrink pq).q ≡ length pq.q - 1
    size = omega (arith, length-take (length pq.q - 1) pq.q)

    at : (k : ℕ) → k < length pq.q - 1 → slot (shrink pq) k ≡ slot pq k
    at k b = get_or-take (length pq.q - 1) pq.q 0 k b

module _ (less : ℕ → ℕ → Bool) (key : ℕ → ℕ) (compares : Compares less key) where
  -- `nghttp2_pq_pop` takes out the entry at the top, and nothing where the queue is empty; the
  -- rest is again a heap.
  pub pq_pop_lem :
      (pq : Pq)
      → IsPq key pq
      → ((length pq.q ≡ 0) × (pq_pop less pq ≡ some pq))
        ⊎ ((pq' : Pq) × (pq_pop less pq ≡ some pq') × Taken key (slot pq 0) pq pq')
  unfolding pq_pop
  pq_pop_lem pq v = elim (Bool-cases (ltb 0 (length pq.q))) [
    | inl y ↦
        let h : 0 < length pq.q = ltb→lt _ _ y in
        let size = length-moved pq 0 h in
        rw y (
          inr (
            Taken-after key _ pq 0 h v (
              bubble_down-Ends less key compares 0 (length pq.q) (moved pq 0) 0 h (omega arith)
                (IsIndexed-moved pq 0 h v.indexed)
                (Sinking-moved key pq 0 h v.heap λ p. absurd (omega arith)))))
    | inr n ↦ rw n (inl (omega (arith, ltb→ge _ _ n), refl))
  ]

  -- `nghttp2_pq_remove` takes out an entry that the queue holds, wherever it stands, and the rest
  -- is again a heap.
  pub pq_remove_lem :
      (pq : Pq) (item : ℕ)
      → IsPq key pq
      → Contains pq item
      → (pq' : Pq) × (pq_remove less pq item ≡ some pq') × Taken key item pq pq'
  unfolding pq_remove
  pq_remove_lem pq item v (i, h, s) =
      let at : pq.index item ≡ i = rw (← s) (v.indexed i h) in
      let size = length-moved pq i h in
      let c = compares item (slot (moved pq i) i) in
      rw at (elim (Bool-cases (i == 0)) [
        | inl y ↦ elim (pq_pop_lem pq v) [
          | inl (none_left, e) ↦ absurd (omega arith)
          | inr (pq', e, t) ↦
              let first : item ≡ slot pq 0 = grind arith in rw y (pq', e, rw first t)
        ]
        | inr n ↦ elim (Bool-cases (i == length pq.q - 1)) [
          | inl y ↦
              let last : item ≡ slot pq (length pq.q - 1) = grind arith in
              rw (n, y) (shrink pq, refl, rw last (Taken-shrink key pq (omega arith) v))
          | inr m ↦
              let inside : i < length pq.q - 1 = ground arith in
              let new = moved_at pq i h i inside in
              rw (n, m)
                (elim (Bool-cases (less item (slot (moved pq i) i))) [
                  | inl y ↦ rw y (
                      rw (← s) (
                        Taken-after key _ pq i h v (
                          bubble_down-Ends less key compares 0 (length pq.q) (moved pq i) i
                            (omega arith) (omega arith) (IsIndexed-moved pq i h v.indexed)
                            (Sinking-moved key pq i h v.heap
                              λ p. grind (arith, v.heap i, new, c)))))
                  | inr z ↦ rw z (
                      rw (← s) (
                        Taken-after key _ pq i h v (
                          bubble_up-Ends less key compares i (moved pq i) i (omega arith)
                            (omega arith) (IsIndexed-moved pq i h v.indexed)
                            (Rising-moved key pq i h v.heap (grind (arith, new, c))))))
                ])
        ]
      ])
