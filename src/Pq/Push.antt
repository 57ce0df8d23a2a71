-- ===== src/Pq/Push.antt =====
-- `nghttp2_pq_push`: the array that grows, and the heap with one entry more.
use newhttp.Common.{
  get_or-append_last, get_or-append_first, ℕ, ◌+◌, ◌*◌, ◌<◌, ◌≡◌, ◌≢◌, ◌^◌, refl, arith, Bool, some,
  length, ◌==◌, ◌∙◌, Bool-cases, inl, inr, sym, ◌⊎◌, ◌↔◌, [], ◌∷◌, length-append, max, ◌%◌, leb,
  leb→le, false,
}
use newhttp.Pq.{append, placed, Pq, slot, parent, pq_push, done, failed}
use newhttp.Pq.Slots.{IsIndexed, Contains}
use newhttp.Pq.Order.{Compares, key_at, IsHeap}
use newhttp.Pq.Up.{Rising, bubble_up-Ends}
use newhttp.Errors.{Error}
use newhttp.Pq.Rest.{IsPq}

-- `pq'` is at rest, and holds `item` besides what `pq` holds.
pub record Given (key : ℕ → ℕ) (item : ℕ) (pq pq' : Pq) : Type 0 where
  pub valid : IsPq key pq'
  pub size : length pq'.q ≡ length pq.q + 1
  pub members : (e : ℕ) → Contains pq' e ↔ ((e ≡ item) ⊎ Contains pq e)

module _ (pq : Pq) (item : ℕ) where
  length-placed : length (placed pq item).q ≡ length pq.q + 1
  length-placed = length-append pq.q (item ∷ [])

  placed_last : slot (placed pq item) (length pq.q) ≡ item
  placed_last = get_or-append_last pq.q item 0

  placed_first : (k : ℕ) → k < length pq.q → slot (placed pq item) k ≡ slot pq k
  placed_first k h = get_or-append_first pq.q item 0 k h

  IsIndexed-placed : IsIndexed pq → ¬ Contains pq item → IsIndexed (placed pq item)
  IsIndexed-placed x new k h = elim (Bool-cases (k == length pq.q)) [
    | inl y ↦ grind (arith, placed_last)
    | inr n ↦
        let b : k < length pq.q = ground (arith, length-placed) in
        let d : slot pq k ≢ item = λ e. new (k, b, e) in grind (arith, placed_first k b, x k b)
  ]

  Contains-placed : (e : ℕ) → Contains (placed pq item) e ↔ ((e ≡ item) ⊎ Contains pq e)
  Contains-placed e = (
    (λ (k, h, s). elim (Bool-cases (k == length pq.q)) [
      | inl y ↦ inl (grind (arith, placed_last))
      | inr n ↦
          let b : k < length pq.q = ground (arith, length-placed) in
          inr (k, b, sym (placed_first k b) ∙ s)
    ]),
    (λ o. elim o [
      | inl i ↦ (length pq.q, omega (arith, length-placed), placed_last ∙ sym i)
      | inr (k, h, s) ↦ (k, omega (arith, length-placed), placed_first k h ∙ s)
    ]),
  )

  Rising-placed :
      (key : ℕ → ℕ)
      → IsHeap key pq
      → Rising (key_at key (placed pq item)) (length (placed pq item).q) (length pq.q)
  Rising-placed key h = record {
    others = λ c p b d. grind (arith, length-placed, placed_first c, placed_first (parent c), h c);
    around = λ c p b e z. grind (arith, length-placed);
  }

module _ (less : ℕ → ℕ → Bool) (key : ℕ → ℕ) (compares : Compares less key) where
  append-Given :
      (pq : Pq) (item : ℕ)
      → IsPq key pq
      → ¬ Contains pq item
      → length pq.q < pq.capacity
      → (pq' : Pq) × (append less pq item ≡ some (done pq')) × Given key item pq pq'
  unfolding append
  append-Given pq item v new room =
      let (pq', e, r, h) =
        bubble_up-Ends less key compares (length pq.q) (placed pq item) (length pq.q) (omega arith)
          (omega (arith, length-placed pq item)) (IsIndexed-placed pq item v.indexed new)
          (Rising-placed pq item key v.heap) in
      rw (append, e)
        (
          pq',
          refl,
          record {
            valid = record {
              indexed = r.indexed;
              heap = h;
              fits = omega (arith, length-placed pq item, r.size, r.room);
            };
            size = r.size ∙ length-placed pq item;
            members = λ x.
                let m = Contains-placed pq item x in
                ((λ c. m.0 (r.old x c)), (λ c. r.kept x (m.1 c)));
          },
        )

  -- `nghttp2_pq_push` of an entry that the queue does not hold. Where the array is full and the
  -- allocator refuses to grow it, the queue stays as it is; otherwise the new queue is a heap that
  -- holds the entry besides the old ones. The capacity is assumed to be below 2^60, so that the
  -- number of bytes asked for does not wrap.
  pub pq_push_lem :
      (realloc : ℕ → Bool) (pq : Pq) (item : ℕ)
      → IsPq key pq
      → ¬ Contains pq item
      → pq.capacity < 2 ^ 60
      → ((length pq.q ≡ pq.capacity)
          × (realloc (max 4 (pq.capacity * 2) * 8) ≡ false)
          × (pq_push less realloc pq item ≡ some (failed Error.nomem pq)))
        ⊎ ((pq' : Pq) × (pq_push less realloc pq item ≡ some (done pq')) × Given key item pq pq')
  unfolding pq_push
  pq_push_lem realloc pq item v new small =
      let n = max 4 (pq.capacity * 2) in
      let wrap : max 4 (pq.capacity * 2 % 2 ^ 64) ≡ n = omega arith in
      let bytes : n * 8 % 2 ^ 64 ≡ n * 8 = omega arith in
      rw (wrap, bytes)
        (elim (Bool-cases (leb pq.capacity (length pq.q))) [
          | inl y ↦
              let full : length pq.q ≡ pq.capacity = omega (arith, leb→le _ _ y, v.fits) in
              elim (Bool-cases (realloc (n * 8))) [
                | inl z ↦
                    let grown : Pq = record pq { capacity = n } in
                    let (pq', e, g) =
                      append-Given grown item
                        (record { indexed = v.indexed; heap = v.heap; fits = omega arith }) new
                        (omega arith) in
                    rw (y, z)
                      (inr (pq', e, record { valid = g.valid; size = g.size; members = g.members }))
                | inr z ↦ rw (y, z) (inl (full, refl, refl))
              ]
          | inr z ↦ rw z (inr (append-Given pq item v new (ground arith)))
        ])
