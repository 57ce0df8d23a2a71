-- ===== src/Hd/Ring/Laws.antt =====
-- The entries that a ring buffer holds, newest first, and what the operations do to them.
use native.Mathlib.Nat.{pow-le-pow_right, one-le-pow, mod-eq_of_lt, mod-lt}
use newhttp.Common.{
  ℕ, zero, suc, ◌+◌, ◌-◌, ◌*◌, ◌%◌, ◌^◌, ◌≤◌, ◌<◌, ◌≡◌, refl, ap, ap₂, sym, ◌∙◌, arith, bit_and,
  Bool, List, ◌∷◌, get_or, set, replicate, leb, length, tabulate, ◌⊎◌, ◌==◌, ==_iff, false,
  get_or-set, get_or-set_other, length-set, length-replicate, tabulate_eq, Bool-cases, inl, inr,
  leb→le,
}
use newhttp.Common.Bits.{bit_and_mask}
use newhttp.Errors.{Error, Rv, ok, err}
use newhttp.Hd.Ring.{ringbuf_push_front, Ringbuf, cell, ringbuf_reserve, copy_cells}
use newhttp.Hd.Ring.Index.{low_index, ring_size_found, mod-add_other, before, before_next}

-- A power of two of slots, of which at most all are in use.
pub record IsRing {ℓ} {A : Type ℓ} (r : Ringbuf A) : Type 0 where
  pub k : ℕ
  pub narrow : k ≤ 63
  pub mask : r.mask ≡ 2 ^ k - 1
  pub slots : length r.buffer ≡ 2 ^ k
  pub fits : r.len ≤ 2 ^ k

module _ {ℓ} {A : Type ℓ} (junk : A) where
  -- The entries, newest first.
  abbrev pub contents : Ringbuf A → List A
  contents r = tabulate (cell junk r) r.len

  cell_place :
      (r : Ringbuf A) (j : ℕ)
      → j ≤ 63
      → r.mask ≡ 2 ^ j - 1
      → (i : ℕ) → cell junk r i ≡ get_or r.buffer ((r.first + i) % 2 ^ j) junk
  cell_place r j b e i =
      ap (λ m. get_or r.buffer (bit_and ((r.first + i) % 2 ^ 64) m) junk) e
      ∙ ap (λ k. get_or r.buffer k junk) (low_index j (r.first + i) (omega arith))

  length-copy_cells :
      (r : Ringbuf A) (n : ℕ) (buffer : List A)
      → length (copy_cells junk r n buffer) ≡ length buffer
  unfolding copy_cells
  length-copy_cells r zero buffer = refl
  length-copy_cells r (suc n) buffer =
      length-set (copy_cells junk r n buffer) n _ ∙ length-copy_cells r n buffer

  copied :
      (r : Ringbuf A) (n : ℕ) (buffer : List A) (i : ℕ)
      → n ≤ length buffer
      → i < n
      → get_or (copy_cells junk r n buffer) i junk ≡ cell junk r i
  unfolding copy_cells
  copied r zero buffer i b h = absurd (omega arith)
  copied r (suc n) buffer i b h = elim (Bool-cases (i == n)) [
    | inl y ↦ rw ((==_iff i n).0 y) (
        get_or-set (copy_cells junk r n buffer) n _ junk
          (omega (arith, length-copy_cells r n buffer)))
    | inr z ↦
        get_or-set_other (copy_cells junk r n buffer) n i _ junk (ground arith)
        ∙ copied r n buffer i (omega arith) (ground arith)
  ]

  -- The ring after the entries have moved to a fresh array of `2 ^ k` slots.
  abbrev moved : Ringbuf A → ℕ → Ringbuf A
  moved r k = record {
    buffer = copy_cells junk r r.len (replicate (2 ^ k) junk);
    mask = 2 ^ k - 1;
    first = 0;
    len = r.len;
  }

  IsRing-moved : (r : Ringbuf A) (j : ℕ) → j ≤ 63 → r.len ≤ 2 ^ j → IsRing (moved r j)
  IsRing-moved r j b h = record {
    k = j;
    narrow = b;
    mask = refl;
    slots = length-copy_cells r r.len (replicate (2 ^ j) junk) ∙ length-replicate (2 ^ j) junk;
    fits = h;
  }

  contents-moved :
      (r : Ringbuf A) (j : ℕ) → j ≤ 63 → r.len ≤ 2 ^ j → contents (moved r j) ≡ contents r
  contents-moved r j b h = tabulate_eq _ _ r.len λ i p.
      let none_before : 0 + i ≡ i = omega arith in
      cell_place (moved r j) j b refl i
      ∙ ap (λ x. get_or (moved r j).buffer (x % 2 ^ j) junk) none_before
      ∙ ap (λ x. get_or (moved r j).buffer x junk) (mod-eq_of_lt {n = i} {m = 2 ^ j} (omega arith))
      ∙ copied r r.len (replicate (2 ^ j) junk) i (omega (arith, length-replicate (2 ^ j) junk)) p

  -- How a call that may allocate ends: without memory, or with a ring that `P` holds of.
  abbrev pub Served : (ℕ → Bool) → (Ringbuf A → Type ℓ) → Rv (Ringbuf A) → Type ℓ
  Served malloc P run =
      ((n : ℕ) × (malloc n ≡ false) × (run ≡ err Error.nomem))
      ⊎ ((r : Ringbuf A) × (run ≡ ok r) × IsRing r × P r)

  -- Making room for `bufsize` entries keeps the entries in their order.
  pub ringbuf_reserve_lem :
      (malloc : ℕ → Bool) (bufsize : ℕ) (r : Ringbuf A)
      → IsRing r
      → bufsize ≤ 2 ^ 63
      → r.len ≤ bufsize
      → Served malloc
          (λ r'. (contents r' ≡ contents r) × (r'.len ≡ r.len) × (bufsize ≤ r'.mask + 1))
          (ringbuf_reserve junk malloc bufsize r)
  unfolding ringbuf_reserve
  ringbuf_reserve_lem malloc bufsize r v small more =
      let room : (r.mask + 1) % 2 ^ 64 ≡ r.mask + 1 =
        let half = pow-le-pow_right {n = 2} (omega arith) {i = v.k} {j = 63} v.narrow in
        mod-eq_of_lt {n = r.mask + 1} {m = 2 ^ 64} (omega (arith, v.mask, one-le-pow v.k 2)) in
      rw room (elim (Bool-cases (leb bufsize (r.mask + 1))) [
        | inl y ↦ rw y (inr (r, refl, v, (refl, refl, leb→le _ _ y)))
        | inr n ↦
            let (k, e, h, b) = ring_size_found 65 0 bufsize (omega arith) (omega arith) small in
            rw (n, e)
              (elim (Bool-cases (malloc (8 * 2 ^ k % 2 ^ 64))) [
                | inl y ↦ rw y (
                    inr (
                      moved r k,
                      refl,
                      IsRing-moved r k b (omega arith),
                      (contents-moved r k b (omega arith), refl, omega (arith, one-le-pow k 2)),
                    ))
                | inr z ↦ rw z (inl (8 * 2 ^ k % 2 ^ 64, z, refl))
              ])
      ])

  -- The ring with a new entry before the first one.
  abbrev pushed : Ringbuf A → A → Ringbuf A
  pushed r ent = record {
    buffer = set r.buffer (bit_and (before r.first) r.mask) ent;
    mask = r.mask;
    first = before r.first;
    len = suc r.len;
  }

  IsRing-pushed : (r : Ringbuf A) (ent : A) (v : IsRing r) → r.len < 2 ^ v.k → IsRing (pushed r ent)
  IsRing-pushed r ent v h = record {
    k = v.k;
    narrow = v.narrow;
    mask = v.mask;
    slots = length-set r.buffer _ ent ∙ v.slots;
    fits = h;
  }

  contents-pushed :
      (r : Ringbuf A) (ent : A) (v : IsRing r)
      → r.len < 2 ^ v.k
      → contents (pushed r ent) ≡ ent ∷ contents r
  contents-pushed r ent v h =
      let n = 2 ^ v.k in
      let b : v.k ≤ 64 = omega (arith, v.narrow) in
      let here = before r.first % n in
      let place : bit_and (before r.first) r.mask ≡ here =
        ap (bit_and (before r.first)) v.mask ∙ bit_and_mask v.k (before r.first) in
      let near : here < length r.buffer =
        omega (arith, v.slots, mod-lt (before r.first) {m = n} (omega (arith, one-le-pow v.k 2))) in
      let new = pushed r ent in
      ap₂ ◌∷◌
        (cell_place new v.k v.narrow v.mask 0
          ∙ ap₂ (λ i j. get_or (set r.buffer i ent) (j % n) junk) place (omega arith)
          ∙ get_or-set r.buffer here ent junk near)
        (tabulate_eq _ _ r.len λ i p.
          let far = mod-add_other n (before r.first) (suc i) (omega arith) (omega arith) in
          cell_place new v.k v.narrow v.mask (suc i)
          ∙ ap (λ j. get_or (set r.buffer j ent) ((before r.first + suc i) % n) junk) place
          ∙ get_or-set_other r.buffer here ((before r.first + suc i) % n) ent junk far
          ∙ ap (λ j. get_or r.buffer j junk) (before_next v.k r.first i b)
          ∙ sym (cell_place r v.k v.narrow v.mask i))

  -- `hd_ringbuf_push_front` puts the entry before the others, and grows the array for it where it
  -- must, or finds no memory.
  pub ringbuf_push_front_lem :
      (malloc : ℕ → Bool) (r : Ringbuf A) (ent : A)
      → IsRing r
      → r.len < 2 ^ 63
      → Served malloc (λ r'. contents r' ≡ ent ∷ contents r) (ringbuf_push_front junk malloc r ent)
  unfolding ringbuf_push_front
  ringbuf_push_front_lem malloc r ent v small =
      let count : (r.len + 1) % 2 ^ 64 ≡ r.len + 1 = omega arith in
      rw count (elim (ringbuf_reserve_lem malloc (r.len + 1) r v (omega arith) (omega arith)) [
        | inl (n, refused, e) ↦ rw e (inl (n, refused, refl))
        | inr (r1, e, v1, (same, len, room)) ↦
            let free : r1.len < 2 ^ v1.k = omega (arith, v1.mask, one-le-pow v1.k 2) in
            rw e (
              inr (
                pushed r1 ent,
                refl,
                IsRing-pushed r1 ent v1 free,
                contents-pushed r1 ent v1 free ∙ ap (◌∷◌ ent) same,
              ))
      ])
