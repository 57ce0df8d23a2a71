-- ===== src/Map/Resize.antt =====
-- `resize`: the entries go from one table to another, and none is lost.
use newhttp.Common.{
  ℕ, zero, suc, ◌+◌, ◌≡◌, refl, ap, ap₂, sym, ◌∙◌, arith, List, [], ◌∷◌, ◌++◌, none, some, length,
  length-replicate, replicate, ◌==◌, inl, inr, Bool-cases, ==_iff,
}
use newhttp.Map.{MapEntry, hash, bucket, lookup, insert_or_keep, move_bucket, move_buckets}
use newhttp.Map.Hash.{IsTablelen}
use newhttp.Map.Find.{
  find_in, or_else, Distinct, total, IsTable, added, find_in-added, IsTable-added, total-added,
  insert_new,
}
use newhttp.Map.Entries.{
  or_else-none, not_first, entries, length-entries, IsTail, lookup-entries, Distinct-entries,
}

-- What the table holds after the entries `es` have come to `table`.
record Moved (n : ℕ) (es : List MapEntry) (table table' : List (List MapEntry)) : Type 0 where
  pub ordered : IsTable n table'
  pub found : (k : ℕ) → find_in table' n k ≡ or_else (lookup es k) (find_in table n k)
  pub count : total table' ≡ total table + length es

insert_or_keep_new :
    (table : List (List MapEntry)) (n : ℕ) (e : MapEntry) (v : IsTablelen n) (t : IsTable n table)
    → find_in table n e.key ≡ none
    → insert_or_keep n table e ≡ added table n e v t
unfolding insert_or_keep
insert_or_keep_new table n e v t m = rw (insert_or_keep, insert_new table n e m) refl

move_bucket-Moved :
    (n : ℕ) (es : List MapEntry) (table : List (List MapEntry))
    → IsTablelen n
    → IsTable n table
    → Distinct es
    → ((k : ℕ) (f : MapEntry) → lookup es k ≡ some f → find_in table n k ≡ none)
    → Moved n es table (move_bucket n es table)
unfolding move_bucket insert_or_keep
move_bucket-Moved n [] table v t d fresh = record {
  ordered = t;
  found = λ k. refl;
  count = omega arith;
}
move_bucket-Moved n (e ∷ es) table v t (new, d) fresh =
    let own : lookup (e ∷ es) e.key ≡ some e = rw ((==_iff e.key e.key).1 refl) refl in
    let free = fresh e.key e own in
    let find = find_in-added table n e v t in
    let table1 = added table n e v t in
    let rest = move_bucket-Moved n es table1 v (IsTable-added table n e v t free) d (λ k f m.
      let z = not_first e es k f new m in
      let first : lookup (e ∷ es) k ≡ some f = rw z m in find k ∙ (rw z (fresh k f first))) in
    rw (insert_or_keep_new table n e v t free) (record {
      ordered = rest.ordered;
      found = λ k. rest.found k ∙ elim (Bool-cases (e.key == k)) [
        | inl y ↦
            let none_left : lookup es k ≡ none = sym (ap (lookup es) ((==_iff _ _).0 y)) ∙ new in
            ap₂ or_else none_left (find k) ∙ (rw y refl)
        | inr z ↦ ap (or_else (lookup es k)) (find k) ∙ (rw z refl)
      ];
      count = omega (arith, rest.count, total-added table n e v t);
    })

move_bucket-append :
    (n : ℕ) (xs ys : List MapEntry) (table : List (List MapEntry))
    → move_bucket n (xs ++ ys) table ≡ move_bucket n ys (move_bucket n xs table)
unfolding move_bucket
move_bucket-append n [] ys table = refl
move_bucket-append n (x ∷ xs) ys table = move_bucket-append n xs ys (insert_or_keep n table x)

move_buckets-entries :
    (n : ℕ) (bs new : List (List MapEntry)) → move_buckets n bs new ≡ move_bucket n (entries bs) new
unfolding move_buckets move_bucket
move_buckets-entries n [] new = refl
move_buckets-entries n (b ∷ bs) new =
    move_buckets-entries n bs (move_bucket n b new) ∙ sym (move_bucket-append n b (entries bs) new)

-- A table without entries.
pub bucket-replicate : (n h : ℕ) → bucket (replicate n []) h ≡ []
bucket-replicate zero h = refl
bucket-replicate (suc n) zero = refl
bucket-replicate (suc n) (suc h) = bucket-replicate n h

pub total-replicate : (n : ℕ) → total (replicate n []) ≡ 0
total-replicate zero = refl
total-replicate (suc n) = omega (arith, total-replicate n)

pub IsTable-replicate : (n : ℕ) → IsTable n (replicate n [])
IsTable-replicate n = record {
  same = length-replicate n [];
  placed = λ h. rw (bucket-replicate n h) tt;
  distinct = λ h. rw (bucket-replicate n h) tt;
}

IsTail-all : {n : ℕ} {table : List (List MapEntry)} → IsTable n table → IsTail n 0 table
IsTail-all {n} {table} t = record { placed = λ i. rw (first i) (t.placed i); distinct = t.distinct }
  where
    first : (i : ℕ) → 0 + i ≡ i
    first i = omega arith

-- The table that `resize` makes has the entries of the old one under their keys.
pub move_buckets_lem :
    (m n : ℕ) (table : List (List MapEntry))
    → IsTablelen n
    → IsTable m table
    → IsTable n (move_buckets n table (replicate n []))
      × ((k : ℕ) → find_in (move_buckets n table (replicate n [])) n k ≡ find_in table m k)
      × (total (move_buckets n table (replicate n [])) ≡ total table)
move_buckets_lem m n table v t =
    let none_there : (k : ℕ) → find_in (replicate n []) n k ≡ none =
      λ k. ap (λ b. lookup b k) (bucket-replicate n (hash k n)) in
    let tail = IsTail-all t in
    let r =
      move_bucket-Moved n (entries table) (replicate n []) v (IsTable-replicate n)
        (Distinct-entries m 0 table tail) (λ k f e. none_there k) in
    rw (move_buckets-entries n table (replicate n [])) (
      r.ordered,
      (λ k.
          r.found k
          ∙ ap (or_else (lookup (entries table) k)) (none_there k)
          ∙ or_else-none (lookup (entries table) k)
          ∙ lookup-entries m 0 table k (hash k m) tail (omega arith)),
      omega (arith, r.count, total-replicate n, length-entries table),
    )
