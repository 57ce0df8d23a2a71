-- ===== src/Map/Find.antt =====
-- What a table holds under a key, and how it changes with an insertion.
use newhttp.Common.{
  ℕ, zero, suc, ◌+◌, ◌<◌, ◌≡◌, ◌≢◌, refl, ap, sym, ◌∙◌, arith, false, List, [], ◌∷◌, Option, none,
  some, set, length, ◌==◌, if◌then◌else◌, inl, inr, Bool-cases, ==_iff, All, get_or-set,
  get_or-set_other, length-set,
}
use newhttp.Errors.{Error, ok, err}
use newhttp.Map.{MapEntry, hash, bucket, lookup, insert_at, insert}
use newhttp.Map.Hash.{IsTablelen, hash-lt}

-- The bucket of the key is searched.
abbrev pub find_in : List (List MapEntry) → ℕ → ℕ → Option MapEntry
find_in table n k = lookup (bucket table (hash k n)) k

-- The entry, if it has the key, behind what is found before it.
abbrev pub or_else : Option MapEntry → Option MapEntry → Option MapEntry
or_else (some e) o = some e
or_else none o = o

abbrev pub Distinct : List MapEntry → Type 0
Distinct [] = Unit
Distinct (e ∷ es) = (lookup es e.key ≡ none) × Distinct es

-- The number of entries.
abbrev pub total : List (List MapEntry) → ℕ
total [] = 0
total (b ∷ bs) = length b + total bs

-- A table of `n` buckets, each with distinct keys, in which every entry stands in the bucket of
-- its key.
pub record IsTable (n : ℕ) (table : List (List MapEntry)) : Type 0 where
  pub same : length table ≡ n
  pub placed : (h : ℕ) → All (λ (e : MapEntry). hash e.key n ≡ h) (bucket table h)
  pub distinct : (h : ℕ) → Distinct (bucket table h)

pub total-set :
    (table : List (List MapEntry)) (h : ℕ) (b : List MapEntry)
    → h < length table
    → total (set table h b) + length (bucket table h) ≡ total table + length b
total-set [] h b p = absurd (omega arith)
total-set (c ∷ cs) zero b p = omega arith
total-set (c ∷ cs) (suc h) b p = omega (arith, total-set cs h b (omega arith))

insert_at_new :
    (table : List (List MapEntry)) (h : ℕ) (e : MapEntry) (b : List MapEntry)
    → lookup b e.key ≡ none
    → insert_at table h e b ≡ ok (set table h (e ∷ b))
unfolding insert_at
insert_at_new table h e [] m = refl
insert_at_new table h e (p ∷ ps) m = rw (insert_at, m) refl

insert_at_duplicate :
    (table : List (List MapEntry)) (h : ℕ) (e f : MapEntry) (b : List MapEntry)
    → lookup b e.key ≡ some f
    → insert_at table h e b ≡ err Error.invalid_argument
unfolding insert_at
insert_at_duplicate table h e f [] m = absurd (cc m)
insert_at_duplicate table h e f (p ∷ ps) m = rw (insert_at, m) refl

-- `insert` of an entry whose key the table does not hold.
pub insert_new :
    (table : List (List MapEntry)) (n : ℕ) (e : MapEntry)
    → find_in table n e.key ≡ none
    → insert table n e ≡ ok (set table (hash e.key n) (e ∷ bucket table (hash e.key n)))
unfolding insert
insert_new table n e m = insert_at_new table (hash e.key n) e (bucket table (hash e.key n)) m

pub insert_duplicate :
    (table : List (List MapEntry)) (n : ℕ) (e f : MapEntry)
    → find_in table n e.key ≡ some f
    → insert table n e ≡ err Error.invalid_argument
unfolding insert
insert_duplicate table n e f m =
    insert_at_duplicate table (hash e.key n) e f (bucket table (hash e.key n)) m

module _ (table : List (List MapEntry)) (n : ℕ) (e : MapEntry) (v : IsTablelen n)
    (t : IsTable n table) where
  abbrev pub added : List (List MapEntry)
  added = set table (hash e.key n) (e ∷ bucket table (hash e.key n))

  inside : hash e.key n < length table
  inside = omega (arith, hash-lt e.key n v, t.same)

  pub bucket-added_same : bucket added (hash e.key n) ≡ e ∷ bucket table (hash e.key n)
  bucket-added_same = get_or-set table (hash e.key n) _ [] inside

  pub bucket-added_other : (h : ℕ) → hash e.key n ≢ h → bucket added h ≡ bucket table h
  bucket-added_other h d = get_or-set_other table (hash e.key n) h _ [] d

  pub find_in-added :
      (k : ℕ) → find_in added n k ≡ (if e.key == k then some e else find_in table n k)
  find_in-added k = elim (Bool-cases (hash k n == hash e.key n)) [
    | inl y ↦
        let h : hash k n ≡ hash e.key n = (==_iff _ _).0 y in
        rw h (ap (λ b. lookup b k) bucket-added_same)
    | inr z ↦
        let d : hash e.key n ≢ hash k n = λ h. cc (z, (==_iff _ _).1 (sym h)) in
        let f : (e.key == k) ≡ false = elim (Bool-cases (e.key == k)) [
          | inl y ↦ absurd (d (ap (λ x. hash x n) ((==_iff _ _).0 y)))
          | inr z ↦ z
        ] in
        rw f (ap (λ b. lookup b k) (bucket-added_other (hash k n) d))
  ]

  pub total-added : total added ≡ suc (total table)
  total-added =
      omega (arith, total-set table (hash e.key n) (e ∷ bucket table (hash e.key n)) inside)

  pub IsTable-added : find_in table n e.key ≡ none → IsTable n added
  IsTable-added new = record {
    same = length-set table (hash e.key n) _ ∙ t.same;
    placed = λ h. elim (Bool-cases (hash e.key n == h)) [
      | inl y ↦ rw (← (==_iff _ _).0 y) (rw bucket-added_same (refl, t.placed (hash e.key n)))
      | inr z ↦ rw (bucket-added_other h λ q. cc (z, (==_iff _ _).1 q)) (t.placed h)
    ];
    distinct = λ h. elim (Bool-cases (hash e.key n == h)) [
      | inl y ↦ rw (← (==_iff _ _).0 y) (rw bucket-added_same (new, t.distinct (hash e.key n)))
      | inr z ↦ rw (bucket-added_other h λ q. cc (z, (==_iff _ _).1 q)) (t.distinct h)
    ];
  }
