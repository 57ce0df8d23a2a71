-- ===== src/Map/Entries.antt =====
-- The entries of a table in the order of the buckets.
use newhttp.Common.{
  ℕ, zero, suc, ◌+◌, ◌<◌, ◌≡◌, ◌≢◌, refl, ap, ap₂, ◌∙◌, arith, false, List, [], ◌∷◌, ◌++◌, Option,
  none, some, length, length-append, ◌==◌, inl, inr, Bool-cases, ==_iff, All,
}
use newhttp.Map.{MapEntry, hash, bucket, lookup}
use newhttp.Map.Find.{or_else, Distinct, total}

-- A key that is found behind an entry with another key.
pub not_first :
    (e : MapEntry) (es : List MapEntry) (k : ℕ) (f : MapEntry)
    → lookup es e.key ≡ none
    → lookup es k ≡ some f
    → (e.key == k) ≡ false
not_first e es k f new m = elim (Bool-cases (e.key == k)) [
  | inl y ↦ absurd (cc (new, m, ap (lookup es) ((==_iff _ _).0 y)))
  | inr z ↦ z
]

-- The entries of a table, bucket by bucket.
abbrev pub entries : List (List MapEntry) → List MapEntry
entries [] = []
entries (b ∷ bs) = b ++ entries bs

pub length-entries : (bs : List (List MapEntry)) → length (entries bs) ≡ total bs
length-entries [] = refl
length-entries (b ∷ bs) = omega (arith, length-append b (entries bs), length-entries bs)

lookup-append :
    (xs ys : List MapEntry) (k : ℕ) → lookup (xs ++ ys) k ≡ or_else (lookup xs k) (lookup ys k)
lookup-append [] ys k = refl
lookup-append (x ∷ xs) ys k = elim (Bool-cases (x.key == k)) [
  | inl y ↦ rw y refl
  | inr z ↦ rw z (lookup-append xs ys k)
]

-- The buckets from the `j`-th on.
pub record IsTail (n j : ℕ) (bs : List (List MapEntry)) : Type 0 where
  pub placed : (i : ℕ) → All (λ (e : MapEntry). hash e.key n ≡ j + i) (bucket bs i)
  pub distinct : (i : ℕ) → Distinct (bucket bs i)

IsTail-next :
    {n j : ℕ} {b : List MapEntry} {bs : List (List MapEntry)}
    → IsTail n j (b ∷ bs)
    → IsTail n (suc j) bs
IsTail-next {n} {j} {b} {bs} t = record {
  placed = λ i. rw (next j i) (t.placed (suc i));
  distinct = λ i. t.distinct (suc i);
}
  where
    next : (j i : ℕ) → suc j + i ≡ j + suc i
    next j i = omega arith

lookup_elsewhere :
    (n h k : ℕ) (es : List MapEntry)
    → All (λ (e : MapEntry). hash e.key n ≡ h) es
    → hash k n ≢ h
    → lookup es k ≡ none
lookup_elsewhere n h k [] a d = refl
lookup_elsewhere n h k (e ∷ es) (p, a) d = elim (Bool-cases (e.key == k)) [
  | inl y ↦ absurd (d (rw (← (==_iff _ _).0 y) p))
  | inr z ↦ rw z (lookup_elsewhere n h k es a d)
]

pub or_else-none : (o : Option MapEntry) → or_else o none ≡ o
or_else-none none = refl
or_else-none (some e) = refl

-- A key of an earlier bucket is not found.
lookup-entries_before :
    (n j : ℕ) (bs : List (List MapEntry)) (k : ℕ)
    → IsTail n j bs
    → hash k n < j
    → lookup (entries bs) k ≡ none
lookup-entries_before n j [] k t h = refl
lookup-entries_before n j (b ∷ bs) k t h =
    lookup-append b (entries bs) k
    ∙ ap₂ or_else (lookup_elsewhere n (j + 0) k b (t.placed 0) (omega arith))
        (lookup-entries_before n (suc j) bs k (IsTail-next t) (omega arith))

-- Among the entries from the `j`-th bucket on, a key is found in its bucket.
pub lookup-entries :
    (n j : ℕ) (bs : List (List MapEntry)) (k i : ℕ)
    → IsTail n j bs
    → hash k n ≡ j + i
    → lookup (entries bs) k ≡ lookup (bucket bs i) k
lookup-entries n j [] k i t e = refl
lookup-entries n j (b ∷ bs) k zero t e =
    lookup-append b (entries bs) k
    ∙ ap (or_else (lookup b k)) (lookup-entries_before n (suc j) bs k (IsTail-next t) (omega arith))
    ∙ or_else-none (lookup b k)
lookup-entries n j (b ∷ bs) k (suc i) t e =
    lookup-append b (entries bs) k
    ∙ ap₂ or_else (lookup_elsewhere n (j + 0) k b (t.placed 0) (omega arith))
        (lookup-entries n (suc j) bs k i (IsTail-next t) (omega arith))

Distinct-append :
    (xs ys : List MapEntry)
    → Distinct xs
    → Distinct ys
    → ((k : ℕ) (f : MapEntry) → lookup xs k ≡ some f → lookup ys k ≡ none)
    → Distinct (xs ++ ys)
Distinct-append [] ys dx dy apart = dy
Distinct-append (x ∷ xs) ys (new, dx) dy apart =
    let own : lookup (x ∷ xs) x.key ≡ some x = rw ((==_iff x.key x.key).1 refl) refl in
    (
      lookup-append xs ys x.key ∙ ap₂ or_else new (apart x.key x own),
      Distinct-append xs ys dx dy λ k f m. apart k f (rw (not_first x xs k f new m) m),
    )

pub Distinct-entries : (n j : ℕ) (bs : List (List MapEntry)) → IsTail n j bs → Distinct (entries bs)
Distinct-entries n j [] t = tt
Distinct-entries n j (b ∷ bs) t =
    Distinct-append b (entries bs) (t.distinct 0) (Distinct-entries n (suc j) bs (IsTail-next t))
      λ k f m. elim (Bool-cases (hash k n == j)) [
        | inl y ↦
            let e : hash k n ≡ j = (==_iff _ _).0 y in
            lookup-entries_before n (suc j) bs k (IsTail-next t) (omega arith)
        | inr z ↦
            let d : hash k n ≢ j + 0 = ground arith in
            absurd (cc (m, lookup_elsewhere n (j + 0) k b (t.placed 0) d))
      ]
