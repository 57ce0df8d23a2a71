-- ===== src/Map/Remove.antt =====
-- `nghttp2_map_remove`: the entry leaves its bucket, and the others stay.
use newhttp.Common.{
  ℕ, suc, ◌+◌, ◌-◌, ◌^◌, ◌%◌, ◌<◌, ◌≡◌, ◌≢◌, refl, ap, sym, ◌∙◌, arith, false, List, [], ◌∷◌, none,
  some, set, length, get_or-set, get_or-set_other, length-set, ◌==◌, if◌then◌else◌, ◌⊎◌, inl, inr,
  Bool-cases, Option-cases, ==_iff, All,
}
use newhttp.Errors.{Error, ok, err}
use newhttp.Map.{Map, MapEntry, hash, bucket, lookup, unlink, map_remove, map_find}
use newhttp.Map.Hash.{hash-lt, IsTablelen-small}
use newhttp.Map.Find.{Distinct, total, total-set, IsTable}
use newhttp.Map.Laws.{IsMap}

lookup-unlink :
    (b : List MapEntry) (k j : ℕ)
    → Distinct b
    → lookup (unlink b k) j ≡ (if k == j then none else lookup b j)
lookup-unlink [] k j d = elim (Bool-cases (k == j)) [ inl y ↦ rw y refl | inr z ↦ rw z refl ]
lookup-unlink (e ∷ es) k j (new, d) = elim (Bool-cases (e.key == k)) [
  | inl y ↦
      let own : k ≡ e.key = sym ((==_iff _ _).0 y) in
      rw (own, (==_iff e.key e.key).1 refl)
        (elim (Bool-cases (e.key == j)) [
          | inl y' ↦ rw y' (sym (ap (lookup es) ((==_iff _ _).0 y')) ∙ new)
          | inr z' ↦ rw z' refl
        ])
  | inr z ↦ elim (Bool-cases (e.key == j)) [
    | inl y' ↦ let d' : (k == j) ≡ false = ground arith in rw (z, d') (rw y' refl)
    | inr z' ↦ rw (z, z') (lookup-unlink es k j d)
  ]
]

unlinked :
    (es : List MapEntry) (k j : ℕ)
    → lookup es j ≡ none
    → (if k == j then none else lookup es j) ≡ none
unlinked es k j new = elim (Bool-cases (k == j)) [ inl y ↦ rw y refl | inr z ↦ rw z new ]

Distinct-unlink : (b : List MapEntry) (k : ℕ) → Distinct b → Distinct (unlink b k)
Distinct-unlink [] k d = d
Distinct-unlink (e ∷ es) k (new, d) = elim (Bool-cases (e.key == k)) [
  | inl y ↦ rw y d
  | inr z ↦ rw z (lookup-unlink es k e.key d ∙ unlinked es k e.key new, Distinct-unlink es k d)
]

placed-unlink :
    (n h : ℕ) (b : List MapEntry) (k : ℕ)
    → All (λ (e : MapEntry). hash e.key n ≡ h) b
    → All (λ (e : MapEntry). hash e.key n ≡ h) (unlink b k)
placed-unlink n h [] k a = a
placed-unlink n h (e ∷ es) k (p, a) = elim (Bool-cases (e.key == k)) [
  | inl y ↦ rw y a
  | inr z ↦ rw z (p, placed-unlink n h es k a)
]

length-unlink :
    (b : List MapEntry) (k : ℕ) (f : MapEntry)
    → lookup b k ≡ some f
    → suc (length (unlink b k)) ≡ length b
length-unlink [] k f m = absurd (cc m)
length-unlink (e ∷ es) k f m = elim (Bool-cases (e.key == k)) [
  | inl y ↦ rw y refl
  | inr z ↦
      let later : lookup (e ∷ es) k ≡ lookup es k = rw z refl in
      let m' : lookup es k ≡ some f = sym later ∙ m in rw z (ap suc (length-unlink es k f m'))
]

-- The map without the key.
pub record Removed (k : ℕ) (map map' : Map) : Type 0 where
  pub valid : IsMap map'
  pub found : (j : ℕ) → map_find map' j ≡ (if k == j then none else map_find map j)
  pub fewer : suc map'.size ≡ map.size

module _ (map : Map) (k : ℕ) (v : IsMap map) where
  abbrev place : ℕ
  place = hash k map.tablelen

  abbrev rest : List MapEntry
  rest = unlink (bucket map.table place) k

  abbrev without : List (List MapEntry)
  without = set map.table place rest

  inside : place < length map.table
  inside = omega (arith, hash-lt k map.tablelen v.wide, v.table.same)

  bucket-without_same : bucket without place ≡ rest
  bucket-without_same = get_or-set map.table place rest [] inside

  bucket-without_other : (h : ℕ) → place ≢ h → bucket without h ≡ bucket map.table h
  bucket-without_other h d = get_or-set_other map.table place h rest [] d

  IsTable-without : IsTable map.tablelen without
  IsTable-without = record {
    same = length-set map.table place rest ∙ v.table.same;
    placed = λ h. elim (Bool-cases (place == h)) [
      | inl y ↦ rw (← (==_iff _ _).0 y) (
          rw bucket-without_same
            (placed-unlink map.tablelen place (bucket map.table place) k (v.table.placed place)))
      | inr z ↦ rw (bucket-without_other h λ q. cc (z, (==_iff _ _).1 q)) (v.table.placed h)
    ];
    distinct = λ h. elim (Bool-cases (place == h)) [
      | inl y ↦ rw (← (==_iff _ _).0 y) (
          rw bucket-without_same
            (Distinct-unlink (bucket map.table place) k (v.table.distinct place)))
      | inr z ↦ rw (bucket-without_other h λ q. cc (z, (==_iff _ _).1 q)) (v.table.distinct h)
    ];
  }

  find-without :
      (j : ℕ)
      → lookup (bucket without (hash j map.tablelen)) j
        ≡ (if k == j then none else lookup (bucket map.table (hash j map.tablelen)) j)
  find-without j = elim (Bool-cases (hash j map.tablelen == place)) [
    | inl y ↦
        let h : hash j map.tablelen ≡ place = (==_iff _ _).0 y in
        rw h (
          ap (λ b. lookup b j) bucket-without_same
          ∙ lookup-unlink (bucket map.table place) k j (v.table.distinct place))
    | inr z ↦
        let d : place ≢ hash j map.tablelen = λ q. cc (z, (==_iff _ _).1 (sym q)) in
        let other : (k == j) ≡ false = elim (Bool-cases (k == j)) [
          | inl y ↦ absurd (d (ap (λ x. hash x map.tablelen) ((==_iff _ _).0 y)))
          | inr z' ↦ z'
        ] in
        rw other (ap (λ b. lookup b j) (bucket-without_other (hash j map.tablelen) d))
  ]

-- `nghttp2_map_remove` takes the entry of a key that the map holds out of it, and leaves the others;
-- for another key it gives `NGHTTP2_ERR_INVALID_ARGUMENT`.
pub map_remove_lem :
    (map : Map) (k : ℕ)
    → IsMap map
    → ((map_find map k ≡ none) × (map_remove map k ≡ err Error.invalid_argument))
      ⊎ ((map' : Map) × (map_remove map k ≡ ok map') × Removed k map map')
unfolding map_remove map_find
map_remove_lem map k v = elim (Option-cases (lookup (bucket map.table (place map k v)) k)) [
  | inl gone ↦ rw (map_remove, gone) (inl (refl, refl))
  | inr (f, m) ↦
      let b = bucket map.table (place map k v) in
      let count = total-set map.table (place map k v) (rest map k v) (inside map k v) in
      let one = length-unlink b k f m in
      let less : suc (total (without map k v)) ≡ map.size = omega (arith, v.count) in
      let size : (map.size + 2 ^ 64 - 1) % 2 ^ 64 ≡ map.size - 1 =
        omega (arith, v.loaded, IsTablelen-small v.wide) in
      rw (map_remove, m, size)
        (inr (
          _,
          refl,
          record {
            valid = record {
              wide = v.wide;
              several = v.several;
              table = IsTable-without map k v;
              count = omega arith;
              loaded = omega (arith, v.loaded);
            };
            found = find-without map k v;
            fewer = omega arith;
          },
        ))
]
