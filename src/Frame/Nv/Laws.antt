-- ===== src/Frame/Nv/Laws.antt =====
-- The order of header pairs and the check of SETTINGS entries in lib/nghttp2_frame.c.
use newhttp.Common.{
  ℕ, ◌^◌, ◌≤◌, ◌<◌, ◌≡◌, refl, ◌↔◌, true, List, [], ◌∷◌, length, Bool-cases, inl, inr, ltb, ◌==◌,
  arith, All,
}
use Prim.Native.Nat.{compare, Ordering}
use newhttp.Frame.Types.{Nv, SettingsEntry}
use newhttp.Frame.SettingsId
use newhttp.Frame.Nv.{memcmp, or_else, bytes_compar, nv_compar, nv_equal, entry_ok, iv_check}

-- The lexicographic order, in which a proper prefix comes first.
abbrev pub lex : List ℕ → List ℕ → Ordering
lex [] [] = Ordering.eq
lex [] (y ∷ b) = Ordering.lt
lex (x ∷ a) [] = Ordering.gt
lex (x ∷ a) (y ∷ b) = or_else (compare x y) (lex a b)

memcmp-lex : (a b : List ℕ) → length a ≡ length b → memcmp a b (length a) ≡ lex a b
unfolding memcmp
memcmp-lex [] [] h = refl
memcmp-lex [] (y ∷ b) h = absurd (omega arith)
memcmp-lex (x ∷ a) [] h = absurd (omega arith)
memcmp-lex (x ∷ a) (y ∷ b) h = ground (arith, memcmp-lex a b (omega arith))

memcmp-lex_prefix :
    (a b : List ℕ) → length a < length b → or_else (memcmp a b (length a)) Ordering.lt ≡ lex a b
unfolding memcmp
memcmp-lex_prefix [] [] h = absurd (omega arith)
memcmp-lex_prefix [] (y ∷ b) h = refl
memcmp-lex_prefix (x ∷ a) [] h = absurd (omega arith)
memcmp-lex_prefix (x ∷ a) (y ∷ b) h = ground (arith, memcmp-lex_prefix a b (omega arith))

memcmp-lex_longer :
    (a b : List ℕ) → length b < length a → or_else (memcmp a b (length b)) Ordering.gt ≡ lex a b
unfolding memcmp
memcmp-lex_longer [] [] h = absurd (omega arith)
memcmp-lex_longer [] (y ∷ b) h = absurd (omega arith)
memcmp-lex_longer (x ∷ a) [] h = refl
memcmp-lex_longer (x ∷ a) (y ∷ b) h = ground (arith, memcmp-lex_longer a b (omega arith))

-- `bytes_compar` is the lexicographic order on byte strings, in which a proper prefix comes first.
pub bytes_compar-lex : (a b : List ℕ) → bytes_compar a b ≡ lex a b
unfolding bytes_compar
bytes_compar-lex a b = elim (Bool-cases (length a == length b)) [
  | inl e ↦ rw e (memcmp-lex a b (ground arith))
  | inr e ↦ elim (Bool-cases (ltb (length a) (length b))) [
    | inl l ↦ rw (e, l) (memcmp-lex_prefix a b (ground arith))
    | inr l ↦ rw (e, l) (memcmp-lex_longer a b (ground arith))
  ]
]

abbrev pub flip : Ordering → Ordering
flip Ordering.lt = Ordering.gt
flip Ordering.eq = Ordering.eq
flip Ordering.gt = Ordering.lt

lex_eq : (a b : List ℕ) → lex a b ≡ Ordering.eq → a ≡ b
lex_eq [] [] h = refl
lex_eq [] (y ∷ b) h = ground arith
lex_eq (x ∷ a) [] h = ground arith
lex_eq (x ∷ a) (y ∷ b) h = ground (arith, lex_eq a b)

lex_refl : (a : List ℕ) → lex a a ≡ Ordering.eq
lex_refl [] = refl
lex_refl (x ∷ a) = ground (arith, lex_refl a)

lex_trans : (a b c : List ℕ) → lex a b ≡ Ordering.lt → lex b c ≡ Ordering.lt → lex a c ≡ Ordering.lt
lex_trans [] [] c h k = ground arith
lex_trans [] (y ∷ b) [] h k = ground arith
lex_trans [] (y ∷ b) (z ∷ c) h k = refl
lex_trans (x ∷ a) [] c h k = ground arith
lex_trans (x ∷ a) (y ∷ b) [] h k = ground arith
lex_trans (x ∷ a) (y ∷ b) (z ∷ c) h k = ground (arith, lex_trans a b c)

lex_total : (a b : List ℕ) → lex b a ≡ flip (lex a b)
lex_total [] [] = refl
lex_total [] (y ∷ b) = refl
lex_total (x ∷ a) [] = refl
lex_total (x ∷ a) (y ∷ b) = ground (arith, lex_total a b)

-- The order of pairs: by name, and by value where the names are equal.
abbrev pub pair_lex : Nv → Nv → Ordering
pair_lex a b = or_else (lex a.name b.name) (lex a.value b.value)

nv_compar-pair_lex : (a b : Nv) → nv_compar a b ≡ pair_lex a b
unfolding nv_compar
nv_compar-pair_lex a b = rw (bytes_compar-lex a.name b.name, bytes_compar-lex a.value b.value)

pair_lex_trans :
    (a b c : Nv)
    → pair_lex a b ≡ Ordering.lt
    → pair_lex b c ≡ Ordering.lt
    → pair_lex a c ≡ Ordering.lt
pair_lex_trans a b c h k = ground (
  arith,
  lex_eq a.name b.name,
  lex_eq b.name c.name,
  lex_refl a.name,
  lex_trans a.name b.name c.name,
  lex_trans a.value b.value c.value,
)

-- The comparison that sorts a header block is transitive on pairs of which each is below the next.
pub nv_compar_trans :
    (a b c : Nv)
    → nv_compar a b ≡ Ordering.lt
    → nv_compar b c ≡ Ordering.lt
    → nv_compar a c ≡ Ordering.lt
nv_compar_trans a b c =
    rw (nv_compar-pair_lex a b, nv_compar-pair_lex b c, nv_compar-pair_lex a c)
      (pair_lex_trans a b c)

-- The comparison that sorts a header block is total: the two directions are opposite, and two pairs
-- compare as equal exactly if their names and their values are equal.
pub nv_compar_total :
    (a b : Nv)
    → (nv_compar b a ≡ flip (nv_compar a b))
      × ((nv_compar a b ≡ Ordering.eq) ↔ (a.name ≡ b.name) × (a.value ≡ b.value))
nv_compar_total a b =
    rw (nv_compar-pair_lex a b, nv_compar-pair_lex b a)
      (
        ground (arith, lex_total a.name b.name, lex_total a.value b.value),
        (
          λ h. ground (arith, lex_eq a.name b.name, lex_eq a.value b.value),
          λ h. rw (h.0, h.1, lex_refl b.name, lex_refl b.value),
        ),
      )

-- What the values of the known SETTINGS identifiers may be (RFC 7540, section 6.5.2).
abbrev pub InRange : SettingsEntry → Type 0
InRange e =
    (e.settings_id ≡ SettingsId.enable_push → e.value ≤ 1)
    × (e.settings_id ≡ SettingsId.initial_window_size → e.value < 2 ^ 31)
    × (e.settings_id ≡ SettingsId.max_frame_size → (2 ^ 14 ≤ e.value) × (e.value < 2 ^ 24))

entry_ok_iff : (e : SettingsEntry) → (entry_ok e ≡ true) ↔ InRange e
unfolding entry_ok
entry_ok_iff e = ground arith

-- `nghttp2_iv_check` accepts exactly the entries whose values are in range.
pub iv_check_iff : (iv : List SettingsEntry) → (iv_check iv ≡ true) ↔ All InRange iv
unfolding iv_check
iv_check_iff [] = (λ h. tt, λ h. refl)
iv_check_iff (e ∷ iv) =
    let (sound, complete) = iv_check_iff iv in
    let (sound1, complete1) = entry_ok_iff e in
    elim (Bool-cases (entry_ok e)) [
      | inl y ↦ rw y (λ h. (sound1 y, sound h), λ h. complete h.1)
      | inr n ↦ rw n (λ h. cc, λ h. cc (complete1 h.0))
    ]

-- `nghttp2_nv_equal` answers yes exactly for pairs with equal names and equal values.
pub nv_equal_iff : (a b : Nv) → (nv_equal a b ≡ true) ↔ (a.name ≡ b.name) × (a.value ≡ b.value)
unfolding nv_equal
nv_equal_iff a b = (
  λ h. (
    lex_eq a.name b.name (ground (arith, memcmp-lex a.name b.name)),
    lex_eq a.value b.value (ground (arith, memcmp-lex a.value b.value)),
  ),
  λ h.
      rw
        (
          h.0,
          h.1,
          memcmp-lex b.name b.name refl,
          memcmp-lex b.value b.value refl,
          lex_refl b.name,
          lex_refl b.value,
        )
        (ground arith),
)
