-- ===== src/Http/Block/Laws.antt =====
-- What an accepted header block of a request looks like.
use newhttp.Common.{
  ℕ, ◌+◌, ◌≡◌, refl, Bool, true, false, ◌&&◌, ◌||◌, not, List, [], ◌∷◌, some, arith, ◌==◌,
  if◌then◌else◌, Option-cases, ==_iff, ◌∙◌, ap, ◌<◌, leb, inl, inr, get_or, ◌⊎◌,
}
use newhttp.Frame.Types.{Nv}
use newhttp.Hd.Token
use newhttp.Hd.Lookup.{lookup_token}
use newhttp.Hd.Lookup.Laws.{names_of, listed, lookup_token_iff}
use newhttp.Hd.StaticTable.{static_table}
use newhttp.Common.Text.{bytes_eq→eq}
use newhttp.Http.{flag_bit, HttpFlag, HttpStream, set_flag}
use newhttp.Http.OnHeader.{is_token, is_pseudo}
use newhttp.Http.OnHeader.Laws.{Accepted, marks}

-- How many fields set the flag `f`.
abbrev pub count : HttpFlag → List Nv → ℕ
count f [] = 0
count f (nv ∷ fields) = (if marks (lookup_token nv.name) f then 1 else 0) + count f fields

-- From a regular field on no field is a pseudo header field.
abbrev pub PseudoFirst : Bool → List Nv → Type 0
PseudoFirst late [] = Unit
PseudoFirst late (nv ∷ fields) =
    (is_pseudo nv ≡ true → late ≡ false) × PseudoFirst (late || not (is_pseudo nv)) fields

abbrev pub b2n : Bool → ℕ
b2n true = 1
b2n false = 0

-- The names of the pseudo header fields begin with a colon.
colon_names : List (List ℕ × ℕ) → Bool
colon_names [] = true
colon_names ((n, k) ∷ rest) = (leb 14 k || get_or n 0 0 == b':') && colon_names rest

colon_names_table : colon_names (names_of static_table) ≡ true
unfolding colon_names names_of static_table
colon_names_table = refl

colon_of_listed :
    (name : List ℕ) (t : ℕ) (xs : List (List ℕ × ℕ))
    → colon_names xs ≡ true
    → listed name t xs ≡ true
    → t < 14
    → (get_or name 0 0 == b':') ≡ true
unfolding colon_names listed
colon_of_listed name t [] h l lt = cc
colon_of_listed name t ((n, k) ∷ xs) h l lt =
    ground (arith, bytes_eq→eq n name, colon_of_listed name t xs)

colon_of_token :
    (nv : Nv) (t : ℕ) → is_token (lookup_token nv.name) t ≡ true → t < 14 → is_pseudo nv ≡ true
colon_of_token nv t h lt = elim (Option-cases (lookup_token nv.name)) [
  | inl e ↦ cc (rw e at h)
  | inr (k, e) ↦
      let same : k ≡ t = (==_iff k t).0 (rw e at h) in
      colon_of_listed nv.name t (names_of static_table) colon_names_table
        ((lookup_token_iff nv.name t).0 (e ∙ ap some same)) lt
]

-- What one field that is not an error does.
pub record FieldStep (nv : Nv) (s s' : HttpStream) : Type 0 where
  pub counted :
      (f : HttpFlag)
      → flag_bit f < 4
      → b2n (s'.http_flags f)
        ≡ b2n (s.http_flags f) + (if marks (lookup_token nv.name) f then 1 else 0)
  pub host :
      s'.http_flags HttpFlag.host ≡ true
      → (s.http_flags HttpFlag.host ≡ true) ⊎ (marks (lookup_token nv.name) HttpFlag.host ≡ true)
  pub early : is_pseudo nv ≡ true → s.http_flags HttpFlag.pseudo_header_disallowed ≡ false
  pub closed :
      s'.http_flags HttpFlag.pseudo_header_disallowed
      ≡ (s.http_flags HttpFlag.pseudo_header_disallowed || not (is_pseudo nv))

pub Accepted-step :
    (nv : Nv) (s s' : HttpStream)
    → Accepted marks nv (lookup_token nv.name) false s s'
    → FieldStep nv s s'
Accepted-step nv s s' a = record {
  counted = elim [
    | HttpFlag.authority ↦ λ h. ground (arith, a.authority)
    | HttpFlag.method ↦ λ h. ground (arith, a.method)
    | HttpFlag.path ↦ λ h. ground (arith, a.path)
    | HttpFlag.scheme ↦ λ h. ground (arith, a.scheme)
    | f ↦ λ h. absurd (omega arith)
  ];
  host = λ h. ground (arith, a.host);
  early = λ h. (a.early h).1;
  closed = a.closed;
}

pub ignored_step :
    (nv : Nv) (s s' : HttpStream)
    → is_pseudo nv ≡ false
    → s' ≡ set_flag HttpFlag.pseudo_header_disallowed s
    → FieldStep nv s s'
ignored_step nv s s' regular e = rw e (record {
  counted = elim [
    | HttpFlag.authority ↦ λ h. ground (arith, colon_of_token nv Token.pseudo_authority)
    | HttpFlag.method ↦ λ h. ground (arith, colon_of_token nv Token.pseudo_method)
    | HttpFlag.path ↦ λ h. ground (arith, colon_of_token nv Token.pseudo_path)
    | HttpFlag.scheme ↦ λ h. ground (arith, colon_of_token nv Token.pseudo_scheme)
    | f ↦ λ h. absurd (omega arith)
  ];
  host = λ h. inl h;
  early = λ h. cc;
  closed = ground arith;
})
