-- ===== src/Hd/Lookup/Laws.antt =====
-- `lookup_token` against the names that the tokens stand for.
use newhttp.Common.{
  ℕ, zero, suc, ◌-◌, ◌<◌, ◌≡◌, refl, ap, sym, ◌↔◌, Bool, true, false, ◌&&◌, List, [], ◌∷◌, ◌++◌,
  none, some, arith, length, take, get_or, ◌==◌, if◌then◌else◌, Bool-cases, inl, inr, All,
}
use newhttp.Common.Text.{codes, bytes_eq, bytes_eq→eq, bytes_eq_refl}
use newhttp.Hd.Token
use newhttp.Hd.StaticTable.{StaticEntry, static_table}
use newhttp.Hd.Lookup.{
  lstreq, Test, ByteCase, LengthCase, run_tests, run_bytes, run_lengths, switch_table, lookup_token,
}

-- The names behind the static table, for the tokens from 61 on.
abbrev pub extra_names : List (List ℕ × ℕ)
extra_names =
    (codes "te", Token.te)
    ∷ (codes "connection", Token.connection)
    ∷ (codes "keep-alive", Token.keep_alive)
    ∷ (codes "proxy-connection", Token.proxy_connection)
    ∷ (codes "upgrade", Token.upgrade)
    ∷ []

unfoldable pub names_of : List StaticEntry → List (List ℕ × ℕ)
names_of [] = extra_names
names_of (e ∷ es) = (e.name, e.token) ∷ names_of es

-- Whether a name with its token is in a list.
unfoldable pub listed : List ℕ → ℕ → List (List ℕ × ℕ) → Bool
listed name t [] = false
listed name t ((n, k) ∷ rest) = if bytes_eq n name && k == t then true else listed name t rest

-- The literal with the byte behind it, in every test of the switch.
pub tests_names : ℕ → List Test → List (List ℕ × ℕ) → List (List ℕ × ℕ)
tests_names b [] rest = rest
tests_names b (t ∷ ts) rest = (t.literal ++ (b ∷ []), t.token) ∷ tests_names b ts rest

pub bytes_names : List ByteCase → List (List ℕ × ℕ) → List (List ℕ × ℕ)
bytes_names [] rest = rest
bytes_names (c ∷ cs) rest = tests_names c.byte c.tests (bytes_names cs rest)

pub switch_names : List LengthCase → List (List ℕ × ℕ)
switch_names [] = []
switch_names (c ∷ cs) = bytes_names c.cases (switch_names cs)

abbrev all_in : List (List ℕ × ℕ) → List (List ℕ × ℕ) → Bool
all_in [] ys = true
all_in ((n, k) ∷ xs) ys = listed n k ys && all_in xs ys

switch_listed : all_in (switch_names switch_table) (names_of static_table) ≡ true
unfolding switch_names bytes_names tests_names switch_table names_of static_table listed
switch_listed = refl

-- Whether the lookup finds every name of the list.
abbrev all_found : List (List ℕ × ℕ) → Bool
all_found [] = true
all_found ((n, k) ∷ xs) = elim (lookup_token n) [ none ↦ false | some t ↦ t == k ] && all_found xs

names_found : all_found (names_of static_table) ≡ true
unfolding lookup_token names_of static_table
names_found = refl

last_byte :
    (name : List ℕ) (n : ℕ) → length name ≡ suc n → name ≡ take n name ++ (get_or name n 0 ∷ [])
last_byte [] n h = absurd (omega arith)
last_byte (x ∷ []) zero h = refl
last_byte (x ∷ y ∷ name) zero h = absurd (omega arith)
last_byte (x ∷ name) (suc n) h = ap (◌∷◌ x) (last_byte name n (omega arith))

module _ (name : List ℕ) (t : ℕ) where
  listed_skip :
      (xs ys : List (List ℕ × ℕ))
      → all_in xs ys ≡ true
      → listed name t xs ≡ true
      → listed name t ys ≡ true
  unfolding listed
  listed_skip [] ys h l = cc
  listed_skip ((n, k) ∷ xs) ys h l = ground (arith, listed_skip xs ys, bytes_eq→eq n name)

  run_tests-listed :
      (n b : ℕ) (ts : List Test) (rest : List (List ℕ × ℕ))
      → length name ≡ suc n
      → get_or name n 0 ≡ b
      → run_tests name n ts ≡ some t
      → listed name t (tests_names b ts rest) ≡ true
  unfolding run_tests tests_names listed lstreq
  run_tests-listed n b [] rest h e r = cc
  run_tests-listed n b (u ∷ ts) rest h e r =
      elim (Bool-cases (length u.literal == n && bytes_eq u.literal (take n name))) [
        | inl y ↦
            let literal : u.literal ≡ take n name =
              bytes_eq→eq u.literal (take n name) (ground arith) in
            let whole : u.literal ++ (b ∷ []) ≡ name =
              rw (literal, ← e) (sym (last_byte name n h)) in
            let token : u.token ≡ t = ground arith in rw (whole, bytes_eq_refl name) (ground arith)
        | inr y ↦ ground (arith, run_tests-listed n b ts rest h e)
      ]

  listed_tests :
      (b : ℕ) (ts : List Test) (rest : List (List ℕ × ℕ))
      → listed name t rest ≡ true
      → listed name t (tests_names b ts rest) ≡ true
  unfolding tests_names listed
  listed_tests b [] rest h = h
  listed_tests b (u ∷ ts) rest h = ground (arith, listed_tests b ts rest h)

  listed_bytes :
      (cs : List ByteCase) (rest : List (List ℕ × ℕ))
      → listed name t rest ≡ true
      → listed name t (bytes_names cs rest) ≡ true
  unfolding bytes_names
  listed_bytes [] rest h = h
  listed_bytes (c ∷ cs) rest h =
      listed_tests c.byte c.tests (bytes_names cs rest) (listed_bytes cs rest h)

  run_bytes-listed :
      (n : ℕ) (cs : List ByteCase) (rest : List (List ℕ × ℕ))
      → length name ≡ suc n
      → run_bytes name n cs ≡ some t
      → listed name t (bytes_names cs rest) ≡ true
  unfolding run_bytes bytes_names
  run_bytes-listed n [] rest h r = cc
  run_bytes-listed n (c ∷ cs) rest h r = elim (Bool-cases (get_or name n 0 == c.byte)) [
    | inl y ↦
        run_tests-listed n c.byte c.tests (bytes_names cs rest) h (ground arith) (ground arith)
    | inr y ↦
        listed_tests c.byte c.tests (bytes_names cs rest)
          (run_bytes-listed n cs rest h (ground arith))
  ]

  run_lengths-listed :
      (cs : List LengthCase)
      → All (λ c. 0 < c.size) cs
      → run_lengths name cs ≡ some t
      → listed name t (switch_names cs) ≡ true
  unfolding run_lengths switch_names
  run_lengths-listed [] p r = cc
  run_lengths-listed (c ∷ cs) p r = elim (Bool-cases (length name == c.size)) [
    | inl y ↦
        run_bytes-listed (c.size - 1) c.cases (switch_names cs) (ground (arith, p.0)) (ground arith)
    | inr y ↦ listed_bytes c.cases (switch_names cs) (run_lengths-listed cs p.1 (ground arith))
  ]

  lookup_sound : lookup_token name ≡ some t → listed name t (names_of static_table) ≡ true
  unfolding lookup_token
  lookup_sound r =
      listed_skip (switch_names switch_table) (names_of static_table) switch_listed
        (run_lengths-listed switch_table (omega arith) r)

  lookup_complete :
      (xs : List (List ℕ × ℕ))
      → all_found xs ≡ true
      → listed name t xs ≡ true
      → lookup_token name ≡ some t
  unfolding listed
  lookup_complete [] h l = cc
  lookup_complete ((n, k) ∷ xs) h l = ground (arith, lookup_complete xs, bytes_eq→eq n name)

-- The generated `switch` is exact: it answers the token `t` on exactly the names that stand with
-- `t` in the static table, or in the list of the further names that the library knows.
pub lookup_token_iff :
    (name : List ℕ) (t : ℕ)
    → (lookup_token name ≡ some t) ↔ (listed name t (names_of static_table) ≡ true)
lookup_token_iff name t =
    (lookup_sound name t, lookup_complete name t (names_of static_table) names_found)
