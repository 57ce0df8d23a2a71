-- ===== src/Hd/Huffman/Stream.antt =====
-- lib/nghttp2_hd_huffman.c: the bits of a text with a padding behind it.
use newhttp.Common.{
  ℕ, zero, suc, ◌≤◌, ◌<◌, ◌≡◌, refl, sym, ap, ◌∙◌, Bool, true, false, List, [], ◌∷◌, ◌++◌, length,
  length-take, take, arith, ltb→lt,
}
use mathlib.Core.List.{append_assoc, append-nil}
use newhttp.Hd.Huffman.Bits.{codes_of, code_of, ones}
use newhttp.Hd.Huffman.Rows.{path_of, is_padding, all_ones, &&-true}
use newhttp.Hd.Huffman.Tree.{path-ne-code, all_ones-code_of, length-code_of, code_of_unique}
use newhttp.Hd.Huffman.Sound.{Bytes}

all_ones-ones : (k : ℕ) → all_ones (ones k) ≡ true
unfolding all_ones ones
all_ones-ones zero = refl
all_ones-ones (suc k) = all_ones-ones k

pub length-ones : (k : ℕ) → length (ones k) ≡ k
unfolding ones
length-ones zero = refl
length-ones (suc k) = ap suc (length-ones k)

-- The first bits of a longer string are those of its start.
pub take-start {ℓ} :
    {A : Type ℓ} (k : ℕ) (xs ys : List A) → k ≤ length xs → take k (xs ++ ys) ≡ take k xs
take-start zero [] ys h = refl
take-start zero (x ∷ xs) ys h = refl
take-start (suc k) [] ys h = absurd (omega arith)
take-start (suc k) (x ∷ xs) ys h = ap (λ r. x ∷ r) (take-start k xs ys (omega arith))

all_ones-start :
    (k : ℕ) (c u : List Bool) → length c ≤ k → all_ones (take k (c ++ u)) ≡ true → all_ones c ≡ true
unfolding all_ones
all_ones-start k [] u h e = refl
all_ones-start zero (b ∷ c) u h e = absurd (omega arith)
all_ones-start (suc k) (true ∷ c) u h e = all_ones-start k c u (omega arith) e
all_ones-start (suc k) (false ∷ c) u h e = cc

module _ (p : List Bool) (pad : is_padding p ≡ true) where
  pub pad_parts : (all_ones p ≡ true) × (length p < 8)
  unfolding is_padding
  pad_parts = let (a, b) = &&-true _ _ pad in (a, ltb→lt _ _ b)

  -- Thirty ones do not start a code with its padding.
  pub no_ones : (xs : List ℕ) → Bytes xs → ¬ (take 30 (codes_of xs ++ p) ≡ ones 30)
  unfolding codes_of
  no_ones [] b e =
      absurd (omega (arith, ap length e, length-ones 30, length-take 30 p, pad_parts.1))
  no_ones (x ∷ xs) b e =
      let h : all_ones (take 30 (code_of x ++ (codes_of xs ++ p))) ≡ true =
        ap (λ t. all_ones (take 30 t)) (sym (append_assoc (code_of x) (codes_of xs) p))
        ∙ ap all_ones e
        ∙ all_ones-ones 30 in
      let f = all_ones-start 30 (code_of x) (codes_of xs ++ p) (length-code_of x b.0) h in
      cc (sym f ∙ ap all_ones (sym (append-nil (code_of x))) ∙ all_ones-code_of x b.0 [])

  -- The texts whose code starts with a given symbol.
  pub first_symbol :
      (y : ℕ) (rest : List Bool) (xs : List ℕ)
      → y < 256
      → Bytes xs
      → code_of y ++ rest ≡ codes_of xs ++ p
      → (ys : List ℕ) × (xs ≡ y ∷ ys) × Bytes ys × (rest ≡ codes_of ys ++ p)
  unfolding codes_of
  first_symbol y rest [] small b e =
      absurd (cc (sym (all_ones-code_of y small rest) ∙ ap all_ones e ∙ pad_parts.0))
  first_symbol y rest (x ∷ xs) small b e =
      let (same, rests) =
        code_of_unique y x rest (codes_of xs ++ p) small b.0
          (e ∙ append_assoc (code_of x) (codes_of xs) p) in
      (xs, ap (λ k. k ∷ xs) (sym same), b.1, rests)

  -- The bits of a state are a code with its padding only as a padding.
  pub at_end :
      (state : ℕ) (xs : List ℕ)
      → state < 256
      → Bytes xs
      → path_of state ≡ codes_of xs ++ p
      → (xs ≡ []) × (path_of state ≡ p)
  unfolding codes_of
  at_end state [] s b e = (refl, e)
  at_end state (x ∷ xs) s b e =
      absurd (
        path-ne-code x b.0 state (codes_of xs ++ p) s
          (e ∙ append_assoc (code_of x) (codes_of xs) p))
