-- ===== src/Hd/Huffman/Tree.antt =====
-- The codes of lib/nghttp2_hd_huffman_data.c as a tree: no code is the start of another one, nor
-- of the bits that a state of the decoder stands for.
use newhttp.Common.{
  ℕ, suc, ◌<◌, ◌≤◌, ◌≡◌, ◌≢◌, refl, sym, ap, ◌∙◌, Bool, true, false, not, ◌&&◌, List, [], ◌∷◌, ◌++◌,
  ◌==◌, ==_iff, arith, Option, none, some, leb, leb→le, length,
}
use newhttp.Common.Table.{holds_below, holds_below_at}
use newhttp.Hd.Huffman.Types.{HuffSym}
use newhttp.Hd.Huffman.SymTable.{huff_sym_table}
use newhttp.Hd.Huffman.Bits.{bits, code_of}
use newhttp.Hd.Huffman.Rows.{path_of, all_ones, &&-true}

data CodeTree : Type 0 where
  bare : CodeTree
  leaf : ℕ → CodeTree
  node : CodeTree → CodeTree → CodeTree

-- The tree with a code in it.
grow : List Bool → ℕ → CodeTree → CodeTree
grow [] n t = leaf n
grow (false ∷ bs) n bare = node (grow bs n bare) bare
grow (true ∷ bs) n bare = node bare (grow bs n bare)
grow (b ∷ bs) n (leaf m) = leaf m
grow (false ∷ bs) n (node l r) = node (grow bs n l) r
grow (true ∷ bs) n (node l r) = node l (grow bs n r)

-- All rows but the last one, whose symbol is no byte.
plant : ℕ → List HuffSym → CodeTree
unfolding grow bits
plant n [] = bare
plant n (row ∷ []) = bare
plant n (row ∷ next ∷ rows) = grow (bits row.nbits row.code) n (plant (suc n) (next ∷ rows))

code_tree : CodeTree
unfolding plant huff_sym_table
code_tree = plant 0 huff_sym_table

-- The first symbol of some bits, and the bits behind it.
walk : CodeTree → List Bool → Option (ℕ × List Bool)
walk bare bs = none
walk (leaf n) bs = some (n, bs)
walk (node l r) [] = none
walk (node l r) (false ∷ bs) = walk l bs
walk (node l r) (true ∷ bs) = walk r bs

walk-append :
    (t : CodeTree) (bs rest : List Bool) {n : ℕ} {u : List Bool}
    → walk t bs ≡ some (n, u)
    → walk t (bs ++ rest) ≡ some (n, u ++ rest)
unfolding walk
walk-append bare bs rest h = cc
walk-append (leaf m) bs rest h = cc h
walk-append (node l r) [] rest h = cc
walk-append (node l r) (false ∷ bs) rest h = walk-append l bs rest h
walk-append (node l r) (true ∷ bs) rest h = walk-append r bs rest h

is_leaf_of : ℕ → Option (ℕ × List Bool) → Bool
is_leaf_of n none = false
is_leaf_of n (some (m, [])) = m == n
is_leaf_of n (some (m, b ∷ bs)) = false

is_leaf_of-eq : (n : ℕ) (o : Option (ℕ × List Bool)) → is_leaf_of n o ≡ true → o ≡ some (n, [])
unfolding is_leaf_of
is_leaf_of-eq n none h = cc
is_leaf_of-eq n (some (m, [])) h = ap (λ k. some (k, [])) ((==_iff m n).0 h)
is_leaf_of-eq n (some (m, b ∷ bs)) h = cc

is_none : Option (ℕ × List Bool) → Bool
is_none none = true
is_none (some x) = false

codes_fit :
    holds_below
      (λ n.
        is_leaf_of n (walk code_tree (code_of n))
        && (not (all_ones (code_of n)) && leb (length (code_of n)) 30))
      256
    ≡ true
unfolding holds_below is_leaf_of walk code_tree code_of all_ones
codes_fit = refl

paths_fit : holds_below (λ n. is_none (walk code_tree (path_of n))) 256 ≡ true
unfolding holds_below is_none walk code_tree path_of
paths_fit = refl

all_ones-append : (p q : List Bool) → all_ones p ≡ false → all_ones (p ++ q) ≡ false
unfolding all_ones
all_ones-append [] q h = cc
all_ones-append (true ∷ p) q h = all_ones-append p q h
all_ones-append (false ∷ p) q h = refl

module _ (n : ℕ) (small : n < 256) where
  code_facts :
      (is_leaf_of n (walk code_tree (code_of n)) ≡ true)
      × (all_ones (code_of n) ≡ false)
      × (length (code_of n) ≤ 30)
  code_facts =
      let h = holds_below_at _ 256 n small codes_fit in
      let (a, b) = &&-true (is_leaf_of n (walk code_tree (code_of n))) _ h in
      let (c, d) = &&-true (not (all_ones (code_of n))) _ b in (a, ground arith, leb→le _ _ d)

  walk-code_of : (rest : List Bool) → walk code_tree (code_of n ++ rest) ≡ some (n, rest)
  walk-code_of rest = walk-append code_tree (code_of n) rest (is_leaf_of-eq n _ code_facts.0)

  -- No code is the start of the bits of a state.
  pub path-ne-code :
      (state : ℕ) (rest : List Bool) → state < 256 → path_of state ≢ code_of n ++ rest
  unfolding is_none
  path-ne-code state rest s e =
      let none_there = holds_below_at _ 256 state s paths_fit in
      cc (rw (e, walk-code_of rest) at none_there)

  -- No code is all ones.
  pub all_ones-code_of : (rest : List Bool) → all_ones (code_of n ++ rest) ≡ false
  all_ones-code_of rest = all_ones-append (code_of n) rest code_facts.1

  -- No code is longer than 30 bits.
  pub length-code_of : length (code_of n) ≤ 30
  length-code_of = code_facts.2

-- A string of bits starts with one code at most.
pub code_of_unique :
    (n m : ℕ) (u v : List Bool)
    → n < 256
    → m < 256
    → code_of n ++ u ≡ code_of m ++ v
    → (n ≡ m) × (u ≡ v)
code_of_unique n m u v p q e =
    let h : some (n, u) ≡ some (m, v) =
      sym (walk-code_of n p u) ∙ ap (walk code_tree) e ∙ walk-code_of m q v in
    (cc h, cc h)
