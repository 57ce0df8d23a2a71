-- ===== src/Hd/Huffman/Types.antt =====
-- lib/nghttp2_hd_huffman.h: the rows of the two tables.
use newhttp.Common.{ℕ, List, [], ◌∷◌}

-- `nghttp2_huff_sym`: the number of bits of a code and the code, aligned to the right.
pub record HuffSym : Type 0 where
  pub nbits : ℕ
  pub code : ℕ

-- `nghttp2_huff_decode`: the next state, the flags and the symbol that is emitted.
pub record HuffDecode : Type 0 where
  pub state : ℕ
  pub flags : ℕ
  pub sym : ℕ

abbrev pub s : ℕ → ℕ → HuffSym
s nbits code = record { nbits = nbits; code = code }

-- Four rows, each with its two fields in the order of the structure.
abbrev pub four : (n0 c0 n1 c1 n2 c2 n3 c3 : ℕ) → List HuffSym
four n0 c0 n1 c1 n2 c2 n3 c3 = s n0 c0 ∷ s n1 c1 ∷ s n2 c2 ∷ s n3 c3 ∷ []

abbrev pub d : ℕ → ℕ → ℕ → HuffDecode
d state flags sym = record { state = state; flags = flags; sym = sym }

-- Eight rows, each with its three fields in the order of the structure.
abbrev pub eight :
    (t0 f0 c0 t1 f1 c1 t2 f2 c2 t3 f3 c3 t4 f4 c4 t5 f5 c5 t6 f6 c6 t7 f7 c7 : ℕ) → List HuffDecode
eight t0 f0 c0 t1 f1 c1 t2 f2 c2 t3 f3 c3 t4 f4 c4 t5 f5 c5 t6 f6 c6 t7 f7 c7 =
    d t0 f0 c0
    ∷ d t1 f1 c1
    ∷ d t2 f2 c2
    ∷ d t3 f3 c3
    ∷ d t4 f4 c4
    ∷ d t5 f5 c5
    ∷ d t6 f6 c6
    ∷ d t7 f7 c7
    ∷ []
