-- ===== src/Hd/Huffman/Bits.antt =====
-- Strings of bits, the highest first, and the code of a string under the symbol table of
-- lib/nghttp2_hd_huffman_data.c (RFC 7541, section 5.2).
use newhttp.Common.{
  ℕ, zero, suc, ◌*◌, ◌/◌, ◌%◌, ◌^◌, ◌≡◌, refl, ap, Bool, true, false, List, [], ◌∷◌, ◌++◌, ◌==◌,
  get_or, arith, length, length-append,
}
use mathlib.Core.List.{append_assoc}
use newhttp.Hd.Huffman.Types.{s}
use newhttp.Hd.Huffman.SymTable.{huff_sym_table}

-- The low `k` bits of `v`.
unfoldable pub bits : ℕ → ℕ → List Bool
bits zero v = []
bits (suc k) v = (v / 2 ^ k % 2 == 1) ∷ bits k v

unfoldable pub byte_bits : List ℕ → List Bool
byte_bits [] = []
byte_bits (b ∷ bs) = bits 8 b ++ byte_bits bs

unfoldable pub ones : ℕ → List Bool
ones zero = []
ones (suc k) = true ∷ ones k

unfoldable pub code_of : ℕ → List Bool
unfolding bits huff_sym_table
code_of sym = let row = get_or huff_sym_table sym (s 0 0) in bits row.nbits row.code

unfoldable pub codes_of : List ℕ → List Bool
codes_of [] = []
codes_of (x ∷ xs) = code_of x ++ codes_of xs

pub codes_of-append : (xs ys : List ℕ) → codes_of (xs ++ ys) ≡ codes_of xs ++ codes_of ys
unfolding codes_of
codes_of-append [] ys = refl
codes_of-append (x ∷ xs) ys = simp (codes_of-append xs ys, append_assoc)

pub byte_bits-append : (xs ys : List ℕ) → byte_bits (xs ++ ys) ≡ byte_bits xs ++ byte_bits ys
unfolding byte_bits
byte_bits-append [] ys = refl
byte_bits-append (x ∷ xs) ys = simp (byte_bits-append xs ys, append_assoc)

unfoldable pub same_bits : List Bool → List Bool → Bool
same_bits [] [] = true
same_bits [] (y ∷ ys) = false
same_bits (x ∷ xs) [] = false
same_bits (true ∷ xs) (true ∷ ys) = same_bits xs ys
same_bits (true ∷ xs) (false ∷ ys) = false
same_bits (false ∷ xs) (true ∷ ys) = false
same_bits (false ∷ xs) (false ∷ ys) = same_bits xs ys

pub same_bits-eq : (xs ys : List Bool) → same_bits xs ys ≡ true → xs ≡ ys
unfolding same_bits
same_bits-eq [] [] h = refl
same_bits-eq [] (y ∷ ys) h = cc
same_bits-eq (x ∷ xs) [] h = cc
same_bits-eq (true ∷ xs) (true ∷ ys) h = ap (λ r. true ∷ r) (same_bits-eq xs ys h)
same_bits-eq (true ∷ xs) (false ∷ ys) h = cc
same_bits-eq (false ∷ xs) (true ∷ ys) h = cc
same_bits-eq (false ∷ xs) (false ∷ ys) h = ap (λ r. false ∷ r) (same_bits-eq xs ys h)

pub length-bits : (k v : ℕ) → length (bits k v) ≡ k
unfolding bits
length-bits zero v = refl
length-bits (suc k) v = ap suc (length-bits k v)

pub length-byte_bits : (bs : List ℕ) → length (byte_bits bs) ≡ 8 * length bs
unfolding byte_bits
length-byte_bits [] = refl
length-byte_bits (b ∷ bs) =
    omega (arith, length-append {0} (bits 8 b) (byte_bits bs), length-bits 8 b, length-byte_bits bs)
