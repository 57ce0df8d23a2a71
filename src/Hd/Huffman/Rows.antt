-- ===== src/Hd/Huffman/Rows.antt =====
-- The decoding table of lib/nghttp2_hd_huffman_data.c, row by row: what an entry says is what
-- the code of RFC 7541 makes of the bits of its state and the four bits behind them.
use newhttp.Common.{
  ℕ, ◌<◌, ◌≡◌, refl, Bool, true, false, not, ◌&&◌, List, [], ◌∷◌, ◌++◌, ltb, ltb→lt, if◌then◌else◌,
  get_or, length, take,
}
use newhttp.Common.Table.{holds_below, holds_below_at}
use newhttp.Hd.Huffman.{entry, has, huff_accepted, huff_sym, huff_fail}
use newhttp.Hd.Huffman.Types.{HuffDecode, s}
use newhttp.Hd.Huffman.DecodeTable.{huff_decode_table}
use newhttp.Hd.Huffman.Paths.{state_paths}
use newhttp.Hd.Huffman.Bits.{bits, code_of, same_bits, same_bits-eq, ones}

unfoldable pub path_of : ℕ → List Bool
unfolding bits state_paths
path_of state = let row = get_or state_paths state (s 0 0) in bits row.nbits row.code

unfoldable pub all_ones : List Bool → Bool
all_ones [] = true
all_ones (true ∷ xs) = all_ones xs
all_ones (false ∷ xs) = false

-- The rest of a string that may end a text: fewer than eight bits, all set.
unfoldable pub is_padding : List Bool → Bool
unfolding all_ones
is_padding p = all_ones p && ltb (length p) 8

unfoldable same_bool : Bool → Bool → Bool
same_bool true b = b
same_bool false b = not b

-- What an entry must do with the bits of its state and its nibble.
unfoldable fits : HuffDecode → List Bool → Bool
unfolding path_of same_bits code_of same_bool is_padding ones
fits t read =
    if has t huff_fail
    then same_bits (take 30 read) (ones 30)
    else ltb t.state 256
      && (same_bool (has t huff_accepted) (is_padding (path_of t.state))
          && (if has t huff_sym
              then ltb t.sym 256 && same_bits read (code_of t.sym ++ path_of t.state)
              else same_bits read (path_of t.state)))

unfoldable entry_fits : ℕ → ℕ → Bool
unfolding entry huff_decode_table path_of fits
entry_fits state nibble = fits (entry state nibble) (path_of state ++ bits 4 nibble)

entries_fit : holds_below (λ state. holds_below (entry_fits state) 16) 256 ≡ true
unfolding entry_fits holds_below
entries_fit = refl

pub &&-true : (a b : Bool) → (a && b) ≡ true → (a ≡ true) × (b ≡ true)
&&-true true b h = (refl, h)
&&-true false b h = cc

same_bool-eq : (a b : Bool) → same_bool a b ≡ true → a ≡ b
unfolding same_bool
same_bool-eq true true h = refl
same_bool-eq true false h = cc
same_bool-eq false true h = cc
same_bool-eq false false h = refl

entry_at : (state nibble : ℕ) → state < 256 → nibble < 16 → entry_fits state nibble ≡ true
entry_at state nibble s n =
    holds_below_at (entry_fits state) 16 nibble n
      (holds_below_at (λ state. holds_below (entry_fits state) 16) 256 state s entries_fit)

-- An entry that fails stands for the first thirty bits of the symbol EOS, which no text holds.
pub fails_on_ones :
    (state nibble : ℕ)
    → state < 256
    → nibble < 16
    → has (entry state nibble) huff_fail ≡ true
    → take 30 (path_of state ++ bits 4 nibble) ≡ ones 30
unfolding entry_fits fits
fails_on_ones state nibble s n fail =
    same_bits-eq (take 30 (path_of state ++ bits 4 nibble)) (ones 30)
      (rw fail at (entry_at state nibble s n))

module _ (state nibble : ℕ) (s : state < 256) (n : nibble < 16)
    (reads : has (entry state nibble) huff_fail ≡ false) where
  reads_parts :
      (ltb (entry state nibble).state 256 ≡ true)
      × (has (entry state nibble) huff_accepted ≡ is_padding (path_of (entry state nibble).state))
      × ((if has (entry state nibble) huff_sym
            then ltb (entry state nibble).sym 256
              && same_bits
                  (path_of state ++ bits 4 nibble)
                  (code_of (entry state nibble).sym ++ path_of (entry state nibble).state)
            else same_bits (path_of state ++ bits 4 nibble) (path_of (entry state nibble).state))
          ≡ true)
  unfolding entry_fits fits
  reads_parts =
      let (p, q) = &&-true _ _ (rw reads at (entry_at state nibble s n)) in
      let (a, b) = &&-true _ _ q in (p, same_bool-eq _ _ a, b)

  pub reads_state : (entry state nibble).state < 256
  reads_state = ltb→lt _ _ reads_parts.0

  -- The state accepts exactly if the bits that it stands for are a padding.
  pub reads_accept :
      has (entry state nibble) huff_accepted ≡ is_padding (path_of (entry state nibble).state)
  reads_accept = reads_parts.1

  pub reads_sym :
      has (entry state nibble) huff_sym ≡ true
      → ((entry state nibble).sym < 256)
        × (path_of state ++ bits 4 nibble
            ≡ code_of (entry state nibble).sym ++ path_of (entry state nibble).state)
  reads_sym emits =
      let (p, q) = &&-true _ _ (rw emits at (reads_parts.2)) in (ltb→lt _ _ p, same_bits-eq _ _ q)

  pub reads_quiet :
      has (entry state nibble) huff_sym ≡ false
      → path_of state ++ bits 4 nibble ≡ path_of (entry state nibble).state
  reads_quiet quiet = same_bits-eq _ _ (rw quiet at (reads_parts.2))
