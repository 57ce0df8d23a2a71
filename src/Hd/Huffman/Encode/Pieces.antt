-- ===== src/Hd/Huffman/Encode/Pieces.antt =====
-- lib/nghttp2_hd_huffman.c: the bytes that the encoder makes of one code, checked for every row of
-- the symbol table and every number of free bits.
use newhttp.Common.{
  ℕ, suc, ◌+◌, ◌-◌, ◌*◌, ◌/◌, ◌%◌, ◌^◌, ◌≡◌, refl, Bool, true, ◌&&◌, ◌||◌, List, [], ◌∷◌, ◌++◌,
  bit_or, ◌==◌, ltb, leb, if◌then◌else◌, length, map,
}
use newhttp.Common.Table.{holds_below}
use newhttp.Buf.Add.Copy.{low8}
use newhttp.Hd.Huffman.Types.{HuffSym}
use newhttp.Hd.Huffman.SymTable.{huff_sym_table}
use newhttp.Hd.Huffman.Bits.{bits, byte_bits, same_bits}
use newhttp.Hd.Huffman.Rows.{is_padding}
use newhttp.Hd.Huffman.Encode.{sym_row, align}

-- `add_above` of the encoder on the list of the bytes that it adds.
unfoldable pub bytes_above : ℕ → ℕ → List ℕ × ℕ → List ℕ × ℕ
bytes_above k code (bs, n) = if ltb k n then (bs ++ code / 2 ^ k ∷ [], n - 8) else (bs, n)

-- The bytes, the byte that is held, and the number of its free bits.
unfoldable pub last_out : ℕ → List ℕ × ℕ → List ℕ × ℕ × ℕ
last_out code (bs, n) = if n == 8 then (bs ++ code ∷ [], 0, 8) else (bs, code, 8 - n)

unfoldable pub tail_out : ℕ → ℕ → List ℕ × ℕ × ℕ
unfolding last_out bytes_above
tail_out n code =
    if ltb n 8
    then ([], code, 8 - n)
    else last_out code (bytes_above 8 code (bytes_above 16 code (bytes_above 24 code ([], n))))

-- A byte with `r` free bits: the free ones are zero.
unfoldable pub has_free : ℕ → ℕ → Bool
has_free r b = (b == b / 2 ^ r * 2 ^ r) && ltb (b / 2 ^ r) (2 ^ (8 - r))

unfoldable pub piece_fits : ℕ → ℕ → HuffSym → List ℕ → ℕ → ℕ → Bool
piece_fits r n row bs last r' =
    ltb (row.code / 2 ^ n) (2 ^ r)
    && (ltb 0 r'
        && (leb r' 8
            && (((r' == 8) && leb (length bs) ((n + 7) / 8)
                  || ltb (length bs) ((n + 7) / 8) && has_free r' (low8 last))
                && same_bits
                    (bits r (row.code / 2 ^ n)
                      ++ (byte_bits (map low8 bs) ++ bits (8 - r') (low8 last / 2 ^ r')))
                    (bits row.nbits row.code))))

unfoldable pub tail_fits : ℕ → ℕ → HuffSym → Bool
tail_fits r n row = let o = tail_out n (align n row.code) in piece_fits r n row o.0 o.1 o.2

-- The three cases of the encoder, for a row and `suc k` free bits.
unfoldable pub row_fits : HuffSym → ℕ → Bool
row_fits row k =
    ltb row.code (2 ^ row.nbits)
    && (leb row.nbits 30
        && (if ltb row.nbits (suc k)
            then true
            else if suc k == row.nbits
            then true
            else tail_fits (suc k) (row.nbits - suc k) row))

pub rows_fit : holds_below (λ n. holds_below (row_fits (sym_row n)) 8) 256 ≡ true
unfolding holds_below row_fits tail_fits piece_fits huff_sym_table tail_out align bits byte_bits
    same_bits has_free
rows_fit = refl

-- A byte of which `r` bits are free takes `r` bits more.
pub or_fits :
    holds_below
      (λ r.
        holds_below
          (λ q.
            holds_below
              (λ f.
                let v = bit_or (q * 2 ^ r) f in
                ltb v 256 && same_bits (bits 8 v) (bits (8 - r) q ++ bits r f))
              (2 ^ r))
          (2 ^ (8 - r)))
      9
    ≡ true
unfolding holds_below same_bits bits
or_fits = refl

-- The same for fewer bits than are free.
pub hold_fits :
    holds_below
      (λ r.
        holds_below
          (λ n.
            holds_below
              (λ q.
                holds_below
                  (λ f.
                    let v = bit_or (q * 2 ^ r) (f * 2 ^ (r - n) % 2 ^ 32) in
                    ltb v 256
                    && (has_free (r - n) v
                        && same_bits
                            (bits (8 - (r - n)) (v / 2 ^ (r - n)))
                            (bits (8 - r) q ++ bits n f)))
                  (2 ^ n))
              (2 ^ (8 - r)))
          r)
      9
    ≡ true
unfolding holds_below same_bits bits has_free
hold_fits = refl

-- The end of the encoding: the start of the symbol 256 is a padding.
pub end_fits :
    holds_below
      (λ r.
        let f = (sym_row 256).code / 2 ^ ((sym_row 256).nbits - r) in
        ltb f (2 ^ r) && is_padding (bits r f))
      8
    ≡ true
unfolding holds_below huff_sym_table is_padding bits
end_fits = refl
