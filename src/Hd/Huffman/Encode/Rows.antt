-- ===== src/Hd/Huffman/Encode/Rows.antt =====
-- lib/nghttp2_hd_huffman.c: what the checked tables say of one row and of one byte.
use newhttp.Common.{
  ℕ, suc, ◌+◌, ◌-◌, ◌*◌, ◌/◌, ◌%◌, ◌^◌, ◌≤◌, ◌<◌, ◌≡◌, refl, Bool, true, false, ◌&&◌, ◌||◌, List,
  ◌++◌, bit_or, ◌==◌, ==_iff, ltb, leb, ltb→lt, leb→le, ge→ltb, ◌⊎◌, inl, inr, length, map, arith,
}
use newhttp.Common.Table.{holds_below_at}
use newhttp.Buf.Add.Copy.{low8}
use newhttp.Hd.Huffman.Types.{HuffSym}
use newhttp.Hd.Huffman.Bits.{bits, byte_bits, same_bits-eq}
use newhttp.Hd.Huffman.Rows.{is_padding, &&-true}
use newhttp.Hd.Huffman.Encode.{sym_row, align}
use newhttp.Hd.Huffman.Encode.Pieces.{
  has_free, tail_out, piece_fits, tail_fits, row_fits, rows_fit, or_fits, hold_fits, end_fits,
}

pub has_free_lem :
    (r b : ℕ) → has_free r b ≡ true → (b ≡ b / 2 ^ r * 2 ^ r) × (b / 2 ^ r < 2 ^ (8 - r))
unfolding has_free
has_free_lem r b h =
    let (p, q) = &&-true (b == b / 2 ^ r * 2 ^ r) _ h in ((==_iff b _).0 p, ltb→lt _ _ q)

pub or_free :
    (r q f : ℕ)
    → r < 9
    → q < 2 ^ (8 - r)
    → f < 2 ^ r
    → (bit_or (q * 2 ^ r) f < 256) × (bits 8 (bit_or (q * 2 ^ r) f) ≡ bits (8 - r) q ++ bits r f)
or_free r q f rs qs fs =
    let a = holds_below_at _ 9 r rs or_fits in
    let b = holds_below_at _ (2 ^ (8 - r)) q qs a in
    let c = holds_below_at _ (2 ^ r) f fs b in
    let (d, e) = &&-true (ltb (bit_or (q * 2 ^ r) f) 256) _ c in (ltb→lt _ _ d, same_bits-eq _ _ e)

-- The byte that is held after a short code.
abbrev pub short_or : ℕ → ℕ → ℕ → ℕ → ℕ
short_or r n q f = bit_or (q * 2 ^ r) (f * 2 ^ (r - n) % 2 ^ 32)

pub or_short :
    (r n q f : ℕ)
    → r < 9
    → n < r
    → q < 2 ^ (8 - r)
    → f < 2 ^ n
    → (short_or r n q f < 256)
      × (has_free (r - n) (short_or r n q f) ≡ true)
      × (bits (8 - (r - n)) (short_or r n q f / 2 ^ (r - n)) ≡ bits (8 - r) q ++ bits n f)
or_short r n q f rs ns qs fs =
    let a = holds_below_at _ 9 r rs hold_fits in
    let b = holds_below_at _ r n ns a in
    let c = holds_below_at _ (2 ^ (8 - r)) q qs b in
    let d = holds_below_at _ (2 ^ n) f fs c in
    let (e, g) = &&-true (ltb (short_or r n q f) 256) _ d in
    let (h, i) = &&-true (has_free (r - n) (short_or r n q f)) _ g in
    (ltb→lt _ _ e, h, same_bits-eq _ _ i)

pub end_padding :
    (r : ℕ)
    → r < 8
    → ((sym_row 256).code / 2 ^ ((sym_row 256).nbits - r) < 2 ^ r)
      × (is_padding (bits r ((sym_row 256).code / 2 ^ ((sym_row 256).nbits - r))) ≡ true)
end_padding r rs =
    let (a, b) =
      &&-true (ltb ((sym_row 256).code / 2 ^ ((sym_row 256).nbits - r)) (2 ^ r)) _
        (holds_below_at _ 8 r rs end_fits) in
    (ltb→lt _ _ a, b)

-- The rest of a code behind its first bits: the bytes, the byte that is held and its free bits.
pub record TailFits (r n : ℕ) (row : HuffSym) (bs : List ℕ) (last r' : ℕ) : Type 0 where
  pub first_lt : row.code / 2 ^ n < 2 ^ r
  pub some_free : 0 < r'
  pub free_le : r' ≤ 8
  pub written :
      ((r' ≡ 8) × (length bs ≤ (n + 7) / 8))
      ⊎ ((length bs < (n + 7) / 8) × (has_free r' (low8 last) ≡ true))
  pub code :
      bits r (row.code / 2 ^ n) ++ (byte_bits (map low8 bs) ++ bits (8 - r') (low8 last / 2 ^ r'))
      ≡ bits row.nbits row.code

||-true : (a b : Bool) → (a || b) ≡ true → (a ≡ true) ⊎ (b ≡ true)
||-true true b h = inl refl
||-true false b h = inr h

piece_fits_lem :
    (r n : ℕ) (row : HuffSym) (bs : List ℕ) (last r' : ℕ)
    → piece_fits r n row bs last r' ≡ true
    → TailFits r n row bs last r'
unfolding piece_fits
piece_fits_lem r n row bs last r' h =
    let (a, h1) = &&-true (ltb (row.code / 2 ^ n) (2 ^ r)) _ h in
    let (b, h2) = &&-true (ltb 0 r') _ h1 in
    let (c, h3) = &&-true (leb r' 8) _ h2 in
    let (d, e) =
      &&-true
        ((r' == 8) && leb (length bs) ((n + 7) / 8)
          || ltb (length bs) ((n + 7) / 8) && has_free r' (low8 last))
        _ h3 in
    record {
      first_lt = ltb→lt _ _ a;
      some_free = ltb→lt _ _ b;
      free_le = leb→le _ _ c;
      written = elim (||-true ((r' == 8) && leb (length bs) ((n + 7) / 8)) _ d) [
        | inl p ↦ (let (u, v) = &&-true (r' == 8) _ p in inl ((==_iff r' 8).0 u, leb→le _ _ v))
        | inr p ↦
            (let (u, v) = &&-true (ltb (length bs) ((n + 7) / 8)) _ p in inr (ltb→lt _ _ u, v))
      ];
      code = same_bits-eq _ _ e;
    }

module _ (sym : ℕ) (small : sym < 256) where
  row_at : (k : ℕ) → k < 8 → row_fits (sym_row sym) k ≡ true
  row_at k h = holds_below_at _ 8 k h (holds_below_at _ 256 sym small rows_fit)

  pub row_code : (sym_row sym).code < 2 ^ (sym_row sym).nbits
  unfolding row_fits
  row_code =
      ltb→lt _ _
        (&&-true (ltb (sym_row sym).code (2 ^ (sym_row sym).nbits)) _ (row_at 0 (omega arith))).0

  pub row_nbits : (sym_row sym).nbits ≤ 30
  unfolding row_fits
  row_nbits =
      leb→le _ _
        (&&-true (leb (sym_row sym).nbits 30) _
          (&&-true (ltb (sym_row sym).code (2 ^ (sym_row sym).nbits)) _
            (row_at 0 (omega arith))).1).0

  -- A code that is longer than the free bits.
  pub row_tail :
      (k : ℕ)
      → k < 8
      → suc k < (sym_row sym).nbits
      → let o =
          tail_out
            ((sym_row sym).nbits - suc k)
            (align ((sym_row sym).nbits - suc k) (sym_row sym).code) in
        TailFits (suc k) ((sym_row sym).nbits - suc k) (sym_row sym) o.0 o.1 o.2
  unfolding row_fits tail_fits
  row_tail k h lt =
      let n = (sym_row sym).nbits in
      let r = &&-true (leb n 30) _ (&&-true (ltb (sym_row sym).code (2 ^ n)) _ (row_at k h)).1 in
      let long : ltb n (suc k) ≡ false = ge→ltb _ _ (omega arith) in
      let other : (suc k == n) ≡ false = ground arith in
      piece_fits_lem _ _ _ _ _ _ (rw (long, other) at r.1)
