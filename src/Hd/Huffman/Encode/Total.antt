-- ===== src/Hd/Huffman/Encode/Total.antt =====
-- lib/nghttp2_hd_huffman.c: the encoder succeeds where the current buffer has room for the
-- bytes that `nghttp2_hd_huff_encode_count` predicts, and adds as many.
use newhttp.Common.{
  ℕ, zero, suc, ◌+◌, ◌-◌, ◌*◌, ◌/◌, ◌^◌, ◌≤◌, ◌<◌, ◌≡◌, refl, sym, ap, Bool, true, false, List, [],
  ◌∷◌, ◌++◌, ◌==◌, ==_iff, ltb, ltb→lt, length, length-append, map, ◌%◌, arith, inl, inr,
  Bool-cases,
}
use mathlib.Core.List.{append_assoc, append-nil}
use mathlib.Core.Path.{subst}
use newhttp.Common.Table.{holds_below, holds_below_at}
use newhttp.Hd.Huffman.SymTable.{huff_sym_table}
use newhttp.Errors.{ok}
use newhttp.Buf.Chain.{Bufs}
use newhttp.Buf.Add.Copy.{low8}
use newhttp.Buf.Add.{bufs_fast_orb, bufs_fast_orb_hold, bufs_fast_addb_hold, bufs_cur_avail}
use newhttp.Buf.Add.Laws.{text, IsReady}
use newhttp.Hd.Huffman.Bits.{bits, byte_bits, code_of, codes_of, length-bits, length-byte_bits}
use newhttp.Hd.Huffman.Sound.{Bytes}
use newhttp.Hd.Huffman.Encode.{
  sym_row, dec_size, huff_encode_sym, huff_start_byte, huff_encode_loop, huff_encode_end,
  huff_encode, huff_encode_count, count_bits, align,
}
use newhttp.Hd.Huffman.Encode.Pieces.{tail_out}
use newhttp.Hd.Huffman.Encode.Rows.{row_tail, TailFits}
use newhttp.Hd.Huffman.Types.{HuffSym}
use newhttp.Hd.Huffman.Encode.Tail.{huff_encode_rest_total}
use newhttp.Hd.Huffman.Encode.Started.{Writing, Started, huff_start_byte_lem, init-Writing}
use newhttp.Hd.Huffman.Encode.Laws.{huff_encode_sym_lem, fill, tests_lt}

length-codes_of : (src : List ℕ) → length (codes_of src) ≡ count_bits src
unfolding codes_of code_of count_bits
length-codes_of [] = refl
length-codes_of (x ∷ src) = omega (
  arith,
  length-append {0} (code_of x) (codes_of src),
  length-bits (sym_row x).nbits (sym_row x).code,
  length-codes_of src,
)

-- The room that `need` bits want where `r` bits of the byte at `last` are free.
abbrev Room : ℕ → ℕ → ℕ → Type 0
Room need avail r = need + 8 ≤ 8 * avail + r

huff_start_byte_total :
    (base : List ℕ) (out : List Bool) (bufs : Bufs) (avail r need : ℕ)
    → 0 < need
    → Room need avail r
    → Writing base out bufs avail r
    → (b : Bufs) × (huff_start_byte bufs avail r ≡ ok (b, avail))
unfolding huff_start_byte
huff_start_byte_total base out bufs avail r need pos room w = elim (Bool-cases (r == 8)) [
  | inr more ↦ (bufs, rw more)
  | inl full ↦
      (let e : r ≡ 8 = (==_iff r 8).0 full in
        let spare : (avail == 0) ≡ false = ground (arith, room, pos, e) in
        (bufs_fast_addb_hold bufs 0, rw (full, spare)))
]

length-low8 : (bs : List ℕ) → length (map low8 bs) ≡ length bs
length-low8 [] = refl
length-low8 (b ∷ bs) = ap suc (length-low8 bs)

-- The bits of a code are its first ones, those of the bytes and those of the byte that is held.
tail_bits :
    (r n : ℕ) (row : HuffSym) (bs : List ℕ) (last r' : ℕ)
    → TailFits r n row bs last r'
    → r + (8 * length bs + (8 - r')) ≡ row.nbits
tail_bits r n row bs last r' fits =
    let a = bits r (row.code / 2 ^ n) in
    let b = byte_bits (map low8 bs) in
    let c = bits (8 - r') (low8 last / 2 ^ r') in
    omega (
      arith,
      ap length fits.code,
      length-append {0} a (b ++ c),
      length-append {0} b c,
      length-bits r (row.code / 2 ^ n),
      length-bits (8 - r') (low8 last / 2 ^ r'),
      length-bits row.nbits row.code,
      length-byte_bits (map low8 bs),
      length-low8 bs,
    )

module _ (base : List ℕ) (out : List Bool) (bufs : Bufs) (avail k sym_ need : ℕ) (s : sym_ < 256)
    (w : Started base out bufs avail (suc k))
    (room : Room ((sym_row sym_).nbits + need) avail (suc k)) where
  abbrev Goes : Type 0
  Goes =
      (o : Bufs × ℕ × ℕ) × (huff_encode_sym bufs avail (suc k) (sym_row sym_) ≡ ok o)
      × Room need o.1 o.2

  spare_eq : dec_size avail + 1 ≡ avail
  spare_eq = ground (arith, w.spare)

  huff_encode_long :
      (long : ltb (sym_row sym_).nbits (suc k) ≡ false)
      → (more : (suc k == (sym_row sym_).nbits) ≡ false) → Goes
  unfolding huff_encode_sym
  huff_encode_long long more =
      let row = sym_row sym_ in
      let n = row.nbits - suc k in
      let lt : suc k < row.nbits = tests_lt _ _ long more in
      let fits = row_tail sym_ s k (omega (arith, w.free_le)) lt in
      let t = tail_out n (align n row.code) in
      let (v, byte, whole, ready, e, coded) =
        fill base out bufs avail (suc k) w (row.code / 2 ^ n) fits.first_lt in
      let (o, h, a, r) =
        huff_encode_rest_total (bufs_fast_orb bufs (row.code / 2 ^ n)) (dec_size avail) (suc k) n
          row ready e (omega (arith, lt)) (omega (arith, room, spare_eq)) fits in
      (
        o,
        rw (long, more) h,
        omega (arith, room, a, r, spare_eq, fits.free_le, tail_bits (suc k) n row t.0 t.1 t.2 fits),
      )

  huff_encode_sym_total : Goes
  unfolding huff_encode_sym
  huff_encode_sym_total = elim (Bool-cases (ltb (sym_row sym_).nbits (suc k))) [
    | inl short ↦
        (let lt = ltb→lt _ _ short in
          (
            (
              bufs_fast_orb_hold bufs
                  ((sym_row sym_).code * 2 ^ (suc k - (sym_row sym_).nbits) % 2 ^ 32),
              avail,
              suc k - (sym_row sym_).nbits,
            ),
            rw short,
            omega (arith, room, lt),
          ))
    | inr long ↦ elim (Bool-cases (suc k == (sym_row sym_).nbits)) [
      | inr more ↦ huff_encode_long long more
      | inl exact ↦ (
        (bufs_fast_orb bufs (sym_row sym_).code, dec_size avail, 8),
        rw (long, exact),
        omega (arith, room, spare_eq, (==_iff _ _).0 exact),
      )
    ]
  ]

rows_pos : holds_below (λ n. ltb 0 (sym_row n).nbits) 256 ≡ true
unfolding holds_below huff_sym_table
rows_pos = refl

row_pos : (n : ℕ) → n < 256 → 0 < (sym_row n).nbits
row_pos n small = ltb→lt _ _ (holds_below_at (λ n. ltb 0 (sym_row n).nbits) 256 n small rows_pos)

huff_encode_loop_total :
    (base : List ℕ) (out : List Bool) (bufs : Bufs) (avail r : ℕ) (src : List ℕ)
    → Bytes src
    → Room (count_bits src) avail r
    → Writing base out bufs avail r
    → (o : Bufs × ℕ × ℕ) × (huff_encode_loop bufs avail r src ≡ ok o)
      × Writing base (out ++ codes_of src) o.0 o.1 o.2
unfolding huff_encode_loop codes_of count_bits
huff_encode_loop_total base out bufs avail r [] b room w =
    ((bufs, avail, r), refl, subst (λ u. Writing base u bufs avail r) (sym (append-nil out)) w)
huff_encode_loop_total base out bufs avail zero (x ∷ src) b room w =
    absurd (omega (arith, w.some_free))
huff_encode_loop_total base out bufs avail (suc k) (x ∷ src) b room w =
    let (c, e) =
      huff_start_byte_total base out bufs avail (suc k) ((sym_row x).nbits + count_bits src)
        (omega (arith, row_pos x b.0)) room w in
    let started = huff_start_byte_lem base out bufs avail (suc k) {o = (c, avail)} w e in
    let (o, f, room') =
      huff_encode_sym_total base out c avail k x (count_bits src) b.0 started room in
    let w' = huff_encode_sym_lem base out c avail (suc k) x {o = o} b.0 started f in
    let (o', g, w'') =
      huff_encode_loop_total base (out ++ code_of x) o.0 o.1 o.2 src b.1 room' w' in
    (
      o',
      rw (e, f) g,
      subst (λ u. Writing base u o'.0 o'.1 o'.2) (append_assoc out (code_of x) (codes_of src)) w'',
    )

huff_encode_end_total :
    (base : List ℕ) (out : List Bool) (bufs : Bufs) (avail r : ℕ)
    → Writing base out bufs avail r
    → (bufs' : Bufs) × (huff_encode_end bufs avail r ≡ ok bufs')
unfolding huff_encode_end
huff_encode_end_total base out bufs avail r w = elim (Bool-cases (ltb r 8)) [
  | inr full ↦ (bufs, rw full)
  | inl short ↦
      (let pos : 0 < avail = elim w.last [
        | inl e ↦ absurd (ground (arith, e, short))
        | inr p ↦ p.0
      ] in
        let spare : (avail == 0) ≡ false = ground (arith, pos) in
        (
          bufs_fast_orb bufs ((sym_row 256).code / 2 ^ ((sym_row 256).nbits - r)),
          rw (short, spare),
        ))
]

-- If the current buffer has room for the bytes that are predicted, the encoder succeeds.
pub huff_encode_total :
    (bufs : Bufs) (src : List ℕ)
    → Bytes src
    → IsReady 4 bufs
    → huff_encode_count src ≤ bufs_cur_avail bufs
    → (bufs' : Bufs) × (huff_encode bufs src ≡ ok bufs')
unfolding huff_encode huff_encode_count
huff_encode_total bufs src b ready room =
    let (o, e, w) =
      huff_encode_loop_total (text bufs) [] bufs (bufs_cur_avail bufs) 8 src b (omega (arith, room))
        (init-Writing bufs ready) in
    let (bufs', f) = huff_encode_end_total (text bufs) (codes_of src) o.0 o.1 o.2 w in
    (bufs', rw e f)

-- The bytes of a code with its padding are as many as are predicted.
pub length-coded :
    (src bs : List ℕ) (p : List Bool)
    → byte_bits bs ≡ codes_of src ++ p
    → length p < 8
    → length bs ≡ huff_encode_count src
unfolding huff_encode_count
length-coded src bs p e short = omega (
  arith,
  ap length e,
  length-append {0} (codes_of src) p,
  length-byte_bits bs,
  length-codes_of src,
  short,
)
