-- ===== src/Hd/Huffman/Encode/Laws.antt =====
-- lib/nghttp2_hd_huffman.c: what the encoder adds to its buffers is the code of its text.
use newhttp.Common.{
  ℕ, zero, suc, ◌-◌, ◌*◌, ◌/◌, ◌%◌, ◌^◌, ◌<◌, ◌≡◌, refl, sym, ap, ◌∙◌, Bool, false, List, [], ◌∷◌,
  ◌++◌, bit_or, ◌==◌, ==_iff, ltb, ltb→lt, map, arith, inl, inr, Bool-cases,
}
use mathlib.Core.List.{append_assoc, append-nil}
use mathlib.Core.Path.{subst}
use newhttp.Errors.{ok}
use newhttp.Buf.Chain.{Bufs}
use newhttp.Buf.Add.Copy.{low8}
use newhttp.Buf.Add.{bufs_fast_orb, bufs_fast_orb_hold, bufs_cur_avail}
use newhttp.Buf.Add.Laws.{text, IsReady}
use newhttp.Buf.Add.Hold.{held, put-Holds, put-Adds}
use newhttp.Hd.Huffman.Bits.{bits, byte_bits, byte_bits-append, code_of}
use newhttp.Hd.Huffman.Sound.{Bytes-append}
use newhttp.Hd.Huffman.Encode.{sym_row, dec_size, huff_encode_sym, huff_encode_rest, align}
use newhttp.Hd.Huffman.Encode.Pieces.{has_free, tail_out}
use newhttp.Hd.Huffman.Encode.Rows.{or_free, or_short, short_or, row_code, row_nbits, row_tail}
use newhttp.Hd.Huffman.Encode.Tail.{Written, huff_encode_rest_lem}
use newhttp.Hd.Huffman.Encode.Started.{Writing, Started, Bytes-low8, byte_bits-last}

module _ (base : List ℕ) (out : List Bool) (bufs : Bufs) (avail r : ℕ)
    (w : Started base out bufs avail r) where
  -- A code that is shorter than the free bits.
  pub write_short :
      (n code : ℕ)
      → n < r
      → code < 2 ^ n
      → Writing base
          (out ++ bits n code)
          (bufs_fast_orb_hold bufs (code * 2 ^ (r - n) % 2 ^ 32))
          avail
          (r - n)
  unfolding bufs_fast_orb_hold
  write_short n code lt small =
      let x = code * 2 ^ (r - n) % 2 ^ 32 in
      let (byte, free, fit) = or_short r n w.q code (omega (arith, w.free_le)) lt w.below small in
      let e : bit_or (held bufs) x % 256 ≡ short_or r n w.q code =
        ap (λ k. bit_or k x % 256) w.held_eq ∙ omega (arith, byte) in
      let a =
        put-Holds 4 bufs (bit_or (held bufs) x % 256) w.ready
          (omega (arith, w.avail_eq, w.spare)) in
      let now = a.3 ∙ e in
      record {
        bs = w.bs;
        small = w.small;
        whole = a.0 ∙ w.whole;
        coded =
            ap (λ k. byte_bits w.bs ++ bits (8 - (r - n)) (k / 2 ^ (r - n))) now
            ∙ ap (λ t. byte_bits w.bs ++ t) fit
            ∙ sym (append_assoc (byte_bits w.bs) (bits (8 - r) w.q) (bits n code))
            ∙ ap (λ t. t ++ bits n code) w.coded;
        ready = a.1;
        avail_eq = w.avail_eq ∙ sym a.2;
        some_free = omega (arith, lt);
        free_le = omega (arith, w.free_le);
        last = inr (w.spare, ap (has_free (r - n)) now ∙ free);
      }

  -- The byte is filled.
  abbrev pub Filled : ℕ → Type 0
  Filled f =
      (v : ℕ) × (v < 256)
      × (text (bufs_fast_orb bufs f) ≡ base ++ (w.bs ++ v ∷ []))
      × IsReady 4 (bufs_fast_orb bufs f)
      × (dec_size avail ≡ bufs_cur_avail (bufs_fast_orb bufs f))
      × (byte_bits (w.bs ++ v ∷ []) ≡ out ++ bits r f)

  pub fill : (f : ℕ) → f < 2 ^ r → Filled f
  unfolding bufs_fast_orb
  fill f small =
      let (byte, fit) = or_free r w.q f (omega (arith, w.free_le)) w.below small in
      let v = bit_or (held bufs) f % 256 in
      let e : v ≡ bit_or (w.q * 2 ^ r) f =
        ap (λ k. bit_or k f % 256) w.held_eq ∙ omega (arith, byte) in
      let a = put-Adds 4 bufs v w.ready (omega (arith, w.avail_eq, w.spare)) in
      (
        v,
        omega (arith, e, byte),
        a.0 ∙ ap (λ t. t ++ v ∷ []) w.whole ∙ append_assoc base w.bs (v ∷ []),
        a.1,
        ground (arith, a.2, w.avail_eq, w.spare),
        byte_bits-last w.bs v
            ∙ ap (λ k. byte_bits w.bs ++ bits 8 k) e
            ∙ ap (λ t. byte_bits w.bs ++ t) fit
            ∙ sym (append_assoc (byte_bits w.bs) (bits (8 - r) w.q) (bits r f))
            ∙ ap (λ t. t ++ bits r f) w.coded,
      )

-- The free bits at the end of the buffers are those of the byte that is held.
free_bits :
    (bufs : Bufs) (bs : List ℕ) (last r' : ℕ) (o : Bufs × ℕ × ℕ)
    → Written bufs bs last r' o
    → bits (8 - r') (held o.0 / 2 ^ r') ≡ bits (8 - r') (low8 last / 2 ^ r')
unfolding bits
free_bits bufs bs last r' o w = elim w.4 [
  | inl e ↦ rw e
  | inr p ↦ ap (λ k. bits (8 - r') (k / 2 ^ r')) p.1
]

module _ (base : List ℕ) (out : List Bool) (bufs : Bufs) (avail k sym_ : ℕ) (s : sym_ < 256)
    (w : Started base out bufs avail (suc k)) where
  -- A code that fills the byte.
  write_exact :
      suc k ≡ (sym_row sym_).nbits
      → Writing base
          (out ++ code_of sym_)
          (bufs_fast_orb bufs (sym_row sym_).code)
          (dec_size avail)
          8
  unfolding code_of bits
  write_exact e =
      let small : (sym_row sym_).code < 2 ^ suc k =
        subst (λ n. (sym_row sym_).code < 2 ^ n) (sym e) (row_code sym_ s) in
      let (v, byte, whole, ready, room, coded) =
        fill base out bufs avail (suc k) w (sym_row sym_).code small in
      record {
        bs = w.bs ++ v ∷ [];
        small = Bytes-append w.bs (v ∷ []) w.small (byte, tt);
        whole = whole;
        coded =
            append-nil (byte_bits (w.bs ++ v ∷ []))
            ∙ coded
            ∙ ap (λ n. out ++ bits n (sym_row sym_).code) e;
        ready = ready;
        avail_eq = room;
        some_free = omega arith;
        free_le = omega arith;
        last = inl refl;
      }

  -- A code that is longer than the free bits.
  write_long :
      {o : Bufs × ℕ × ℕ}
      → suc k < (sym_row sym_).nbits
      → huff_encode_rest
          (bufs_fast_orb bufs ((sym_row sym_).code / 2 ^ ((sym_row sym_).nbits - suc k)))
          (dec_size avail)
          ((sym_row sym_).nbits - suc k)
          (sym_row sym_).code
        ≡ ok o
      → Writing base (out ++ code_of sym_) o.0 o.1 o.2
  unfolding code_of
  write_long {o = o} lt h =
      let row = sym_row sym_ in
      let n = row.nbits - suc k in
      let fits = row_tail sym_ s k (omega (arith, w.free_le)) lt in
      let t = tail_out n (align n row.code) in
      let (v, byte, whole, ready, room, coded) =
        fill base out bufs avail (suc k) w (row.code / 2 ^ n) fits.first_lt in
      let small : n < 30 = omega (arith, row_nbits sym_ s) in
      let z =
        huff_encode_rest_lem (bufs_fast_orb bufs (row.code / 2 ^ n)) (dec_size avail) (suc k) n row
          ready room (omega arith) small fits h in
      let more = map low8 t.0 in
      let free = free_bits (bufs_fast_orb bufs (row.code / 2 ^ n)) t.0 t.1 t.2 o z in
      let in_place : Writing base (out ++ code_of sym_) o.0 o.1 t.2 = record {
        bs = (w.bs ++ v ∷ []) ++ more;
        small =
            Bytes-append (w.bs ++ v ∷ []) more (Bytes-append w.bs (v ∷ []) w.small (byte, tt))
              (Bytes-low8 t.0);
        whole = z.0 ∙ ap (λ u. u ++ more) whole ∙ append_assoc base (w.bs ++ v ∷ []) more;
        coded =
            ap (λ u. byte_bits ((w.bs ++ v ∷ []) ++ more) ++ u) free
            ∙ ap (λ u. u ++ bits (8 - t.2) (low8 t.1 / 2 ^ t.2))
                (byte_bits-append (w.bs ++ v ∷ []) more)
            ∙ append_assoc (byte_bits (w.bs ++ v ∷ [])) (byte_bits more) _
            ∙ ap (λ u. u ++ (byte_bits more ++ bits (8 - t.2) (low8 t.1 / 2 ^ t.2))) coded
            ∙ append_assoc out (bits (suc k) (row.code / 2 ^ n)) _
            ∙ ap (λ u. out ++ u) fits.code;
        ready = z.1;
        avail_eq = z.2;
        some_free = fits.some_free;
        free_le = fits.free_le;
        last = elim z.4 [
          | inl e ↦ inl e
          | inr p ↦ elim fits.written [
            | inl e ↦ inl e.0
            | inr f ↦ inr (p.0, ap (has_free t.2) p.1 ∙ f.1)
          ]
        ];
      } in
      subst (λ r. Writing base (out ++ code_of sym_) o.0 o.1 r) (sym z.3) in_place

pub tests_lt : (r n : ℕ) → ltb n r ≡ false → (r == n) ≡ false → r < n
tests_lt r n h e = ground arith

-- One symbol: its code goes behind the bits that are there.
pub huff_encode_sym_lem :
    (base : List ℕ) (out : List Bool) (bufs : Bufs) (avail r sym_ : ℕ) {o : Bufs × ℕ × ℕ}
    → sym_ < 256
    → Started base out bufs avail r
    → huff_encode_sym bufs avail r (sym_row sym_) ≡ ok o
    → Writing base (out ++ code_of sym_) o.0 o.1 o.2
unfolding huff_encode_sym code_of
huff_encode_sym_lem base out bufs avail zero sym_ s w h = absurd (omega (arith, w.some_free))
huff_encode_sym_lem base out bufs avail (suc k) sym_ {o = o} s w h =
    let row = sym_row sym_ in
    elim (Bool-cases (ltb row.nbits (suc k))) [
      | inl short ↦
          subst (λ (x : Bufs × ℕ × ℕ). Writing base (out ++ code_of sym_) x.0 x.1 x.2)
            {x = (
              bufs_fast_orb_hold bufs (row.code * 2 ^ (suc k - row.nbits) % 2 ^ 32),
              avail,
              suc k - row.nbits,
            )}
            {y = o} (cc (rw short at h))
            (write_short base out bufs avail (suc k) w row.nbits row.code (ltb→lt _ _ short)
              (row_code sym_ s))
      | inr long ↦ elim (Bool-cases (suc k == row.nbits)) [
        | inl exact ↦
            subst (λ (x : Bufs × ℕ × ℕ). Writing base (out ++ code_of sym_) x.0 x.1 x.2)
              {x = (bufs_fast_orb bufs row.code, dec_size avail, 8)} {y = o}
              (cc (rw (long, exact) at h))
              (write_exact base out bufs avail k sym_ s w ((==_iff _ _).0 exact))
        | inr more ↦
            write_long base out bufs avail k sym_ s w (tests_lt _ _ long more)
              (rw (long, more) at h)
      ]
    ]
