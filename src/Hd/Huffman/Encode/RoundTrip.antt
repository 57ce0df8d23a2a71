-- ===== src/Hd/Huffman/Encode/RoundTrip.antt =====
-- lib/nghttp2_hd_huffman.c: the encoder as a whole, and the decoder behind it.
use newhttp.Common.{
  ℕ, ◌-◌, ◌/◌, ◌^◌, ◌≤◌, ◌<◌, ◌≡◌, refl, sym, ◌∙◌, Bool, true, false, not, List, [], ◌∷◌, ◌++◌,
  ◌==◌, ltb, ltb→lt, ltb→ge, length, arith, inl, inr, Bool-cases,
}
use mathlib.Core.List.{append_assoc, append-nil}
use mathlib.Core.Path.{subst}
use newhttp.Errors.{ok, assert, bind_stages, ok_injective}
use newhttp.Buf.Chain.{Bufs}
use newhttp.Buf.Add.{bufs_fast_orb, bufs_cur_avail}
use newhttp.Buf.Add.Laws.{text, IsReady}
use newhttp.Hd.Huffman.{HuffContext, huff_decode_context_init, huff_decode}
use newhttp.Hd.Huffman.Bits.{bits, byte_bits, code_of, codes_of}
use newhttp.Hd.Huffman.Rows.{is_padding}
use newhttp.Hd.Huffman.Sound.{Bytes, Bytes-append}
use newhttp.Hd.Huffman.Laws.{huff_decode_total}
use newhttp.Hd.Huffman.Stream.{pad_parts}
use newhttp.Hd.Huffman.Encode.Total.{huff_encode_total, length-coded}
use newhttp.Hd.Huffman.Encode.{
  sym_row, huff_encode_sym, huff_start_byte, huff_encode_loop, huff_encode_end, huff_encode,
  huff_encode_count,
}
use newhttp.Hd.Huffman.Encode.Rows.{end_padding}
use newhttp.Hd.Huffman.Encode.Started.{Writing, Started, huff_start_byte_lem, init-Writing}
use newhttp.Hd.Huffman.Encode.Laws.{huff_encode_sym_lem, fill}

huff_encode_loop_lem :
    (base : List ℕ) (out : List Bool) (bufs : Bufs) (avail r : ℕ) (src : List ℕ)
    → {o : Bufs × ℕ × ℕ} → Bytes src
    → Writing base out bufs avail r
    → huff_encode_loop bufs avail r src ≡ ok o
    → Writing base (out ++ codes_of src) o.0 o.1 o.2
unfolding huff_encode_loop codes_of
huff_encode_loop_lem base out bufs avail r [] {o = o} b w h =
    subst (λ (x : Bufs × ℕ × ℕ). Writing base (out ++ []) x.0 x.1 x.2) {x = (bufs, avail, r)}
      {y = o} (cc h) (subst (λ u. Writing base u bufs avail r) (sym (append-nil out)) w)
huff_encode_loop_lem base out bufs avail r (byte ∷ src) {o = o} b w h =
    let (x1, e1, h1) = bind_stages (huff_start_byte bufs avail r) _ h in
    let w1 = huff_start_byte_lem base out bufs avail r w e1 in
    let (x2, e2, h2) = bind_stages (huff_encode_sym x1.0 x1.1 r (sym_row byte)) _ h1 in
    let w2 = huff_encode_sym_lem base out x1.0 x1.1 r byte b.0 w1 e2 in
    let w3 = huff_encode_loop_lem base (out ++ code_of byte) x2.0 x2.1 x2.2 src b.1 w2 h2 in
    subst (λ u. Writing base u o.0 o.1 o.2) (append_assoc out (code_of byte) (codes_of src)) w3

-- Bytes behind a text whose bits are a code and a padding.
abbrev pub Coded : List ℕ → List Bool → Bufs → Type 0
Coded base out bufs =
    (bs : List ℕ) × (p : List Bool) × Bytes bs
    × (text bufs ≡ base ++ bs)
    × (byte_bits bs ≡ out ++ p)
    × (is_padding p ≡ true)

-- The padding fills the last byte.
huff_encode_padding :
    (base : List ℕ) (out : List Bool) (bufs : Bufs) (avail r : ℕ)
    → r < 8
    → Started base out bufs avail r
    → Coded base out (bufs_fast_orb bufs ((sym_row 256).code / 2 ^ ((sym_row 256).nbits - r)))
huff_encode_padding base out bufs avail r lt w =
    let f = (sym_row 256).code / 2 ^ ((sym_row 256).nbits - r) in
    let (below, pad) = end_padding r lt in
    let (v, byte, whole, _, _, coded) = fill base out bufs avail r w f below in
    (w.bs ++ v ∷ [], bits r f, Bytes-append w.bs (v ∷ []) w.small (byte, tt), whole, coded, pad)

huff_encode_full :
    (base : List ℕ) (out : List Bool) (bufs : Bufs) (avail : ℕ)
    → Writing base out bufs avail 8
    → Coded base out bufs
unfolding bits is_padding
huff_encode_full base out bufs avail w = (
  w.bs,
  [],
  w.small,
  w.whole,
  sym (append-nil (byte_bits w.bs)) ∙ w.coded ∙ sym (append-nil out),
  refl,
)

huff_encode_end_lem :
    (base : List ℕ) (out : List Bool) (bufs : Bufs) (avail r : ℕ) {bufs' : Bufs}
    → Writing base out bufs avail r
    → huff_encode_end bufs avail r ≡ ok bufs'
    → Coded base out bufs'
unfolding huff_encode_end huff_start_byte
huff_encode_end_lem base out bufs avail r {bufs' = bufs'} w h = elim (Bool-cases (ltb r 8)) [
  | inl short ↦
      (let lt = ltb→lt _ _ short in
        let more : (r == 8) ≡ false = ground (arith, lt) in
        let started = huff_start_byte_lem base out bufs avail r {o = (bufs, avail)} w (rw more) in
        let (_, _, k) = bind_stages (assert (not (avail == 0))) _ (rw short at h) in
        let e : bufs_fast_orb bufs ((sym_row 256).code / 2 ^ ((sym_row 256).nbits - r)) ≡ bufs' =
          ok_injective k in
        subst (Coded base out) {y = bufs'} e (huff_encode_padding base out bufs avail r lt started))
  | inr full ↦
      (let e : r ≡ 8 = omega (arith, ltb→ge _ _ full, w.free_le) in
        subst (Coded base out) {x = bufs} {y = bufs'} (cc (rw full at h))
          (huff_encode_full base out bufs avail (subst (λ k. Writing base out bufs avail k) e w)))
]

-- If the encoder succeeds, also where it goes on to further buffers, the bytes that it adds are
-- the codes of the text, in the order of the text, with a padding of less than eight ones.
pub huff_encode_lem :
    (bufs : Bufs) (src : List ℕ) {bufs' : Bufs}
    → Bytes src
    → IsReady 4 bufs
    → huff_encode bufs src ≡ ok bufs'
    → Coded (text bufs) (codes_of src) bufs'
unfolding huff_encode
huff_encode_lem bufs src b ready h =
    let (x, e, k) = bind_stages (huff_encode_loop bufs (bufs_cur_avail bufs) 8 src) _ h in
    let w =
      huff_encode_loop_lem (text bufs) [] bufs (bufs_cur_avail bufs) 8 src b
        (init-Writing bufs ready) e in
    huff_encode_end_lem (text bufs) (codes_of src) x.0 x.1 x.2 w k

-- A text that the encoder writes where there is room for the predicted bytes: it adds that many,
-- and the decoder reads them back as the text, whole, where there is room for it.
pub huff_encode-decode :
    (bufs target : Bufs) (src : List ℕ)
    → Bytes src
    → IsReady 4 bufs
    → IsReady 1 target
    → huff_encode_count src ≤ bufs_cur_avail bufs
    → length src ≤ bufs_cur_avail target
    → (bufs' : Bufs) × (bs : List ℕ) × (r : HuffContext × Bufs × ℕ) × (huff_encode bufs src
        ≡ ok bufs')
      × (text bufs' ≡ text bufs ++ bs)
      × (length bs ≡ huff_encode_count src)
      × (huff_decode huff_decode_context_init target bs true ≡ ok r)
      × (text r.1 ≡ text target ++ src)
      × (r.2 ≡ length bs)
huff_encode-decode bufs target src b ready ready' room room' =
    let (bufs', e) = huff_encode_total bufs src b ready room in
    let (bs, p, small, whole, coded, pad) = huff_encode_lem bufs src b ready e in
    let (r, f, out, count) = huff_decode_total target bs src p small b ready' room' pad coded in
    (bufs', bs, r, e, whole, length-coded src bs p coded (pad_parts p pad).1, f, out, count)
