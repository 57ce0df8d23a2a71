-- ===== src/Hd/Huffman/Laws.antt =====
-- lib/nghttp2_hd_huffman.c: the decoder.
use newhttp.Common.{
  ℕ, ◌+◌, ◌≤◌, ◌≡◌, refl, sym, ap, ◌∙◌, Bool, true, false, not, List, [], ◌∷◌, ◌++◌, ◌&&◌, length,
  length-append, arith, if◌then◌else◌, inl, inr, Bool-cases,
}
use mathlib.Core.List.{append-nil}
use mathlib.Core.Path.{subst}
use newhttp.Errors.{Rv, ok, err, abort, header_comp, ◌>>=◌, bind_stages, >>=-ext, >>=_assoc}
use newhttp.Buf.Chain.{Bufs}
use newhttp.Buf.Add.{bufs_cur_avail, bufs_len}
use newhttp.Buf.Add.Laws.{text, IsReady}
use newhttp.Hd.Huffman.{
  HuffContext, huff_decode_context_init, huff_decode_byte, huff_decode_loop, huff_decode,
}
use newhttp.Hd.Huffman.Bits.{byte_bits, codes_of}
use newhttp.Hd.Huffman.Rows.{path_of, is_padding}
use newhttp.Hd.Huffman.Sound.{Bytes, IsState, huff_decode_loop_lem}
use newhttp.Hd.Huffman.Stream.{at_end}
use newhttp.Hd.Huffman.Complete.{Pending, huff_decode_loop_total}

init_path : path_of huff_decode_context_init.state ≡ []
unfolding huff_decode_context_init path_of
init_path = refl

pub init-IsState : IsState huff_decode_context_init
unfolding huff_decode_context_init path_of is_padding
init-IsState = record { below = omega arith; accepts = refl }

-- The buffers with the bytes that `src` is the code of.
abbrev pub Read : Bufs → List ℕ → HuffContext × Bufs × ℕ → Type 0
Read bufs src r =
    (xs : List ℕ) × (p : List Bool) × Bytes xs
    × (text r.1 ≡ text bufs ++ xs)
    × (byte_bits src ≡ codes_of xs ++ p)
    × (is_padding p ≡ true)
    × (r.2 ≡ length src)

-- If the decoder accepts a whole string of bytes, it has read all of it, the bits of the string
-- are the codes of some bytes with a padding of less than eight ones behind them, and these
-- bytes are what is added to the buffers.
pub huff_decode_lem :
    (bufs : Bufs) (src : List ℕ) {r : HuffContext × Bufs × ℕ}
    → Bytes src
    → IsReady 1 bufs
    → huff_decode huff_decode_context_init bufs src true ≡ ok r
    → Read bufs src r
unfolding huff_decode
huff_decode_lem bufs src {r = r} b ready h =
    let ((ctx1, b1, a1), e, k) =
      bind_stages (huff_decode_loop huff_decode_context_init bufs (bufs_cur_avail bufs) src) _ h in
    let (xs, small, added, coded, st) =
      huff_decode_loop_lem huff_decode_context_init bufs (bufs_cur_avail bufs) src init-IsState b
        ready refl e in
    elim (Bool-cases ctx1.accept) [
      | inr refused ↦ cc (rw refused at k)
      | inl accepted ↦
          subst (Read bufs src) {x = (ctx1, b1, length src)} {y = r} (cc (rw accepted at k)) (
            xs,
            path_of ctx1.state,
            small,
            added.0,
            ap (λ u. u ++ byte_bits src) (sym init_path) ∙ coded,
            sym st.accepts ∙ accepted,
            refl,
          )
    ]

-- With what is left of the room.
pub huff_decode_room :
    (slack : ℕ) (bufs : Bufs) (src xs : List ℕ) (p : List Bool)
    → Bytes src
    → Bytes xs
    → IsReady 1 bufs
    → length xs + slack ≤ bufs_cur_avail bufs
    → is_padding p ≡ true
    → byte_bits src ≡ codes_of xs ++ p
    → (r : HuffContext × Bufs × ℕ) × (huff_decode huff_decode_context_init bufs src true ≡ ok r)
      × (text r.1 ≡ text bufs ++ xs)
      × (r.2 ≡ length src)
      × IsReady 1 r.1
      × (slack ≤ bufs_cur_avail r.1)
      × (bufs_len r.1 ≡ bufs_len bufs + length xs)
unfolding huff_decode
huff_decode_room slack bufs src xs p b small ready room pad e =
    let w : Pending slack (bufs_len bufs + length xs) p (byte_bits src) (text bufs ++ xs)
        huff_decode_context_init.state bufs (bufs_cur_avail bufs) =
      record {
        xs = xs;
        small = small;
        whole = refl;
        ready = ready;
        avail_eq = refl;
        enough = room;
        counted = refl;
        coded = ap (λ u. u ++ byte_bits src) init_path ∙ e;
        below = init-IsState.below;
      } in
    let (r, h, w', acc) =
      huff_decode_loop_total slack (bufs_len bufs + length xs) p pad (text bufs ++ xs)
        huff_decode_context_init src bufs (bufs_cur_avail bufs) b init-IsState.accepts w in
    let (none_left, same) =
      at_end p pad r.0.state w'.xs w'.below w'.small
        (sym (append-nil (path_of r.0.state)) ∙ w'.coded) in
    let accepted : r.0.accept ≡ true = acc ∙ ap is_padding same ∙ pad in
    (
      (r.0, r.1, length src),
      rw (h, accepted),
      sym (append-nil (text r.1)) ∙ ap (λ u. text r.1 ++ u) (sym none_left) ∙ w'.whole,
      refl,
      w'.ready,
      omega (arith, w'.enough, w'.avail_eq),
      omega (arith, w'.counted, ap length none_left),
    )

-- A string of bytes whose bits are the codes of a text with a padding of less than eight ones
-- behind them is accepted whole, and the text is added to the buffers, if the current buffer has
-- room for it.
pub huff_decode_total :
    (bufs : Bufs) (src xs : List ℕ) (p : List Bool)
    → Bytes src
    → Bytes xs
    → IsReady 1 bufs
    → length xs ≤ bufs_cur_avail bufs
    → is_padding p ≡ true
    → byte_bits src ≡ codes_of xs ++ p
    → (r : HuffContext × Bufs × ℕ) × (huff_decode huff_decode_context_init bufs src true ≡ ok r)
      × (text r.1 ≡ text bufs ++ xs)
      × (r.2 ≡ length src)
huff_decode_total bufs src xs p b small ready room pad e =
    let (r, h, t, n, _, _, _) =
      huff_decode_room 0 bufs src xs p b small ready (omega (arith, room)) pad e in
    (r, h, t, n)

loop-append :
    (ctx : HuffContext) (bufs : Bufs) (avail : ℕ) (u v : List ℕ)
    → huff_decode_loop ctx bufs avail (u ++ v)
      ≡ (huff_decode_loop ctx bufs avail u >>= λ x. huff_decode_loop x.0 x.1 x.2 v)
unfolding huff_decode_loop
loop-append ctx bufs avail [] v = refl
loop-append ctx bufs avail (byte ∷ u) v =
    >>=-ext (huff_decode_byte ctx bufs avail byte) (λ x. loop-append x.0 x.1 x.2 u v)
    ∙ sym (>>=_assoc (huff_decode_byte ctx bufs avail byte) _ _)

-- The end of a call: the check of the context, and the count.
abbrev close : Bool → ℕ → HuffContext × Bufs × ℕ → Rv (HuffContext × Bufs × ℕ)
close final n y = if final && not y.0.accept then err header_comp else ok (y.0, y.1, n)

close_add :
    (final : Bool) (n m : ℕ) (y : HuffContext × Bufs × ℕ)
    → close final (n + m) y ≡ (close final m y >>= λ z. ok (z.0, z.1, n + z.2))
close_add final n m y = elim (Bool-cases (final && not y.0.accept)) [
  | inl refused ↦ rw refused
  | inr fine ↦ rw fine
]

behind :
    (ctx : HuffContext) (bufs : Bufs) (u v : List ℕ) (final : Bool)
    → IsState ctx
    → Bytes u
    → IsReady 1 bufs
    → (m : Rv (HuffContext × Bufs × ℕ)) → huff_decode_loop ctx bufs (bufs_cur_avail bufs) u ≡ m
    → (m >>= λ x. huff_decode_loop x.0 x.1 x.2 v >>= close final (length (u ++ v))) ≡ (
        m >>= λ x.
        (huff_decode_loop x.0 x.1 (bufs_cur_avail x.1) v >>= close final (length v)) >>= λ z.
        ok (z.0, z.1, length u + z.2))
behind ctx bufs u v final st b ready (err e) h = refl
behind ctx bufs u v final st b ready abort h = refl
behind ctx bufs u v final st b ready (ok x) h =
    let (_, _, added, _, _) =
      huff_decode_loop_lem ctx bufs (bufs_cur_avail bufs) u st b ready refl h in
    let o = huff_decode_loop x.0 x.1 (bufs_cur_avail x.1) v in
    ap (λ a. huff_decode_loop x.0 x.1 a v >>= close final (length (u ++ v))) added.2
    ∙ ap (λ n. o >>= close final n) (length-append u v)
    ∙ >>=-ext o (close_add final (length u) (length v))
    ∙ sym (>>=_assoc o _ _)

-- The source in two pieces, with the context carried over: the same context and buffers as for
-- the whole source, and the same errors; the bytes that are read add up.
pub huff_decode-append :
    (ctx : HuffContext) (bufs : Bufs) (u v : List ℕ) (final : Bool)
    → IsState ctx
    → Bytes u
    → IsReady 1 bufs
    → huff_decode ctx bufs (u ++ v) final ≡ (
        huff_decode ctx bufs u false >>= λ x.
        huff_decode x.0 x.1 v final >>= λ z. ok (z.0, z.1, x.2 + z.2))
unfolding huff_decode
huff_decode-append ctx bufs u v final st b ready =
    let m = huff_decode_loop ctx bufs (bufs_cur_avail bufs) u in
    ap (λ o. o >>= close final (length (u ++ v))) (loop-append ctx bufs (bufs_cur_avail bufs) u v)
    ∙ >>=_assoc m _ _
    ∙ behind ctx bufs u v final st b ready m refl
    ∙ sym (>>=_assoc m _ _)
