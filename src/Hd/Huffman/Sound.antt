-- ===== src/Hd/Huffman/Sound.antt =====
-- lib/nghttp2_hd_huffman.c: what the decoder adds to its buffers is a text whose code it has read.
use newhttp.Common.{
  ℕ, ◌-◌, ◌/◌, ◌<◌, ◌≡◌, refl, sym, ap, ◌∙◌, Bool, true, false, List, [], ◌∷◌, ◌++◌, ◌==◌, bit_and,
  arith, inl, inr, Bool-cases,
}
use mathlib.Core.List.{append_assoc, append-nil}
use mathlib.Core.Path.{subst}
use newhttp.Common.Table.{holds_below, holds_below_at}
use newhttp.Common.Bits.{bit_and_mask}
use newhttp.Errors.{ok, bind_stages}
use newhttp.Buf.Chain.{Bufs}
use newhttp.Buf.Add.{bufs_addb, bufs_fast_addb, bufs_cur_avail}
use newhttp.Buf.Add.Laws.{text, IsReady, bufs_addb_lem, bufs_fast_addb_lem}
use newhttp.Hd.Huffman.{
  entry, has, huff_accepted, huff_sym, huff_fail, HuffContext, huff_take, huff_decode_sym_emit,
  huff_decode_byte, huff_decode_loop,
}
use newhttp.Hd.Huffman.Bits.{
  bits, byte_bits, byte_bits-append, codes_of, codes_of-append, code_of, same_bits, same_bits-eq,
}
use newhttp.Hd.Huffman.Rows.{path_of, is_padding, reads_state, reads_accept, reads_sym, reads_quiet}

-- Every number of the list is a byte.
abbrev pub Bytes : List ℕ → Type 0
Bytes [] = Unit
Bytes (x ∷ xs) = (x < 256) × Bytes xs

pub Bytes-append : (xs ys : List ℕ) → Bytes xs → Bytes ys → Bytes (xs ++ ys)
Bytes-append [] ys h k = k
Bytes-append (x ∷ xs) ys h k = (h.0, Bytes-append xs ys h.1 k)

nibbles_fit :
    holds_below (λ b. same_bits (bits 8 b) (bits 4 (b / 16) ++ bits 4 (bit_and b 0xf))) 256 ≡ true
unfolding holds_below same_bits bits
nibbles_fit = refl

pub bits-nibbles : (b : ℕ) → b < 256 → bits 8 b ≡ bits 4 (b / 16) ++ bits 4 (bit_and b 0xf)
bits-nibbles b small = same_bits-eq _ _ (holds_below_at _ 256 b small nibbles_fit)

-- The buffers after some bytes are added, with the room that `avail` says.
abbrev pub Added : Bufs → List ℕ → Bufs × ℕ → Type 0
Added bufs xs r = (text r.0 ≡ text bufs ++ xs) × IsReady 1 r.0 × (r.1 ≡ bufs_cur_avail r.0)

Added-trans :
    (bufs b : Bufs) (a : ℕ) {r : Bufs × ℕ} (xs ys : List ℕ)
    → Added bufs xs (b, a)
    → Added b ys r
    → Added bufs (xs ++ ys) r
Added-trans bufs b a xs ys p q =
    (q.0 ∙ ap (λ t. t ++ ys) p.0 ∙ append_assoc (text bufs) xs ys, q.1, q.2)

pub huff_decode_sym_emit_lem :
    (bufs : Bufs) (b avail : ℕ) {r : Bufs × ℕ}
    → IsReady 1 bufs
    → avail ≡ bufs_cur_avail bufs
    → b < 256
    → huff_decode_sym_emit bufs b avail ≡ ok r
    → Added bufs (b ∷ []) r
unfolding huff_decode_sym_emit
huff_decode_sym_emit_lem bufs b avail ready e small h = elim (Bool-cases (avail == 0)) [
  | inr spare ↦
      (let a = bufs_fast_addb_lem 1 bufs b ready (ground arith) small in
        subst (Added bufs (b ∷ [])) {x = (bufs_fast_addb bufs b, avail - 1)} (cc (rw spare at h))
          (a.0, a.1, omega (arith, a.2)))
  | inl full ↦
      (let (bufs', p, q) =
          bind_stages (bufs_addb bufs b) (λ c. ok (c, bufs_cur_avail c)) (rw full at h) in
        let a = bufs_addb_lem 1 bufs b (omega arith) ready small p in
        subst (Added bufs (b ∷ [])) {x = (bufs', bufs_cur_avail bufs')} (cc q) (a.0, a.1, refl))
]

-- The bits that are read up to an entry are the code of what it adds, and the bits of its state.
abbrev Took : ℕ → ℕ → Bufs → Bufs × ℕ → Type 0
Took state nibble bufs r =
    (xs : List ℕ) × Bytes xs
    × Added bufs xs r
    × (path_of state ++ bits 4 nibble ≡ codes_of xs ++ path_of (entry state nibble).state)
    × (has (entry state nibble) huff_fail ≡ false)

pub huff_take_lem :
    (state nibble : ℕ) (bufs : Bufs) (avail : ℕ) {r : Bufs × ℕ}
    → state < 256
    → nibble < 16
    → IsReady 1 bufs
    → avail ≡ bufs_cur_avail bufs
    → huff_take (entry state nibble) bufs avail ≡ ok r
    → Took state nibble bufs r
unfolding huff_take codes_of
huff_take_lem state nibble bufs avail s n ready e h =
    elim (Bool-cases (has (entry state nibble) huff_fail)) [
      | inl fails ↦ cc (rw fails at h)
      | inr reads ↦ elim (Bool-cases (has (entry state nibble) huff_sym)) [
        | inl emits ↦
            (let row = reads_sym state nibble s n reads emits in
              (
                (entry state nibble).sym ∷ [],
                (row.0, tt),
                huff_decode_sym_emit_lem bufs (entry state nibble).sym avail ready e row.0
                    (rw (reads, emits) at h),
                row.1
                    ∙ ap (λ t. t ++ path_of (entry state nibble).state)
                        (sym (append-nil (code_of (entry state nibble).sym))),
                reads,
              ))
        | inr quiet ↦ (
          [],
          tt,
          subst (Added bufs []) (cc (rw (reads, quiet) at h))
              (sym (append-nil (text bufs)), ready, e),
          reads_quiet state nibble s n reads quiet,
          reads,
        )
      ]
    ]

-- A state of the decoder: in the table, and accepting exactly if its bits are a padding.
pub record IsState (ctx : HuffContext) : Type 0 where
  pub below : ctx.state < 256
  pub accepts : ctx.accept ≡ is_padding (path_of ctx.state)

-- The bytes of the source are the code of what is added, between the bits of the two states.
abbrev pub Decoded : HuffContext → Bufs → List ℕ → HuffContext × Bufs × ℕ → Type 0
Decoded ctx bufs src r =
    (xs : List ℕ) × Bytes xs
    × Added bufs xs (r.1, r.2)
    × (path_of ctx.state ++ byte_bits src ≡ codes_of xs ++ path_of r.0.state)
    × IsState r.0

-- Two equations between strings of bits, one behind the other.
join_bits :
    (p q r u v n m : List Bool) → p ++ n ≡ u ++ q → q ++ m ≡ v ++ r → p ++ (n ++ m) ≡ (u ++ v) ++ r
join_bits p q r u v n m h k =
    sym (append_assoc p n m)
    ∙ ap (λ t. t ++ m) h
    ∙ append_assoc u q m
    ∙ ap (λ t. u ++ t) k
    ∙ sym (append_assoc u v r)

huff_decode_byte_lem :
    (ctx : HuffContext) (bufs : Bufs) (avail byte : ℕ) {r : HuffContext × Bufs × ℕ}
    → ctx.state < 256
    → byte < 256
    → IsReady 1 bufs
    → avail ≡ bufs_cur_avail bufs
    → huff_decode_byte ctx bufs avail byte ≡ ok r
    → Decoded ctx bufs (byte ∷ []) r
unfolding huff_decode_byte byte_bits
huff_decode_byte_lem ctx bufs avail byte s small ready e h =
    let high = entry ctx.state (byte / 16) in
    let low = entry high.state (bit_and byte 0xf) in
    let nibble : bit_and byte 0xf < 16 = omega (arith, bit_and_mask 4 byte) in
    let ((b1, a1), p1, h1) = bind_stages (huff_take high bufs avail) _ h in
    let ((b2, a2), p2, h2) = bind_stages (huff_take low b1 a1) _ h1 in
    let (xs, xb, xa, xe, xf) =
      huff_take_lem ctx.state (byte / 16) bufs avail s (omega arith) ready e p1 in
    let s1 = reads_state ctx.state (byte / 16) s (omega arith) xf in
    let (ys, yb, ya, ye, yf) =
      huff_take_lem high.state (bit_and byte 0xf) b1 a1 s1 nibble xa.1 xa.2 p2 in
    subst (Decoded ctx bufs (byte ∷ []))
      {x = (record { state = low.state; accept = has low huff_accepted }, b2, a2)} (cc h2)
      (
        xs ++ ys,
        Bytes-append xs ys xb yb,
        Added-trans bufs b1 a1 xs ys xa ya,
        ap (λ t. path_of ctx.state ++ t) (append-nil (bits 8 byte) ∙ bits-nibbles byte small)
            ∙ join_bits (path_of ctx.state) (path_of high.state) (path_of low.state) (codes_of xs)
                (codes_of ys) (bits 4 (byte / 16)) (bits 4 (bit_and byte 0xf)) xe ye
            ∙ ap (λ t. t ++ path_of low.state) (sym (codes_of-append xs ys)),
        record {
          below = reads_state high.state (bit_and byte 0xf) s1 nibble yf;
          accepts = reads_accept high.state (bit_and byte 0xf) s1 nibble yf;
        },
      )

Decoded-trans :
    (ctx : HuffContext) (bufs : Bufs) (u v : List ℕ) (ctx1 : HuffContext) (b1 : Bufs) (a1 : ℕ)
    → {r : HuffContext × Bufs × ℕ} → Decoded ctx bufs u (ctx1, b1, a1)
    → Decoded ctx1 b1 v r
    → Decoded ctx bufs (u ++ v) r
Decoded-trans ctx bufs u v ctx1 b1 a1 {r = r} (xs, xb, xa, xe, xs') (ys, yb, ya, ye, ys') = (
  xs ++ ys,
  Bytes-append xs ys xb yb,
  Added-trans bufs b1 a1 xs ys xa ya,
  ap (λ t. path_of ctx.state ++ t) (byte_bits-append u v)
      ∙ join_bits (path_of ctx.state) (path_of ctx1.state) (path_of r.0.state) (codes_of xs)
          (codes_of ys) (byte_bits u) (byte_bits v) xe ye
      ∙ ap (λ t. t ++ path_of r.0.state) (sym (codes_of-append xs ys)),
  ys',
)

pub huff_decode_loop_lem :
    (ctx : HuffContext) (bufs : Bufs) (avail : ℕ) (src : List ℕ) {r : HuffContext × Bufs × ℕ}
    → IsState ctx
    → Bytes src
    → IsReady 1 bufs
    → avail ≡ bufs_cur_avail bufs
    → huff_decode_loop ctx bufs avail src ≡ ok r
    → Decoded ctx bufs src r
unfolding huff_decode_loop byte_bits codes_of
huff_decode_loop_lem ctx bufs avail [] st small ready e h =
    subst (Decoded ctx bufs []) (cc h)
      ([], tt, (sym (append-nil (text bufs)), ready, e), append-nil (path_of ctx.state), st)
huff_decode_loop_lem ctx bufs avail (byte ∷ src) st small ready e h =
    let ((ctx1, b1, a1), p, q) = bind_stages (huff_decode_byte ctx bufs avail byte) _ h in
    let first = huff_decode_byte_lem ctx bufs avail byte st.below small.0 ready e p in
    let (_, _, added, _, st1) = first in
    let rest = huff_decode_loop_lem ctx1 b1 a1 src st1 small.1 added.1 added.2 q in
    Decoded-trans ctx bufs (byte ∷ []) src ctx1 b1 a1 first rest
