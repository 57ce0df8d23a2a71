-- ===== src/Hd/Huffman/Complete.antt =====
-- lib/nghttp2_hd_huffman.c: the decoder reads every code of a text with a padding behind it,
-- as long as the current buffer has room.
use newhttp.Common.{
  ℕ, ◌+◌, ◌-◌, ◌/◌, ◌≤◌, ◌<◌, ◌≡◌, refl, sym, ap, ◌∙◌, Bool, true, false, List, [], ◌∷◌, ◌++◌, ◌==◌,
  bit_and, length, length-take, take, arith, inl, inr, Bool-cases,
}
use mathlib.Core.List.{append_assoc}
use mathlib.Core.Path.{subst}
use newhttp.Common.Bits.{bit_and_mask}
use newhttp.Errors.{ok}
use newhttp.Buf.Chain.{Bufs}
use newhttp.Buf.Add.{bufs_fast_addb, bufs_cur_avail, bufs_len}
use newhttp.Buf.Add.Laws.{text, IsReady, bufs_fast_addb_lem, bufs_len-fast_addb}
use newhttp.Hd.Huffman.{
  entry, has, huff_accepted, huff_sym, huff_fail, HuffContext, huff_take, huff_decode_sym_emit,
  huff_decode_byte, huff_decode_loop,
}
use newhttp.Hd.Huffman.Bits.{bits, byte_bits, codes_of, code_of, ones}
use newhttp.Hd.Huffman.Rows.{
  path_of, is_padding, reads_state, reads_accept, reads_sym, reads_quiet, fails_on_ones,
}
use newhttp.Hd.Huffman.Sound.{Bytes, bits-nibbles}
use newhttp.Hd.Huffman.Stream.{no_ones, first_symbol, length-ones, take-start}

-- What is left to decode: the text is `target` once the symbols `xs` are added, for which there
-- is room with `slack` to spare, the chain has `total` bytes then, and their code with the padding is what the state has read and the bits behind.
pub record Pending (slack total : ℕ) (p : List Bool) (rest : List Bool) (target : List ℕ)
    (state : ℕ) (bufs : Bufs) (avail : ℕ) : Type 0 where
  pub xs : List ℕ
  pub small : Bytes xs
  pub whole : text bufs ++ xs ≡ target
  pub ready : IsReady 1 bufs
  pub avail_eq : avail ≡ bufs_cur_avail bufs
  pub enough : length xs + slack ≤ avail
  pub counted : bufs_len bufs + length xs ≡ total
  pub coded : path_of state ++ rest ≡ codes_of xs ++ p
  pub below : state < 256

module _ (slack total : ℕ) (p rest : List Bool) (pad : is_padding p ≡ true) (target : List ℕ)
    (state nibble : ℕ) (n : nibble < 16) (bufs : Bufs) (avail : ℕ)
    (w : Pending slack total p (bits 4 nibble ++ rest) target state bufs avail) where
  abbrev pub Stepped : Bufs × ℕ → Type 0
  Stepped r =
      (has (entry state nibble) huff_fail ≡ false)
      × Pending slack total p rest target (entry state nibble).state r.0 r.1

  no_fail : has (entry state nibble) huff_fail ≡ false
  no_fail = elim (Bool-cases (has (entry state nibble) huff_fail)) [
    | inr reads ↦ reads
    | inl fails ↦
        (let read = path_of state ++ bits 4 nibble in
          let e : take 30 read ≡ ones 30 = fails_on_ones state nibble w.below n fails in
          let long : 30 ≤ length read =
            omega (arith, ap length e, length-ones 30, length-take 30 read) in
          absurd (
            no_ones p pad w.xs w.small (
              ap (take 30) (sym (append_assoc (path_of state) (bits 4 nibble) rest ∙ w.coded))
              ∙ take-start 30 read rest long
              ∙ e)))
  ]

  huff_take_quiet :
      has (entry state nibble) huff_sym ≡ false
      → (huff_take (entry state nibble) bufs avail ≡ ok (bufs, avail)) × Stepped (bufs, avail)
  unfolding huff_take
  huff_take_quiet quiet = (
    rw (no_fail, quiet),
    (
      no_fail,
      record {
        xs = w.xs;
        small = w.small;
        whole = w.whole;
        ready = w.ready;
        avail_eq = w.avail_eq;
        enough = w.enough;
        counted = w.counted;
        coded =
            ap (λ t. t ++ rest) (sym (reads_quiet state nibble w.below n no_fail quiet))
            ∙ append_assoc (path_of state) (bits 4 nibble) rest
            ∙ w.coded;
        below = reads_state state nibble w.below n no_fail;
      },
    ),
  )

  huff_take_emits :
      has (entry state nibble) huff_sym ≡ true
      → (r : Bufs × ℕ) × (huff_take (entry state nibble) bufs avail ≡ ok r) × Stepped r
  unfolding huff_take huff_decode_sym_emit
  huff_take_emits emits =
      let t = entry state nibble in
      let (small, read) = reads_sym state nibble w.below n no_fail emits in
      let (ys, e, ysmall, coded) =
        first_symbol p pad t.sym (path_of t.state ++ rest) w.xs small w.small (
          sym (append_assoc (code_of t.sym) (path_of t.state) rest)
          ∙ ap (λ u. u ++ rest) (sym read)
          ∙ append_assoc (path_of state) (bits 4 nibble) rest
          ∙ w.coded) in
      let len = ap length e in
      let spare : (avail == 0) ≡ false = ground (arith, w.enough, len) in
      let a =
        bufs_fast_addb_lem 1 bufs t.sym w.ready (omega (arith, w.enough, len, w.avail_eq)) small in
      (
        (bufs_fast_addb bufs t.sym, avail - 1),
        rw (no_fail, emits, spare),
        (
          no_fail,
          record {
            xs = ys;
            small = ysmall;
            whole =
                ap (λ u. u ++ ys) a.0
                ∙ append_assoc (text bufs) (t.sym ∷ []) ys
                ∙ ap (λ u. text bufs ++ u) (sym e)
                ∙ w.whole;
            ready = a.1;
            avail_eq = omega (arith, a.2, w.avail_eq);
            enough = omega (arith, w.enough, len);
            counted = omega (arith, w.counted, len, bufs_len-fast_addb 1 bufs t.sym w.ready);
            coded = coded;
            below = reads_state state nibble w.below n no_fail;
          },
        ),
      )

  pub huff_take_total :
      (r : Bufs × ℕ) × (huff_take (entry state nibble) bufs avail ≡ ok r) × Stepped r
  huff_take_total = elim (Bool-cases (has (entry state nibble) huff_sym)) [
    | inl emits ↦ huff_take_emits emits
    | inr quiet ↦ (let q = huff_take_quiet quiet in ((bufs, avail), q.0, q.1))
  ]

huff_decode_byte_total :
    (slack total : ℕ) (p rest : List Bool) (pad : is_padding p ≡ true) (target : List ℕ)
    (ctx : HuffContext) (byte : ℕ) (b : byte < 256) (bufs : Bufs) (avail : ℕ)
    → Pending slack total p (bits 8 byte ++ rest) target ctx.state bufs avail
    → (r : HuffContext × Bufs × ℕ) × (huff_decode_byte ctx bufs avail byte ≡ ok r)
      × Pending slack total p rest target r.0.state r.1 r.2
      × (r.0.accept ≡ is_padding (path_of r.0.state))
unfolding huff_decode_byte
huff_decode_byte_total slack total p rest pad target ctx byte b bufs avail w =
    let high = entry ctx.state (byte / 16) in
    let nibble : bit_and byte 0xf < 16 = omega (arith, bit_and_mask 4 byte) in
    let split =
      ap (λ u. u ++ rest) (bits-nibbles byte b)
      ∙ append_assoc (bits 4 (byte / 16)) (bits 4 (bit_and byte 0xf)) rest in
    let w0 = subst (λ u. Pending slack total p u target ctx.state bufs avail) split w in
    let (r1, e1, s1) =
      huff_take_total slack total p (bits 4 (bit_and byte 0xf) ++ rest) pad target ctx.state
        (byte / 16) (omega arith) bufs avail w0 in
    let (r2, e2, s2) =
      huff_take_total slack total p rest pad target high.state (bit_and byte 0xf) nibble r1.0 r1.1
        s1.1 in
    let low = entry high.state (bit_and byte 0xf) in
    (
      (record { state = low.state; accept = has low huff_accepted }, r2.0, r2.1),
      rw (e1, e2),
      s2.1,
      reads_accept high.state (bit_and byte 0xf) s1.1.below nibble s2.0,
    )

pub huff_decode_loop_total :
    (slack total : ℕ) (p : List Bool) (pad : is_padding p ≡ true) (target : List ℕ)
    (ctx : HuffContext) (src : List ℕ) (bufs : Bufs) (avail : ℕ)
    → Bytes src
    → ctx.accept ≡ is_padding (path_of ctx.state)
    → Pending slack total p (byte_bits src) target ctx.state bufs avail
    → (r : HuffContext × Bufs × ℕ) × (huff_decode_loop ctx bufs avail src ≡ ok r)
      × Pending slack total p [] target r.0.state r.1 r.2
      × (r.0.accept ≡ is_padding (path_of r.0.state))
unfolding huff_decode_loop byte_bits
huff_decode_loop_total slack total p pad target ctx [] bufs avail b acc w =
    ((ctx, bufs, avail), refl, w, acc)
huff_decode_loop_total slack total p pad target ctx (byte ∷ src) bufs avail b acc w =
    let (r, e, w', acc') =
      huff_decode_byte_total slack total p (byte_bits src) pad target ctx byte b.0 bufs avail w in
    let (r', e', w'', acc'') =
      huff_decode_loop_total slack total p pad target r.0 src r.1 r.2 b.1 acc' w' in
    (r', rw e e', w'', acc'')
