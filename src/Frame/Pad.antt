-- ===== src/Frame/Pad.antt =====
-- lib/nghttp2_frame.c: padding of a frame that is already written.
use newhttp.Common.{
  ℕ, ◌+◌, ◌-◌, ◌*◌, ◌/◌, ◌%◌, ◌^◌, Bool, List, [], ◌∷◌, bit_or, get_or, set, take, drop, replicate,
  if◌then◌else◌, ◌==◌, leb,
}
use newhttp.Common.Memory.{at, copy}
use newhttp.Errors.{Rv, ok, ◌>>◌, assert}
use newhttp.Helper.{put_uint32be, get_uint32}
use newhttp.Buf.{Buf, buf_avail}
use newhttp.Buf.Chain.{Bufs}
use newhttp.Frame.{FrameHd, frame_hdlen}
use newhttp.Frame.Flag

-- The header after the move, from its new first byte on: the flag and the length are updated.
unfoldable pub pad_hd : ℕ → List ℕ → List ℕ
pad_hd padlen p =
    let p1 = set p 4 (bit_or (get_or p 4 0) Flag.padded) in
    let newlen = get_uint32 p1 / 2 ^ 8 + padlen in
    put_uint32be p1 ((newlen * 2 ^ 8 + get_or p1 3 0) % 2 ^ 32)

unfoldable pub frame_set_pad : Buf → ℕ → Bool → Buf
unfolding pad_hd
frame_set_pad b padlen framehd_only =
    let pos = b.pos - 1 in
    let moved = at pos (λ p. copy p (take frame_hdlen (drop 1 p))) b.mem in
    let headed = at pos (pad_hd padlen) moved in
    let trail_padlen = padlen - 1 in
    let field = at pos (λ p. set p frame_hdlen (trail_padlen % 256)) headed in
    let zeroed = at b.last (λ p. copy p (replicate trail_padlen 0)) field in
    if framehd_only
    then record b { mem = headed; pos = pos }
    else record b { mem = zeroed; pos = pos; last = b.last + trail_padlen }

-- A change of the first buffer of the chain.
abbrev pub with_head : (Buf → Buf) → Bufs → Bufs
with_head f bufs = elim bufs.before [
  | [] ↦ record bufs { cur = f bufs.cur }
  | b ∷ bs ↦ record bufs { before = f b ∷ bs }
]

abbrev pub head : Bufs → Buf
head bufs = elim bufs.before [ [] ↦ bufs.cur | b ∷ bs ↦ b ]

unfoldable pub frame_add_pad : Bufs → FrameHd → ℕ → Bool → Rv (Bufs × FrameHd)
unfolding frame_set_pad
frame_add_pad bufs hd padlen framehd_only =
    if padlen == 0
    then ok (bufs, hd)
    else assert (leb (padlen - 1) (buf_avail (head bufs)))
      >> ok (
        with_head (λ b. frame_set_pad b padlen framehd_only) bufs,
        record hd { length = hd.length + padlen; flags = bit_or hd.flags Flag.padded },
      )
