-- ===== src/Frame/PadLaws.antt =====
-- Padding in lib/nghttp2_frame.c: what `frame_set_pad` makes of a written frame.
use newhttp.Common.{
  ℕ, suc, ◌+◌, ◌-◌, ◌%◌, ◌^◌, ◌≤◌, ◌<◌, ◌≡◌, sym, ap, ◌∙◌, false, List, ◌∷◌, ◌++◌, arith, length,
  take, drop, length-append, replicate, length-replicate, set, bit_or, take-append,
}
use newhttp.Common.Memory.{at, copy, copy_lem, at-append, at-at, drop-at, drop-at_add}
use newhttp.Helper.{put_uint32be, get_uint32}
use newhttp.Buf.{Buf, contents}
use newhttp.Frame.{FrameHd, frame_hdlen}
use newhttp.Frame.Flag
use newhttp.Frame.Header.{IsHd, hd_bytes}
use newhttp.Frame.Pad.{pad_hd, frame_set_pad}
use mathlib.Core.List.{append_assoc}

-- The header of the padded frame.
abbrev pub padded : FrameHd → ℕ → FrameHd
padded hd padlen = record hd { length = hd.length + padlen; flags = bit_or hd.flags Flag.padded }

-- A written frame in a buffer: its header and `payload` from `pos` to `last`, one byte of room in
-- front, and `rest` behind.
pub record IsWritten (b : Buf) (hd : FrameHd) (payload rest : List ℕ) : Type 0 where
  pub spare : ℕ
  pub front : 1 ≤ b.pos
  pub inside : b.pos ≤ length b.mem
  pub bytes : drop (b.pos - 1) b.mem ≡ spare ∷ (hd_bytes hd ++ (payload ++ rest))
  pub filled : b.last ≡ b.pos + 9 + length payload

module _ (hd : FrameHd) (padlen : ℕ) (h : IsHd hd) (fits : hd.length + padlen < 2 ^ 24) where
  moved_hd : List ℕ → List ℕ
  moved_hd p = pad_hd padlen (copy p (take frame_hdlen (drop 1 p)))

  moved_hd_lem :
      (spare : ℕ) (tail : List ℕ)
      → moved_hd (spare ∷ (hd_bytes hd ++ tail))
        ≡ hd_bytes (padded hd padlen) ++ ((hd.stream_id % 256) ∷ tail)
  unfolding moved_hd pad_hd put_uint32be get_uint32
  moved_hd_lem spare tail = ground arith

  module _ (b : Buf) (payload rest : List ℕ) (w : IsWritten b hd payload rest) where
    abbrev n : ℕ
    n = b.pos - 1

    abbrev field : List ℕ → List ℕ
    field p = set p frame_hdlen ((padlen - 1) % 256)

    abbrev zeros : List ℕ
    zeros = replicate (padlen - 1) 0

    length-zeros : length zeros ≡ padlen - 1
    length-zeros = length-replicate (padlen - 1) _

    -- The frame with its new header and the Pad Length field, before the trailing zeros.
    abbrev front : List ℕ
    front = hd_bytes (padded hd padlen) ++ (((padlen - 1) % 256) ∷ payload)

    abbrev before_zeros : List ℕ
    before_zeros =
        at n field (at n (pad_hd padlen) (at n (λ p. copy p (take frame_hdlen (drop 1 p))) b.mem))

    headed : drop n before_zeros ≡ front ++ rest
    unfolding moved_hd
    headed =
        ap (drop n)
          (ap (at n field) (at-at n (pad_hd padlen) _ b.mem) ∙ at-at n field moved_hd b.mem)
        ∙ drop-at n (λ p. field (moved_hd p)) b.mem (omega (arith, w.inside))
        ∙ ap (λ p. field (moved_hd p)) w.bytes
        ∙ ap field (moved_hd_lem w.spare (payload ++ rest))

    zeroed :
        padlen - 1 ≤ length rest
        → at (suc (9 + length payload)) (λ p. copy p zeros) (front ++ rest)
          ≡ front ++ (zeros ++ drop (length zeros) rest)
    zeroed room =
        let size : suc (9 + length payload) ≡ length front = omega arith in
        ap (λ k. at k (λ p. copy p zeros) (front ++ rest)) size
        ∙ at-append front (λ p. copy p zeros) rest
        ∙ ap (λ t. front ++ t) (copy_lem rest zeros (omega (arith, length-zeros)))

    -- Padding of 1 to 256 bytes, of a written frame with a byte in front and room behind and whose
    -- header and padded length fit the wire, keeps the payload, puts the Pad Length field in front
    -- of it and that many zeros behind it, and updates the length and the flags of the header.
    pub contents-frame_set_pad :
        1 ≤ padlen
        → padlen ≤ 256
        → padlen - 1 ≤ length rest
        → contents (frame_set_pad b padlen false)
          ≡ hd_bytes (padded hd padlen) ++ ((padlen - 1) ∷ (payload ++ zeros))
    unfolding frame_set_pad
    contents-frame_set_pad long short room =
        let place : b.last ≡ n + suc (9 + length payload) = omega (arith, w.front, w.filled) in
        let view =
          drop-at_add n (9 + length payload) b.last (λ p. copy p zeros) before_zeros place in
        let small : (padlen - 1) % 256 ≡ padlen - 1 = omega arith in
        let size : b.last + (padlen - 1) - n ≡ length (front ++ zeros) =
          omega (arith, w.front, w.filled, length-append payload zeros, length-zeros) in
        rw (view, headed, zeroed room, size)
          (ap (take (length (front ++ zeros))) (sym (append_assoc front zeros _))
            ∙ take-append (front ++ zeros) (drop (length zeros) rest)
            ∙ rw small)
