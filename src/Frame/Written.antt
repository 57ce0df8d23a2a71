-- ===== src/Frame/Written.antt =====
-- What the functions of Frame/Pack leave in the buffer.
use newhttp.Common.{
  ℕ, ◌+◌, ◌-◌, ◌≤◌, ◌≡◌, ap, ◌∙◌, List, ◌++◌, arith, length, drop, length-drop, take-append,
}
use newhttp.Common.Memory.{at, drop-at, drop-at_add, at-append}
use newhttp.Buf.{Buf, contents}
use newhttp.Frame.{FrameHd, pack_frame_hd}
use newhttp.Frame.Header.{hd_bytes, pack_frame_hd-hd_bytes}
use newhttp.Frame.Pack.{push_hd, put_last}

-- An empty buffer with room for a header in front and `n` bytes behind.
pub record HasRoom (n : ℕ) (b : Buf) : Type 0 where
  pub empty : b.pos ≡ b.last
  pub front : 9 ≤ b.pos
  pub back : b.last + n ≤ length b.mem

-- `f` writes `bytes` at the pointer that it is given, and nothing else.
abbrev pub Writes : (List ℕ → List ℕ) → List ℕ → Type 0
Writes f bytes = (p : List ℕ) → length bytes ≤ length p → f p ≡ bytes ++ drop (length bytes) p

module _ (b : Buf) (hd : FrameHd) (f : List ℕ → List ℕ) (bytes : List ℕ) where
  module _ (w : Writes f bytes) (room : HasRoom (length bytes) b) where
    abbrev start : List ℕ
    start = drop (b.pos - 9) b.mem

    start_room : length start ≡ length b.mem - (b.pos - 9)
    start_room = length-drop (b.pos - 9) b.mem

    view :
        drop (b.pos - 9) (at b.last f (at (b.pos - 9) (λ p. pack_frame_hd p hd) b.mem))
        ≡ hd_bytes hd ++ (bytes ++ drop (length bytes) (drop 9 start))
    view =
        drop-at_add (b.pos - 9) 8 b.last f (at (b.pos - 9) (λ p. pack_frame_hd p hd) b.mem)
          (omega arith)
        ∙ ap (at 9 f) (
            drop-at (b.pos - 9) (λ p. pack_frame_hd p hd) b.mem (omega arith)
            ∙ pack_frame_hd-hd_bytes start hd (omega (arith, start_room)))
        ∙ at-append (hd_bytes hd) f (drop 9 start)
        ∙ ap (λ t. hd_bytes hd ++ t)
            (w (drop 9 start) (omega (arith, start_room, length-drop 9 start)))

    pub written_lem : contents (put_last (push_hd b hd) (length bytes) f) ≡ hd_bytes hd ++ bytes
    unfolding put_last push_hd
    written_lem =
        let n : b.last + length bytes - (b.pos - 9) ≡ length (hd_bytes hd ++ bytes) = omega arith in
        rw (view, n) (take-append (hd_bytes hd ++ bytes) (drop (length bytes) (drop 9 start)))
