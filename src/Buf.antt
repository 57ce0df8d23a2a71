-- ===== src/Buf.antt =====
-- lib/nghttp2_buf.h and lib/nghttp2_buf.c: one buffer, and chained buffers. The pointers of a
-- buffer are offsets from `begin`, and `end` is the length of the memory.
pub mod Add
pub mod Chain
pub mod Laws
mod Tests
use newhttp.Common.{
  ℕ, ◌+◌, ◌-◌, ◌*◌, ◌≤◌, List, [], ◌∷◌, ◌++◌, length, take, drop, replicate, leb, if◌then◌else◌,
  max, Bool,
}
use newhttp.Errors.{Rv, ok, err, nomem}

pub record Buf : Type 0 where
  pub mem : List ℕ
  pub pos : ℕ
  pub last : ℕ
  pub mark : ℕ

abbrev pub buf_len : Buf → ℕ
buf_len b = b.last - b.pos

abbrev pub buf_avail : Buf → ℕ
buf_avail b = length b.mem - b.last

abbrev pub buf_cap : Buf → ℕ
buf_cap b = length b.mem

-- The bytes in [pos, last).
abbrev pub contents : Buf → List ℕ
contents b = take (buf_len b) (drop b.pos b.mem)

abbrev pub buf_shift_right : Buf → ℕ → Buf
buf_shift_right b n = record b { pos = b.pos + n; last = b.last + n }

abbrev pub buf_init : Buf
buf_init = record { mem = []; pos = 0; last = 0; mark = 0 }

abbrev pub buf_reset : Buf → Buf
buf_reset b = record b { pos = 0; last = 0; mark = 0 }

-- `realloc` keeps the old bytes; `fresh` are the new ones, if the allocator gives them.
unfoldable pub buf_reserve : Bool → Buf → ℕ → Rv Buf
buf_reserve served b new_cap =
    if leb new_cap (buf_cap b)
    then ok b
    else (let cap = max new_cap (buf_cap b * 2) in
        if served
        then ok (record b { mem = b.mem ++ replicate (cap - buf_cap b) 0 })
        else err nomem)
