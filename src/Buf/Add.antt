-- ===== src/Buf/Add.antt =====
-- lib/nghttp2_buf.h and lib/nghttp2_buf.c: bytes that are added at the end of a chain of buffers.
-- The macros with `fast` in their names write without a look at the room that is left: the write
-- is lost where there is none, and `last` still moves on.
pub mod Laws
pub mod Hold
pub mod Copy
use newhttp.Common.{
  zero, suc, ◌*◌, min, take, drop, ℕ, ◌+◌, ◌-◌, ◌%◌, Bool, List, [], ◌∷◌, ◌++◌, bit_or, ◌==◌, ltb,
  if◌then◌else◌, get_or, set, length, replicate,
}
use newhttp.Errors.{Rv, ok, err, abort, buffer_error, nomem, ◌>>=◌}
use newhttp.Buf.{Buf, buf_len, buf_avail, buf_shift_right}
use newhttp.Buf.Chain.{Bufs}

abbrev pub put_last : Buf → ℕ → Buf
put_last b v = record b { mem = set b.mem b.last v }

abbrev pub step_last : Buf → Buf
step_last b = record b { last = b.last + 1 }

-- The byte at `last`.
abbrev pub at_last : Buf → ℕ
at_last b = get_or b.mem b.last 0

unfoldable pub bufs_fast_addb : Bufs → ℕ → Bufs
bufs_fast_addb bufs b = record bufs { cur = step_last (put_last bufs.cur (b % 256)) }

unfoldable pub bufs_fast_addb_hold : Bufs → ℕ → Bufs
bufs_fast_addb_hold bufs b = record bufs { cur = put_last bufs.cur (b % 256) }

unfoldable pub bufs_fast_orb : Bufs → ℕ → Bufs
bufs_fast_orb bufs b = record bufs {
  cur = step_last (put_last bufs.cur (bit_or (at_last bufs.cur) b % 256));
}

unfoldable pub bufs_fast_orb_hold : Bufs → ℕ → Bufs
bufs_fast_orb_hold bufs b = record bufs {
  cur = put_last bufs.cur (bit_or (at_last bufs.cur) b % 256);
}

abbrev pub bufs_cur_avail : Bufs → ℕ
bufs_cur_avail bufs = buf_avail bufs.cur

-- The memory of a new buffer is not initialised; it is taken as zeros.
abbrev pub buf_chain_new : ℕ → Buf
buf_chain_new chunk_length = record { mem = replicate chunk_length 0; pos = 0; last = 0; mark = 0 }

-- The chain with `next` as the current buffer.
abbrev pub advanced : Bufs → Buf → List Buf → ℕ → Bufs
advanced bufs next after used = record bufs {
  before = bufs.before ++ bufs.cur ∷ [];
  cur = next;
  after = after;
  chunk_used = used;
}

-- The two ways to the next buffer, by the buffers behind the current one.
unfoldable pub alloc_chain : List Buf → Bufs → Rv Bufs
alloc_chain (next ∷ after) bufs = ok (advanced bufs next after bufs.chunk_used)
alloc_chain [] bufs =
    if bufs.max_chunk == bufs.chunk_used
    then err buffer_error
    else if bufs.serves bufs.chunk_used
    then ok (
        advanced bufs (buf_shift_right (buf_chain_new bufs.chunk_length) bufs.offset) []
          (bufs.chunk_used + 1))
    else err nomem

unfoldable pub bufs_alloc_chain : Bufs → Rv Bufs
unfolding alloc_chain
bufs_alloc_chain bufs = alloc_chain bufs.after bufs

unfoldable pub bufs_ensure_addb : Bufs → Rv Bufs
unfolding bufs_alloc_chain
bufs_ensure_addb bufs = if ltb 0 (bufs_cur_avail bufs) then ok bufs else bufs_alloc_chain bufs

unfoldable pub bufs_addb : Bufs → ℕ → Rv Bufs
unfolding bufs_ensure_addb bufs_fast_addb
bufs_addb bufs b = bufs_ensure_addb bufs >>= λ bufs'. ok (bufs_fast_addb bufs' b)

unfoldable pub bufs_addb_hold : Bufs → ℕ → Rv Bufs
unfolding bufs_ensure_addb bufs_fast_addb_hold
bufs_addb_hold bufs b = bufs_ensure_addb bufs >>= λ bufs'. ok (bufs_fast_addb_hold bufs' b)

unfoldable pub bufs_orb : Bufs → ℕ → Rv Bufs
unfolding bufs_ensure_addb bufs_fast_orb
bufs_orb bufs b = bufs_ensure_addb bufs >>= λ bufs'. ok (bufs_fast_orb bufs' b)

unfoldable pub bufs_orb_hold : Bufs → ℕ → Rv Bufs
unfolding bufs_ensure_addb bufs_fast_orb_hold
bufs_orb_hold bufs b = bufs_ensure_addb bufs >>= λ bufs'. ok (bufs_fast_orb_hold bufs' b)

unfoldable pub bufs_advance : Bufs → Rv Bufs
unfolding bufs_alloc_chain
bufs_advance bufs = bufs_alloc_chain bufs

-- `nghttp2_cpymem` to `last`, with `last` behind the bytes afterwards.
unfoldable pub bufs_cpymem : Bufs → List ℕ → Bufs
unfolding bufs_fast_addb
bufs_cpymem bufs [] = bufs
bufs_cpymem bufs (b ∷ bs) = bufs_cpymem (bufs_fast_addb bufs b) bs

unfoldable pub bufs_avail : Bufs → ℕ
bufs_avail bufs =
    bufs_cur_avail bufs + (bufs.chunk_length - bufs.offset) * (bufs.max_chunk - bufs.chunk_used)

-- The loop, with fuel for two rounds to a byte: one that takes a buffer and one that copies.
unfoldable pub bufs_add_loop : ℕ → Bufs → List ℕ → Rv Bufs
bufs_add_loop fuel bufs [] = ok bufs
bufs_add_loop zero bufs (b ∷ p) = abort
bufs_add_loop (suc fuel) bufs (b ∷ p) =
    let nwrite = min (bufs_cur_avail bufs) (length (b ∷ p)) in
    let next = bufs_alloc_chain bufs >>= λ bufs'. bufs_add_loop fuel bufs' (b ∷ p) in
    let rest = bufs_add_loop fuel (bufs_cpymem bufs (take nwrite (b ∷ p))) (drop nwrite (b ∷ p)) in
    if nwrite == 0 then next else rest

unfoldable pub bufs_add : Bufs → List ℕ → Rv Bufs
bufs_add bufs src =
    if ltb (bufs_avail bufs) (length src)
    then err buffer_error
    else bufs_add_loop (2 * length src) bufs src

abbrev pub lens : List Buf → ℕ
lens [] = 0
lens (b ∷ bs) = buf_len b + lens bs

-- `nghttp2_bufs_len`, over all buffers of the chain.
unfoldable pub bufs_len : Bufs → ℕ
bufs_len bufs = lens bufs.before + buf_len bufs.cur + lens bufs.after
