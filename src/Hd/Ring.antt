-- ===== src/Hd/Ring.antt =====
-- The ring buffer of lib/nghttp2_hd.c, which holds the dynamic table with the newest entry first.
pub mod Index
pub mod Laws
pub mod Table
pub mod Refine
mod Tests
use newhttp.Common.{
  ℕ, zero, suc, ◌+◌, ◌-◌, ◌*◌, ◌%◌, ◌^◌, bit_and, Bool, List, [], ◌∷◌, Option, none, some, get_or,
  set, replicate, ltb, leb, if◌then◌else◌,
}
use newhttp.Errors.{Error, Rv, ok, err, abort, ◌>>=◌}

pub record Ringbuf {ℓ} (A : Type ℓ) : Type ℓ where
  pub buffer : List A
  pub mask : ℕ
  pub first : ℕ
  pub len : ℕ

-- `for (size = 1; size < bufsize; size <<= 1);` from `size` on; after 64 rounds `size` is 0, and
-- the loop does not end; the callers give `abort` for that.
unfoldable pub ring_size : ℕ → ℕ → ℕ → Option ℕ
ring_size zero bufsize size = none
ring_size (suc fuel) bufsize size =
    let rest = ring_size fuel bufsize (size * 2 % 2 ^ 64) in
    if ltb size bufsize then rest else some size

unfoldable pub ringbuf_pop_back {ℓ} : {A : Type ℓ} → Ringbuf A → Rv (Ringbuf A)
ringbuf_pop_back r =
    if ltb 0 r.len
    then ok (record { buffer = r.buffer; mask = r.mask; first = r.first; len = r.len - 1 })
    else abort

-- `junk` is what the slots of fresh memory hold, and `malloc` says whether the allocator gives so
-- many bytes.
module _ {ℓ} {A : Type ℓ} (junk : A) where
  -- `buffer[(first + idx) & mask]`
  abbrev pub cell : Ringbuf A → ℕ → A
  cell r idx = get_or r.buffer (bit_and ((r.first + idx) % 2 ^ 64) r.mask) junk

  unfoldable pub ringbuf_init : (ℕ → Bool) → ℕ → Rv (Ringbuf A)
  unfolding ring_size
  ringbuf_init malloc bufsize = elim (ring_size 65 bufsize 1) [
    | none ↦ abort
    | some size ↦
        if malloc (8 * size % 2 ^ 64)
        then ok (record { buffer = replicate size junk; mask = size - 1; first = 0; len = 0 })
        else err Error.nomem
  ]

  unfoldable pub ringbuf_get : Ringbuf A → ℕ → Rv A
  ringbuf_get r idx = if ltb idx r.len then ok (cell r idx) else abort

  -- The loop that copies the entries: those below `n`, in order.
  unfoldable pub copy_cells : Ringbuf A → ℕ → List A → List A
  copy_cells r zero buffer = buffer
  copy_cells r (suc n) buffer = set (copy_cells r n buffer) n (cell r n)

  unfoldable pub ringbuf_reserve : (ℕ → Bool) → ℕ → Ringbuf A → Rv (Ringbuf A)
  unfolding ring_size
  ringbuf_reserve malloc bufsize r =
      if leb bufsize ((r.mask + 1) % 2 ^ 64) then ok r else elim (ring_size 65 bufsize 1) [
        | none ↦ abort
        | some size ↦
            if malloc (8 * size % 2 ^ 64)
            then ok (record {
              buffer = copy_cells r r.len (replicate size junk);
              mask = size - 1;
              first = 0;
              len = r.len;
            })
            else err Error.nomem
      ]

  unfoldable pub ringbuf_push_front : (ℕ → Bool) → Ringbuf A → A → Rv (Ringbuf A)
  unfolding ringbuf_reserve
  ringbuf_push_front malloc r ent = do
    r1 ← ringbuf_reserve malloc ((r.len + 1) % 2 ^ 64) r
    let first = (r1.first + 2 ^ 64 - 1) % 2 ^ 64
    ok (record {
      buffer = set r1.buffer (bit_and first r1.mask) ent;
      mask = r1.mask;
      first = first;
      len = suc r1.len;
    })
