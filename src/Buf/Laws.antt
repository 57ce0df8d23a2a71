-- ===== src/Buf/Laws.antt =====
-- What the growth of a buffer (lib/nghttp2_buf.c) keeps.
use newhttp.Common.{
  ℕ, ◌-◌, ◌*◌, ◌≤◌, ◌≡◌, refl, Bool, false, length, take, replicate, length-append,
  length-replicate, take-append, take-all, leb, leb→le, max, arith, Bool-cases, inl, inr, ◌⊎◌, ◌++◌,
}
use newhttp.Errors.{ok, err, nomem}
use newhttp.Buf.{Buf, buf_cap, buf_reserve}

-- A reservation that succeeds gives the capacity that was asked for and keeps the bytes that the
-- memory had, and the three positions; it fails only where it has to grow and the allocator does
-- not serve it, with NGHTTP2_ERR_NOMEM.
pub buf_reserve_lem :
    (served : Bool) (b : Buf) (n : ℕ)
    → ((b' : Buf) × (buf_reserve served b n ≡ ok b')
        × (n ≤ buf_cap b')
        × (take (buf_cap b) b'.mem ≡ b.mem)
        × (b'.pos ≡ b.pos)
        × (b'.last ≡ b.last)
        × (b'.mark ≡ b.mark))
      ⊎ (buf_reserve served b n ≡ err nomem) × (served ≡ false) × (leb n (buf_cap b) ≡ false)
unfolding buf_reserve
buf_reserve_lem served b n = elim (Bool-cases (leb n (buf_cap b))) [
  | inl y ↦
      inl (b, rw y refl, leb→le n (buf_cap b) y, take-all b.mem (buf_cap b) refl, refl, refl, refl)
  | inr x ↦ elim (Bool-cases served) [
    | inl s ↦
        let extra = replicate (max n (buf_cap b * 2) - buf_cap b) 0 in
        let size : length extra ≡ max n (buf_cap b * 2) - buf_cap b = length-replicate _ 0 in
        inl (
          record b { mem = b.mem ++ extra },
          rw (x, s) refl,
          omega (arith, length-append b.mem extra, size),
          take-append b.mem extra,
          refl,
          refl,
          refl,
        )
    | inr s ↦ inr (rw (x, s) refl, s, x)
  ]
]
