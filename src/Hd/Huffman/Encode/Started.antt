-- ===== src/Hd/Huffman/Encode/Started.antt =====
-- lib/nghttp2_hd_huffman.c: the byte that the encoder fills.
use newhttp.Common.{
  ℕ, ◌-◌, ◌*◌, ◌/◌, ◌^◌, ◌≤◌, ◌<◌, ◌≡◌, refl, sym, ap, ◌∙◌, Bool, true, List, [], ◌∷◌, ◌++◌, ◌==◌,
  ==_iff, map, arith, ◌⊎◌, inl, inr, Bool-cases,
}
use mathlib.Core.List.{append-nil}
use mathlib.Core.Path.{subst}
use newhttp.Errors.{ok, bind_stages}
use newhttp.Buf.Chain.{Bufs}
use newhttp.Buf.Add.Copy.{low8}
use newhttp.Buf.Add.{bufs_fast_addb_hold, bufs_addb_hold, bufs_ensure_addb, bufs_cur_avail}
use newhttp.Buf.Add.Laws.{text, IsReady, bufs_ensure_addb_lem}
use newhttp.Buf.Add.Hold.{held, put-Holds}
use newhttp.Hd.Huffman.Bits.{bits, byte_bits, byte_bits-append}
use newhttp.Hd.Huffman.Sound.{Bytes}
use newhttp.Hd.Huffman.Encode.{huff_start_byte}
use newhttp.Hd.Huffman.Encode.Pieces.{has_free}
use newhttp.Hd.Huffman.Encode.Rows.{has_free_lem}

-- The bytes `bs` are added to the text `base`, and with the byte that is held, of which `r` bits
-- are free, their bits are `out`.
pub record Writing (base : List ℕ) (out : List Bool) (bufs : Bufs) (avail r : ℕ) : Type 0 where
  pub bs : List ℕ
  pub small : Bytes bs
  pub whole : text bufs ≡ base ++ bs
  pub coded : byte_bits bs ++ bits (8 - r) (held bufs / 2 ^ r) ≡ out
  pub ready : IsReady 4 bufs
  pub avail_eq : avail ≡ bufs_cur_avail bufs
  pub some_free : 0 < r
  pub free_le : r ≤ 8
  pub last : (r ≡ 8) ⊎ ((0 < avail) × (has_free r (held bufs) ≡ true))

-- The same with a byte in place, `q` with its free bits.
pub record Started (base : List ℕ) (out : List Bool) (bufs : Bufs) (avail r : ℕ) : Type 0 where
  pub bs : List ℕ
  pub q : ℕ
  pub small : Bytes bs
  pub whole : text bufs ≡ base ++ bs
  pub coded : byte_bits bs ++ bits (8 - r) q ≡ out
  pub ready : IsReady 4 bufs
  pub avail_eq : avail ≡ bufs_cur_avail bufs
  pub some_free : 0 < r
  pub free_le : r ≤ 8
  pub spare : 0 < avail
  pub held_eq : held bufs ≡ q * 2 ^ r
  pub below : q < 2 ^ (8 - r)

module _ (base : List ℕ) (out : List Bool) (bufs : Bufs) (avail : ℕ) where
  -- A byte of zeros in place of a full one.
  start_full :
      (bufs' : Bufs) (avail' : ℕ)
      → Writing base out bufs avail 8
      → text bufs' ≡ text bufs
      → IsReady 4 bufs'
      → avail' ≡ bufs_cur_avail bufs'
      → 0 < avail'
      → held bufs' ≡ 0
      → Started base out bufs' avail' 8
  unfolding bits
  start_full bufs' avail' w same ready e spare zeros = record {
    bs = w.bs;
    q = 0;
    small = w.small;
    whole = same ∙ w.whole;
    coded = w.coded;
    ready = ready;
    avail_eq = e;
    some_free = omega arith;
    free_le = omega arith;
    spare = spare;
    held_eq = zeros;
    below = omega arith;
  }

  huff_start_full :
      {r : Bufs × ℕ}
      → Writing base out bufs avail 8
      → huff_start_byte bufs avail 8 ≡ ok r
      → Started base out r.0 r.1 8
  unfolding huff_start_byte bufs_fast_addb_hold bufs_addb_hold
  huff_start_full {r = r} w h = elim (Bool-cases (avail == 0)) [
    | inr spare ↦
        (let pos : 0 < avail = ground arith in
          let a = put-Holds 4 bufs 0 w.ready (omega (arith, w.avail_eq)) in
          subst (λ (x : Bufs × ℕ). Started base out x.0 x.1 8)
            {x = (bufs_fast_addb_hold bufs 0, avail)} {y = r} (cc (rw spare at h))
            (start_full _ avail w a.0 a.1 (omega (arith, a.2, w.avail_eq)) pos a.3))
    | inl full ↦
        (let (next, p, q) = bind_stages (bufs_addb_hold bufs 0) _ (rw full at h) in
          let (kept, p', q') = bind_stages (bufs_ensure_addb bufs) _ p in
          let k = bufs_ensure_addb_lem 4 bufs (omega arith) w.ready p' in
          let a = put-Holds 4 kept 0 k.1 (omega (arith, k.2)) in
          let e : bufs_fast_addb_hold kept 0 ≡ next = cc q' in
          subst (λ (x : Bufs × ℕ). Started base out x.0 x.1 8)
            {x = (bufs_fast_addb_hold kept 0, bufs_cur_avail (bufs_fast_addb_hold kept 0))} {y = r}
            (ap (λ b. (b, bufs_cur_avail b)) e ∙ cc q)
            (start_full _ _ w (a.0 ∙ k.0) a.1 refl (omega (arith, a.2, k.2)) a.3))
  ]

pub huff_start_byte_lem :
    (base : List ℕ) (out : List Bool) (bufs : Bufs) (avail r : ℕ) {o : Bufs × ℕ}
    → Writing base out bufs avail r
    → huff_start_byte bufs avail r ≡ ok o
    → Started base out o.0 o.1 r
unfolding huff_start_byte
huff_start_byte_lem base out bufs avail r {o = o} w h = elim (Bool-cases (r == 8)) [
  | inl full ↦
      (let e : 8 ≡ r = sym ((==_iff r 8).0 full) in
        subst
          (λ k.
            Writing base out bufs avail k
            → huff_start_byte bufs avail k ≡ ok o
            → Started base out o.0 o.1 k)
          e (huff_start_full base out bufs avail) w h)
  | inr more ↦
      (let (spare, free) : (0 < avail) × (has_free r (held bufs) ≡ true) = elim w.last [
        | inl e ↦ absurd (ground (arith, e))
        | inr p ↦ p
      ] in
        let (e, lt) = has_free_lem r (held bufs) free in
        subst (λ (x : Bufs × ℕ). Started base out x.0 x.1 r) {x = (bufs, avail)} {y = o}
          (cc (rw more at h))
          (record {
            bs = w.bs;
            q = held bufs / 2 ^ r;
            small = w.small;
            whole = w.whole;
            coded = w.coded;
            ready = w.ready;
            avail_eq = w.avail_eq;
            some_free = w.some_free;
            free_le = w.free_le;
            spare = spare;
            held_eq = e;
            below = lt;
          }))
]

pub Bytes-low8 : (bs : List ℕ) → Bytes (map low8 bs)
Bytes-low8 [] = tt
Bytes-low8 (b ∷ bs) = (omega arith, Bytes-low8 bs)

-- A string that ends in one byte more.
pub byte_bits-last : (bs : List ℕ) (v : ℕ) → byte_bits (bs ++ v ∷ []) ≡ byte_bits bs ++ bits 8 v
unfolding byte_bits
byte_bits-last bs v =
    byte_bits-append bs (v ∷ []) ∙ ap (λ t. byte_bits bs ++ t) (append-nil (bits 8 v))

-- Nothing is added yet.
pub init-Writing :
    (bufs : Bufs) → IsReady 4 bufs → Writing (text bufs) [] bufs (bufs_cur_avail bufs) 8
unfolding bits byte_bits
init-Writing bufs ready = record {
  bs = [];
  small = tt;
  whole = sym (append-nil (text bufs));
  coded = refl;
  ready = ready;
  avail_eq = refl;
  some_free = omega arith;
  free_le = omega arith;
  last = inl refl;
}
