-- ===== src/Hd/Huffman/Encode/Tail.antt =====
-- lib/nghttp2_hd_huffman.c: the rest of a longer code, behind its first bits.
use newhttp.Common.{
  ℕ, ◌+◌, ◌-◌, ◌/◌, ◌^◌, ◌≤◌, ◌<◌, ◌≡◌, refl, sym, ap, ◌∙◌, false, List, [], ◌++◌, ◌==◌, ltb,
  ltb→lt, ltb→ge, ge→ltb, ==_iff, leb, if◌then◌else◌, length, map, arith, ◌⊎◌, inl, inr, Bool-cases,
}
use mathlib.Core.Path.{subst}
use newhttp.Errors.{ok, assert, bind_stages}
use newhttp.Buf.Chain.{Bufs}
use newhttp.Buf.Add.{bufs_cpymem, bufs_fast_addb_hold, bufs_advance, bufs_cur_avail}
use newhttp.Buf.Add.Laws.{text, IsReady, Kept, bufs_alloc_chain_lem}
use newhttp.Buf.Add.Hold.{held, put-Holds}
use newhttp.Buf.Add.Copy.{low8, bufs_cpymem-append, bufs_cpymem_lem}
use newhttp.Hd.Huffman.Types.{HuffSym}
use newhttp.Hd.Huffman.Encode.{
  add_above, huff_encode_last, huff_encode_tail, huff_encode_rest, align,
}
use newhttp.Hd.Huffman.Encode.Pieces.{bytes_above, last_out, tail_out}
use newhttp.Hd.Huffman.Encode.Rows.{TailFits}

-- What the encoder does with the bytes, the byte that is held and the number of its free bits.
finish : Bufs → List ℕ × ℕ × ℕ → Bufs × ℕ × ℕ
finish bufs (bs, last, r') =
    if r' == 8
    then (let b = bufs_cpymem bufs bs in (b, bufs_cur_avail b, 8))
    else (let b = bufs_fast_addb_hold (bufs_cpymem bufs bs) last in (b, bufs_cur_avail b, r'))

add_above-bytes :
    (k code n : ℕ) (bufs : Bufs) (bs : List ℕ)
    → let o = bytes_above k code (bs, n) in
      add_above k code (bufs_cpymem bufs bs, n) ≡ (bufs_cpymem bufs o.0, o.1)
unfolding add_above bytes_above
add_above-bytes k code n bufs bs = elim (Bool-cases (ltb k n)) [
  | inl more ↦ rw more (ap (λ b. (b, n - 8)) (sym (bufs_cpymem-append bufs bs (code / 2 ^ k))))
  | inr less ↦ rw less
]

bytes_above-pos : (k code n : ℕ) (bs : List ℕ) → 8 ≤ k → 0 < n → 0 < (bytes_above k code (bs, n)).1
unfolding bytes_above
bytes_above-pos k code n bs h pos = elim (Bool-cases (ltb k n)) [
  | inl more ↦ rw more (omega (arith, ltb→lt _ _ more))
  | inr less ↦ rw less pos
]

last-finish :
    (code n : ℕ) (bufs : Bufs) (bs : List ℕ)
    → 0 < n
    → huff_encode_last code (bufs_cpymem bufs bs, n) ≡ finish bufs (last_out code (bs, n))
unfolding huff_encode_last finish last_out
last-finish code n bufs bs pos = elim (Bool-cases (n == 8)) [
  | inl full ↦ rw full (ap (λ b. (b, bufs_cur_avail b, 8)) (sym (bufs_cpymem-append bufs bs code)))
  | inr more ↦ (let e : (8 - n == 8) ≡ false = ground arith in rw (more, e))
]

short-finish :
    (n code : ℕ) (bufs : Bufs)
    → (8 - n == 8) ≡ false
    → (bufs_fast_addb_hold bufs code, bufs_cur_avail (bufs_fast_addb_hold bufs code), 8 - n)
      ≡ finish bufs ([], code, 8 - n)
unfolding finish bufs_cpymem
short-finish n code bufs e = rw e

tail-finish :
    (n code : ℕ) (bufs : Bufs)
    → 0 < n
    → huff_encode_tail bufs n code ≡ finish bufs (tail_out n code)
unfolding huff_encode_tail tail_out bufs_cpymem
tail-finish n code bufs pos = elim (Bool-cases (ltb n 8)) [
  | inl short ↦
      (let e : (8 - n == 8) ≡ false = ground arith in rw short (short-finish n code bufs e))
  | inr long ↦
      (let a = bytes_above 24 code ([], n) in
        let b = bytes_above 16 code a in
        let c = bytes_above 8 code b in
        let pa = bytes_above-pos 24 code n [] (omega arith) pos in
        let pb = bytes_above-pos 16 code a.1 a.0 (omega arith) pa in
        let pc = bytes_above-pos 8 code b.1 b.0 (omega arith) pb in
        rw long (
          ap (λ x. huff_encode_last code (add_above 8 code (add_above 16 code x)))
            (add_above-bytes 24 code n bufs [])
          ∙ ap (λ x. huff_encode_last code (add_above 8 code x))
              (add_above-bytes 16 code a.1 bufs a.0)
          ∙ ap (huff_encode_last code) (add_above-bytes 8 code b.1 bufs b.0)
          ∙ last-finish code c.1 bufs c.0 pc))
]

-- The buffers behind a code, with `bs` added, and the byte that is held where bits are free.
abbrev pub Written : Bufs → List ℕ → ℕ → ℕ → Bufs × ℕ × ℕ → Type 0
Written bufs bs last r' o =
    (text o.0 ≡ text bufs ++ map low8 bs)
    × IsReady 4 o.0
    × (o.1 ≡ bufs_cur_avail o.0)
    × (o.2 ≡ r')
    × ((r' ≡ 8) ⊎ ((0 < o.1) × (held o.0 ≡ low8 last)))

finish_lem :
    (bufs : Bufs) (r n : ℕ) (row : HuffSym) (bs : List ℕ) (last r' : ℕ)
    → IsReady 4 bufs
    → (n + 7) / 8 ≤ bufs_cur_avail bufs
    → TailFits r n row bs last r'
    → Written bufs bs last r' (finish bufs (bs, last, r'))
unfolding finish bufs_fast_addb_hold
finish_lem bufs r n row bs last r' ready room fits = elim (Bool-cases (r' == 8)) [
  | inl full ↦
      (let e : r' ≡ 8 = (==_iff r' 8).0 full in
        let le : length bs ≤ (n + 7) / 8 = elim fits.written [
          | inl p ↦ p.1
          | inr p ↦ omega (arith, p.0)
        ] in
        let a = bufs_cpymem_lem 4 bufs bs ready (omega (arith, le, room)) in
        rw full (a.0, a.1, refl, sym e, inl e))
  | inr more ↦
      (let lt : length bs < (n + 7) / 8 = elim fits.written [
        | inl p ↦ absurd (ground (arith, p.0))
        | inr p ↦ p.0
      ] in
        let a = bufs_cpymem_lem 4 bufs bs ready (omega (arith, lt, room)) in
        let spare : 0 < bufs_cur_avail (bufs_cpymem bufs bs) = omega (arith, a.2, lt, room) in
        let h = put-Holds 4 (bufs_cpymem bufs bs) (low8 last) a.1 spare in
        rw more (h.0 ∙ a.0, h.1, refl, refl, inr (omega (arith, h.2, spare), h.3)))
]

advance_lem :
    (bufs : Bufs) {next : Bufs} → IsReady 4 bufs → bufs_advance bufs ≡ ok next → Kept 4 4 bufs next
unfolding bufs_advance
advance_lem bufs ready h = bufs_alloc_chain_lem 4 bufs ready h

pub huff_encode_rest_lem :
    (bufs : Bufs) (avail r n : ℕ) (row : HuffSym) {o : Bufs × ℕ × ℕ}
    → IsReady 4 bufs
    → avail ≡ bufs_cur_avail bufs
    → 0 < n
    → n < 30
    → let t = tail_out n (align n row.code) in
      TailFits r n row t.0 t.1 t.2
      → huff_encode_rest bufs avail n row.code ≡ ok o
      → Written bufs t.0 t.1 t.2 o
unfolding huff_encode_rest
huff_encode_rest_lem bufs avail r n row {o = o} ready e pos small fits h =
    let t = tail_out n (align n row.code) in
    elim (Bool-cases (ltb avail ((n + 7) / 8))) [
      | inr room ↦
          subst (Written bufs t.0 t.1 t.2) {y = o}
            (sym (tail-finish n (align n row.code) bufs pos) ∙ cc (rw room at h))
            (finish_lem bufs r n row t.0 t.1 t.2 ready (omega (arith, e, ltb→ge _ _ room)) fits)
      | inl full ↦
          (let (next, p, q) = bind_stages (bufs_advance bufs) _ (rw full at h) in
            let k = advance_lem bufs ready p in
            let (_, _, q') = bind_stages (assert (leb 3 (bufs_cur_avail next))) _ q in
            let w = finish_lem next r n row t.0 t.1 t.2 k.1 (omega (arith, k.2)) fits in
            subst (Written bufs t.0 t.1 t.2) {y = o}
              (sym (tail-finish n (align n row.code) next pos) ∙ cc q')
              (w.0 ∙ ap (λ u. u ++ map low8 t.0) k.0, w.1, w.2, w.3, w.4))
    ]

finish_avail :
    (bufs : Bufs) (r n : ℕ) (row : HuffSym) (bs : List ℕ) (last r' : ℕ)
    → IsReady 4 bufs
    → (n + 7) / 8 ≤ bufs_cur_avail bufs
    → TailFits r n row bs last r'
    → ((finish bufs (bs, last, r')).1 + length bs ≡ bufs_cur_avail bufs)
      × ((finish bufs (bs, last, r')).2 ≡ r')
unfolding finish bufs_fast_addb_hold
finish_avail bufs r n row bs last r' ready room fits = elim (Bool-cases (r' == 8)) [
  | inl full ↦
      (let e : r' ≡ 8 = (==_iff r' 8).0 full in
        let le : length bs ≤ (n + 7) / 8 = elim fits.written [
          | inl p ↦ p.1
          | inr p ↦ omega (arith, p.0)
        ] in
        let a = bufs_cpymem_lem 4 bufs bs ready (omega (arith, le, room)) in rw full (a.2, sym e))
  | inr more ↦
      (let lt : length bs < (n + 7) / 8 = elim fits.written [
        | inl p ↦ absurd (ground (arith, p.0))
        | inr p ↦ p.0
      ] in
        let a = bufs_cpymem_lem 4 bufs bs ready (omega (arith, lt, room)) in
        let spare : 0 < bufs_cur_avail (bufs_cpymem bufs bs) = omega (arith, a.2, lt, room) in
        let h = put-Holds 4 (bufs_cpymem bufs bs) (low8 last) a.1 spare in
        rw more (omega (arith, h.2, a.2), refl))
]

-- With room for the whole rest no further buffer is taken.
pub huff_encode_rest_total :
    (bufs : Bufs) (avail r n : ℕ) (row : HuffSym)
    → IsReady 4 bufs
    → avail ≡ bufs_cur_avail bufs
    → 0 < n
    → (n + 7) / 8 ≤ avail
    → let t = tail_out n (align n row.code) in
      TailFits r n row t.0 t.1 t.2
      → (o : Bufs × ℕ × ℕ) × (huff_encode_rest bufs avail n row.code ≡ ok o)
        × (o.1 + length t.0 ≡ avail)
        × (o.2 ≡ t.2)
unfolding huff_encode_rest
huff_encode_rest_total bufs avail r n row ready e pos room fits =
    let t = tail_out n (align n row.code) in
    let enough : ltb avail ((n + 7) / 8) ≡ false = ge→ltb _ _ room in
    let z = finish_avail bufs r n row t.0 t.1 t.2 ready (omega (arith, e, room)) fits in
    (
      finish bufs t,
      rw enough (ap (λ x. ok x) (tail-finish n (align n row.code) bufs pos)),
      z.0 ∙ sym e,
      z.1,
    )
