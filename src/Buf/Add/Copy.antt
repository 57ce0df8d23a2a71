-- ===== src/Buf/Add/Copy.antt =====
-- lib/nghttp2_buf.c: several bytes that are added at once.
use newhttp.Common.{
  ℕ, zero, suc, ◌+◌, ◌*◌, ◌-◌, ◌%◌, ◌≤◌, ◌≡◌, refl, sym, ap, ◌∙◌, List, [], ◌∷◌, ◌++◌, length, map,
  take, drop, min, arith, length-take, length-drop, take-append-drop, take-all, ◌==◌, inl, inr,
  Bool-cases, ltb, ge→ltb, true, false,
}
use mathlib.Core.List.{append_assoc, append-nil, map-append}
use newhttp.Errors.{Rv, ok, err, abort, ◌>>=◌}
use newhttp.Buf.Chain.{Bufs}
use newhttp.Buf.Add.{
  bufs_fast_addb, bufs_cpymem, bufs_cur_avail, bufs_alloc_chain, bufs_add_loop, bufs_add,
  bufs_avail, alloc_chain, bufs_len,
}
use newhttp.Buf.{Buf}
use mathlib.Core.Path.{subst}
use newhttp.Buf.Add.Laws.{text, IsReady, bufs_alloc_chain_lem, bufs_len-fast_addb}
use newhttp.Buf.Add.Hold.{put-Adds}

-- A byte of what is written to an `uint8_t`.
abbrev pub low8 : ℕ → ℕ
low8 b = b % 256

pub bufs_cpymem-append :
    (bufs : Bufs) (bs : List ℕ) (b : ℕ)
    → bufs_cpymem bufs (bs ++ b ∷ []) ≡ bufs_fast_addb (bufs_cpymem bufs bs) b
unfolding bufs_cpymem
bufs_cpymem-append bufs [] b = refl
bufs_cpymem-append bufs (c ∷ bs) b = bufs_cpymem-append (bufs_fast_addb bufs c) bs b

pub bufs_cpymem_lem :
    (r : ℕ) (bufs : Bufs) (bs : List ℕ)
    → IsReady r bufs
    → length bs ≤ bufs_cur_avail bufs
    → (text (bufs_cpymem bufs bs) ≡ text bufs ++ map low8 bs)
      × IsReady r (bufs_cpymem bufs bs)
      × (bufs_cur_avail (bufs_cpymem bufs bs) + length bs ≡ bufs_cur_avail bufs)
unfolding bufs_cpymem bufs_fast_addb
bufs_cpymem_lem r bufs [] ready room = (sym (append-nil (text bufs)), ready, omega arith)
bufs_cpymem_lem r bufs (b ∷ bs) ready room =
    let a = put-Adds r bufs (low8 b) ready (omega (arith, room)) in
    let rest = bufs_cpymem_lem r (bufs_fast_addb bufs b) bs a.1 (omega (arith, room, a.2)) in
    (
      rest.0
          ∙ ap (λ t. t ++ map low8 bs) a.0
          ∙ append_assoc (text bufs) (low8 b ∷ []) (map low8 bs),
      rest.1,
      omega (arith, rest.2, a.2),
    )

pub bufs_len-cpymem :
    (r : ℕ) (bufs : Bufs) (bs : List ℕ)
    → IsReady r bufs
    → length bs ≤ bufs_cur_avail bufs
    → bufs_len (bufs_cpymem bufs bs) ≡ bufs_len bufs + length bs
unfolding bufs_cpymem bufs_fast_addb
bufs_len-cpymem r bufs [] ready room = omega arith
bufs_len-cpymem r bufs (b ∷ bs) ready room =
    let a = put-Adds r bufs (low8 b) ready (omega (arith, room)) in
    let rest = bufs_len-cpymem r (bufs_fast_addb bufs b) bs a.1 (omega (arith, room, a.2)) in
    omega (arith, rest, bufs_len-fast_addb r bufs b ready)

-- What a call that adds `src` may end in: all of it added, or an error.
abbrev pub Adding : Bufs → List ℕ → Rv Bufs → Type 0
Adding bufs src (ok b) = (text b ≡ text bufs ++ map low8 src) × IsReady 1 b
Adding bufs src (err e) = Unit
Adding bufs src abort = ⊥

Adding-append :
    (bufs c : Bufs) (u v : List ℕ) (m : Rv Bufs)
    → text c ≡ text bufs ++ map low8 u
    → Adding c v m
    → Adding bufs (u ++ v) m
Adding-append bufs c u v (ok b) e a = (
  a.0
      ∙ ap (λ t. t ++ map low8 v) e
      ∙ append_assoc (text bufs) (map low8 u) (map low8 v)
      ∙ ap (λ t. text bufs ++ t) (sym (map-append low8 u v)),
  a.1,
)
Adding-append bufs c u v (err x) e a = tt
Adding-append bufs c u v abort e a = a

alloc_chain-ne-abort : (after : List Buf) (bufs : Bufs) → ¬ (alloc_chain after bufs ≡ abort)
unfolding alloc_chain
alloc_chain-ne-abort (next ∷ after) bufs e = cc e
alloc_chain-ne-abort [] bufs e = elim (Bool-cases (bufs.max_chunk == bufs.chunk_used)) [
  | inl full ↦ cc (rw full at e)
  | inr more ↦ elim (Bool-cases (bufs.serves bufs.chunk_used)) [
    | inl served ↦ cc (rw (more, served) at e)
    | inr refused ↦ cc (rw (more, refused) at e)
  ]
]

alloc-ne-abort : (bufs : Bufs) → ¬ (bufs_alloc_chain bufs ≡ abort)
unfolding bufs_alloc_chain
alloc-ne-abort bufs e = alloc_chain-ne-abort bufs.after bufs e

enough_alloc :
    (fuel avail avail' n : ℕ)
    → 2 * suc n ≤ suc fuel + min 1 avail
    → (min avail (suc n) == 0) ≡ true
    → 1 ≤ avail'
    → 2 * suc n ≤ fuel + min 1 avail'
enough_alloc fuel avail avail' n h full room = ground arith

enough_copy :
    (fuel avail n k avail' : ℕ)
    → 2 * suc n ≤ suc fuel + min 1 avail
    → (min avail (suc n) == 0) ≡ false
    → k ≡ suc n - min avail (suc n)
    → 2 * k ≤ fuel + min 1 avail'
enough_copy fuel avail n k avail' h more e = ground arith

Adding-alloc :
    (bufs : Bufs) (src : List ℕ) (more : Bufs → Rv Bufs)
    → IsReady 1 bufs
    → ((c : Bufs) → IsReady 1 c → 1 ≤ bufs_cur_avail c → Adding c src (more c))
    → (m : Rv Bufs) → bufs_alloc_chain bufs ≡ m
    → Adding bufs src (m >>= more)
Adding-alloc bufs src more ready next (ok c) e =
    let k = bufs_alloc_chain_lem 1 bufs ready e in
    Adding-append bufs c [] src (more c) (k.0 ∙ sym (append-nil (text bufs))) (next c k.1 k.2)
Adding-alloc bufs src more ready next (err x) e = tt
Adding-alloc bufs src more ready next abort e = absurd (alloc-ne-abort bufs e)

bufs_add_loop_lem :
    (fuel : ℕ) (bufs : Bufs) (src : List ℕ)
    → IsReady 1 bufs
    → 2 * length src ≤ fuel + min 1 (bufs_cur_avail bufs)
    → Adding bufs src (bufs_add_loop fuel bufs src)
unfolding bufs_add_loop
bufs_add_loop_lem fuel bufs [] ready enough = (sym (append-nil (text bufs)), ready)
bufs_add_loop_lem zero bufs (b ∷ p) ready enough = absurd (omega arith)
bufs_add_loop_lem (suc fuel) bufs (b ∷ p) ready enough =
    let n = min (bufs_cur_avail bufs) (length (b ∷ p)) in
    elim (Bool-cases (n == 0)) [
      | inl full ↦ rw full (
          Adding-alloc bufs (b ∷ p) (λ c. bufs_add_loop fuel c (b ∷ p)) ready
            (λ c r room. bufs_add_loop_lem fuel c (b ∷ p) r (
              enough_alloc fuel (bufs_cur_avail bufs) (bufs_cur_avail c) (length p) enough full
                room))
            (bufs_alloc_chain bufs) refl)
      | inr some_ ↦
          (let now = take n (b ∷ p) in
            let later = drop n (b ∷ p) in
            let le : length now ≤ bufs_cur_avail bufs = omega (arith, length-take n (b ∷ p)) in
            let a = bufs_cpymem_lem 1 bufs now ready le in
            let rest = bufs_add_loop_lem fuel (bufs_cpymem bufs now) later a.1 (
              enough_copy fuel (bufs_cur_avail bufs) (length p) (length later) _ enough some_
                (length-drop n (b ∷ p))) in
            rw some_ (
              subst (λ s. Adding bufs s (bufs_add_loop fuel (bufs_cpymem bufs now) later))
                (take-append-drop n (b ∷ p))
                (Adding-append bufs (bufs_cpymem bufs now) now later _ a.0 rest)))
    ]

-- All bytes are added, in the current buffer and in further ones, or there is an error; the loop
-- ends.
pub bufs_add_lem :
    (bufs : Bufs) (src : List ℕ) → IsReady 1 bufs → Adding bufs src (bufs_add bufs src)
unfolding bufs_add
bufs_add_lem bufs src ready = elim (Bool-cases (ltb (bufs_avail bufs) (length src))) [
  | inl full ↦ rw full tt
  | inr fits ↦ rw fits (bufs_add_loop_lem (2 * length src) bufs src ready (omega arith))
]

drop-length : (xs : List ℕ) → drop (length xs) xs ≡ []
drop-length [] = refl
drop-length (x ∷ xs) = drop-length xs

one_round :
    (fuel : ℕ) (bufs : Bufs) (b : ℕ) (p : List ℕ)
    → length (b ∷ p) ≤ bufs_cur_avail bufs
    → bufs_add_loop (suc fuel) bufs (b ∷ p) ≡ ok (bufs_cpymem bufs (b ∷ p))
unfolding bufs_add_loop
one_round fuel bufs b p room =
    let n : min (bufs_cur_avail bufs) (length (b ∷ p)) ≡ length (b ∷ p) = omega (arith, room) in
    let all : take (min (bufs_cur_avail bufs) (length (b ∷ p))) (b ∷ p) ≡ b ∷ p =
      ap (λ k. take k (b ∷ p)) n ∙ take-all (b ∷ p) (length (b ∷ p)) refl in
    let rest : drop (min (bufs_cur_avail bufs) (length (b ∷ p))) (b ∷ p) ≡ [] =
      ap (λ k. drop k (b ∷ p)) n ∙ drop-length (b ∷ p) in
    let more : (min (bufs_cur_avail bufs) (length (b ∷ p)) == 0) ≡ false = ground (arith, n) in
    rw (more, all, rest)

loop_total :
    (bufs : Bufs) (src : List ℕ)
    → length src ≤ bufs_cur_avail bufs
    → bufs_add_loop (2 * length src) bufs src ≡ ok (bufs_cpymem bufs src)
unfolding bufs_add_loop bufs_cpymem
loop_total bufs [] room = refl
loop_total bufs (b ∷ p) room =
    let e : 2 * length (b ∷ p) ≡ suc (1 + 2 * length p) = omega arith in
    ap (λ f. bufs_add_loop f bufs (b ∷ p)) e ∙ one_round (1 + 2 * length p) bufs b p room

-- With room in the current buffer the bytes are copied at once.
pub bufs_add_total :
    (bufs : Bufs) (src : List ℕ)
    → length src ≤ bufs_cur_avail bufs
    → bufs_add bufs src ≡ ok (bufs_cpymem bufs src)
unfolding bufs_add bufs_avail
bufs_add_total bufs src room =
    rw (ge→ltb (bufs_avail bufs) (length src) (omega (arith, room))) (loop_total bufs src room)
