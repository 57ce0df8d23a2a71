-- ===== src/Buf/Add/Laws.antt =====
-- lib/nghttp2_buf.c: the text of a chain under the operations that add bytes.
use newhttp.Common.{
  ℕ, zero, suc, ◌+◌, ◌-◌, ◌%◌, ◌≤◌, ◌<◌, ◌≡◌, refl, sym, ap, ◌∙◌, List, [], ◌∷◌, ◌++◌, take, drop,
  set, length, length-set, length-drop, length-replicate, Bool-cases, inl, inr, ltb, ltb→lt, ◌==◌,
  arith,
}
use mathlib.Core.List.{append_assoc, append-nil}
use native.Mathlib.Nat.{zero-add}
use newhttp.Errors.{ok, bind_stages}
use mathlib.Core.Path.{subst}
use newhttp.Buf.{Buf, contents, buf_shift_right}
use newhttp.Buf.Chain.{Bufs}
use newhttp.Buf.Add.{bufs_fast_addb, bufs_ensure_addb, bufs_addb, bufs_alloc_chain}
use newhttp.Buf.Add.{
  alloc_chain, advanced, buf_chain_new, put_last, step_last, bufs_cur_avail, bufs_len,
}

pub take-set_end {ℓ} :
    {A : Type ℓ} (xs : List A) (i : ℕ) (v : A)
    → i < length xs
    → take (suc i) (set xs i v) ≡ take i xs ++ v ∷ []
take-set_end [] i v h = absurd (omega arith)
take-set_end (x ∷ xs) zero v h = refl
take-set_end (x ∷ xs) (suc i) v h = ap (λ r. x ∷ r) (take-set_end xs i v (omega arith))

pub take-set {ℓ} : {A : Type ℓ} (xs : List A) (i : ℕ) (v : A) → take i (set xs i v) ≡ take i xs
take-set [] i v = refl
take-set (x ∷ xs) zero v = refl
take-set (x ∷ xs) (suc i) v = ap (λ r. x ∷ r) (take-set xs i v)

pub drop-set {ℓ} :
    {A : Type ℓ} (xs : List A) (p i : ℕ) (v : A) → drop p (set xs (p + i) v) ≡ set (drop p xs) i v
drop-set [] zero i v = refl
drop-set [] (suc p) i v = refl
drop-set (x ∷ xs) zero i v = rw zero-add
drop-set (x ∷ xs) (suc p) i v =
    let e : suc p + i ≡ suc (p + i) = omega arith in
    ap (λ k. drop (suc p) (set (x ∷ xs) k v)) e ∙ drop-set xs p i v

-- The bytes of the chain up to the current buffer.
abbrev pub texts : List Buf → List ℕ
texts [] = []
texts (b ∷ bs) = contents b ++ texts bs

abbrev pub text : Bufs → List ℕ
text bufs = texts bufs.before ++ contents bufs.cur

-- The buffers behind the current one are empty and have room for `r` bytes.
abbrev pub Fresh : ℕ → List Buf → Type 0
Fresh r [] = Unit
Fresh r (b ∷ bs) = (b.pos ≡ b.last) × (b.last + r ≤ length b.mem) × Fresh r bs

-- A chain that bytes can be added to; a new buffer has room for `r` bytes.
pub record IsReady (r : ℕ) (bufs : Bufs) : Type 0 where
  pub pos_le : bufs.cur.pos ≤ bufs.cur.last
  pub last_le : bufs.cur.last ≤ length bufs.cur.mem
  pub fresh : Fresh r bufs.after
  pub room : bufs.offset + r ≤ bufs.chunk_length

texts-append : (xs ys : List Buf) → texts (xs ++ ys) ≡ texts xs ++ texts ys
texts-append [] ys = refl
texts-append (x ∷ xs) ys = simp (texts-append xs ys, append_assoc)

pub contents-put :
    (b : Buf) (v : ℕ)
    → b.pos ≤ b.last
    → b.last < length b.mem
    → contents (step_last (put_last b v)) ≡ contents b ++ v ∷ []
contents-put b v le lt =
    let e : b.pos + (b.last - b.pos) ≡ b.last = omega arith in
    let n : b.last + 1 - b.pos ≡ suc (b.last - b.pos) = omega arith in
    let d : drop b.pos (set b.mem b.last v) ≡ set (drop b.pos b.mem) (b.last - b.pos) v =
      ap (λ k. drop b.pos (set b.mem k v)) (sym e) ∙ drop-set b.mem b.pos (b.last - b.pos) v in
    ap (λ k. take k (drop b.pos (set b.mem b.last v))) n
    ∙ ap (take (suc (b.last - b.pos))) d
    ∙ take-set_end (drop b.pos b.mem) (b.last - b.pos) v (omega (arith, length-drop b.pos b.mem))

pub bufs_len-fast_addb :
    (r : ℕ) (bufs : Bufs) (b : ℕ)
    → IsReady r bufs
    → bufs_len (bufs_fast_addb bufs b) ≡ bufs_len bufs + 1
unfolding bufs_len bufs_fast_addb
bufs_len-fast_addb r bufs b ready = omega (arith, ready.pos_le)

pub bufs_fast_addb_lem :
    (r : ℕ) (bufs : Bufs) (b : ℕ)
    → IsReady r bufs
    → 0 < bufs_cur_avail bufs
    → b < 256
    → (text (bufs_fast_addb bufs b) ≡ text bufs ++ b ∷ [])
      × IsReady r (bufs_fast_addb bufs b)
      × (bufs_cur_avail (bufs_fast_addb bufs b) + 1 ≡ bufs_cur_avail bufs)
unfolding bufs_fast_addb
bufs_fast_addb_lem r bufs b ready has small =
    let e : b % 256 ≡ b = omega arith in
    let len = length-set bufs.cur.mem bufs.cur.last (b % 256) in
    (
      ap (λ t. texts bufs.before ++ t)
            (contents-put bufs.cur (b % 256) ready.pos_le (omega arith)
              ∙ ap (λ v. contents bufs.cur ++ v ∷ []) e)
          ∙ sym (append_assoc (texts bufs.before) (contents bufs.cur) (b ∷ [])),
      record {
        pos_le = omega (arith, ready.pos_le);
        last_le = omega (arith, ready.last_le, len);
        fresh = ready.fresh;
        room = ready.room;
      },
      omega (arith, len),
    )

contents-empty : (b : Buf) → b.pos ≡ b.last → contents b ≡ []
contents-empty b e =
    let z : b.last - b.pos ≡ 0 = omega arith in ap (λ k. take k (drop b.pos b.mem)) z

-- The next buffer is current: the text stays, and the room is that of the buffer.
advanced_lem :
    (r : ℕ) (bufs : Bufs) (next : Buf) (after : List Buf) (used : ℕ)
    → next.pos ≡ next.last
    → next.last + r ≤ length next.mem
    → Fresh r after
    → bufs.offset + r ≤ bufs.chunk_length
    → (text (advanced bufs next after used) ≡ text bufs)
      × IsReady r (advanced bufs next after used)
      × (r ≤ bufs_cur_avail (advanced bufs next after used))
advanced_lem r bufs next after used e has fresh room = (
  ap (λ t. texts (bufs.before ++ bufs.cur ∷ []) ++ t) (contents-empty next e)
      ∙ append-nil (texts (bufs.before ++ bufs.cur ∷ []))
      ∙ texts-append bufs.before (bufs.cur ∷ [])
      ∙ ap (λ t. texts bufs.before ++ t) (append-nil (contents bufs.cur)),
  record { pos_le = omega (arith, e); last_le = omega (arith, has); fresh = fresh; room = room },
  omega (arith, has),
)

-- What a chain must be after a step, with at least `n` bytes of room.
abbrev pub Kept : ℕ → ℕ → Bufs → Bufs → Type 0
Kept r n bufs bufs' = (text bufs' ≡ text bufs) × IsReady r bufs' × (n ≤ bufs_cur_avail bufs')

alloc_chain_lem :
    (r : ℕ) (after : List Buf) (bufs : Bufs) {bufs' : Bufs}
    → Fresh r after
    → bufs.offset + r ≤ bufs.chunk_length
    → alloc_chain after bufs ≡ ok bufs'
    → Kept r r bufs bufs'
unfolding alloc_chain
alloc_chain_lem r (next ∷ after) bufs fresh room h =
    subst (Kept r r bufs) (cc h)
      (advanced_lem r bufs next after bufs.chunk_used fresh.0 fresh.1 fresh.2 room)
alloc_chain_lem r [] bufs fresh room h = elim (Bool-cases (bufs.max_chunk == bufs.chunk_used)) [
  | inl full ↦ cc (rw full at h)
  | inr more ↦ elim (Bool-cases (bufs.serves bufs.chunk_used)) [
    | inr refused ↦ cc (rw (more, refused) at h)
    | inl served ↦ subst (Kept r r bufs) (cc (rw (more, served) at h)) (
        advanced_lem r bufs (buf_shift_right (buf_chain_new bufs.chunk_length) bufs.offset) []
          (bufs.chunk_used + 1) refl
          (omega (arith, room, length-replicate {A = ℕ} bufs.chunk_length 0)) tt room)
  ]
]

pub bufs_alloc_chain_lem :
    (r : ℕ) (bufs : Bufs) {bufs' : Bufs}
    → IsReady r bufs
    → bufs_alloc_chain bufs ≡ ok bufs'
    → Kept r r bufs bufs'
unfolding bufs_alloc_chain
bufs_alloc_chain_lem r bufs ready h = alloc_chain_lem r bufs.after bufs ready.fresh ready.room h

pub bufs_ensure_addb_lem :
    (r : ℕ) (bufs : Bufs) {bufs' : Bufs}
    → 0 < r
    → IsReady r bufs
    → bufs_ensure_addb bufs ≡ ok bufs'
    → Kept r 1 bufs bufs'
unfolding bufs_ensure_addb
bufs_ensure_addb_lem r bufs pos ready h = elim (Bool-cases (ltb 0 (bufs_cur_avail bufs))) [
  | inl has ↦ subst (Kept r 1 bufs) (cc (rw has at h)) (refl, ready, omega (arith, ltb→lt _ _ has))
  | inr full ↦
      (let k = alloc_chain_lem r bufs.after bufs ready.fresh ready.room (rw full at h) in
        (k.0, k.1, omega (arith, k.2, pos)))
]

pub bufs_addb_lem :
    (r : ℕ) (bufs : Bufs) (b : ℕ) {bufs' : Bufs}
    → 0 < r
    → IsReady r bufs
    → b < 256
    → bufs_addb bufs b ≡ ok bufs'
    → (text bufs' ≡ text bufs ++ b ∷ []) × IsReady r bufs'
unfolding bufs_addb
bufs_addb_lem r bufs b pos ready small h =
    let (room, e, f) = bind_stages (bufs_ensure_addb bufs) (λ c. ok (bufs_fast_addb c b)) h in
    let k = bufs_ensure_addb_lem r bufs pos ready e in
    let a = bufs_fast_addb_lem r room b k.1 (omega (arith, k.2)) small in
    subst (λ c. (text c ≡ text bufs ++ b ∷ []) × IsReady r c) (cc f)
      (a.0 ∙ ap (λ t. t ++ b ∷ []) k.0, a.1)
