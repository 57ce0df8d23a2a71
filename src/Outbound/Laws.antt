-- ===== src/Outbound/Laws.antt =====
-- The linked items as a list, first in, first out.
use mathlib.Core.Path.{subst}
use newhttp.Common.{
  ℕ, suc, ◌≡◌, ◌≢◌, refl, sym, ap, ◌∙◌, arith, List, [], ◌∷◌, ◌++◌, length, All, ◌==◌, ==_iff,
  if◌then◌else◌, Bool-cases, inl, inr, length-append, true, false,
}
use newhttp.Outbound.{OutboundQueue, write, queue_push, queue_pop}

-- The items linked from `head` on.
abbrev pub Chain : (ℕ → ℕ) → ℕ → List ℕ → Type 0
Chain qnext head [] = head ≡ 0
Chain qnext head (x ∷ xs) = (head ≡ x) × (x ≢ 0) × Chain qnext (qnext x) xs

abbrev pub Distinct : List ℕ → Type 0
Distinct [] = Unit
Distinct (x ∷ xs) = All (λ y. x ≢ y) xs × Distinct xs

abbrev pub last_of : List ℕ → ℕ
last_of [] = 0
last_of (x ∷ []) = x
last_of (x ∷ y ∷ ys) = last_of (y ∷ ys)

-- The queue holds the items of a list, in its order.
pub record Holds (q : OutboundQueue) (items : List ℕ) : Type 0 where
  pub chain : Chain q.qnext q.head items
  pub last : q.tail ≡ last_of items
  pub distinct : Distinct items
  pub count : q.n ≡ length items

last_of-All : (P : ℕ → Type 0) (x : ℕ) (xs : List ℕ) → All P (x ∷ xs) → P (last_of (x ∷ xs))
last_of-All P x [] (p, a) = p
last_of-All P x (y ∷ ys) (p, a) = last_of-All P y ys a

last_of-append : (xs : List ℕ) (x : ℕ) → last_of (xs ++ x ∷ []) ≡ x
last_of-append [] x = refl
last_of-append (y ∷ []) x = refl
last_of-append (y ∷ z ∷ zs) x = last_of-append (z ∷ zs) x

write_same : (f : ℕ → ℕ) (x v : ℕ) → write f x v x ≡ v
write_same f x v = rw ((==_iff x x).1 refl) refl

write_other : (f : ℕ → ℕ) (x y v : ℕ) → y ≢ x → write f x v y ≡ f y
write_other f x y v d = elim (Bool-cases (y == x)) [
  | inl e ↦ absurd (d ((==_iff y x).0 e))
  | inr e ↦ rw e refl
]

Chain-append :
    (f : ℕ → ℕ) (head x item : ℕ) (xs : List ℕ)
    → Chain f head (x ∷ xs)
    → Distinct (x ∷ xs)
    → item ≢ 0
    → f item ≡ 0
    → All (λ y. item ≢ y) (x ∷ xs)
    → Chain (write f (last_of (x ∷ xs)) item) head ((x ∷ xs) ++ item ∷ [])
Chain-append f head x item [] (h, z, c) d nz null (new, a) =
    (h, z, (write_same f x item, nz, write_other f x item item new ∙ null))
Chain-append f head x item (y ∷ ys) (h, z, c) (apart, d) nz null (new, a) =
    let far = last_of-All (λ y. x ≢ y) y ys apart in
    (
      h,
      z,
      rw (write_other f (last_of (y ∷ ys)) x item far)
          (Chain-append f (f x) y item ys c d nz null a),
    )

Distinct-append :
    (xs : List ℕ) (item : ℕ) → Distinct xs → All (λ y. item ≢ y) xs → Distinct (xs ++ item ∷ [])
Distinct-append [] item d a = (tt, tt)
Distinct-append (x ∷ xs) item (p, d) (n, a) =
    (All-append x item xs p (λ e. n (sym e)), Distinct-append xs item d a)
  where
    All-append :
        (x item : ℕ) (xs : List ℕ)
        → All (λ y. x ≢ y) xs
        → x ≢ item
        → All (λ y. x ≢ y) (xs ++ item ∷ [])
    All-append x item [] p n = (n, tt)
    All-append x item (y ∷ ys) (p, q) n = (p, All-append x item ys q n)

Chain-write :
    (f : ℕ → ℕ) (head item v : ℕ) (xs : List ℕ)
    → All (λ y. item ≢ y) xs
    → Chain f head xs
    → Chain (write f item v) head xs
Chain-write f head item v [] a c = c
Chain-write f head item v (x ∷ xs) (n, a) (h, z, c) =
    (h, z, rw (write_other f item x v λ e. n (sym e)) (Chain-write f (f x) item v xs a c))

Chain-nonzero : (f : ℕ → ℕ) (head : ℕ) (xs : List ℕ) → Chain f head xs → All (λ y. y ≢ 0) xs
Chain-nonzero f head [] c = tt
Chain-nonzero f head (x ∷ xs) (h, z, c) = (z, Chain-nonzero f (f x) xs c)

not_zero : (n : ℕ) → n ≢ 0 → (n == 0) ≡ false
not_zero n d = ground arith

-- `nghttp2_outbound_queue_push` of an item that is not null, links to nothing and is not in the
-- queue puts it behind the others.
pub queue_push-Holds :
    (q : OutboundQueue) (items : List ℕ) (item : ℕ)
    → Holds q items
    → item ≢ 0
    → q.qnext item ≡ 0
    → All (λ y. item ≢ y) items
    → Holds (queue_push q item) (items ++ item ∷ [])
unfolding queue_push
queue_push-Holds q [] item v nz null new =
    let empty : (q.tail == 0) ≡ true = (==_iff _ _).1 v.last in
    rw (queue_push, empty)
      (record {
        chain = (refl, nz, null);
        last = refl;
        distinct = (tt, tt);
        count = ap suc v.count;
      })
queue_push-Holds q (x ∷ xs) item v nz null new =
    let last_real = last_of-All (λ y. y ≢ 0) x xs (Chain-nonzero q.qnext q.head (x ∷ xs) v.chain) in
    let nonempty : (q.tail == 0) ≡ false = not_zero q.tail λ e. last_real (sym v.last ∙ e) in
    let linked : Chain (write q.qnext q.tail item) q.head ((x ∷ xs) ++ item ∷ []) =
      subst (λ t. Chain (write q.qnext t item) q.head ((x ∷ xs) ++ item ∷ [])) (sym v.last)
        (Chain-append q.qnext q.head x item xs v.chain v.distinct nz null new) in
    rw (queue_push, nonempty)
      (record {
        chain = linked;
        last = sym (last_of-append (x ∷ xs) item);
        distinct = Distinct-append (x ∷ xs) item v.distinct new;
        count = omega (arith, v.count, length-append xs (item ∷ []));
      })

tail_of :
    (f : ℕ → ℕ) (next t x : ℕ) (xs : List ℕ)
    → Chain f next xs
    → t ≡ last_of (x ∷ xs)
    → (if next == 0 then 0 else t) ≡ last_of xs
tail_of f next t x [] c e = rw ((==_iff next 0).1 c) refl
tail_of f next t x (y ∷ ys) (h, z, c) e = rw (not_zero next λ n. z (sym h ∙ n)) e

abbrev pub rest_of : List ℕ → List ℕ
rest_of [] = []
rest_of (x ∷ xs) = xs

-- `nghttp2_outbound_queue_pop` takes the first item, if there is one, and leaves the others in their
-- order.
pub queue_pop-Holds :
    (q : OutboundQueue) (items : List ℕ) → Holds q items → Holds (queue_pop q) (rest_of items)
unfolding queue_pop
queue_pop-Holds q [] v = rw (queue_pop, (==_iff q.head 0).1 v.chain) v
queue_pop-Holds q (x ∷ xs) v =
    let (h, z, c) = v.chain in
    let (apart, d) = v.distinct in
    let nonempty : (q.head == 0) ≡ false = not_zero q.head λ e. z (sym h ∙ e) in
    rw (queue_pop, nonempty)
      (record {
        chain = rw h (Chain-write q.qnext (q.qnext x) x 0 xs apart c);
        last = rw h (tail_of q.qnext (q.qnext x) q.tail x xs c v.last);
        distinct = d;
        count = omega (arith, v.count);
      })
