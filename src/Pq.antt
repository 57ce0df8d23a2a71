-- ===== src/Pq.antt =====
-- lib/nghttp2_pq.c: the priority queue, a binary heap of entries that know their position.
pub mod Slots
pub mod Order
pub mod Up
pub mod Down
pub mod Rest
pub mod Take
pub mod Push
pub mod Update
mod Tests
use newhttp.Common.{
  ℕ, zero, suc, ◌+◌, ◌-◌, ◌*◌, ◌/◌, ◌%◌, ◌^◌, max, Bool, true, false, ◌||◌, List, [], ◌∷◌, ◌++◌,
  Option, none, some, length, get_or, set, take, ltb, leb, ◌==◌, if◌then◌else◌,
}
use newhttp.Errors.{Error}

-- The entries are their addresses. The list holds the `length` slots in use of the array, and
-- `index` is the memory of the entries' field of that name.
pub record Pq : Type 0 where
  pub q : List ℕ
  pub capacity : ℕ
  pub index : ℕ → ℕ

abbrev pub slot : Pq → ℕ → ℕ
slot pq i = get_or pq.q i 0

-- `pq->q[i] = e; pq->q[i]->index = i;`
abbrev pub put : Pq → ℕ → ℕ → Pq
put pq i e = record {
  q = set pq.q i e;
  capacity = pq.capacity;
  index = λ x. if x == e then i else pq.index x;
}

abbrev pub swap : Pq → ℕ → ℕ → Pq
swap pq i j = put (put pq i (slot pq j)) j (slot pq i)

-- `--pq->length`
abbrev pub shrink : Pq → Pq
shrink pq = record pq { q = take (length pq.q - 1) pq.q }

unfoldable pub pq_init : Pq
pq_init = record { q = []; capacity = 0; index = λ _. 0 }

unfoldable pub pq_top : Pq → Option ℕ
pq_top pq = if length pq.q == 0 then none else some (slot pq 0)

unfoldable pub pq_empty : Pq → Bool
pq_empty pq = length pq.q == 0

unfoldable pub pq_size : Pq → ℕ
pq_size pq = length pq.q

abbrev pub parent : ℕ → ℕ
parent index = (index - 1) / 2

-- `nghttp2_pq_each`: whether a call of `fun` stopped the walk.
unfoldable pub pq_each : (ℕ → Bool) → List ℕ → Bool
pq_each fun [] = false
pq_each fun (e ∷ es) = let rest = pq_each fun es in if fun e then true else rest

-- `pq->q[pq->length] = item; item->index = pq->length; ++pq->length;`
abbrev pub placed : Pq → ℕ → Pq
placed pq item = record {
  q = pq.q ++ item ∷ [];
  capacity = pq.capacity;
  index = λ x. if x == item then length pq.q else pq.index x;
}

-- How a push ends: the return code, and the queue.
pub data Pushed : Type 0 where
  done : Pq → Pushed
  failed : Error → Pq → Pushed

-- `less` is the function that the queue was made with. The loops run on fuel and give nothing
-- when it does not suffice.
module _ (less : ℕ → ℕ → Bool) where
  unfoldable pub bubble_up : ℕ → Pq → ℕ → Option Pq
  bubble_up fuel pq zero = some pq
  bubble_up zero pq (suc i) = none
  bubble_up (suc fuel) pq (suc i) =
      let p = parent (suc i) in
      let rest = bubble_up fuel (swap pq p (suc i)) p in
      if less (slot pq (suc i)) (slot pq p) then rest else some pq

  -- The inner loop of `bubble_down`: the least of an entry and its children.
  unfoldable pub min_index : Pq → ℕ → ℕ
  min_index pq index =
      let j = index * 2 + 1 in
      let m = if less (slot pq j) (slot pq index) then j else index in
      if ltb j (length pq.q)
      then if ltb (j + 1) (length pq.q)
        then if less (slot pq (j + 1)) (slot pq m) then j + 1 else m
        else m
      else index

  unfoldable pub bubble_down : ℕ → Pq → ℕ → Option Pq
  bubble_down zero pq index = none
  bubble_down (suc fuel) pq index =
      let m = min_index pq index in
      let rest = bubble_down fuel (swap pq index m) m in if m == index then some pq else rest

  -- The end of a push, in an array that has room.
  unfoldable pub append : Pq → ℕ → Option Pushed
  append pq item = elim (bubble_up (length pq.q) (placed pq item) (length pq.q)) [
    | some pq' ↦ some (done pq')
    | none ↦ none
  ]

  -- `realloc` says whether the allocator gives so many bytes.
  unfoldable pub pq_push : (ℕ → Bool) → Pq → ℕ → Option Pushed
  pq_push realloc pq item =
      let ncapacity = max 4 (pq.capacity * 2 % 2 ^ 64) in
      if leb pq.capacity (length pq.q)
      then if realloc (ncapacity * 8 % 2 ^ 64)
        then append (record pq { capacity = ncapacity }) item
        else some (failed Error.nomem pq)
      else append pq item

  unfoldable pub pq_pop : Pq → Option Pq
  pq_pop pq =
      let last = slot pq (length pq.q - 1) in
      let down = bubble_down (length pq.q) (shrink (put pq 0 last)) 0 in
      if ltb 0 (length pq.q) then down else some pq

  -- The `assert`, that the array holds `item` at its index, is a hypothesis of the theorem.
  unfoldable pub pq_remove : Pq → ℕ → Option Pq
  unfolding pq_pop
  pq_remove pq item =
      let i = pq.index item in
      let moved = shrink (put pq i (slot pq (length pq.q - 1))) in
      let popped = pq_pop pq in
      let down = bubble_down (length pq.q) moved i in
      let up = bubble_up i moved i in
      if i == 0
      then popped
      else if i == length pq.q - 1
      then some (shrink pq)
      else if less item (slot moved i)
      then down
      else up

  -- The second loop of `nghttp2_pq_update`, for the positions below `i`.
  unfoldable pub heapify : Pq → ℕ → Option Pq
  heapify pq zero = some pq
  heapify pq (suc i) = elim (bubble_down (length pq.q) pq i) [
    | some pq' ↦ heapify pq' i
    | none ↦ none
  ]

-- `nghttp2_pq_update` with a callback on a state `S`, which holds what `less` compares. The first
-- loop of it, which is also the one that collects the callback's results:
unfoldable pub update_each : {S : Type 0} → (ℕ → S → Bool × S) → List ℕ → S → Bool × S
update_each fun [] s = (false, s)
update_each fun (e ∷ es) s =
    let (rv, s1) = fun e s in let (rvs, s2) = update_each fun es s1 in (rv || rvs, s2)

unfoldable pub pq_update :
    {S : Type 0} → (S → ℕ → ℕ → Bool) → (ℕ → S → Bool × S) → Pq → S → Option (Pq × S)
unfolding update_each heapify
pq_update {S} less fun pq s =
    let (rv, s') = update_each fun pq.q s in
    let rebuilt : Option (Pq × S) = elim (heapify (less s') pq (length pq.q)) [
      | some pq' ↦ some (pq', s')
      | none ↦ none
    ] in
    if length pq.q == 0 then some (pq, s) else if rv then rebuilt else some (pq, s')
