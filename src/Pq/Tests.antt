-- ===== src/Pq/Tests.antt =====
-- A queue of three entries, whose keys are their addresses.
use newhttp.Common.{
  ℕ, zero, suc, ◌≡◌, ◌⊎◌, ◌≤◌, refl, arith, Bool, Option, some, none, List, [], ◌∷◌, ◌==◌,
  if◌then◌else◌, ltb, length, true, false,
}
use newhttp.Errors.{Error}
use newhttp.Pq.{
  Pq, slot, parent, pq_init, pq_push, pq_pop, pq_remove, pq_update, pq_top, pq_each, pq_empty,
  pq_size, update_each, done, failed,
}
use newhttp.Pq.Slots.{Contains, IsIndexed, Rearranged}
use newhttp.Pq.Order.{Compares, IsHeap}
use newhttp.Pq.Rest.{IsPq, pq_top_lem}
use newhttp.Pq.Take.{Taken, pq_pop_lem, pq_remove_lem}
use newhttp.Pq.Push.{Given, pq_push_lem}
use newhttp.Pq.Update.{Reports, pq_update_lem}

-- The keys are the addresses, but for one entry, whose key is 0.
abbrev key_but : ℕ → ℕ → ℕ
key_but s e = if e == s then 0 else e

abbrev less_but : ℕ → ℕ → ℕ → Bool
less_but s a b = ltb (key_but s a) (key_but s b)

abbrev key : ℕ → ℕ
key = key_but 0

abbrev less : ℕ → ℕ → Bool
less = less_but 0

compares : (s : ℕ) → Compares (less_but s) (key_but s)
compares s a b = refl

abbrev three : Pq
three = record {
  q = 3 ∷ 7 ∷ 5 ∷ [];
  capacity = 4;
  index = λ x. if x == 7 then 1 else if x == 5 then 2 else 0;
}

three-IsIndexed : IsIndexed three
three-IsIndexed zero h = refl
three-IsIndexed (suc zero) h = refl
three-IsIndexed (suc (suc zero)) h = refl
three-IsIndexed (suc (suc (suc k))) h = absurd (omega arith)

three-IsHeap : IsHeap key three
three-IsHeap zero p h l = absurd (omega arith)
three-IsHeap (suc zero) p h l = omega arith
three-IsHeap (suc (suc zero)) p h l = omega arith
three-IsHeap (suc (suc (suc k))) p h l = absurd (omega arith)

three_ok : IsPq key three
three_ok = record { indexed = three-IsIndexed; heap = three-IsHeap; fits = omega arith }

pq_top_example :
    ((length three.q ≡ 0) × (pq_top three ≡ none))
    ⊎ ((e : ℕ) × (pq_top three ≡ some e)
        × Contains three e
        × ((e' : ℕ) → Contains three e' → key e ≤ key e'))
pq_top_example = pq_top_lem key three three_ok

pq_pop_example :
    ((length three.q ≡ 0) × (pq_pop less three ≡ some three))
    ⊎ ((pq' : Pq) × (pq_pop less three ≡ some pq') × Taken key 3 three pq')
pq_pop_example = pq_pop_lem less key (compares 0) three three_ok

pq_remove_example : (pq' : Pq) × (pq_remove less three 7 ≡ some pq') × Taken key 7 three pq'
pq_remove_example = pq_remove_lem less key (compares 0) three 7 three_ok (1, omega arith, refl)

three_without_1 : ¬ Contains three 1
three_without_1 (zero, h, e) = absurd (omega arith)
three_without_1 (suc zero, h, e) = absurd (omega arith)
three_without_1 (suc (suc zero), h, e) = absurd (omega arith)
three_without_1 (suc (suc (suc k)), h, e) = absurd (omega arith)

pq_push_example :
    ((length three.q ≡ 4)
      × (true ≡ false)
      × (pq_push less (λ n. true) three 1 ≡ some (failed Error.nomem three)))
    ⊎ ((pq' : Pq) × (pq_push less (λ n. true) three 1 ≡ some (done pq')) × Given key 1 three pq')
pq_push_example =
    pq_push_lem less key (compares 0) (λ n. true) three 1 three_ok three_without_1 (omega arith)

-- A callback that gives entry 7 the key 0.
abbrev lower_7 : ℕ → ℕ → Bool × ℕ
lower_7 e s = (true, 7)

reports : Reports less_but key_but compares lower_7
reports e s h x = absurd (cc h)

abbrev slots : {S : Type 0} → Option (Pq × S) → List ℕ
slots (some (pq, s)) = pq.q
slots none = []

pq_update_example :
    (pq' : Pq) × (pq_update less_but lower_7 three 0 ≡ some (pq', 7))
    × Rearranged three pq'
    × IsPq (key_but 7) pq'
unfolding update_each
pq_update_example = pq_update_lem less_but key_but compares lower_7 three 0 reports three_ok

top_after_update : slots (pq_update less_but lower_7 three 0) ≡ 7 ∷ 3 ∷ 5 ∷ []
unfolding pq_update newhttp.Pq.bubble_down newhttp.Pq.min_index
top_after_update = refl

-- The entries in the order in which they leave.
drain : ℕ → Pq → List ℕ
drain zero pq = []
drain (suc n) pq = elim (pq_pop less pq) [ some pq' ↦ slot pq 0 ∷ drain n pq' | none ↦ [] ]

all_popped : drain 3 three ≡ 3 ∷ 5 ∷ 7 ∷ []
unfolding drain pq_pop newhttp.Pq.bubble_down newhttp.Pq.min_index
all_popped = refl
