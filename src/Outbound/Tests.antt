-- ===== src/Outbound/Tests.antt =====
-- A queue of the items 8 and 5.
use newhttp.Common.{◌≡◌, refl, arith, [], ◌∷◌, ◌==◌, if◌then◌else◌}
use newhttp.Outbound.{OutboundQueue, queue_push, queue_pop}
use newhttp.Outbound.Laws.{Holds, queue_push-Holds, queue_pop-Holds}

abbrev two : OutboundQueue
two = record { head = 8; tail = 5; n = 2; qnext = λ x. if x == 8 then 5 else 0 }

two-Holds : Holds two (8 ∷ 5 ∷ [])
two-Holds = record {
  chain = (refl, omega arith, (refl, omega arith, refl));
  last = refl;
  distinct = ((omega arith, tt), (tt, tt));
  count = refl;
}

queue_push-Holds_example : Holds (queue_push two 3) (8 ∷ 5 ∷ 3 ∷ [])
queue_push-Holds_example =
    queue_push-Holds two (8 ∷ 5 ∷ []) 3 two-Holds (omega arith) refl
      (omega arith, (omega arith, tt))

popped : (queue_pop two).head ≡ 5
unfolding queue_pop
popped = refl

popped-Holds : Holds (queue_pop two) (5 ∷ [])
popped-Holds = queue_pop-Holds two (8 ∷ 5 ∷ []) two-Holds
