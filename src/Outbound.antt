-- ===== src/Outbound.antt =====
-- lib/nghttp2_outbound_item.h and lib/nghttp2_outbound_item.c: the queue of outbound items, linked
-- through the items. The items are their addresses, and 0 is the null pointer.
pub mod Laws
mod Tests
use newhttp.Common.{ℕ, suc, ◌-◌, ◌==◌, if◌then◌else◌}

-- `qnext` is the memory of the items' field of that name.
pub record OutboundQueue : Type 0 where
  pub head : ℕ
  pub tail : ℕ
  pub n : ℕ
  pub qnext : ℕ → ℕ

abbrev pub write : (ℕ → ℕ) → ℕ → ℕ → ℕ → ℕ
write qnext item next x = if x == item then next else qnext x

unfoldable pub queue_push : OutboundQueue → ℕ → OutboundQueue
queue_push q item =
    if q.tail == 0
    then record { head = item; tail = item; n = suc q.n; qnext = q.qnext }
    else record { head = q.head; tail = item; n = suc q.n; qnext = write q.qnext q.tail item }

unfoldable pub queue_pop : OutboundQueue → OutboundQueue
queue_pop q =
    let next = q.qnext q.head in
    if q.head == 0 then q else record {
      head = next;
      tail = if next == 0 then 0 else q.tail;
      n = q.n - 1;
      qnext = write q.qnext q.head 0;
    }
