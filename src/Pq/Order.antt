-- ===== src/Pq/Order.antt =====
-- The order of the heap, on the keys that the slots of the array hold.
use newhttp.Common.{ℕ, zero, suc, ◌≤◌, ◌<◌, ◌≡◌, Bool, ltb, length, arith}
use newhttp.Pq.{Pq, slot, parent}

-- What `less` compares: the entries' keys, as `stream_weight_less` of lib/nghttp2_stream.c does.
abbrev pub Compares : (ℕ → ℕ → Bool) → (ℕ → ℕ) → Type 0
Compares less key = (a b : ℕ) → less a b ≡ ltb (key a) (key b)

-- The keys at the positions below `n`: from position `lo` on, no entry is less than its parent.
abbrev pub InOrder : ℕ → (ℕ → ℕ) → ℕ → Type 0
InOrder lo at n = (c : ℕ) → 0 < c → c < n → lo ≤ parent c → at (parent c) ≤ at c

abbrev pub key_at : (ℕ → ℕ) → Pq → ℕ → ℕ
key_at key pq k = key (slot pq k)

abbrev pub IsHeapFrom : ℕ → (ℕ → ℕ) → Pq → Type 0
IsHeapFrom lo key pq = InOrder lo (key_at key pq) (length pq.q)

abbrev pub IsHeap : (ℕ → ℕ) → Pq → Type 0
IsHeap = IsHeapFrom 0

least_below : (k : ℕ) (at : ℕ → ℕ) (n i : ℕ) → InOrder 0 at n → i < k → i < n → at 0 ≤ at i
least_below zero at n i h f p = absurd (omega arith)
least_below (suc k) at n i h f p = ground (arith, h i, least_below k at n (parent i) h)

-- The first entry of a heap is a least one.
pub first_least : (at : ℕ → ℕ) (n i : ℕ) → InOrder 0 at n → i < n → at 0 ≤ at i
first_least at n i h p = least_below (suc i) at n i h (omega arith) p
