-- ===== src/Pq/Slots.antt =====
-- What writing and exchanging slots does to the entries and to their positions.
use newhttp.Common.{
  get_or-set, get_or-set_other, ℕ, ◌<◌, ◌≡◌, ◌≢◌, refl, arith, length, set, ◌==◌, if◌then◌else◌,
  length-set, ap, ◌∙◌, sym,
}
use newhttp.Pq.{Pq, slot, swap}

-- Every entry knows its position, so that no entry stands in two slots.
abbrev pub IsIndexed : Pq → Type 0
IsIndexed pq = (k : ℕ) → k < length pq.q → pq.index (slot pq k) ≡ k

abbrev pub Contains : Pq → ℕ → Type 0
Contains pq e = (k : ℕ) × (k < length pq.q) × (slot pq k ≡ e)

-- Two queues with the same entries, in whatever order.
pub record Rearranged (pq pq' : Pq) : Type 0 where
  pub size : length pq'.q ≡ length pq.q
  pub room : pq'.capacity ≡ pq.capacity
  pub indexed : IsIndexed pq'
  pub kept : (e : ℕ) → Contains pq e → Contains pq' e
  pub old : (e : ℕ) → Contains pq' e → Contains pq e

-- The position whose entry comes to `k` when those of `i` and `j` change places.
abbrev pub exchange : ℕ → ℕ → ℕ → ℕ
exchange i j k = if k == i then j else if k == j then i else k

exchange-small : (i j k n : ℕ) → i < n → j < n → k < n → exchange i j k < n
exchange-small i j k n a b c = ground arith

exchange-exchange : (i j k : ℕ) → exchange i j (exchange i j k) ≡ k
exchange-exchange i j k = ground arith

exchange_index :
    (f g : ℕ → ℕ) (i j k : ℕ) {x : ℕ}
    → f (g i) ≡ i
    → f (g j) ≡ j
    → i ≢ j
    → x ≡ g (exchange i j k)
    → f (g (exchange i j k)) ≡ exchange i j k
    → (if x == g i then j else if x == g j then i else f x) ≡ k
exchange_index f g i j k ha hb d hx hc = grind arith

module _ (pq : Pq) (i j : ℕ) where
  pub length-swap : length (swap pq i j).q ≡ length pq.q
  length-swap = length-set _ j _ ∙ length-set pq.q i _

  module _ (hi : i < length pq.q) (hj : j < length pq.q) (d : i ≢ j) where
    pub swap_first : slot (swap pq i j) i ≡ slot pq j
    swap_first =
        get_or-set_other (set pq.q i (slot pq j)) j i (slot pq i) 0 (omega arith)
        ∙ get_or-set pq.q i (slot pq j) 0 hi

    pub swap_second : slot (swap pq i j) j ≡ slot pq i
    swap_second =
        get_or-set (set pq.q i (slot pq j)) j (slot pq i) 0
          (omega (arith, length-set pq.q i (slot pq j)))

    pub swap_other : (k : ℕ) → i ≢ k → j ≢ k → slot (swap pq i j) k ≡ slot pq k
    swap_other k a b =
        get_or-set_other (set pq.q i (slot pq j)) j k (slot pq i) 0 b
        ∙ get_or-set_other pq.q i k (slot pq j) 0 a

    pub slot-swap : (k : ℕ) → slot (swap pq i j) k ≡ slot pq (exchange i j k)
    slot-swap k = ground (arith, swap_first, swap_second, swap_other k)

    pub Rearranged-swap : IsIndexed pq → Rearranged pq (swap pq i j)
    Rearranged-swap p = record {
      size = length-swap;
      room = refl;
      indexed = λ k h.
          exchange_index pq.index (slot pq) i j k (p i hi) (p j hj) d (slot-swap k)
            (p (exchange i j k) (exchange-small i j k _ hi hj (omega (arith, length-swap))));
      kept = λ e (k, h, s). (
        exchange i j k,
        exchange-small i j k _ (omega (arith, length-swap)) (omega (arith, length-swap))
            (omega (arith, length-swap)),
        slot-swap (exchange i j k) ∙ ap (slot pq) (exchange-exchange i j k) ∙ s,
      );
      old = λ e (k, h, s). (
        exchange i j k,
        exchange-small i j k _ hi hj (omega (arith, length-swap)),
        sym (slot-swap k) ∙ s,
      );
    }
