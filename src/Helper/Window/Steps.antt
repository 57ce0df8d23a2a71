-- ===== src/Helper/Window/Steps.antt =====
-- The two ends of `nghttp2_adjust_local_window_size` (lib/nghttp2_helper.c), one at a time.
use newhttp.Common.{
  suc, ltb→ge, ◌+◌, ◌≤◌, ◌≡◌, ap, arith, ◌⊎◌, inl, inr, true, false, if◌then◌else◌, Bool-cases,
  ltb→lt,
}
use newhttp.Common.Int.{pos_part, neg_part, ℤ, pos, negsuc, ◌+ℤ◌, ◌-ℤ◌, ◌≤ℤ◌, ltb_ℤ, int_laws}
use newhttp.Errors.{ok}
use newhttp.Helper.Window.{Window, max_window_size, max_ℤ, min_ℤ, int32_max, int32_min, increase}

-- The ranges that the session keeps: a window of 0 to 2^31 - 1, a reduction that is not negative,
-- and values that are `int32_t`.
pub record InRange (w : Window) : Type 0 where
  pub local_low : pos 0 ≤ℤ w.local_window_size
  pub local_high : w.local_window_size ≤ℤ max_window_size
  pub recv_low : int32_min ≤ℤ w.recv_window_size
  pub recv_high : w.recv_window_size ≤ℤ int32_max
  pub reduction_low : pos 0 ≤ℤ w.recv_reduction
  pub reduction_high : w.recv_reduction ≤ℤ int32_max
  pub delta_low : int32_min ≤ℤ w.delta
  pub delta_high : w.delta ≤ℤ int32_max

-- What the peer may still send.
abbrev pub credit : Window → ℤ
credit w = w.local_window_size -ℤ w.recv_window_size

pub max_ℤ_lem :
    (a b : ℤ)
    → (a ≤ℤ max_ℤ a b)
      × (b ≤ℤ max_ℤ a b)
      × ((max_ℤ a b ≡ a) × (b ≤ℤ a) ⊎ (max_ℤ a b ≡ b) × (a ≤ℤ b))
unfolding max_ℤ
max_ℤ_lem a b = ground arith

pub min_ℤ_lem :
    (a b : ℤ) → (min_ℤ a b ≤ℤ a) × (min_ℤ a b ≤ℤ b) × ((min_ℤ a b ≡ a) ⊎ (min_ℤ a b ≡ b))
unfolding min_ℤ
min_ℤ_lem a b = ground arith

pub ltb_ℤ-false : (a b : ℤ) → ltb_ℤ a b ≡ false → b ≤ℤ a
ltb_ℤ-false a b h = omega (arith, ltb→ge _ _ h)

pub ltb_ℤ-true :
    (a b : ℤ) → ltb_ℤ a b ≡ true → suc (pos_part a + neg_part b) ≤ pos_part b + neg_part a
ltb_ℤ-true a b h = omega (arith, ltb→lt _ _ h)

module _ (w : Window) where
  abbrev received : ℤ
  received = max_ℤ (pos 0) w.recv_window_size

  abbrev pub new_recv : ℤ
  new_recv = received -ℤ w.delta

  abbrev pub excess : ℤ
  excess = pos 0 -ℤ new_recv

  abbrev paid : ℤ
  paid = min_ℤ w.recv_reduction excess

  -- The window after the increase, with `recv` bytes received.
  abbrev pub grown : ℤ → Window
  grown recv = record {
    local_window_size = w.local_window_size +ℤ excess;
    recv_window_size = recv;
    recv_reduction = w.recv_reduction -ℤ paid;
    delta = w.delta -ℤ paid;
  }

  abbrev pub recv_after : ℤ
  recv_after = if ltb_ℤ w.recv_window_size (pos 0) then w.recv_window_size +ℤ paid else paid

  -- The two successful ends of an increase.
  pub increase_cases :
      (w' : Window)
      → increase w ≡ ok w'
      → ((w' ≡ record w { recv_window_size = new_recv }) × (ltb_ℤ new_recv (pos 0) ≡ false))
        ⊎ ((w' ≡ grown recv_after)
            × (ltb_ℤ new_recv (pos 0) ≡ true)
            × (ltb_ℤ (max_window_size -ℤ excess) w.local_window_size ≡ false))
  unfolding increase
  increase_cases w' h = elim (Bool-cases (ltb_ℤ new_recv (pos 0))) [
    | inl y ↦ elim (Bool-cases (ltb_ℤ (max_window_size -ℤ excess) w.local_window_size)) [
      | inl z ↦ cc (rw (y, z) at h)
      | inr z ↦ inr (cc (rw (y, z) at h), y, z)
    ]
    | inr y ↦ inl (cc (rw y at h), y)
  ]

  -- The bytes that count as received, by the sign of the old count.
  recv_after_cases :
      ((w.recv_window_size ≤ℤ negsuc 0)
        × (received ≡ pos 0)
        × (recv_after ≡ w.recv_window_size +ℤ paid))
      ⊎ ((pos 0 ≤ℤ w.recv_window_size) × (received ≡ w.recv_window_size) × (recv_after ≡ paid))
  unfolding max_ℤ
  recv_after_cases = ground arith

  pub within-credit :
      pos 1 ≤ℤ w.delta
      → pos 0 ≤ℤ new_recv
      → credit (record w { recv_window_size = new_recv }) ≡ credit w +ℤ w.delta
  within-credit more enough =
      let m = max_ℤ_lem (pos 0) w.recv_window_size in
      elim m.2 [
        | inl (e, _) ↦ absurd (omega (int_laws, ap pos_part e, ap neg_part e))
        | inr (e, _) ↦ omega (int_laws, ap pos_part e, ap neg_part e)
      ]

  pub grown-credit : credit (grown recv_after) ≡ credit w +ℤ (w.delta -ℤ paid)
  grown-credit = elim recv_after_cases [
    | inl (_, e, f) ↦ rw f (omega (int_laws, ap pos_part e, ap neg_part e))
    | inr (_, e, f) ↦ rw f (omega (int_laws, ap pos_part e, ap neg_part e))
  ]

  paid-low : InRange w → new_recv ≤ℤ negsuc 0 → pos 0 ≤ℤ paid
  paid-low r over =
      let (_, _, which) = min_ℤ_lem w.recv_reduction excess in
      let low = r.reduction_low in
      elim which [
        | inl e ↦ omega (int_laws, ap pos_part e, ap neg_part e)
        | inr e ↦ omega (int_laws, ap pos_part e, ap neg_part e)
      ]

  pub grown-InRange :
      InRange w
      → pos 1 ≤ℤ w.delta
      → new_recv ≤ℤ negsuc 0
      → w.local_window_size ≤ℤ max_window_size -ℤ excess
      → InRange (grown recv_after)
  grown-InRange r more over room =
      let (lo, hi, _) = min_ℤ_lem w.recv_reduction excess in
      let pays = paid-low r over in
      let ll = r.local_low in
      let lh = r.local_high in
      let rl = r.recv_low in
      let rh = r.recv_high in
      let dl = r.reduction_low in
      let dh = r.reduction_high in
      let wh = r.delta_high in
      elim recv_after_cases [
        | inl (s, e, f) ↦
            let pe = ap pos_part e in
            let ne = ap neg_part e in
            rw f (record {
              local_low = omega (int_laws, pe, ne);
              local_high = omega (int_laws, pe, ne);
              recv_low = omega (int_laws, pe, ne);
              recv_high = omega (int_laws, pe, ne);
              reduction_low = omega int_laws;
              reduction_high = omega int_laws;
              delta_low = omega (int_laws, pe, ne);
              delta_high = omega (int_laws, pe, ne);
            })
        | inr (s, e, f) ↦
            let pe = ap pos_part e in
            let ne = ap neg_part e in
            rw f (record {
              local_low = omega (int_laws, pe, ne);
              local_high = omega (int_laws, pe, ne);
              recv_low = omega int_laws;
              recv_high = omega (int_laws, pe, ne);
              reduction_low = omega int_laws;
              reduction_high = omega int_laws;
              delta_low = omega (int_laws, pe, ne);
              delta_high = omega (int_laws, pe, ne);
            })
      ]

pub within-InRange :
    (w : Window)
    → InRange w
    → pos 1 ≤ℤ w.delta
    → pos 0 ≤ℤ new_recv w
    → InRange (record w { recv_window_size = new_recv w })
within-InRange w r more enough =
    let rh = r.recv_high in
    let m = max_ℤ_lem (pos 0) w.recv_window_size in
    elim m.2 [
      | inl (e, _) ↦
          let pe = ap pos_part e in
          let ne = ap neg_part e in
          record {
            local_low = r.local_low;
            local_high = r.local_high;
            recv_low = omega int_laws;
            recv_high = omega (int_laws, pe, ne);
            reduction_low = r.reduction_low;
            reduction_high = r.reduction_high;
            delta_low = r.delta_low;
            delta_high = r.delta_high;
          }
      | inr (e, _) ↦
          let pe = ap pos_part e in
          let ne = ap neg_part e in
          record {
            local_low = r.local_low;
            local_high = r.local_high;
            recv_low = omega int_laws;
            recv_high = omega (int_laws, pe, ne);
            reduction_low = r.reduction_low;
            reduction_high = r.reduction_high;
            delta_low = r.delta_low;
            delta_high = r.delta_high;
          }
    ]
