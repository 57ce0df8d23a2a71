-- ===== src/Helper/Window/Shrink.antt =====
-- The end of `nghttp2_adjust_local_window_size` (lib/nghttp2_helper.c) that shrinks the window.
use newhttp.Common.{◌≡◌, inl, inr, Bool-cases}
use newhttp.Common.Int.{pos, ◌+ℤ◌, ◌-ℤ◌, ◌≤ℤ◌, ltb_ℤ, int_laws}
use newhttp.Errors.{ok}
use newhttp.Helper.Window.{Window, int32_max, int32_min, decrease}
use newhttp.Helper.Window.Steps.{InRange, credit, ltb_ℤ-false}

abbrev pub decreased : Window → Window
decreased w = record {
  local_window_size = w.local_window_size +ℤ w.delta;
  recv_window_size = w.recv_window_size +ℤ w.delta;
  recv_reduction = w.recv_reduction -ℤ w.delta;
  delta = pos 0;
}

-- The result of a decrease.
pub decrease_cases :
    (w w' : Window)
    → decrease w ≡ ok w'
    → (w' ≡ decreased w)
      × (pos 0 ≤ℤ w.local_window_size +ℤ w.delta)
      × (int32_min -ℤ w.delta ≤ℤ w.recv_window_size)
      × (w.recv_reduction ≤ℤ int32_max +ℤ w.delta)
unfolding decrease
decrease_cases w w' h = elim (Bool-cases (ltb_ℤ (w.local_window_size +ℤ w.delta) (pos 0))) [
  | inl x ↦ cc (rw x at h)
  | inr x ↦ elim (Bool-cases (ltb_ℤ w.recv_window_size (int32_min -ℤ w.delta))) [
    | inl y ↦ cc (rw (x, y) at h)
    | inr y ↦ elim (Bool-cases (ltb_ℤ (int32_max +ℤ w.delta) w.recv_reduction)) [
      | inl z ↦ cc (rw (x, y, z) at h)
      | inr z ↦ (
        cc (rw (x, y, z) at h),
        ltb_ℤ-false (w.local_window_size +ℤ w.delta) (pos 0) x,
        ltb_ℤ-false w.recv_window_size (int32_min -ℤ w.delta) y,
        ltb_ℤ-false (int32_max +ℤ w.delta) w.recv_reduction z,
      )
    ]
  ]
]

pub decreased-credit : (w : Window) → credit (decreased w) ≡ credit w
decreased-credit w = omega int_laws

pub decreased-InRange :
    (w : Window)
    → InRange w
    → w.delta ≤ℤ pos 0
    → pos 0 ≤ℤ w.local_window_size +ℤ w.delta
    → int32_min -ℤ w.delta ≤ℤ w.recv_window_size
    → w.recv_reduction ≤ℤ int32_max +ℤ w.delta
    → InRange (decreased w)
decreased-InRange w r less x y z =
    let ll = r.local_low in
    let lh = r.local_high in
    let rh = r.recv_high in
    let dl = r.reduction_low in
    record {
      local_low = omega int_laws;
      local_high = omega int_laws;
      recv_low = omega int_laws;
      recv_high = omega int_laws;
      reduction_low = omega int_laws;
      reduction_high = omega int_laws;
      delta_low = omega int_laws;
      delta_high = omega int_laws;
    }
