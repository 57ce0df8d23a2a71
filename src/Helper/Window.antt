-- ===== src/Helper/Window.antt =====
-- lib/nghttp2_helper.c: the local flow control window. The four `int32_t` values are integers.
pub mod Steps
pub mod Shrink
pub mod Laws
use newhttp.Common.{ℕ, suc, ◌-◌, ◌/◌, ◌^◌, Bool, true, false, ◌||◌, not, if◌then◌else◌}
use newhttp.Common.Int.{ℤ, pos, negsuc, sub_ℕ, ◌+ℤ◌, ◌-ℤ◌, ltb_ℤ}
use newhttp.Errors.{Rv, ok, err, flow_control}

pub record Window : Type 0 where
  pub local_window_size : ℤ
  pub recv_window_size : ℤ
  pub recv_reduction : ℤ
  pub delta : ℤ

abbrev pub max_window_size : ℤ
max_window_size = pos (2 ^ 31 - 1)

abbrev pub int32_max : ℤ
int32_max = pos (2 ^ 31 - 1)

abbrev pub int32_min : ℤ
int32_min = negsuc (2 ^ 31 - 1)

unfoldable pub min_ℤ : ℤ → ℤ → ℤ
min_ℤ a b = if ltb_ℤ a b then a else b

unfoldable pub max_ℤ : ℤ → ℤ → ℤ
max_ℤ a b = if ltb_ℤ b a then a else b

unfoldable pub increase : Window → Rv Window
increase w =
    let received = max_ℤ (pos 0) w.recv_window_size in
    let new_recv = received -ℤ w.delta in
    let d = pos 0 -ℤ new_recv in
    let paid = min_ℤ w.recv_reduction d in
    let recv = if ltb_ℤ w.recv_window_size (pos 0) then w.recv_window_size +ℤ paid else paid in
    if not (ltb_ℤ new_recv (pos 0))
    then ok (record w { recv_window_size = new_recv })
    else if ltb_ℤ (max_window_size -ℤ d) w.local_window_size
    then err flow_control
    else ok (record {
      local_window_size = w.local_window_size +ℤ d;
      recv_window_size = recv;
      recv_reduction = w.recv_reduction -ℤ paid;
      delta = w.delta -ℤ paid;
    })

unfoldable pub decrease : Window → Rv Window
decrease w =
    if ltb_ℤ (w.local_window_size +ℤ w.delta) (pos 0)
      || ltb_ℤ w.recv_window_size (int32_min -ℤ w.delta)
      || ltb_ℤ (int32_max +ℤ w.delta) w.recv_reduction
    then err flow_control
    else ok (record {
      local_window_size = w.local_window_size +ℤ w.delta;
      recv_window_size = w.recv_window_size +ℤ w.delta;
      recv_reduction = w.recv_reduction -ℤ w.delta;
      delta = pos 0;
    })

unfoldable pub adjust_local_window_size : Window → Rv Window
adjust_local_window_size w = if ltb_ℤ (pos 0) w.delta then increase w else decrease w

-- Division by 2 in C, towards 0.
abbrev pub half : ℤ → ℤ
half (pos n) = pos (n / 2)
half (negsuc n) = sub_ℕ 0 (suc n / 2)

unfoldable pub should_send_window_update : ℤ → ℤ → Bool
should_send_window_update local_window_size recv_window_size =
    not (ltb_ℤ recv_window_size (half local_window_size))
