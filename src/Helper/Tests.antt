-- ===== src/Helper/Tests.antt =====
-- Concrete byte strings and windows for lib/nghttp2_helper.c.
use newhttp.Common.{ℕ, ◌≡◌, ◌⊎◌, refl, arith, List, map, true, ◌^◌, ◌-◌}
use newhttp.Common.Int.{ℤ, pos, negsuc, ◌+ℤ◌, ◌≤ℤ◌}
use newhttp.Common.Text.{codes}
use newhttp.Errors.{ok, err, flow_control}
use newhttp.Helper.Charset.{check_header_name}
use newhttp.Helper.Charset.Laws.{is_field_name, check_header_name-is_field_name}
use newhttp.Helper.Window.{Window, adjust_local_window_size}
use newhttp.Helper.Window.Steps.{InRange, credit}
use newhttp.Helper.Window.Laws.{Refused, adjust_local_window_size_lem}

check_header_name-is_field_name_example :
    check_header_name (codes ":path") ≡ is_field_name (codes ":path")
check_header_name-is_field_name_example =
    check_header_name-is_field_name (codes ":path") (omega arith)

-- 100 bytes of 65535 received, and 200 more to be opened.
abbrev window : Window
window = record {
  local_window_size = pos 65535;
  recv_window_size = pos 100;
  recv_reduction = pos 30;
  delta = pos 200;
}

window-InRange : InRange window
window-InRange = record {
  local_low = omega arith;
  local_high = omega arith;
  recv_low = omega arith;
  recv_high = omega arith;
  reduction_low = omega arith;
  reduction_high = omega arith;
  delta_low = omega arith;
  delta_high = omega arith;
}

adjust_local_window_size_example :
    ((w' : Window) × (adjust_local_window_size window ≡ ok w')
      × InRange w'
      × ((pos 1 ≤ℤ window.delta) × (credit w' ≡ credit window +ℤ w'.delta)
          ⊎ (window.delta ≤ℤ pos 0) × (credit w' ≡ credit window) × (w'.delta ≡ pos 0)))
    ⊎ (adjust_local_window_size window ≡ err flow_control) × Refused window
adjust_local_window_size_example = adjust_local_window_size_lem window window-InRange

window_after :
    adjust_local_window_size window
    ≡ ok (record {
      local_window_size = pos 65635;
      recv_window_size = pos 30;
      recv_reduction = pos 0;
      delta = pos 170;
    })
unfolding adjust_local_window_size newhttp.Helper.Window.increase newhttp.Common.Int.◌-ℤ◌
    newhttp.Helper.Window.max_ℤ ◌+ℤ◌ newhttp.Helper.Window.min_ℤ
window_after = refl
