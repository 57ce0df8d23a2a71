-- ===== src/Helper/Window/Laws.antt =====
-- `nghttp2_adjust_local_window_size` of lib/nghttp2_helper.c: ranges and what the peer may send.
use newhttp.Common.{◌≡◌, ◌^◌, refl, arith, ◌⊎◌, inl, inr, Bool-cases}
use newhttp.Common.Int.{pos, negsuc, ◌+ℤ◌, ◌-ℤ◌, ◌≤ℤ◌, ltb_ℤ, int_laws}
use newhttp.Errors.{ok, err, flow_control}
use newhttp.Helper.Window.{
  Window, max_window_size, int32_min, int32_max, increase, decrease, adjust_local_window_size,
}
use newhttp.Helper.Window.Shrink.{decreased, decrease_cases, decreased-credit, decreased-InRange}
use newhttp.Helper.Window.Steps.{
  InRange, credit, new_recv, excess, grown, recv_after, ltb_ℤ-false, ltb_ℤ-true, increase_cases,
  within-credit, within-InRange, grown-credit, grown-InRange,
}

-- The values that an adjustment refuses: the new size is over 2^31 - 1 or under 0, or the bytes
-- received or the reduction leave `int32_t`.
abbrev pub Refused : Window → Type 0
Refused w =
    (pos 1 ≤ℤ w.delta) × (pos (2 ^ 31) ≤ℤ w.local_window_size +ℤ excess w)
    ⊎ (w.delta ≤ℤ pos 0)
      × ((w.local_window_size +ℤ w.delta ≤ℤ negsuc 0)
          ⊎ (w.recv_window_size +ℤ w.delta ≤ℤ negsuc (2 ^ 31))
          ⊎ (pos (2 ^ 31) ≤ℤ w.recv_reduction -ℤ w.delta))

adjust-ok_or_err :
    (w : Window)
    → ((w' : Window) × (adjust_local_window_size w ≡ ok w'))
      ⊎ (adjust_local_window_size w ≡ err flow_control) × Refused w
unfolding adjust_local_window_size increase decrease
adjust-ok_or_err w = elim (Bool-cases (ltb_ℤ (pos 0) w.delta)) [
  | inl d ↦ elim (Bool-cases (ltb_ℤ (new_recv w) (pos 0))) [
    | inl n ↦ elim (Bool-cases (ltb_ℤ (max_window_size -ℤ excess w) w.local_window_size)) [
      | inl m ↦ inr (
        rw (d, n, m) refl,
        inl (
          omega (arith, ltb_ℤ-true (pos 0) w.delta d),
          omega (int_laws, ltb_ℤ-true (max_window_size -ℤ excess w) w.local_window_size m),
        ),
      )
      | inr m ↦ inl (grown w (recv_after w), rw (d, n, m) refl)
    ]
    | inr n ↦ inl (record w { recv_window_size = new_recv w }, rw (d, n) refl)
  ]
  | inr d ↦
      let less = ltb_ℤ-false (pos 0) w.delta d in
      elim (Bool-cases (ltb_ℤ (w.local_window_size +ℤ w.delta) (pos 0))) [
        | inl x ↦ inr (
          rw (d, x) refl,
          inr (less, inl (omega (arith, ltb_ℤ-true (w.local_window_size +ℤ w.delta) (pos 0) x))),
        )
        | inr x ↦ elim (Bool-cases (ltb_ℤ w.recv_window_size (int32_min -ℤ w.delta))) [
          | inl y ↦ inr (
            rw (d, x, y) refl,
            inr (
              less,
              inr (inl (omega (int_laws, ltb_ℤ-true w.recv_window_size (int32_min -ℤ w.delta) y))),
            ),
          )
          | inr y ↦ elim (Bool-cases (ltb_ℤ (int32_max +ℤ w.delta) w.recv_reduction)) [
            | inl z ↦ inr (
              rw (d, x, y, z) refl,
              inr (
                less,
                inr (inr (omega (int_laws, ltb_ℤ-true (int32_max +ℤ w.delta) w.recv_reduction z))),
              ),
            )
            | inr z ↦ inl (decreased w, rw (d, x, y, z) refl)
          ]
        ]
      ]
]

-- The difference that the adjustment adds to what the peer may send, and what is left of the
-- delta for a WINDOW_UPDATE.
adjust-credit :
    (w w' : Window)
    → InRange w
    → adjust_local_window_size w ≡ ok w'
    → InRange w'
      × ((pos 1 ≤ℤ w.delta) × (credit w' ≡ credit w +ℤ w'.delta)
          ⊎ (w.delta ≤ℤ pos 0) × (credit w' ≡ credit w) × (w'.delta ≡ pos 0))
unfolding adjust_local_window_size
adjust-credit w w' r h = elim (Bool-cases (ltb_ℤ (pos 0) w.delta)) [
  | inl d ↦
      let more : pos 1 ≤ℤ w.delta = omega (arith, ltb_ℤ-true (pos 0) w.delta d) in
      elim (increase_cases w w' (rw d at h)) [
        | inl (e, n) ↦ (
          rw e (within-InRange w r more (ltb_ℤ-false (new_recv w) (pos 0) n)),
          inl (more, rw e (within-credit w more (ltb_ℤ-false (new_recv w) (pos 0) n))),
        )
        | inr (e, n, room) ↦
            let over : new_recv w ≤ℤ negsuc 0 = omega (arith, ltb_ℤ-true (new_recv w) (pos 0) n) in
            (
              rw e (
                  grown-InRange w r more over
                    (ltb_ℤ-false (max_window_size -ℤ excess w) w.local_window_size room)),
              inl (more, rw e (grown-credit w)),
            )
      ]
  | inr d ↦
      let (e, x, y, z) = decrease_cases w w' (rw d at h) in
      let less = ltb_ℤ-false (pos 0) w.delta d in
      (rw e (decreased-InRange w r less x y z), inr (less, rw e (decreased-credit w), rw e refl))
]

-- An adjustment of a window whose values are in range either refuses, and then a value would
-- leave its range, or keeps every value in range; what the peer may send (the size less the bytes
-- received) then grows by the delta that is left for a WINDOW_UPDATE, or stays the same when
-- the window shrinks, with no delta left.
pub adjust_local_window_size_lem :
    (w : Window)
    → InRange w
    → ((w' : Window) × (adjust_local_window_size w ≡ ok w')
        × InRange w'
        × ((pos 1 ≤ℤ w.delta) × (credit w' ≡ credit w +ℤ w'.delta)
            ⊎ (w.delta ≤ℤ pos 0) × (credit w' ≡ credit w) × (w'.delta ≡ pos 0)))
      ⊎ (adjust_local_window_size w ≡ err flow_control) × Refused w
adjust_local_window_size_lem w r = elim (adjust-ok_or_err w) [
  | inl (w', h) ↦ let (k, c) = adjust-credit w w' r h in inl (w', h, k, c)
  | inr e ↦ inr e
]
