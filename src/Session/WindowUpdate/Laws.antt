-- ===== src/Session/WindowUpdate/Laws.antt =====
-- The window that a WINDOW_UPDATE of the connection leaves.
use newhttp.Common.{ℕ, ◌<◌, ◌≡◌, refl, arith, Bool, [], ◌⊎◌, inl, inr, Bool-cases, ◌==◌, ==_iff}
use newhttp.Common.Int.{pos, ◌+ℤ◌, ◌-ℤ◌, ◌≤ℤ◌, ltb_ℤ, int_laws}
use newhttp.Errors.{Error}
use newhttp.Helper.Window.{max_window_size}
use newhttp.Helper.Window.Steps.{ltb_ℤ-true, ltb_ℤ-false}
use newhttp.Session.{Session}
use newhttp.Session.Queue.{terminate_session, add_goaway, add_item}
use newhttp.Session.WindowUpdate.{
  on_connection_window_update_received, handle_invalid_connection, call_on_frame_received,
}

-- The frame is no fault of the peer: its increment is not 0, and the window stays in 31 bits.
abbrev pub IsFair : Session → ℕ → Type 0
IsFair session increment =
    (0 < increment) × (session.remote_window_size +ℤ pos increment ≤ℤ max_window_size)

handle_invalid_connection_keeps :
    (fails served : Bool) (session : Session) (e : Error)
    → (handle_invalid_connection fails served session e []).1.remote_window_size
      ≡ session.remote_window_size
unfolding handle_invalid_connection terminate_session add_goaway add_item
handle_invalid_connection_keeps fails served session e = ground arith

received_window :
    (fails : Bool) (session : Session)
    → (call_on_frame_received fails session).1.remote_window_size ≡ session.remote_window_size
unfolding call_on_frame_received
received_window fails session = ground arith

-- A WINDOW_UPDATE of the connection whose increment is not 0 and keeps the window at 2^31 - 1 or
-- below is added to the window, whatever the callback answers. Any other leaves the window, and is
-- handled as an error of the connection.
pub on_connection_window_update_received_lem :
    (invalid_fails recv_fails served : Bool) (session : Session) (increment : ℕ)
    → (let r =
          on_connection_window_update_received invalid_fails recv_fails served session increment in
        (IsFair session increment
          × (r.1.remote_window_size ≡ session.remote_window_size +ℤ pos increment))
        ⊎ (¬ IsFair session increment
            × (r.1.remote_window_size ≡ session.remote_window_size)
            × (e : Error) × (r ≡ handle_invalid_connection invalid_fails served session e [])))
unfolding on_connection_window_update_received call_on_frame_received
on_connection_window_update_received_lem invalid_fails recv_fails served session increment =
    let keeps = handle_invalid_connection_keeps invalid_fails served session in
    let w = session.remote_window_size in
    elim (Bool-cases (increment == 0)) [
      | inl y ↦
          let bad : ¬ IsFair session increment = λ (p, q). omega (arith, (==_iff _ _).0 y) in
          rw (y) (inr (bad, keeps Error.proto, Error.proto, refl))
      | inr n ↦ elim (Bool-cases (ltb_ℤ (max_window_size -ℤ pos increment) w)) [
        | inl y ↦
            let bad : ¬ IsFair session increment =
              λ (p, q). omega (int_laws, q, ltb_ℤ-true (max_window_size -ℤ pos increment) w y) in
            rw (n, y) (inr (bad, keeps Error.flow_control, Error.flow_control, refl))
        | inr m ↦
            let some_bytes : 0 < increment = ground arith in
            let fits : w +ℤ pos increment ≤ℤ max_window_size =
              omega (int_laws, ltb_ℤ-false (max_window_size -ℤ pos increment) w m) in
            rw (n, m) (inl ((some_bytes, fits), received_window recv_fails _))
      ]
    ]
