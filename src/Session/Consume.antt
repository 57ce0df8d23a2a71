-- ===== src/Session/Consume.antt =====
-- lib/nghttp2_session.c: the bytes that the application has consumed, announced to the peer.
pub mod Laws
use newhttp.Common.{
  ℕ, ◌+◌, ◌-◌, ◌%◌, ◌^◌, suc, Bool, true, false, ◌||◌, not, [], Option, none, some, ltb, ◌==◌,
  if◌then◌else◌,
}
use newhttp.Common.Int.{ℤ, pos, negsuc, sub_ℕ, ◌+ℤ◌, ◌-ℤ◌}
use newhttp.Errors.{Error, Rv, ok, err, abort}
use newhttp.Helper.Window.{min_ℤ, should_send_window_update}
use newhttp.Session.{Session, Stream, get_stream, set_stream}
use newhttp.Session.Queue.{Result, is_fatal, add_window_update, terminate_session}
use newhttp.Session.Receive.{flow_control_error, to_size, to_int32, int32}

-- What `session_update_consumed_size` writes through its pointers, the code, and the session with
-- its queue.
pub record Consumed : Type 0 where
  pub consumed_size : ℤ
  pub recv_window_size : ℤ
  pub result : Result

abbrev pub after_update : ℤ → ℤ → ℤ → Result → Consumed
after_update consumed recv recv_size (ok x, session) = record {
  consumed_size = int32 (consumed -ℤ recv_size);
  recv_window_size = int32 (recv -ℤ recv_size);
  result = (ok x, session);
}
after_update consumed recv recv_size (err e, session) = record {
  consumed_size = consumed;
  recv_window_size = recv;
  result = (err e, session);
}
after_update consumed recv recv_size (abort, session) = record {
  consumed_size = consumed;
  recv_window_size = recv;
  result = (abort, session);
}

unfoldable pub update_consumed_size : Bool → Session → ℤ → ℤ → ℕ → ℕ → ℤ → Consumed
update_consumed_size served session consumed recv stream_id delta_size local_window_size =
    let consumed' = to_int32 (to_size consumed + delta_size) in
    let recv_size = min_ℤ consumed' recv in
    if ltb ((2 ^ 31 - 1 + 2 ^ 64 - delta_size) % 2 ^ 64) (to_size consumed)
    then record {
      consumed_size = consumed;
      recv_window_size = recv;
      result = terminate_session served session session.last_proc_stream_id flow_control_error [];
    }
    else if should_send_window_update local_window_size recv_size
    then after_update consumed' recv recv_size
        (add_window_update served session stream_id recv_size)
    else record { consumed_size = consumed'; recv_window_size = recv; result = (ok tt, session) }

abbrev pub write_connection : Consumed → Result
write_connection c = (
  c.result.0,
  record c.result.1 { recv_window_size = c.recv_window_size; consumed_size = c.consumed_size },
)

unfoldable pub update_connection_consumed_size : Bool → Session → ℕ → Result
unfolding update_consumed_size
update_connection_consumed_size served session delta_size = write_connection (
    update_consumed_size served session session.consumed_size session.recv_window_size 0 delta_size
      session.local_window_size)

abbrev pub write_stream : ℕ → Stream → Consumed → Result
write_stream stream_id stream c = (
  c.result.0,
  set_stream c.result.1 stream_id
      (record stream { recv_window_size = c.recv_window_size; consumed_size = c.consumed_size }),
)

unfoldable pub update_stream_consumed_size : Bool → Session → ℕ → Stream → ℕ → Result
unfolding update_consumed_size
update_stream_consumed_size served session stream_id stream delta_size =
    write_stream stream_id stream (
      update_consumed_size served session stream.consumed_size stream.recv_window_size stream_id
        delta_size stream.local_window_size)

-- `if (nghttp2_is_fatal(rv)) return rv;` and 0 otherwise.
abbrev pub unless_fatal : Result → Result
unless_fatal (rv, session) = if is_fatal rv then (rv, session) else (ok tt, session)

unfoldable pub consume_connection : Bool → Session → ℕ → Result
consume_connection served session size =
    if not session.no_auto_window_update
    then (err Error.invalid_state, session)
    else unless_fatal (update_connection_consumed_size served session size)

-- The stream's part of `nghttp2_session_consume` and of `nghttp2_session_consume_stream`.
unfoldable pub consume_if_live : Bool → Session → ℕ → ℕ → Result
consume_if_live served session stream_id size = elim (get_stream session stream_id) [
  | none ↦ (ok tt, session)
  | some stream ↦ unless_fatal (update_stream_consumed_size served session stream_id stream size)
]

unfoldable pub consume_stream : Bool → Session → ℕ → ℕ → Result
consume_stream served session stream_id size =
    if stream_id == 0
    then (err Error.invalid_argument, session)
    else if not session.no_auto_window_update
    then (err Error.invalid_state, session)
    else consume_if_live served session stream_id size

-- `nghttp2_session_consume`; each part asks for the memory of its own frame.
unfoldable pub consume : Bool → Bool → Session → ℕ → ℕ → Result
consume served served_stream session stream_id size =
    let (rv, session1) = update_connection_consumed_size served session size in
    if stream_id == 0
    then (err Error.invalid_argument, session)
    else if not session.no_auto_window_update
    then (err Error.invalid_state, session)
    else if is_fatal rv
    then (rv, session1)
    else consume_if_live served_stream session1 stream_id size
