-- ===== src/Session/Receive.antt =====
-- lib/nghttp2_session.c: the bytes of DATA frames in the windows of the connection and of a stream.
pub mod Range
pub mod Laws
pub mod OfStream
use newhttp.Common.{
  ℕ, suc, ◌+◌, ◌-◌, ◌%◌, ◌^◌, ltb, Bool, true, false, ◌&&◌, ◌||◌, not, [], Option, none, some,
  if◌then◌else◌,
}
use newhttp.Common.Int.{ℤ, pos, negsuc, sub_ℕ, ◌-ℤ◌, ltb_ℤ}
use newhttp.Errors.{Rv, ok, err, abort}
use newhttp.Helper.Window.{max_window_size, should_send_window_update}
use newhttp.Session.{Session, Stream, set_stream}
use newhttp.Session.Queue.{Result, add_window_update, terminate_session, add_rst_stream}

abbrev pub flow_control_error : ℕ
flow_control_error = 3

-- `(size_t)x` and `(int32_t)x` of the 64-bit value `x`.
abbrev pub to_size : ℤ → ℕ
to_size (pos n) = n % 2 ^ 64
to_size (negsuc n) = 2 ^ 64 - suc (n % 2 ^ 64)

abbrev pub to_int32 : ℕ → ℤ
to_int32 n = let low = n % 2 ^ 32 in if ltb low (2 ^ 31) then pos low else sub_ℕ low (2 ^ 32)

-- A result of the arithmetic of `int32_t`, which is taken to wrap where it overflows.
abbrev pub int32 : ℤ → ℤ
int32 x = to_int32 (to_size x)

-- `adjust_recv_window_size`: the new size, or nothing where it answers -1. The sum is one of
-- `size_t`, since `delta` is.
unfoldable pub adjust_recv_window_size : ℤ → ℕ → ℤ → Option ℤ
adjust_recv_window_size recv_window_size delta local_window_size =
    if ltb_ℤ (int32 (local_window_size -ℤ to_int32 delta)) recv_window_size
      || ltb_ℤ (int32 (max_window_size -ℤ to_int32 delta)) recv_window_size
    then none
    else some (to_int32 (to_size recv_window_size + delta))

abbrev pub set_recv : Session → ℤ → Session
set_recv session size = record session { recv_window_size = size }

abbrev pub cleared : Result → Result
cleared (ok x, session) = (ok x, set_recv session (pos 0))
cleared (err e, session) = (err e, session)
cleared (abort, session) = (abort, session)

-- The answer to the bytes that the connection has received, in a WINDOW_UPDATE where it is due.
unfoldable pub announce_connection : Bool → Session → Result
announce_connection served session =
    if not session.no_auto_window_update
      && should_send_window_update session.local_window_size session.recv_window_size
    then cleared (add_window_update served session 0 session.recv_window_size)
    else (ok tt, session)

unfoldable pub update_recv_connection_window_size : Bool → Session → ℕ → Result
unfolding announce_connection
update_recv_connection_window_size served session delta_size =
    elim (adjust_recv_window_size session.recv_window_size delta_size session.local_window_size) [
      | none ↦ terminate_session served session session.last_proc_stream_id flow_control_error []
      | some size ↦ announce_connection served (set_recv session size)
    ]

abbrev pub set_stream_recv : Session → ℕ → Stream → ℤ → Session
set_stream_recv session stream_id stream size =
    set_stream session stream_id (record stream { recv_window_size = size })

abbrev pub stream_cleared : ℕ → Stream → Result → Result
stream_cleared stream_id stream (ok x, session) =
    (ok x, set_stream_recv session stream_id stream (pos 0))
stream_cleared stream_id stream (err e, session) = (err e, session)
stream_cleared stream_id stream (abort, session) = (abort, session)

-- The same for a stream, whose new count of received bytes is `size`.
unfoldable pub announce_stream : Bool → Session → ℕ → Stream → ℤ → Bool → Result
announce_stream served session stream_id stream size send_window_update =
    let counted = set_stream_recv session stream_id stream size in
    if send_window_update
      && not session.no_auto_window_update
      && should_send_window_update stream.local_window_size size
    then stream_cleared stream_id stream (add_window_update served counted stream_id size)
    else (ok tt, counted)

-- `stream` is the stream of the map at `stream_id`.
unfoldable pub update_recv_stream_window_size : Bool → Session → ℕ → Stream → ℕ → Bool → Result
unfolding announce_stream
update_recv_stream_window_size served session stream_id stream delta_size send_window_update =
    elim (adjust_recv_window_size stream.recv_window_size delta_size stream.local_window_size) [
      | none ↦ add_rst_stream served session stream_id flow_control_error
      | some size ↦ announce_stream served session stream_id stream size send_window_update
    ]
