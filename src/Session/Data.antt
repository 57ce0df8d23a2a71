-- ===== src/Session/Data.antt =====
-- lib/nghttp2_session.c: whether a DATA frame may be received on its stream.
pub mod Laws
use newhttp.Common.{ℕ, Bool, true, false, List, Option, none, some, ◌==◌, if◌then◌else◌}
use newhttp.Common.Text.{codes}
use newhttp.Errors.{Error, Rv, ok, err}
use newhttp.Session.{
  Session, Stream, is_my_stream_id, detect_idle_stream, get_stream, is_closing, is_reserved,
  is_opened,
}
use newhttp.Session.Queue.{Result, is_fatal, terminate_session}

abbrev pub protocol_error : ℕ
protocol_error = 1

abbrev pub stream_closed_error : ℕ
stream_closed_error = 5

abbrev pub ignored : Result → Result
ignored (rv, session) = if is_fatal rv then (rv, session) else (err Error.ign_payload, session)

-- The label `fail`.
abbrev pub fail : Bool → Session → ℕ → List ℕ → Result
fail served session error_code reason =
    ignored (terminate_session served session session.last_proc_stream_id error_code reason)

-- The checks of a stream that the session has.
unfoldable pub fail_fast_stream : Bool → Session → ℕ → Stream → Result
fail_fast_stream served session stream_id stream =
    if stream.shut_rd
    then fail served session stream_closed_error (codes "DATA: stream in half-closed(remote)")
    else if is_my_stream_id session stream_id
    then if is_closing stream.state
      then (err Error.ign_payload, session)
      else if is_opened stream.state
      then (ok tt, session)
      else fail served session protocol_error (codes "DATA: stream not opened")
    else if is_reserved stream.state
    then fail served session protocol_error (codes "DATA: stream in reserved")
    else if is_closing stream.state
    then (err Error.ign_payload, session)
    else (ok tt, session)

-- `session_on_data_received_fail_fast` for the identifier of the inbound frame.
unfoldable pub on_data_received_fail_fast : Bool → Session → ℕ → Result
unfolding fail_fast_stream
on_data_received_fail_fast served session stream_id =
    let found : Result = elim (get_stream session stream_id) [
      | some stream ↦ fail_fast_stream served session stream_id stream
      | none ↦
          if detect_idle_stream session stream_id
          then fail served session protocol_error (codes "DATA: stream in idle")
          else (err Error.ign_payload, session)
    ] in
    if stream_id == 0
    then fail served session protocol_error (codes "DATA: stream_id == 0")
    else found
