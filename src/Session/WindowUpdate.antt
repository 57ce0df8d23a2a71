-- ===== src/Session/WindowUpdate.antt =====
-- lib/nghttp2_session.c: a WINDOW_UPDATE of the connection. The results of the application's
-- callbacks are arguments: whether the callback is set and answers something but 0.
pub mod Laws
use newhttp.Common.{ℕ, Bool, [], List, ◌==◌, if◌then◌else◌}
use newhttp.Common.Int.{ℤ, pos, ◌+ℤ◌, ◌-ℤ◌, ltb_ℤ}
use newhttp.Errors.{Error, Rv, ok, err}
use newhttp.Frame.Types.{WindowUpdate}
use newhttp.Helper.Window.{max_window_size}
use newhttp.Session.{Session}
use newhttp.Session.Queue.{Result, terminate_session}

-- The error codes of lib/includes/nghttp2/nghttp2.h for the codes of the library.
unfoldable pub error_code_of : Error → ℕ
error_code_of Error.stream_closed = 5
error_code_of Error.header_comp = 9
error_code_of Error.frame_size_error = 6
error_code_of Error.flow_control = 3
error_code_of Error.refused_stream = 7
error_code_of Error.proto = 1
error_code_of Error.http_header = 1
error_code_of Error.http_messaging = 1
error_code_of _ = 2

unfoldable pub call_on_frame_received : Bool → Session → Result
call_on_frame_received fails session =
    if fails then (err Error.callback_failure, session) else (ok tt, session)

unfoldable pub handle_invalid_connection : Bool → Bool → Session → Error → List ℕ → Result
handle_invalid_connection fails served session lib_error_code reason =
    if fails
    then (err Error.callback_failure, session)
    else terminate_session served session session.last_proc_stream_id (error_code_of lib_error_code)
        reason

unfoldable pub on_connection_window_update_received : Bool → Bool → Bool → Session → ℕ → Result
on_connection_window_update_received invalid_fails recv_fails served session increment =
    if increment == 0
    then handle_invalid_connection invalid_fails served session Error.proto []
    else if ltb_ℤ (max_window_size -ℤ pos increment) session.remote_window_size
    then handle_invalid_connection invalid_fails served session Error.flow_control []
    else call_on_frame_received recv_fails
        (record session { remote_window_size = session.remote_window_size +ℤ pos increment })
