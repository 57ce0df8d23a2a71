-- ===== src/Session/Queue.antt =====
-- lib/nghttp2_session.c: the frames that the session queues by itself.
use newhttp.Common.{
  ℕ, ◌+◌, min, Bool, true, false, ◌&&◌, not, List, [], ◌∷◌, ◌++◌, Option, none, some, length, ltb,
  leb, if◌then◌else◌,
}
use newhttp.Common.Int.{ℤ}
use newhttp.Errors.{Error, Rv, ok, err, abort}
use newhttp.Session.{
  Session, Stream, StreamState, Item, rst_stream, goaway, window_update, Request, is_my_stream_id,
  is_closing, get_stream, set_stream,
}

-- The code that a call returns, and the session that it leaves.
abbrev pub Result : Type 0
Result = Rv (Unit {0}) × Session

abbrev pub is_fatal : Rv (Unit {0}) → Bool
is_fatal (err Error.nomem) = true
is_fatal (err Error.callback_failure) = true
is_fatal (err Error.bad_client_magic) = true
is_fatal _ = false

abbrev pub push_reg : Session → Item → Session
push_reg session item = record session { ob_reg = session.ob_reg ++ item ∷ [] }

-- The effect of an RST_STREAM in the queue on its stream.
abbrev pub closing_stream : Session → ℕ → Option Stream → Session
closing_stream session stream_id none = session
closing_stream session stream_id (some stream) =
    set_stream session stream_id (record stream { state = StreamState.closing })

-- `nghttp2_session_add_item` of the frames of `Item`.
unfoldable pub add_item : Session → Item → Session
add_item session (rst_stream stream_id error_code) =
    push_reg (closing_stream session stream_id (get_stream session stream_id))
      (rst_stream stream_id error_code)
add_item session item = push_reg session item

-- `served` says whether the allocator gives the memory of the item.
unfoldable pub add_window_update : Bool → Session → ℕ → ℤ → Result
add_window_update served session stream_id increment =
    if served
    then (ok tt, add_item session (window_update stream_id increment))
    else (err Error.nomem, session)

abbrev pub max_payloadlen : ℕ
max_payloadlen = 16384

unfoldable pub add_goaway : Bool → Session → ℕ → ℕ → List ℕ → Result
add_goaway served session last_stream_id error_code opaque_data =
    if is_my_stream_id session last_stream_id
    then (err Error.invalid_argument, session)
    else if ltb max_payloadlen (length opaque_data + 8) && ltb 0 (length opaque_data)
    then (err Error.invalid_argument, session)
    else if served
    then (
      ok tt,
      add_item session
          (goaway (min last_stream_id session.local_last_stream_id) error_code opaque_data),
    )
    else (err Error.nomem, session)

abbrev pub mark_term : Result → Result
mark_term (ok x, session) = (ok x, record session { term_on_send = true })
mark_term (err e, session) = (err e, session)
mark_term (abort, session) = (abort, session)

-- `session_terminate_session`, with the bytes of the reason.
unfoldable pub terminate_session : Bool → Session → ℕ → ℕ → List ℕ → Result
terminate_session served session last_stream_id error_code reason =
    if session.term_on_send
    then (ok tt, session)
    else mark_term (add_goaway served session last_stream_id error_code reason)

-- The loop over `ob_syn` that cancels the request of a stream, if it finds one to cancel.
unfoldable pub cancel_request : ℕ → ℕ → List Request → Option (List Request)
cancel_request stream_id error_code [] = none
cancel_request stream_id error_code (q ∷ qs) =
    let rest = cancel_request stream_id error_code qs in
    if ltb q.stream_id stream_id
    then elim rest [ some qs' ↦ some (q ∷ qs') | none ↦ none ]
    else if ltb stream_id q.stream_id
    then none
    else elim q.canceled [
      | some code ↦ none
      | none ↦ some (record { stream_id = q.stream_id; canceled = some error_code } ∷ qs)
    ]

abbrev pub first_id-le : List Request → ℕ → Bool
first_id-le [] stream_id = false
first_id-le (q ∷ qs) stream_id = leb q.stream_id stream_id

unfoldable pub add_rst_stream : Bool → Session → ℕ → ℕ → Result
add_rst_stream served session stream_id error_code =
    let queued : Result =
      if served
      then (ok tt, add_item session (rst_stream stream_id error_code))
      else (err Error.nomem, session) in
    let canceled : Result = elim (cancel_request stream_id error_code session.ob_syn) [
      | some ob_syn ↦ (ok tt, record session { ob_syn = ob_syn })
      | none ↦ queued
    ] in
    let sent : Result =
      if not session.server
        && is_my_stream_id session stream_id
        && first_id-le session.ob_syn stream_id
        && ltb stream_id session.next_stream_id
      then canceled
      else queued in
    elim (get_stream session stream_id) [
      | some stream ↦ if is_closing stream.state then (ok tt, session) else sent
      | none ↦ sent
    ]
