-- ===== src/Session.antt =====
-- lib/nghttp2_session.c: the numbering of streams, the frames that a session queues by itself, and
-- its receiving side of flow control.
pub mod Queue
pub mod Receive
pub mod Consume
pub mod Data
pub mod WindowUpdate
mod Tests
use newhttp.Common.{
  ℕ, suc, ◌+◌, ◌%◌, Bool, true, false, ◌&&◌, ◌||◌, not, List, Option, none, some, ltb, leb, ◌==◌,
  if◌then◌else◌,
}
use newhttp.Common.Int.{ℤ, pos, negsuc}
use newhttp.Errors.{Error, Rv, ok, err}

-- The states of lib/nghttp2_stream.h.
pub data StreamState : Type 0 where
  initial opening opened closing reserved idle : StreamState

-- The part of a stream that flow control and the checks of a DATA frame read. `closed` is
-- `NGHTTP2_STREAM_FLAG_CLOSED`, `shut_rd` and `shut_wr` are the shut flags.
pub record Stream : Type 0 where
  pub state : StreamState
  pub closed : Bool
  pub shut_rd : Bool
  pub shut_wr : Bool
  pub local_window_size : ℤ
  pub recv_window_size : ℤ
  pub consumed_size : ℤ

-- The frames that the session queues by itself.
pub data Item : Type 0 where
  rst_stream : ℕ → ℕ → Item
  goaway : ℕ → ℕ → List ℕ → Item
  window_update : ℕ → ℤ → Item

-- A request that waits in `ob_syn`, with the error code of its cancellation.
pub record Request : Type 0 where
  pub stream_id : ℕ
  pub canceled : Option ℕ

-- `streams` is the map from identifiers, `ob_syn` the queue of requests, `ob_reg` the regular queue,
-- `term_on_send` the flag `NGHTTP2_GOAWAY_TERM_ON_SEND` and `no_auto_window_update` the option.
pub record Session : Type 0 where
  pub server : Bool
  pub next_stream_id : ℕ
  pub last_recv_stream_id : ℕ
  pub last_proc_stream_id : ℕ
  pub local_last_stream_id : ℕ
  pub remote_window_size : ℤ
  pub local_window_size : ℤ
  pub recv_window_size : ℤ
  pub consumed_size : ℤ
  pub term_on_send : Bool
  pub no_auto_window_update : Bool
  pub streams : ℕ → Option Stream
  pub ob_syn : List Request
  pub ob_reg : List Item

unfoldable pub is_my_stream_id : Session → ℕ → Bool
is_my_stream_id session stream_id =
    if stream_id == 0
    then false
    else if session.server
    then stream_id % 2 == 0
    else stream_id % 2 == 1

unfoldable pub is_new_peer_stream_id : Session → ℕ → Bool
is_new_peer_stream_id session stream_id =
    not (stream_id == 0)
    && not (is_my_stream_id session stream_id)
    && ltb session.last_recv_stream_id stream_id

unfoldable pub detect_idle_stream : Session → ℕ → Bool
detect_idle_stream session stream_id =
    if is_my_stream_id session stream_id
    then leb session.next_stream_id stream_id
    else is_new_peer_stream_id session stream_id

abbrev pub is_idle : StreamState → Bool
is_idle StreamState.idle = true
is_idle _ = false

abbrev pub is_closing : StreamState → Bool
is_closing StreamState.closing = true
is_closing _ = false

abbrev pub is_reserved : StreamState → Bool
is_reserved StreamState.reserved = true
is_reserved _ = false

abbrev pub is_opened : StreamState → Bool
is_opened StreamState.opened = true
is_opened _ = false

abbrev pub live : Option Stream → Option Stream
live none = none
live (some stream) = if stream.closed || is_idle stream.state then none else some stream

unfoldable pub get_stream : Session → ℕ → Option Stream
get_stream session stream_id = live (session.streams stream_id)

-- A write through the pointer to a stream of the map.
abbrev pub set_stream : Session → ℕ → Stream → Session
set_stream session stream_id stream = record session {
  streams = λ x. if x == stream_id then some stream else session.streams x;
}

-- `nghttp2_session_set_next_stream_id`
unfoldable pub set_next_stream_id : Session → ℤ → Rv (Unit {0}) × Session
set_next_stream_id session (negsuc n) = (err Error.invalid_argument, session)
set_next_stream_id session (pos id) =
    let wrong_side = if session.server then id % 2 == 1 else id % 2 == 0 in
    if id == 0 || ltb id session.next_stream_id || wrong_side
    then (err Error.invalid_argument, session)
    else (ok tt, record session { next_stream_id = id })
