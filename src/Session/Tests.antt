-- ===== src/Session/Tests.antt =====
-- A server with one open stream of the peer.
use newhttp.Common.{
  ℕ, ◌+◌, ◌^◌, ◌-◌, ◌≤◌, ◌<◌, ◌≡◌, ◌≢◌, refl, arith, Bool, true, false, List, [], ◌∷◌, Option, some,
  none, ◌⊎◌, ◌==◌, if◌then◌else◌,
}
use newhttp.Common.Int.{ℤ, pos, negsuc, ◌+ℤ◌, ◌≤ℤ◌}
use newhttp.Errors.{Error, ok, err}
use newhttp.Helper.Window.{should_send_window_update}
use newhttp.Session.{
  Session, Stream, StreamState, Item, goaway, rst_stream, window_update, get_stream,
  is_my_stream_id, detect_idle_stream, set_next_stream_id,
}
use newhttp.Session.Queue.{terminate_session, add_rst_stream}
use newhttp.Session.Receive.{
  update_recv_connection_window_size, update_recv_stream_window_size, set_recv, set_stream_recv,
  flow_control_error,
}
use newhttp.Session.Receive.Range.{InRange, Exceeds, Within}
use newhttp.Session.Receive.Laws.{Counted, update_recv_connection_window_size_lem}
use newhttp.Session.Receive.OfStream.{StreamCounted, update_recv_stream_window_size_lem}
use newhttp.Session.Consume.{Consumed, update_consumed_size}
use newhttp.Session.Consume.Laws.{Settled, update_consumed_size_lem}
use newhttp.Session.Data.{on_data_received_fail_fast}
use newhttp.Session.Data.Laws.{Open, Refused, on_data_received_fail_fast_lem}
use newhttp.Session.WindowUpdate.{on_connection_window_update_received, handle_invalid_connection}
use newhttp.Session.WindowUpdate.Laws.{IsFair, on_connection_window_update_received_lem}

abbrev stream : Stream
stream = record {
  state = StreamState.opening;
  closed = false;
  shut_rd = false;
  shut_wr = false;
  local_window_size = pos 65535;
  recv_window_size = pos 30000;
  consumed_size = pos 0;
}

abbrev session : Session
session = record {
  server = true;
  next_stream_id = 2;
  last_recv_stream_id = 1;
  last_proc_stream_id = 1;
  local_last_stream_id = 2147483647;
  remote_window_size = pos 65535;
  local_window_size = pos 65535;
  recv_window_size = pos 30000;
  consumed_size = pos 0;
  term_on_send = false;
  no_auto_window_update = false;
  streams = λ x. if x == 1 then some stream else none;
  ob_syn = [];
  ob_reg = [];
}

update_recv_connection_window_size_example :
    (Exceeds (pos 30000) 5000 (pos 65535)
      × (update_recv_connection_window_size true session 5000
          ≡ terminate_session true session 1 flow_control_error []))
    ⊎ (Within (pos 30000) 5000 (pos 65535)
        × ((((update_recv_connection_window_size true session 5000).0 ≡ ok tt)
              × Counted session 5000 (update_recv_connection_window_size true session 5000).1)
            ⊎ ((true ≡ false)
                × (update_recv_connection_window_size true session 5000
                    ≡ (err Error.nomem, set_recv session (pos 30000 +ℤ pos 5000))))))
update_recv_connection_window_size_example =
    update_recv_connection_window_size_lem true session 5000 (omega arith) (omega arith)
      (omega arith, omega arith) (omega arith)

stream-InRange : InRange (pos 30000) 5000 (pos 65535)
unfolding newhttp.Common.Int.◌-ℤ◌
stream-InRange = record {
  delta_le = omega arith;
  recv_fits = (omega arith, omega arith);
  limit_le = omega arith;
  rest_fits = omega arith;
}

update_recv_stream_window_size_example :
    (Exceeds (pos 30000) 5000 (pos 65535)
      × (update_recv_stream_window_size true session 1 stream 5000 true
          ≡ add_rst_stream true session 1 flow_control_error))
    ⊎ (Within (pos 30000) 5000 (pos 65535)
        × (StreamCounted session 1 stream 5000 true
              (update_recv_stream_window_size true session 1 stream 5000 true)
            ⊎ ((true ≡ false)
                × (update_recv_stream_window_size true session 1 stream 5000 true ≡ (
                  err Error.nomem,
                  set_stream_recv session 1 stream (pos 30000 +ℤ pos 5000),
                )))))
update_recv_stream_window_size_example =
    update_recv_stream_window_size_lem true session 1 stream 5000 true stream-InRange

abbrev consumed_40000 : Consumed
unfolding update_consumed_size
consumed_40000 = update_consumed_size true session (pos 10000) (pos 60000) 1 30000 (pos 65535)

update_consumed_size_example :
    ((2 ^ 31 ≤ 10000 + 30000)
      × (consumed_40000.consumed_size ≡ pos 10000)
      × (consumed_40000.recv_window_size ≡ pos 60000)
      × (consumed_40000.result ≡ terminate_session true session 1 flow_control_error []))
    ⊎ ((10000 + 30000 ≤ 2 ^ 31 - 1)
        × (Settled session 1 10000 30000 (pos 60000) (pos 65535) consumed_40000
            ⊎ ((true ≡ false)
                × (consumed_40000.consumed_size ≡ pos (10000 + 30000))
                × (consumed_40000.recv_window_size ≡ pos 60000)
                × (consumed_40000.result ≡ (err Error.nomem, session)))))
unfolding consumed_40000 update_consumed_size
update_consumed_size_example =
    update_consumed_size_lem true session 10000 30000 1 (pos 60000) (pos 65535) (omega arith)
      (omega arith) (omega arith, omega arith) (omega arith)

on_data_received_fail_fast_example :
    ((◌≢◌ {A = ℕ} 1 0)
      × Open session 1 (get_stream session 1)
      × (on_data_received_fail_fast true session 1 ≡ (ok tt, session)))
    ⊎ (¬ ((◌≢◌ {A = ℕ} 1 0) × Open session 1 (get_stream session 1))
        × Refused true session (on_data_received_fail_fast true session 1))
on_data_received_fail_fast_example = on_data_received_fail_fast_lem true session 1

on_connection_window_update_received_example :
    (IsFair session 1000
      × ((on_connection_window_update_received false false true session 1000).1.remote_window_size
          ≡ pos 65535 +ℤ pos 1000))
    ⊎ (¬ IsFair session 1000
        × ((on_connection_window_update_received false false true session 1000).1.remote_window_size
            ≡ pos 65535)
        × (e : Error) × (on_connection_window_update_received false false true session 1000
            ≡ handle_invalid_connection false true session e []))
on_connection_window_update_received_example =
    on_connection_window_update_received_lem false false true session 1000

-- 35000 bytes are announced, and 36000 more exceed the window.
announced_35000 :
    (update_recv_connection_window_size true session 5000).1.ob_reg
    ≡ window_update 0 (pos 35000) ∷ []
unfolding update_recv_connection_window_size newhttp.Session.Receive.adjust_recv_window_size
    newhttp.Common.Int.◌-ℤ◌ should_send_window_update ◌+ℤ◌ newhttp.Session.Queue.add_window_update
    newhttp.Session.Queue.add_item
announced_35000 = refl

exceeded : (update_recv_connection_window_size true session 36000).1.ob_reg ≡ goaway 1 3 [] ∷ []
unfolding update_recv_connection_window_size newhttp.Session.Receive.adjust_recv_window_size
    newhttp.Common.Int.◌-ℤ◌ terminate_session newhttp.Session.Queue.add_goaway is_my_stream_id
    newhttp.Session.Queue.add_item
exceeded = refl

data_accepted : on_data_received_fail_fast true session 1 ≡ (ok tt, session)
unfolding on_data_received_fail_fast get_stream is_my_stream_id
data_accepted = refl

-- DATA on stream 3, which the peer has not begun.
idle_refused : (on_data_received_fail_fast true session 3).0 ≡ err Error.ign_payload
unfolding on_data_received_fail_fast get_stream detect_idle_stream is_my_stream_id
    newhttp.Session.is_new_peer_stream_id terminate_session newhttp.Session.Queue.add_goaway
idle_refused = refl

-- A count of 2^31 bytes passes the test of the limit, since the difference wraps in `size_t`.
wrapped_count :
    (update_consumed_size true session (pos 0) (pos 0) 1 (2 ^ 31) (pos 65535)).consumed_size
    ≡ negsuc 2147483647
unfolding update_consumed_size should_send_window_update newhttp.Helper.Window.min_ℤ
wrapped_count = refl
