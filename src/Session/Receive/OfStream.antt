-- ===== src/Session/Receive/OfStream.antt =====
-- Every byte that a stream receives is in its window, or announced to the peer again.
use newhttp.Common.{
  ℕ, ◌≡◌, refl, Bool, true, false, arith, ◌&&◌, not, some, ◌⊎◌, inl, inr, Bool-cases, ==_iff,
}
use newhttp.Common.Int.{ℤ, pos, ◌+ℤ◌}
use newhttp.Errors.{Error, ok, err}
use newhttp.Helper.Window.{should_send_window_update}
use newhttp.Session.{Session, Stream}
use newhttp.Session.Queue.{Result, add_window_update, add_rst_stream, add_item}
use newhttp.Session.Receive.{
  update_recv_stream_window_size, announce_stream, set_stream_recv, flow_control_error,
}
use newhttp.Session.Receive.Laws.{announced, requeued}
use newhttp.Session.Receive.Range.{InRange, Exceeds, Within, adjust-Exceeds}

-- The stream is in the map with the bytes counted, or announced in the queue; the count that stays
-- is 0 or too low for a WINDOW_UPDATE, if one is asked for.
pub record StreamCounted (session : Session) (stream_id : ℕ) (stream : Stream) (delta : ℕ)
    (send : Bool) (r : Result) : Type 0 where
  pub code : r.0 ≡ ok tt
  pub size : ℤ
  pub stored : r.1.streams stream_id ≡ some (record stream { recv_window_size = size })
  pub account :
      size +ℤ announced stream_id r.1.ob_reg
      ≡ stream.recv_window_size +ℤ pos delta +ℤ announced stream_id session.ob_reg
  pub prompt :
      (send ≡ false)
      ⊎ (session.no_auto_window_update ≡ true)
      ⊎ (should_send_window_update stream.local_window_size size ≡ false)
      ⊎ (size ≡ pos 0)

idle :
    (send no_auto due : Bool) (size : ℤ)
    → (send && not no_auto && due) ≡ false
    → (send ≡ false) ⊎ (no_auto ≡ true) ⊎ (due ≡ false) ⊎ (size ≡ pos 0)
idle send no_auto due size h = ground arith

-- The stream's part of a DATA frame of `delta` bytes. Exactly where they exceed its window,
-- RST_STREAM with FLOW_CONTROL_ERROR is its answer. Otherwise every byte is received and not
-- announced, or in a WINDOW_UPDATE of the queue, which is due unless it is not asked for, left to
-- the application or too early. Without the memory for that frame the bytes are counted and the
-- error is returned. `delta`, the sizes and the window less `delta` are assumed to be in the range
-- of `int32_t`.
pub update_recv_stream_window_size_lem :
    (served : Bool) (session : Session) (stream_id : ℕ) (stream : Stream) (delta : ℕ) (send : Bool)
    → InRange stream.recv_window_size delta stream.local_window_size
    → (let r = update_recv_stream_window_size served session stream_id stream delta send in
        (Exceeds stream.recv_window_size delta stream.local_window_size
          × (r ≡ add_rst_stream served session stream_id flow_control_error))
        ⊎ (Within stream.recv_window_size delta stream.local_window_size
            × (StreamCounted session stream_id stream delta send r
                ⊎ ((served ≡ false)
                    × (r ≡ (
                      err Error.nomem,
                      set_stream_recv session stream_id stream
                          (stream.recv_window_size +ℤ pos delta),
                    ))))))
unfolding update_recv_stream_window_size announce_stream add_window_update add_item
update_recv_stream_window_size_lem served session stream_id stream delta send range =
    let size = stream.recv_window_size +ℤ pos delta in
    let own = (==_iff stream_id stream_id).1 refl in
    let late = should_send_window_update stream.local_window_size size in
    let due = send && not session.no_auto_window_update && late in
    elim (adjust-Exceeds stream.recv_window_size delta stream.local_window_size range) [
      | inl (e, x) ↦ rw (update_recv_stream_window_size, e) (inl (x, refl))
      | inr (e, h) ↦ elim (Bool-cases due) [
        | inr n ↦
            rw (update_recv_stream_window_size, e, n)
              (inr (
                h,
                inl (record {
                  code = refl;
                  size = size;
                  stored = rw own refl;
                  account = refl;
                  prompt = idle send session.no_auto_window_update late size n;
                }),
              ))
        | inl y ↦ elim (Bool-cases served) [
          | inr z ↦ rw (update_recv_stream_window_size, e, y, z) (inr (h, inr (refl, refl)))
          | inl z ↦
              rw (update_recv_stream_window_size, e, y, z)
                (inr (
                  h,
                  inl (record {
                    code = refl;
                    size = pos 0;
                    stored = rw own refl;
                    account = requeued stream_id size session.ob_reg;
                    prompt = inr (inr (inr refl));
                  }),
                ))
        ]
      ]
    ]
