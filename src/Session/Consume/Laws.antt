-- ===== src/Session/Consume/Laws.antt =====
-- Every byte that is consumed waits to be announced, or is announced.
use newhttp.Common.{
  List, ℕ, ◌+◌, ◌-◌, ◌%◌, ◌^◌, ◌≤◌, ◌≡◌, refl, ap, ◌∙◌, arith, Bool, true, false, [], ◌∷◌, ◌++◌,
  ltb, ◌⊎◌, inl, inr, Bool-cases, ltb→lt, ltb→ge,
}
use newhttp.Common.Int.{ℤ, pos, ◌+ℤ◌, ◌-ℤ◌, ◌≤ℤ◌, int_laws}
use newhttp.Errors.{Error, ok, err}
use newhttp.Helper.Window.{min_ℤ, should_send_window_update}
use newhttp.Session.{Session, Item, window_update}
use newhttp.Session.Queue.{add_window_update, add_item, terminate_session}
use newhttp.Session.Receive.{flow_control_error}
use newhttp.Session.Receive.Range.{IsInt32, int32_exact, to_int32_exact}
use newhttp.Session.Receive.Laws.{announced, announced-append, own_part}
use newhttp.Session.Consume.{Consumed, update_consumed_size, after_update}

-- The code is 0, and the bytes are in the count, or with an equal part of those received in the
-- frames of the queue; no more than is consumed, and no more than is received, is announced. What
-- stays is too low for a WINDOW_UPDATE, or 0.
pub record Settled (session : Session) (stream_id consumed delta : ℕ) (recv local_window_size : ℤ)
    (c : Consumed) : Type 0 where
  pub code : c.result.0 ≡ ok tt
  pub account :
      c.consumed_size +ℤ announced stream_id c.result.1.ob_reg
      ≡ pos (consumed + delta) +ℤ announced stream_id session.ob_reg
  pub received :
      c.recv_window_size +ℤ announced stream_id c.result.1.ob_reg
      ≡ recv +ℤ announced stream_id session.ob_reg
  pub enough : pos 0 ≤ℤ c.consumed_size
  pub kept : (c.recv_window_size ≡ recv) ⊎ (pos 0 ≤ℤ c.recv_window_size)
  pub fits : c.consumed_size ≤ℤ pos (2 ^ 31 - 1)
  pub prompt :
      (should_send_window_update local_window_size (min_ℤ c.consumed_size c.recv_window_size)
        ≡ false)
      ⊎ (min_ℤ c.consumed_size c.recv_window_size ≡ pos 0)

min_ℤ-le_left : (a b : ℤ) → min_ℤ a b ≤ℤ a
unfolding min_ℤ
min_ℤ-le_left a b = ground arith

min_ℤ-le_right : (a b : ℤ) → min_ℤ a b ≤ℤ b
unfolding min_ℤ
min_ℤ-le_right a b = ground arith

-- A part that is due in a WINDOW_UPDATE is not negative.
due_nonneg :
    (local_window_size part : ℤ)
    → pos 0 ≤ℤ local_window_size
    → should_send_window_update local_window_size part ≡ true
    → pos 0 ≤ℤ part
unfolding should_send_window_update
due_nonneg local_window_size part z h = ground arith

min_ℤ-rest : (a b : ℤ) → min_ℤ (a -ℤ min_ℤ a b) (b -ℤ min_ℤ a b) ≡ pos 0
unfolding min_ℤ ◌-ℤ◌
min_ℤ-rest a b = ground arith

rest_announced : (a n b : ℤ) → a -ℤ n +ℤ (b +ℤ n) ≡ a +ℤ b
rest_announced a n b = omega int_laws

paid :
    (id : ℕ) (x n : ℤ) (items : List Item)
    → x -ℤ n +ℤ announced id (items ++ window_update id n ∷ []) ≡ x +ℤ announced id items
paid id x n items =
    ap (◌+ℤ◌ (x -ℤ n)) (announced-append id items (window_update id n))
    ∙ ap (λ m. x -ℤ n +ℤ (announced id items +ℤ m)) (own_part id n)
    ∙ rest_announced x n (announced id items)

announced_part :
    (session : Session) (consumed delta stream_id : ℕ) (recv local_window_size : ℤ)
    → consumed + delta ≤ 2 ^ 31 - 1
    → IsInt32 recv
    → pos 0 ≤ℤ local_window_size
    → should_send_window_update local_window_size (min_ℤ (pos (consumed + delta)) recv) ≡ true
    → (let part = min_ℤ (pos (consumed + delta)) recv in
        Settled session stream_id consumed delta recv local_window_size (
          after_update
            (pos (consumed + delta))
            recv
            part
            (add_window_update true session stream_id part)))
unfolding add_window_update add_item
announced_part session consumed delta stream_id recv local_window_size small fits z due =
    let total = pos (consumed + delta) in
    let part = min_ℤ total recv in
    let least = min_ℤ-le_left total recv in
    let right = min_ℤ-le_right total recv in
    let nonneg = due_nonneg local_window_size part z due in
    let rest =
      int32_exact (total -ℤ part)
        (omega (int_laws, least, small), omega (int_laws, nonneg, small)) in
    let rest' =
      int32_exact (recv -ℤ part) (omega (int_laws, right), omega (int_laws, nonneg, fits)) in
    rw (rest, rest')
      (record {
        code = refl;
        account = paid stream_id total part session.ob_reg;
        received = paid stream_id recv part session.ob_reg;
        enough = omega (int_laws, least);
        kept = inr (omega (int_laws, right));
        fits = omega (int_laws, nonneg, small);
        prompt = inr (min_ℤ-rest total recv);
      })

-- `session_update_consumed_size` of `delta` bytes: exactly where the count would leave 2^31 - 1, the
-- session is terminated with FLOW_CONTROL_ERROR and the counts stay; otherwise the bytes are counted
-- or announced, and the count stays from 0 to 2^31 - 1. Without the memory for the frame the bytes
-- are counted and the error is returned. The old count and `delta` are assumed to be at most
-- 2^31 - 1, the count of received bytes to be in the range of `int32_t`, and the window not to be
-- negative.
pub update_consumed_size_lem :
    (served : Bool) (session : Session) (consumed delta stream_id : ℕ) (recv local_window_size : ℤ)
    → consumed ≤ 2 ^ 31 - 1
    → delta ≤ 2 ^ 31 - 1
    → IsInt32 recv
    → pos 0 ≤ℤ local_window_size
    → (let c =
          update_consumed_size served session
            (pos consumed)
            recv
            stream_id
            delta
            local_window_size in
        ((2 ^ 31 ≤ consumed + delta)
          × (c.consumed_size ≡ pos consumed)
          × (c.recv_window_size ≡ recv)
          × (c.result
              ≡ terminate_session served session session.last_proc_stream_id flow_control_error []))
        ⊎ ((consumed + delta ≤ 2 ^ 31 - 1)
            × (Settled session stream_id consumed delta recv local_window_size c
                ⊎ ((served ≡ false)
                    × (c.consumed_size ≡ pos (consumed + delta))
                    × (c.recv_window_size ≡ recv)
                    × (c.result ≡ (err Error.nomem, session))))))
unfolding update_consumed_size add_window_update
update_consumed_size_lem served session consumed delta stream_id recv local_window_size hc hd hr z =
    let limit : (2 ^ 31 - 1 + 2 ^ 64 - delta) % 2 ^ 64 ≡ 2 ^ 31 - 1 - delta = omega arith in
    let size : consumed % 2 ^ 64 ≡ consumed = omega arith in
    rw (limit, size)
      (elim (Bool-cases (ltb (2 ^ 31 - 1 - delta) consumed)) [
        | inl y ↦ rw y (inl (omega (arith, ltb→lt _ _ y), refl, refl, refl))
        | inr n ↦
            let small : consumed + delta ≤ 2 ^ 31 - 1 = omega (arith, ltb→ge _ _ n) in
            let exact = to_int32_exact (consumed + delta) small in
            let part = min_ℤ (pos (consumed + delta)) recv in
            rw (n, exact)
              (elim (Bool-cases (should_send_window_update local_window_size part)) [
                | inr m ↦ rw m (
                    inr (
                      small,
                      inl (record {
                        code = refl;
                        account = refl;
                        received = refl;
                        enough = omega arith;
                        kept = inl refl;
                        fits = omega (arith, small);
                        prompt = inl m;
                      }),
                    ))
                | inl y ↦ elim (Bool-cases served) [
                  | inr s ↦ rw (y, s) (inr (small, inr (refl, refl, refl, refl)))
                  | inl s ↦
                      rw (y, s)
                        (inr (
                          small,
                          inl (
                              announced_part session consumed delta stream_id recv local_window_size
                                small hr z y),
                        ))
                ]
              ])
      ])
