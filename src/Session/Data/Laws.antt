-- ===== src/Session/Data/Laws.antt =====
-- The streams on which a DATA frame is received.
use newhttp.Common.{
  ℕ, ◌≡◌, ◌≢◌, refl, arith, Bool, true, false, Option, none, some, ◌⊎◌, inl, inr, Bool-cases,
  Option-cases, ◌==◌, ==_iff, List,
}
use newhttp.Common.Text.{codes}
use newhttp.Errors.{Error, ok, err}
use newhttp.Session.{
  Session, Stream, StreamState, is_my_stream_id, get_stream, is_closing, is_reserved, is_opened,
  detect_idle_stream,
}
use newhttp.Session.Queue.{Result, terminate_session, add_goaway}
use newhttp.Session.Data.{
  on_data_received_fail_fast, fail_fast_stream, fail, protocol_error, stream_closed_error,
}

-- The peer may send DATA on the stream: it has not ended its side, and the stream is open, or, if
-- the peer began it, neither reserved nor closing.
pub record CanReceive (session : Session) (stream_id : ℕ) (stream : Stream) : Type 0 where
  pub unshut : stream.shut_rd ≡ false
  pub state :
      (is_my_stream_id session stream_id ≡ true) × (is_opened stream.state ≡ true)
      ⊎ (is_my_stream_id session stream_id ≡ false)
        × (is_reserved stream.state ≡ false)
        × (is_closing stream.state ≡ false)

-- Refused: the payload is ignored, or memory is missing.
abbrev pub Refused : Bool → Session → Result → Type 0
Refused served session (rv, session') =
    (rv ≡ err Error.ign_payload) ⊎ (served ≡ false) × (rv ≡ err Error.nomem) × (session' ≡ session)

fail-Refused :
    (served : Bool) (session : Session) (error_code : ℕ) (reason : List ℕ)
    → Refused served session (fail served session error_code reason)
unfolding terminate_session add_goaway
fail-Refused served session error_code reason = ground arith

opened-not_closing : (s : StreamState) → is_opened s ≡ true → is_closing s ≡ false
opened-not_closing StreamState.opened h = refl
opened-not_closing StreamState.initial h = absurd (cc h)
opened-not_closing StreamState.opening h = absurd (cc h)
opened-not_closing StreamState.closing h = absurd (cc h)
opened-not_closing StreamState.reserved h = absurd (cc h)
opened-not_closing StreamState.idle h = absurd (cc h)

-- `P` holds and the checks pass, or it does not and they refuse.
Decided : Type 0 → Bool → Session → Result → Type 0
Decided P served session r = (P × (r ≡ (ok tt, session))) ⊎ (¬ P × Refused served session r)

refuses :
    {P : Type 0} {served : Bool} {session : Session} {r r' : Result}
    → ¬ P
    → r ≡ r'
    → Refused served session r'
    → Decided P served session r
unfolding Decided
refuses n e h = inr (n, rw e h)

failing :
    {P : Type 0} (served : Bool) (session : Session) {r : Result} (error_code : ℕ) (reason : List ℕ)
    → ¬ P
    → r ≡ fail served session error_code reason
    → Decided P served session r
failing served session error_code reason n e =
    refuses n e (fail-Refused served session error_code reason)

fail_fast_stream_mine :
    (served : Bool) (session : Session) (stream_id : ℕ) (stream : Stream)
    → stream.shut_rd ≡ false
    → is_my_stream_id session stream_id ≡ true
    → Decided
        (CanReceive session stream_id stream)
        served
        session
        (fail_fast_stream served session stream_id stream)
unfolding fail_fast_stream Decided
fail_fast_stream_mine served session stream_id stream n mine =
    elim (Bool-cases (is_opened stream.state)) [
      | inl o ↦ inl (
        record { unshut = n; state = inl (mine, o) },
        rw (fail_fast_stream, n, mine, opened-not_closing stream.state o, o) refl,
      )
      | inr p ↦
          let bad : ¬ CanReceive session stream_id stream =
            λ c. elim c.state [ inl (q, o) ↦ cc (p, o) | inr (q, o, r) ↦ cc (mine, q) ] in
          elim (Bool-cases (is_closing stream.state)) [
            | inl y ↦
                refuses {r' = (err Error.ign_payload, session)} bad
                  (rw (fail_fast_stream, n, mine, y) refl) (inl refl)
            | inr z ↦
                failing served session protocol_error (codes "DATA: stream not opened") bad
                  (rw (fail_fast_stream, n, mine, z, p) refl)
          ]
    ]

fail_fast_stream_theirs :
    (served : Bool) (session : Session) (stream_id : ℕ) (stream : Stream)
    → stream.shut_rd ≡ false
    → is_my_stream_id session stream_id ≡ false
    → Decided
        (CanReceive session stream_id stream)
        served
        session
        (fail_fast_stream served session stream_id stream)
unfolding fail_fast_stream Decided
fail_fast_stream_theirs served session stream_id stream n theirs =
    elim (Bool-cases (is_reserved stream.state)) [
      | inl y ↦
          let bad : ¬ CanReceive session stream_id stream =
            λ c. elim c.state [ inl (q, o) ↦ cc (theirs, q) | inr (q, o, r) ↦ cc (y, o) ] in
          failing served session protocol_error (codes "DATA: stream in reserved") bad
            (rw (fail_fast_stream, n, theirs, y) refl)
      | inr m ↦ elim (Bool-cases (is_closing stream.state)) [
        | inl y ↦
            let bad : ¬ CanReceive session stream_id stream =
              λ c. elim c.state [ inl (q, o) ↦ cc (theirs, q) | inr (q, o, r) ↦ cc (y, r) ] in
            refuses {r' = (err Error.ign_payload, session)} bad
              (rw (fail_fast_stream, n, theirs, m, y) refl) (inl refl)
        | inr z ↦ inl (
          record { unshut = n; state = inr (theirs, m, z) },
          rw (fail_fast_stream, n, theirs, m, z) refl,
        )
      ]
    ]

fail_fast_stream-Decided :
    (served : Bool) (session : Session) (stream_id : ℕ) (stream : Stream)
    → Decided
        (CanReceive session stream_id stream)
        served
        session
        (fail_fast_stream served session stream_id stream)
unfolding fail_fast_stream
fail_fast_stream-Decided served session stream_id stream = elim (Bool-cases stream.shut_rd) [
  | inl y ↦
      let bad : ¬ CanReceive session stream_id stream = λ c. cc (y, c.unshut) in
      failing served session stream_closed_error (codes "DATA: stream in half-closed(remote)") bad
        (rw (fail_fast_stream, y) refl)
  | inr n ↦ elim (Bool-cases (is_my_stream_id session stream_id)) [
    | inl mine ↦ fail_fast_stream_mine served session stream_id stream n mine
    | inr theirs ↦ fail_fast_stream_theirs served session stream_id stream n theirs
  ]
]

-- The stream of an identifier, where there is one, is one for DATA.
abbrev pub Open : Session → ℕ → Option Stream → Type 0
Open session stream_id none = ⊥
Open session stream_id (some stream) = CanReceive session stream_id stream

-- A DATA frame passes the checks, which then change nothing, exactly if its identifier is not 0, the
-- session has the stream, neither closed nor idle, and the peer may send DATA on it. Otherwise its
-- payload is ignored, whether or not a GOAWAY is queued, or the memory for that frame is missing.
pub on_data_received_fail_fast_lem :
    (served : Bool) (session : Session) (stream_id : ℕ)
    → ((stream_id ≢ 0)
        × Open session stream_id (get_stream session stream_id)
        × (on_data_received_fail_fast served session stream_id ≡ (ok tt, session)))
      ⊎ (¬ ((stream_id ≢ 0) × Open session stream_id (get_stream session stream_id))
          × Refused served session (on_data_received_fail_fast served session stream_id))
unfolding on_data_received_fail_fast Decided
on_data_received_fail_fast_lem served session stream_id = elim (Bool-cases (stream_id == 0)) [
  | inl y ↦
      rw (on_data_received_fail_fast, y)
        (inr ((λ (z, o). z ((==_iff _ _).0 y)), fail-Refused served session protocol_error _))
  | inr n ↦
      let z : stream_id ≢ 0 = ground arith in
      elim (Option-cases (get_stream session stream_id)) [
        | inl none_there ↦ elim (Bool-cases (detect_idle_stream session stream_id)) [
          | inl y ↦
              rw (on_data_received_fail_fast, n, none_there, y)
                (inr ((λ (z, o). o), fail-Refused served session protocol_error _))
          | inr m ↦
              rw (on_data_received_fail_fast, n, none_there, m) (inr ((λ (z, o). o), inl refl))
        ]
        | inr (stream, g) ↦ elim (fail_fast_stream-Decided served session stream_id stream) [
          | inl (c, e) ↦ rw (on_data_received_fail_fast, n, g, e) (inl (z, c, refl))
          | inr (bad, r) ↦ rw (on_data_received_fail_fast, n, g) (inr ((λ (z, o). bad o), r))
        ]
      ]
]
