-- ===== src/Session/Receive/Laws.antt =====
-- Every byte that the connection receives is in its window, or announced to the peer again.
use newhttp.Common.{
  ==_iff, ℕ, ◌^◌, ◌≡◌, ◌-◌, ◌≤◌, refl, ap, sym, ◌∙◌, Bool, true, false, List, [], ◌∷◌, ◌++◌,
  if◌then◌else◌, ◌==◌, ◌⊎◌, inl, inr, Bool-cases,
}
use newhttp.Common.Int.{ℤ, pos, ◌+ℤ◌, ◌≤ℤ◌, int_laws, +ℤ_comm, +ℤ_assoc}
use newhttp.Errors.{Error, ok, err}
use newhttp.Helper.Window.{should_send_window_update, int32_max}
use newhttp.Session.{Session, Item, window_update}
use newhttp.Session.Queue.{Result, add_window_update, terminate_session, add_item}
use newhttp.Session.Receive.Range.{IsInt32, InRange, Exceeds, Within, adjust-Exceeds}
use newhttp.Session.Receive.{
  update_recv_connection_window_size, announce_connection, flow_control_error, set_recv,
}

-- The bytes that frames announce for a stream, or for the connection, whose identifier is 0.
abbrev pub announces : ℕ → Item → ℤ
announces stream_id (window_update id n) = if id == stream_id then n else pos 0
announces stream_id _ = pos 0

abbrev pub announced : ℕ → List Item → ℤ
announced stream_id [] = pos 0
announced stream_id (x ∷ xs) = announces stream_id x +ℤ announced stream_id xs

pub announced-append :
    (id : ℕ) (xs : List Item) (x : Item)
    → announced id (xs ++ x ∷ []) ≡ announced id xs +ℤ announces id x
announced-append id [] x = +ℤ_comm (announces id x) (pos 0)
announced-append id (y ∷ ys) x =
    ap (◌+ℤ◌ (announces id y)) (announced-append id ys x)
    ∙ sym (+ℤ_assoc (announces id y) (announced id ys) (announces id x))

-- The bytes of the connection that are received and not announced, with those that wait in the
-- queue to be announced.
abbrev pub accounted : Session → ℤ
accounted session = session.recv_window_size +ℤ announced 0 session.ob_reg

-- The peer kept to the window: the bytes are counted, the count is at most the window, and where the
-- application does not announce by itself it is 0 or too low for a WINDOW_UPDATE.
pub record Counted (session : Session) (delta : ℕ) (session' : Session) : Type 0 where
  pub account : accounted session' ≡ accounted session +ℤ pos delta
  pub within : session'.recv_window_size ≤ℤ session.local_window_size
  pub window : session'.local_window_size ≡ session.local_window_size
  pub prompt :
      (session.no_auto_window_update ≡ true)
      ⊎ (should_send_window_update session.local_window_size session'.recv_window_size ≡ false)
      ⊎ (session'.recv_window_size ≡ pos 0)

-- What a count of `size` leaves, whether or not it is announced.
Announced : Session → ℤ → Result → Type 0
Announced session size (rv, session') =
    (rv ≡ ok tt)
    × (accounted session' ≡ size +ℤ announced 0 session.ob_reg)
    × ((session'.recv_window_size ≡ size) ⊎ (session'.recv_window_size ≡ pos 0))
    × (session'.local_window_size ≡ session.local_window_size)
    × ((session.no_auto_window_update ≡ true)
        ⊎ (should_send_window_update session.local_window_size session'.recv_window_size ≡ false)
        ⊎ (session'.recv_window_size ≡ pos 0))

pub own_part : (id : ℕ) (n : ℤ) → announces id (window_update id n) ≡ n
own_part id n = rw ((==_iff id id).1 refl) refl

swapped : (a b : ℤ) → pos 0 +ℤ (a +ℤ b) ≡ b +ℤ a
swapped a b = omega int_laws

pub requeued :
    (id : ℕ) (size : ℤ) (items : List Item)
    → pos 0 +ℤ announced id (items ++ window_update id size ∷ []) ≡ size +ℤ announced id items
requeued id size items =
    ap (◌+ℤ◌ (pos 0)) (announced-append id items (window_update id size))
    ∙ ap (λ m. pos 0 +ℤ (announced id items +ℤ m)) (own_part id size)
    ∙ swapped (announced id items) size

announce_connection-Announced :
    (session : Session) (size : ℤ)
    → Announced session size (announce_connection true (set_recv session size))
unfolding announce_connection add_window_update add_item Announced
announce_connection-Announced session size =
    let due = should_send_window_update session.local_window_size size in
    elim (Bool-cases session.no_auto_window_update) [
      | inl y ↦ rw y (refl, refl, inl refl, refl, inl refl)
      | inr n ↦ elim (Bool-cases due) [
        | inl y ↦ rw (n, y) (refl, requeued 0 size session.ob_reg, inr refl, refl, inr (inr refl))
        | inr m ↦ rw (n, m) (refl, refl, inl refl, refl, inr (inl m))
      ]
    ]

announce_connection_refused :
    (session : Session) (size : ℤ)
    → Announced session size (announce_connection false (set_recv session size))
      ⊎ (announce_connection false (set_recv session size)
          ≡ (err Error.nomem, set_recv session size))
unfolding announce_connection add_window_update Announced
announce_connection_refused session size =
    let due = should_send_window_update session.local_window_size size in
    elim (Bool-cases session.no_auto_window_update) [
      | inl y ↦ rw y (inl (refl, refl, inl refl, refl, inl refl))
      | inr n ↦ elim (Bool-cases due) [
        | inl y ↦ rw (n, y) (inr refl)
        | inr m ↦ rw (n, m) (inl (refl, refl, inl refl, refl, inr (inl m)))
      ]
    ]

Counted-after :
    (session : Session) (delta : ℕ) (r : Result)
    → pos 0 ≤ℤ session.local_window_size
    → session.recv_window_size +ℤ pos delta ≤ℤ session.local_window_size
    → Announced session (session.recv_window_size +ℤ pos delta) r
    → (r.0 ≡ ok tt) × Counted session delta r.1
unfolding Announced
Counted-after session delta r z h (o, a, c, w, p) = (
  o,
  record {
    account = a ∙ moved session.recv_window_size (pos delta) (announced 0 session.ob_reg);
    within = elim c [ inl e ↦ rw e h | inr e ↦ rw e z ];
    window = w;
    prompt = p;
  },
)
  where
    moved : (x y b : ℤ) → x +ℤ y +ℤ b ≡ x +ℤ b +ℤ y
    moved x y b = omega int_laws

-- The connection's part of a DATA frame of `delta` bytes. Exactly where they exceed the window, the
-- session is terminated with FLOW_CONTROL_ERROR. Otherwise every byte is counted: it is received and
-- not announced, or in a WINDOW_UPDATE of the queue; the count stays in the window. Without the
-- memory for that frame the bytes are counted and the error is returned. `delta` and the sizes are
-- assumed to be in the range of `int32_t`, and the window not to be negative.
pub update_recv_connection_window_size_lem :
    (served : Bool) (session : Session) (delta : ℕ)
    → pos 0 ≤ℤ session.local_window_size
    → session.local_window_size ≤ℤ int32_max
    → IsInt32 session.recv_window_size
    → delta ≤ 2 ^ 31 - 1
    → (Exceeds session.recv_window_size delta session.local_window_size
        × (update_recv_connection_window_size served session delta
            ≡ terminate_session served session session.last_proc_stream_id flow_control_error []))
      ⊎ (Within session.recv_window_size delta session.local_window_size
          × ((((update_recv_connection_window_size served session delta).0 ≡ ok tt)
                × Counted session delta (update_recv_connection_window_size served session delta).1)
              ⊎ ((served ≡ false)
                  × (update_recv_connection_window_size served session delta ≡ (
                    err Error.nomem,
                    set_recv session (session.recv_window_size +ℤ pos delta),
                  )))))
unfolding update_recv_connection_window_size
update_recv_connection_window_size_lem served session delta z most recv small =
    let range : InRange session.recv_window_size delta session.local_window_size = record {
      delta_le = small;
      recv_fits = recv;
      limit_le = most;
      rest_fits = omega (int_laws, z, small);
    } in
    elim (adjust-Exceeds session.recv_window_size delta session.local_window_size range) [
      | inl (e, x) ↦ rw (update_recv_connection_window_size, e) (inl (x, refl))
      | inr (e, h) ↦
          let size = session.recv_window_size +ℤ pos delta in
          rw (update_recv_connection_window_size, e)
            (elim (Bool-cases served) [
              | inl y ↦ rw y (
                  inr (
                    h,
                    inl (
                        Counted-after session delta _ z h
                          (announce_connection-Announced session size)),
                  ))
              | inr n ↦ rw n (elim (announce_connection_refused session size) [
                | inl a ↦ inr (h, inl (Counted-after session delta _ z h a))
                | inr q ↦ rw q (inr (h, inr (refl, refl)))
              ])
            ])
    ]
