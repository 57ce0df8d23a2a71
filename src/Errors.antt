-- ===== src/Errors.antt =====
-- The error codes of lib/includes/nghttp2/nghttp2.h, with the internal one of lib/nghttp2_int.h, and how a library call ends.
use newhttp.Common.{Bool, true, false, ◌≡◌, refl}

pub data Error : Type 0 where
  invalid_argument buffer_error unsupported_version wouldblock proto : Error
  invalid_frame eof deferred stream_id_not_available stream_closed : Error
  stream_closing stream_shut_wr invalid_stream_id invalid_stream_state : Error
  deferred_data_exist start_stream_not_allowed goaway_already_sent : Error
  invalid_header_block invalid_state temporal_callback_failure frame_size_error : Error
  header_comp flow_control insuff_bufsize pause too_many_inflight_settings : Error
  push_disabled data_exist session_closing http_header http_messaging : Error
  refused_stream internal fatal nomem callback_failure bad_client_magic : Error
  ign_http_header ign_payload : Error

-- A return code: 0 with the values that the call wrote, a negative code, or a failed `assert`.
pub data Rv {ℓ} (A : Type ℓ) : Type ℓ where
  ok : A → Rv A
  err : Error → Rv A
  abort : Rv A

infixl 5 ◌>>=◌
abbrev pub ◌>>=◌ {ℓ κ} : {A : Type ℓ} {B : Type κ} → Rv A → (A → Rv B) → Rv B
ok a >>= f = f a
err e >>= f = err e
abort >>= f = abort

infixl 5 ◌>>◌
abbrev pub ◌>>◌ {ℓ} : {B : Type ℓ} → Rv (Unit {0}) → Rv B → Rv B
m >> k = m >>= λ _. k

abbrev pub assert : Bool → Rv (Unit {0})
assert true = ok tt
assert false = abort

-- How a first call and what follows it came to a result.
abbrev pub TwoStages {ℓ κ} : {A : Type ℓ} {B : Type κ} → Rv A → (A → Rv B) → B → Type (ℓ ⊔ κ)
TwoStages {A = A} call next out = (mid : A) × (call ≡ ok mid) × (next mid ≡ ok out)

pub bind_stages {ℓ κ} :
    {A : Type ℓ} {B : Type κ} (call : Rv A) (next : A → Rv B) {out : B}
    → (call >>= next) ≡ ok out
    → TwoStages call next out
bind_stages abort next whole = cc
bind_stages (err code) next whole = cc
bind_stages (ok mid) next whole = (mid, refl, whole)

-- Equal continuations.
pub >>=-ext {ℓ κ} :
    {A : Type ℓ} {B : Type κ} (m : Rv A) {f g : A → Rv B}
    → ((a : A) → f a ≡ g a)
    → (m >>= f) ≡ (m >>= g)
>>=-ext (ok a) h = h a
>>=-ext (err e) h = refl
>>=-ext abort h = refl

pub >>=_assoc {ℓ κ μ} :
    {A : Type ℓ} {B : Type κ} {C : Type μ} (m : Rv A) (f : A → Rv B) (g : B → Rv C)
    → ((m >>= f) >>= g) ≡ (m >>= λ a. f a >>= g)
>>=_assoc (ok a) f g = refl
>>=_assoc (err e) f g = refl
>>=_assoc abort f g = refl

pub ok_injective {ℓ} : {A : Type ℓ} {a b : A} → ok a ≡ ok b → a ≡ b
ok_injective h = cc
