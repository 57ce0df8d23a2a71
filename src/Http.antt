-- ===== src/Http.antt =====
-- lib/nghttp2_http.c: what a stream remembers of the HTTP message that it carries.
pub mod Value
pub mod OnHeader
pub mod Message
pub mod Block
pub mod Laws
mod Tests
use newhttp.Common.{
  ℕ, ◌≡◌, refl, arith, Bool, true, false, ◌&&◌, ◌||◌, not, Option, none, ◌==◌, if◌then◌else◌,
}
use newhttp.Errors.{Rv, ok, err, abort, Error}

-- `nghttp2_http_flag` of lib/nghttp2_stream.h, one constructor for each bit.
pub data HttpFlag : Type 0 where
  authority path method scheme host status pseudo_header_disallowed : HttpFlag
  meth_connect meth_head meth_options path_regular path_asterisk : HttpFlag
  scheme_http expect_final_response : HttpFlag

abbrev pub flag_bit : HttpFlag → ℕ
flag_bit authority = 0
flag_bit path = 1
flag_bit method = 2
flag_bit scheme = 3
flag_bit host = 4
flag_bit status = 5
flag_bit pseudo_header_disallowed = 6
flag_bit meth_connect = 7
flag_bit meth_head = 8
flag_bit meth_options = 9
flag_bit path_regular = 10
flag_bit path_asterisk = 11
flag_bit scheme_http = 12
flag_bit expect_final_response = 13

-- The fields of `nghttp2_stream` that this component reads and writes. `http_flags` is a set of
-- bits. `content_length` and `status_code` are -1 while unknown, which is `none` here.
-- `recv_content_length` is the 64 bits of its `int64_t`.
pub record HttpStream : Type 0 where
  pub stream_id : ℕ
  pub http_flags : HttpFlag → Bool
  pub content_length : Option ℕ
  pub recv_content_length : ℕ
  pub status_code : Option ℕ

-- `stream->http_flags |= f`
abbrev pub set_flag : HttpFlag → HttpStream → HttpStream
set_flag f s = record s { http_flags = λ g. flag_bit g == flag_bit f || s.http_flags g }

-- The bits of NGHTTP2_HTTP_FLAG_METH_ALL.
abbrev pub is_meth : HttpFlag → Bool
is_meth meth_connect = true
is_meth meth_head = true
is_meth meth_options = true
is_meth f = false

-- A handler returns a code and leaves the stream changed, also where it fails.
abbrev pub M {ℓ} : Type ℓ → Type ℓ
M A = HttpStream → Rv A × HttpStream

abbrev pub bind {ℓ κ} :
    {A : Type ℓ} {B : Type κ} → Rv A × HttpStream → (A → M B) → Rv B × HttpStream
bind (ok a, s) f = f a s
bind (err e, s) f = (err e, s)
bind (abort, s) f = (abort, s)

infixl 5 ◌>>=◌ ◌>>◌
abbrev pub ◌>>=◌ {ℓ κ} : {A : Type ℓ} {B : Type κ} → M A → (A → M B) → M B
◌>>=◌ m f s = bind (m s) f

abbrev pub ◌>>◌ {ℓ} : {B : Type ℓ} → M (Unit {0}) → M B → M B
m >> k = m >>= λ _. k

abbrev pub done : M (Unit {0})
done s = (ok tt, s)

abbrev pub fail : Error → M (Unit {0})
fail e s = (err e, s)

abbrev pub fail_if : Bool → Error → M (Unit {0})
fail_if true e s = (err e, s)
fail_if false e s = (ok tt, s)

abbrev pub modify : (HttpStream → HttpStream) → M (Unit {0})
modify f s = (ok tt, f s)

abbrev pub flag : HttpFlag → M Bool
flag f s = (ok (s.http_flags f), s)

pub bind_ok {ℓ κ} :
    {A : Type ℓ} {B : Type κ} (m : Rv A × HttpStream) (f : A → M B) {b : B} {s' : HttpStream}
    → bind m f ≡ (ok b, s')
    → (a : A) × (s : HttpStream) × (m ≡ (ok a, s)) × (f a s ≡ (ok b, s'))
bind_ok (ok a, s) f h = (a, s, refl, h)
bind_ok (err e, s) f h = ground arith
bind_ok (abort, s) f h = ground arith
