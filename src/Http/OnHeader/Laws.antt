-- ===== src/Http/OnHeader/Laws.antt =====
-- What one header field does to the flags of a stream.
use newhttp.Common.{ℕ, Bool, true, false, ◌||◌, not, Option, ◌≡◌, arith}
use newhttp.Errors.{ok}
use newhttp.Frame.Types.{Nv}
use newhttp.Hd.Token
use newhttp.Http.{HttpFlag, HttpStream, bind_ok, set_flag}
use newhttp.Http.Value.{lws}
use mathlib.Core.Path.{subst}
use newhttp.Http.OnHeader.Rules.{RequestRules, ResponseRules, request_rules, response_rules}
use newhttp.Http.OnHeader.{
  is_token, is_pseudo, is_disallowed, check_pseudo_header, require_pseudo, check_position,
  close_pseudo, request_case, response_case, http_request_on_header, http_response_on_header,
}

module _ (nv : Nv) (s s' : HttpStream) where
  require_pseudo_ok :
      (f : HttpFlag)
      → require_pseudo nv f s ≡ (ok tt, s')
      → (s.http_flags f ≡ false) × (lws nv.value ≡ false) × (s' ≡ set_flag f s)
  unfolding require_pseudo check_pseudo_header
  require_pseudo_ok f h = ground arith

-- The flag that a pseudo header field, or `host`, sets.
abbrev pub marks : Option ℕ → HttpFlag → Bool
marks t HttpFlag.authority = is_token t Token.pseudo_authority
marks t HttpFlag.method = is_token t Token.pseudo_method
marks t HttpFlag.path = is_token t Token.pseudo_path
marks t HttpFlag.scheme = is_token t Token.pseudo_scheme
marks t HttpFlag.host = is_token t Token.host
marks t f = false

-- `:status` sets its flag in a response.
abbrev pub is_status_field : Option ℕ → HttpFlag → Bool
is_status_field t HttpFlag.status = is_token t Token.pseudo_status
is_status_field t f = false

-- The flag `f` is set afterwards if it was set, or if the field marks it, and the field may mark it
-- only once.
abbrev pub Once :
    (Option ℕ → HttpFlag → Bool) → Option ℕ → HttpStream → HttpStream → HttpFlag → Type 0
Once marking t s s' f =
    (s'.http_flags f ≡ (s.http_flags f || marking t f))
    × (marking t f ≡ true → s.http_flags f ≡ false)

-- What an accepted field does to the flags: each required header field is there at most once, no
-- pseudo header field is in a trailer or behind a regular field, and no field is one that HTTP/2
-- forbids.
pub record Accepted (marking : Option ℕ → HttpFlag → Bool) (nv : Nv) (t : Option ℕ) (trailer : Bool)
    (s s' : HttpStream) : Type 0 where
  pub allowed : is_disallowed t ≡ false
  pub authority : Once marking t s s' HttpFlag.authority
  pub method : Once marking t s s' HttpFlag.method
  pub path : Once marking t s s' HttpFlag.path
  pub scheme : Once marking t s s' HttpFlag.scheme
  pub host : Once marking t s s' HttpFlag.host
  pub status : Once marking t s s' HttpFlag.status
  pub early :
      is_pseudo nv ≡ true
      → (trailer ≡ false) × (s.http_flags HttpFlag.pseudo_header_disallowed ≡ false)
  pub closed :
      s'.http_flags HttpFlag.pseudo_header_disallowed
      ≡ (s.http_flags HttpFlag.pseudo_header_disallowed || not (is_pseudo nv))

module _ (nv : Nv) (t : Option ℕ) (s s' : HttpStream) where
  request_case_once :
      request_case nv t s ≡ (ok tt, s')
      → (is_disallowed t ≡ false)
        × Once marks t s s' HttpFlag.authority
        × Once marks t s s' HttpFlag.method
        × Once marks t s s' HttpFlag.path
        × Once marks t s s' HttpFlag.scheme
        × Once marks t s s' HttpFlag.host
        × Once marks t s s' HttpFlag.status
        × (s'.http_flags HttpFlag.pseudo_header_disallowed
            ≡ s.http_flags HttpFlag.pseudo_header_disallowed)
  unfolding request_case
  request_case_once h = ground arith

  response_case_once :
      response_case nv t s ≡ (ok tt, s')
      → (is_disallowed t ≡ false)
        × Once is_status_field t s s' HttpFlag.authority
        × Once is_status_field t s s' HttpFlag.method
        × Once is_status_field t s s' HttpFlag.path
        × Once is_status_field t s s' HttpFlag.scheme
        × Once is_status_field t s s' HttpFlag.host
        × Once is_status_field t s s' HttpFlag.status
        × (s'.http_flags HttpFlag.pseudo_header_disallowed
            ≡ s.http_flags HttpFlag.pseudo_header_disallowed)
  unfolding response_case
  response_case_once h = ground arith

  check_position_ok :
      (trailer : Bool)
      → check_position nv trailer s ≡ (ok tt, s')
      → (s' ≡ s)
        × (is_pseudo nv ≡ true
            → (trailer ≡ false) × (s.http_flags HttpFlag.pseudo_header_disallowed ≡ false))
  unfolding check_position
  check_position_ok trailer h = ground arith

pub http_request_on_header-Accepted :
    (nv : Nv) (t : Option ℕ) (trailer : Bool) (s s' : HttpStream)
    → http_request_on_header nv t trailer s ≡ (ok tt, s')
    → Accepted marks nv t trailer s s' × RequestRules nv t s s'
unfolding http_request_on_header close_pseudo
http_request_on_header-Accepted nv t trailer s s' h =
    let (_, s1, position, rest) = bind_ok (check_position nv trailer s) _ h in
    let (_, s2, middle, closing) = bind_ok (request_case nv t s1) _ rest in
    let p = check_position_ok nv t s s1 trailer position in
    let m = request_case_once nv t s1 s2 middle in
    (
      record {
        allowed = m.0;
        authority = ground arith;
        method = ground arith;
        path = ground arith;
        scheme = ground arith;
        host = ground arith;
        status = ground arith;
        early = p.1;
        closed = ground arith;
      },
      subst (λ x. RequestRules nv t x s') p.0 (request_rules nv t s1 s2 s' closing middle),
    )

-- A response field that is accepted leaves the flags of the header fields of a request. `:status` is
-- there at most once, and sets its flag; its value has three bytes and is a number, which is stored.
-- A name with a colon is that of `:status` (or has the token of `content-length` or `te`), and
-- stands in no trailer and behind no regular field; a regular field lets none follow; a field that
-- HTTP/2 forbids is refused; `te` has the value "trailers"; `content-length` is the first one, and
-- its number is stored.
pub http_response_on_header-Accepted :
    (nv : Nv) (t : Option ℕ) (trailer : Bool) (s s' : HttpStream)
    → http_response_on_header nv t trailer s ≡ (ok tt, s')
    → Accepted is_status_field nv t trailer s s' × ResponseRules nv t s s'
unfolding http_response_on_header close_pseudo
http_response_on_header-Accepted nv t trailer s s' h =
    let (_, s1, position, rest) = bind_ok (check_position nv trailer s) _ h in
    let (_, s2, middle, closing) = bind_ok (response_case nv t s1) _ rest in
    let p = check_position_ok nv t s s1 trailer position in
    let m = response_case_once nv t s1 s2 middle in
    (
      record {
        allowed = m.0;
        authority = ground arith;
        method = ground arith;
        path = ground arith;
        scheme = ground arith;
        host = ground arith;
        status = ground arith;
        early = p.1;
        closed = ground arith;
      },
      subst (λ x. ResponseRules nv t x s') p.0 (response_rules nv t s1 s2 s' closing middle),
    )
