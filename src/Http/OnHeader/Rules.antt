-- ===== src/Http/OnHeader/Rules.antt =====
-- What the switches of lib/nghttp2_http.c ask of a field that they accept.
use newhttp.Common.{
  ℕ, ◌%◌, Bool, true, false, ◌||◌, List, Option, none, some, ◌≡◌, refl, ◌⊎◌, arith, ◌==◌, length,
}
use newhttp.Common.Text.{codes, bytes_eq, bytes_eq→eq}
use newhttp.Errors.{ok}
use newhttp.Frame.Types.{Nv}
use newhttp.Hd.Token
use newhttp.Http.{HttpFlag, HttpStream}
use newhttp.Http.Value.{lws, lstrieq, parse_uint}
use newhttp.Http.OnHeader.{is_token, is_pseudo, close_pseudo, request_case, response_case}

-- The pseudo header fields of a request, and of a response.
abbrev pub is_request_pseudo : Option ℕ → Bool
is_request_pseudo t =
    is_token t Token.pseudo_authority
    || is_token t Token.pseudo_method
    || is_token t Token.pseudo_path
    || is_token t Token.pseudo_scheme

abbrev pub is_response_pseudo : Option ℕ → Bool
is_response_pseudo t = is_token t Token.pseudo_status

-- A first field `content-length` that is a number is stored; other fields leave the length.
abbrev pub LengthRule : Nv → Option ℕ → HttpStream → HttpStream → Type 0
LengthRule nv t s s' =
    ((is_token t Token.content_length ≡ false) × (s'.content_length ≡ s.content_length))
    ⊎ ((is_token t Token.content_length ≡ true)
        × (s.content_length ≡ none)
        × (n : ℕ) × (parse_uint nv.value ≡ some n)
        × (s'.content_length ≡ some n))

-- What an accepted field of a request obeys, by its token. A name with a colon is that of a pseudo
-- header field of requests; the other three tokens stand for names without one.
pub record RequestRules (nv : Nv) (t : Option ℕ) (s s' : HttpStream) : Type 0 where
  pub known :
      is_pseudo nv ≡ true
      → (is_request_pseudo t
          || is_token t Token.host
          || is_token t Token.content_length
          || is_token t Token.te)
        ≡ true
  pub te : is_token t Token.te ≡ true → lstrieq (codes "trailers") nv.value ≡ true
  pub filled : (is_request_pseudo t || is_token t Token.host) ≡ true → lws nv.value ≡ false
  pub content_length : LengthRule nv t s s'
  pub no_connect :
      (is_token t Token.pseudo_path || is_token t Token.pseudo_scheme) ≡ true
      → s.http_flags HttpFlag.meth_connect ≡ false
  pub connect :
      is_token t Token.pseudo_method ≡ true
      → bytes_eq nv.value (codes "CONNECT") ≡ true
      → ((s.stream_id % 2 == 0) ≡ false)
        × (s.http_flags HttpFlag.path ≡ false)
        × (s.http_flags HttpFlag.scheme ≡ false)
        × (s'.http_flags HttpFlag.meth_connect ≡ true)

-- The same of a response.
pub record ResponseRules (nv : Nv) (t : Option ℕ) (s s' : HttpStream) : Type 0 where
  pub known :
      is_pseudo nv ≡ true
      → (is_response_pseudo t || is_token t Token.content_length || is_token t Token.te) ≡ true
  pub te : is_token t Token.te ≡ true → lstrieq (codes "trailers") nv.value ≡ true
  pub filled : is_response_pseudo t ≡ true → lws nv.value ≡ false
  pub content_length : LengthRule nv t s s'
  pub status :
      is_token t Token.pseudo_status ≡ true
      → (length nv.value ≡ 3) × (n : ℕ) × (parse_uint nv.value ≡ some n) × (s'.status_code ≡ some n)

connect-ne-head :
    (v : List ℕ) → bytes_eq v (codes "CONNECT") ≡ true → bytes_eq v (codes "HEAD") ≡ false
connect-ne-head v h = rw (bytes_eq→eq v (codes "CONNECT") h) refl

module _ (nv : Nv) (t : Option ℕ) (s s' : HttpStream) where
  request_known :
      request_case nv t s ≡ (ok tt, s')
      → is_pseudo nv ≡ true
      → (is_request_pseudo t
          || is_token t Token.host
          || is_token t Token.content_length
          || is_token t Token.te)
        ≡ true
  unfolding request_case
  request_known h p = ground arith

  response_known :
      response_case nv t s ≡ (ok tt, s')
      → is_pseudo nv ≡ true
      → (is_response_pseudo t || is_token t Token.content_length || is_token t Token.te) ≡ true
  unfolding response_case
  response_known h p = ground arith

  request_te :
      request_case nv t s ≡ (ok tt, s')
      → is_token t Token.te ≡ true
      → lstrieq (codes "trailers") nv.value ≡ true
  unfolding request_case
  request_te h p = ground arith

  response_te :
      response_case nv t s ≡ (ok tt, s')
      → is_token t Token.te ≡ true
      → lstrieq (codes "trailers") nv.value ≡ true
  unfolding response_case
  response_te h p = ground arith

  request_filled :
      request_case nv t s ≡ (ok tt, s')
      → (is_request_pseudo t || is_token t Token.host) ≡ true
      → lws nv.value ≡ false
  unfolding request_case
  request_filled h p = ground arith

  response_filled :
      response_case nv t s ≡ (ok tt, s') → is_response_pseudo t ≡ true → lws nv.value ≡ false
  unfolding response_case
  response_filled h p = ground arith

  request_length : request_case nv t s ≡ (ok tt, s') → LengthRule nv t s s'
  unfolding request_case
  request_length h = ground arith

  response_length : response_case nv t s ≡ (ok tt, s') → LengthRule nv t s s'
  unfolding response_case
  response_length h = ground arith

  request_no_connect :
      request_case nv t s ≡ (ok tt, s')
      → (is_token t Token.pseudo_path || is_token t Token.pseudo_scheme) ≡ true
      → s.http_flags HttpFlag.meth_connect ≡ false
  unfolding request_case
  request_no_connect h p = ground arith

  request_connect :
      request_case nv t s ≡ (ok tt, s')
      → is_token t Token.pseudo_method ≡ true
      → bytes_eq nv.value (codes "HEAD") ≡ false
      → bytes_eq nv.value (codes "CONNECT") ≡ true
      → ((s.stream_id % 2 == 0) ≡ false)
        × (s.http_flags HttpFlag.path ≡ false)
        × (s.http_flags HttpFlag.scheme ≡ false)
        × (s'.http_flags HttpFlag.meth_connect ≡ true)
  unfolding request_case
  request_connect h p nh c = ground arith

  response_status :
      response_case nv t s ≡ (ok tt, s')
      → is_token t Token.pseudo_status ≡ true
      → (length nv.value ≡ 3) × (n : ℕ) × (parse_uint nv.value ≡ some n) × (s'.status_code ≡ some n)
  unfolding response_case
  response_status h p = ground arith

-- The last step of a field changes one flag at most, which no rule reads.
module _ (nv : Nv) (t : Option ℕ) (s s1 s' : HttpStream)
    (closing : close_pseudo nv s1 ≡ (ok tt, s')) where
  closed_fields :
      (s'.content_length ≡ s1.content_length)
      × (s'.status_code ≡ s1.status_code)
      × (s1.http_flags HttpFlag.meth_connect ≡ true → s'.http_flags HttpFlag.meth_connect ≡ true)
  unfolding close_pseudo
  closed_fields = ground arith

  pub request_rules : request_case nv t s ≡ (ok tt, s1) → RequestRules nv t s s'
  request_rules h =
      let same = closed_fields in
      let connects = request_connect nv t s s1 h in
      let stored = request_length nv t s s1 h in
      record {
        known = request_known nv t s s1 h;
        te = request_te nv t s s1 h;
        filled = request_filled nv t s s1 h;
        content_length = rw same.0 stored;
        no_connect = request_no_connect nv t s s1 h;
        connect = λ m c.
            let (odd, no_path, no_scheme, set) = connects m (connect-ne-head nv.value c) c in
            (odd, no_path, no_scheme, same.2 set);
      }

  pub response_rules : response_case nv t s ≡ (ok tt, s1) → ResponseRules nv t s s'
  response_rules h =
      let same = closed_fields in
      let stored = response_length nv t s s1 h in
      let status = response_status nv t s s1 h in
      record {
        known = response_known nv t s s1 h;
        te = response_te nv t s s1 h;
        filled = response_filled nv t s s1 h;
        content_length = rw same.0 stored;
        status = λ m. rw same.1 (status m);
      }
