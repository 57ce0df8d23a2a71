-- ===== src/Http/OnHeader.antt =====
-- lib/nghttp2_http.c: one header field of a request or a response.
pub mod Rules
pub mod Laws
pub mod Ignored
use newhttp.Common.{
  ℕ, ◌%◌, Bool, true, false, ◌&&◌, ◌||◌, not, List, [], ◌∷◌, Option, none, some, length, get_or,
  ltb, leb, ◌==◌, if◌then◌else◌,
}
use newhttp.Common.Text.{codes, bytes_eq}
use newhttp.Errors.{ok, err, http_header, ign_http_header}
use newhttp.Helper.Charset.{check_header_name, check_header_value}
use newhttp.Frame.Types.{Nv}
use newhttp.Hd.Token
use newhttp.Http.{HttpFlag, M, ◌>>=◌, ◌>>◌, done, fail, fail_if, modify, flag, set_flag}
use newhttp.Http.Value.{parse_uint, lws, lstrieq}

-- The token of a header name, -1 as `none`.
abbrev pub is_token : Option ℕ → ℕ → Bool
is_token none t = false
is_token (some k) t = k == t

-- `nv->name[0] == ':'`; a name ends with a zero byte.
abbrev pub is_pseudo : Nv → Bool
is_pseudo nv = get_or nv.name 0 0 == b':'

-- Once, and not of white space only; then the flag is set.
unfoldable pub check_pseudo_header : Nv → HttpFlag → M Bool
unfolding lws
check_pseudo_header nv f s =
    if s.http_flags f
    then (ok false, s)
    else if lws nv.value
    then (ok false, s)
    else (ok true, set_flag f s)

require_pseudo : Nv → HttpFlag → M (Unit {0})
unfolding check_pseudo_header
require_pseudo nv f = do valid ← check_pseudo_header nv f; fail_if (not valid) http_header

-- A pseudo header field in a trailer or behind a regular field.
check_position : Nv → Bool → M (Unit {0})
check_position nv trailer = do
  late ← flag HttpFlag.pseudo_header_disallowed
  fail_if (is_pseudo nv && (trailer || late)) http_header

-- `:method`, whose known values set a flag; CONNECT is refused for a pushed stream, and behind a
-- `:path` or a `:scheme`.
on_method : Nv → M (Unit {0})
on_method nv s =
    if bytes_eq nv.value (codes "HEAD")
    then modify (set_flag HttpFlag.meth_head) s
    else if bytes_eq nv.value (codes "CONNECT")
    then if s.stream_id % 2 == 0
      then (err http_header, s)
      else (let s' = set_flag HttpFlag.meth_connect s in
          fail_if (s'.http_flags HttpFlag.path || s'.http_flags HttpFlag.scheme) http_header s')
    else if bytes_eq nv.value (codes "OPTIONS")
    then modify (set_flag HttpFlag.meth_options) s
    else (ok tt, s)

on_path : Nv → M (Unit {0})
on_path nv =
    if get_or nv.value 0 0 == b'/'
    then modify (set_flag HttpFlag.path_regular)
    else if length nv.value == 1 && get_or nv.value 0 0 == b'*'
    then modify (set_flag HttpFlag.path_asterisk)
    else done

on_scheme : Nv → M (Unit {0})
unfolding lstrieq
on_scheme nv =
    if lstrieq (codes "http") nv.value || lstrieq (codes "https") nv.value
    then modify (set_flag HttpFlag.scheme_http)
    else done

-- A second field, or a value that is no number, is an error; the latter resets the field to -1.
on_content_length : Nv → M (Unit {0})
unfolding parse_uint
on_content_length nv s = elim s.content_length [
  | some n ↦ (err http_header, s)
  | none ↦ elim (parse_uint nv.value) [
    | some n ↦ (ok tt, record s { content_length = some n })
    | none ↦ (err http_header, s)
  ]
]

on_status : Nv → M (Unit {0})
unfolding parse_uint
on_status nv s =
    if length nv.value == 3
    then elim (parse_uint nv.value) [
      | some n ↦ (ok tt, record s { status_code = some n })
      | none ↦ (err http_header, record s { status_code = none })
    ]
    else (err http_header, s)

-- A regular field closes the part of the pseudo header fields.
pub close_pseudo : Nv → M (Unit {0})
close_pseudo nv = if is_pseudo nv then done else modify (set_flag HttpFlag.pseudo_header_disallowed)

-- The fields that no HTTP/2 message may have.
abbrev pub is_disallowed : Option ℕ → Bool
is_disallowed t =
    is_token t Token.connection
    || is_token t Token.keep_alive
    || is_token t Token.proxy_connection
    || is_token t Token.transfer_encoding
    || is_token t Token.upgrade

-- The cases that requests and responses share.
shared_case : Nv → Option ℕ → M (Unit {0})
unfolding on_content_length lstrieq
shared_case nv token =
    if is_token token Token.content_length
    then on_content_length nv
    else if is_disallowed token
    then fail http_header
    else if is_token token Token.te
    then fail_if (not (lstrieq (codes "trailers") nv.value)) http_header
    else fail_if (is_pseudo nv) http_header

-- CONNECT has neither `:path` nor `:scheme`.
reject_connect : M (Unit {0})
reject_connect = do connect ← flag HttpFlag.meth_connect; fail_if connect http_header

pub request_case : Nv → Option ℕ → M (Unit {0})
unfolding require_pseudo reject_connect on_method on_path on_scheme shared_case
request_case nv token =
    if is_token token Token.pseudo_authority
    then require_pseudo nv HttpFlag.authority
    else if is_token token Token.pseudo_method
    then (do require_pseudo nv HttpFlag.method; on_method nv)
    else if is_token token Token.pseudo_path
    then (do reject_connect; require_pseudo nv HttpFlag.path; on_path nv)
    else if is_token token Token.pseudo_scheme
    then (do reject_connect; require_pseudo nv HttpFlag.scheme; on_scheme nv)
    else if is_token token Token.host
    then require_pseudo nv HttpFlag.host
    else shared_case nv token

unfoldable pub http_request_on_header : Nv → Option ℕ → Bool → M (Unit {0})
unfolding check_position request_case close_pseudo
http_request_on_header nv token trailer = do
  check_position nv trailer
  request_case nv token
  close_pseudo nv

pub response_case : Nv → Option ℕ → M (Unit {0})
unfolding require_pseudo on_status shared_case
response_case nv token =
    if is_token token Token.pseudo_status
    then (do require_pseudo nv HttpFlag.status; on_status nv)
    else shared_case nv token

unfoldable pub http_response_on_header : Nv → Option ℕ → Bool → M (Unit {0})
unfolding check_position response_case close_pseudo
http_response_on_header nv token trailer = do
  check_position nv trailer
  response_case nv token
  close_pseudo nv

-- Whether a name has an upper case letter.
has_upper : List ℕ → Bool
has_upper [] = false
has_upper (c ∷ s) = if leb b'A' c && leb c b'Z' then true else has_upper s

-- A malformed regular field is ignored, with the position rule for pseudo fields still enforced.
ignore_field : M (Unit {0})
ignore_field s = (err ign_http_header, set_flag HttpFlag.pseudo_header_disallowed s)

-- `request` is `session->server || frame->hd.type == NGHTTP2_PUSH_PROMISE`.
unfoldable pub http_on_header : Bool → Nv → Option ℕ → Bool → M (Unit {0})
unfolding has_upper ignore_field
http_on_header request nv token trailer =
    if not (check_header_name nv.name)
    then if ltb 0 (length nv.name) && is_pseudo nv || has_upper nv.name
      then fail http_header
      else ignore_field
    else if not (check_header_value nv.value)
    then if is_pseudo nv then fail http_header else ignore_field
    else if request
    then http_request_on_header nv token trailer
    else http_response_on_header nv token trailer
