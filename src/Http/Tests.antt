-- ===== src/Http/Tests.antt =====
-- A request and a body, and the handlers of lib/nghttp2_http.c at them.
use newhttp.Common.{
  arith, ◌+◌, ◌≤◌, ◌<◌, ◌≡◌, refl, true, false, List, [], ◌∷◌, some, none, All, ◌↔◌,
}
use Prim.Native.String.{String}
use newhttp.Common.Text.{codes}
use newhttp.Errors.{ok, err, ign_http_header}
use newhttp.Frame.FrameType
use newhttp.Frame.Types.{Nv}
use newhttp.Helper.Charset.{check_header_name, check_header_value}
use newhttp.Hd.Token
use newhttp.Http.{HttpFlag, HttpStream, set_flag}
use newhttp.Http.OnHeader.{
  is_pseudo, http_request_on_header, http_response_on_header, http_on_header,
}
use newhttp.Http.OnHeader.Rules.{ResponseRules}
use newhttp.Http.OnHeader.Laws.{is_status_field, Accepted, http_response_on_header-Accepted}
use newhttp.Http.OnHeader.Ignored.{http_on_header-ignored}
use newhttp.Http.Message.{http_on_request_headers}
use newhttp.Http.Block.{http_stream_init, on_fields}
use newhttp.Http.Block.Laws.{count, PseudoFirst}
use newhttp.Http.Block.Request.{on_fields_request}
use newhttp.Http.Value.{int64_max, parse_uint}
use newhttp.Http.Laws.{IsDigit, decimal, parse_uint_iff, body_ok, IsComplete, body_ok_iff}

abbrev nv : String → String → Nv
nv name value = record { name = codes name; value = codes value; flags = 0 }

-- A request with a content length of 12.
abbrev request : List Nv
request =
    nv ":method" "POST"
    ∷ nv ":scheme" "https"
    ∷ nv ":path" "/upload"
    ∷ nv ":authority" "example.org"
    ∷ nv "content-length" "12"
    ∷ []

abbrev fresh : HttpStream
fresh = http_stream_init 1

abbrev request_stream : HttpStream
request_stream = (on_fields true false request fresh).1

request_accepted : on_fields true false request (http_stream_init 1) ≡ (ok tt, request_stream)
unfolding on_fields http_stream_init http_on_header check_header_name
    newhttp.Helper.Charset.valid_hd_name_chars check_header_value
    newhttp.Helper.Charset.valid_hd_value_chars http_request_on_header
    newhttp.Hd.Lookup.lookup_token
request_accepted = refl

request_no_connect : request_stream.http_flags HttpFlag.meth_connect ≡ false
unfolding on_fields http_stream_init http_on_header check_header_name
    newhttp.Helper.Charset.valid_hd_name_chars check_header_value
    newhttp.Helper.Charset.valid_hd_value_chars http_request_on_header
    newhttp.Hd.Lookup.lookup_token
request_no_connect = refl

abbrev checked_stream : HttpStream
checked_stream = (http_on_request_headers FrameType.headers request_stream).1

request_checked : http_on_request_headers FrameType.headers request_stream ≡ (true, checked_stream)
unfolding on_fields http_stream_init http_on_request_headers http_on_header check_header_name
    newhttp.Helper.Charset.valid_hd_name_chars check_header_value
    newhttp.Helper.Charset.valid_hd_value_chars http_request_on_header
    newhttp.Hd.Lookup.lookup_token
request_checked = refl

on_fields_request_example :
    (count HttpFlag.method request ≡ 1)
    × (count HttpFlag.scheme request ≡ 1)
    × (count HttpFlag.path request ≡ 1)
    × (count HttpFlag.authority request ≤ 1)
    × (1 ≤ count HttpFlag.authority request + count HttpFlag.host request)
    × PseudoFirst false request
on_fields_request_example =
    on_fields_request 1 FrameType.headers request request_stream checked_stream request_accepted
      request_no_connect request_checked

abbrev method_stream : HttpStream
method_stream =
    (http_request_on_header (nv ":method" "GET") (some Token.pseudo_method) false fresh).1

abbrev status_stream : HttpStream
status_stream =
    (http_response_on_header (nv ":status" "200") (some Token.pseudo_status) false fresh).1

status_accepted :
    http_response_on_header (nv ":status" "200") (some Token.pseudo_status) false fresh
    ≡ (ok tt, status_stream)
unfolding http_response_on_header http_stream_init
status_accepted = refl

http_response_on_header-Accepted_example :
    Accepted is_status_field
      (nv ":status" "200")
      (some Token.pseudo_status)
      false
      fresh
      status_stream
    × ResponseRules (nv ":status" "200") (some Token.pseudo_status) fresh status_stream
http_response_on_header-Accepted_example =
    http_response_on_header-Accepted (nv ":status" "200") (some Token.pseudo_status) false fresh
      status_stream status_accepted

-- A field with a forbidden character in its value, which is ignored.
abbrev bad_value : Nv
bad_value = record { name = codes "x-note"; value = 0 ∷ []; flags = 0 }

abbrev ignored_stream : HttpStream
ignored_stream = (http_on_header true bad_value none false fresh).1

bad_value_ignored :
    http_on_header true bad_value none false fresh ≡ (err ign_http_header, ignored_stream)
unfolding http_on_header http_stream_init check_header_name
    newhttp.Helper.Charset.valid_hd_name_chars check_header_value
    newhttp.Helper.Charset.valid_hd_value_chars
bad_value_ignored = refl

http_on_header-ignored_example :
    (is_pseudo bad_value ≡ false)
    × (ignored_stream ≡ set_flag HttpFlag.pseudo_header_disallowed fresh)
http_on_header-ignored_example =
    http_on_header-ignored bad_value none false fresh ignored_stream bad_value_ignored

abbrev whole_stream : HttpStream
whole_stream = (http_on_header true (nv ":method" "GET") (some Token.pseudo_method) false fresh).1

parse_uint_iff_example :
    (parse_uint (codes "120") ≡ some 120)
    ↔ (0 < 3) × All IsDigit (codes "120") × (120 ≡ decimal 0 (codes "120")) × (120 ≤ int64_max)
parse_uint_iff_example = parse_uint_iff (codes "120") 120

chunks_fit : request_stream.recv_content_length + (5 + (7 + 0)) ≤ int64_max
unfolding on_fields http_stream_init http_on_header check_header_name
    newhttp.Helper.Charset.valid_hd_name_chars check_header_value
    newhttp.Helper.Charset.valid_hd_value_chars http_request_on_header
    newhttp.Hd.Lookup.lookup_token
chunks_fit = omega arith

body_ok_iff_example :
    (body_ok (5 ∷ 7 ∷ []) request_stream ≡ true) ↔ IsComplete (5 ∷ 7 ∷ []) request_stream
body_ok_iff_example = body_ok_iff (5 ∷ 7 ∷ []) request_stream chunks_fit
