-- ===== src/Http/Message.antt =====
-- lib/nghttp2_http.c: the checks at the end of a header block, of the body and of the message.
use newhttp.Common.{
  ℕ, ◌+◌, ◌/◌, ◌%◌, ◌^◌, Bool, true, false, ◌&&◌, ◌||◌, not, List, [], ◌∷◌, Option, none, some, ltb,
  ◌==◌, if◌then◌else◌, bit_and,
}
use newhttp.Common.Text.{codes, bytes_eq}
use newhttp.Frame.Types.{Nv}
use newhttp.Frame.FrameType
use newhttp.Frame.Flag
use newhttp.Http.{HttpFlag, HttpStream, is_meth, set_flag, flag_bit}

-- A field with the value `n`; -1 / 100 is 0 in C.
abbrev pub is_status : Option ℕ → ℕ → Bool
is_status none n = false
is_status (some k) n = k == n

abbrev pub status_class : Option ℕ → ℕ
status_class none = 0
status_class (some k) = k / 100

unfoldable pub expect_response_body : HttpStream → Bool
expect_response_body s =
    not (s.http_flags HttpFlag.meth_head)
    && not (status_class s.status_code == 1)
    && not (is_status s.status_code 304)
    && not (is_status s.status_code 204)

unfoldable pub check_path : HttpStream → Bool
check_path s =
    not (s.http_flags HttpFlag.scheme_http)
    || s.http_flags HttpFlag.path_regular
    || s.http_flags HttpFlag.meth_options && s.http_flags HttpFlag.path_asterisk

-- The flags and the length that a PUSH_PROMISE clears for the response to come.
clear_request : ℕ → HttpStream → HttpStream
clear_request type s =
    if type == FrameType.push_promise
    then record s { http_flags = λ g. is_meth g && s.http_flags g; content_length = none }
    else s

-- The handlers return whether the message is acceptable: `true` is 0 and `false` is -1.
unfoldable pub http_on_request_headers : ℕ → HttpStream → Bool × HttpStream
unfolding check_path clear_request
http_on_request_headers type s =
    if s.http_flags HttpFlag.meth_connect
    then if s.http_flags HttpFlag.authority
      then (true, clear_request type (record s { content_length = none }))
      else (false, s)
    else if not (
          s.http_flags HttpFlag.method
          && s.http_flags HttpFlag.path
          && s.http_flags HttpFlag.scheme)
        || not (s.http_flags HttpFlag.authority || s.http_flags HttpFlag.host)
    then (false, s)
    else if check_path s
    then (true, clear_request type s)
    else (false, s)

unfoldable pub http_on_response_headers : HttpStream → Bool × HttpStream
unfolding expect_response_body
http_on_response_headers s =
    if not (s.http_flags HttpFlag.status)
    then (false, s)
    else if status_class s.status_code == 1
    then (
      true,
      record s {
        http_flags = λ g.
            is_meth g && s.http_flags g || flag_bit g == flag_bit HttpFlag.expect_final_response;
        content_length = none;
        status_code = none;
      },
    )
    else (let final = record s {
      http_flags =
          λ g. not (flag_bit g == flag_bit HttpFlag.expect_final_response) && s.http_flags g;
    } in
        if not (expect_response_body final)
        then (true, record final { content_length = some 0 })
        else if final.http_flags HttpFlag.meth_connect
        then (true, record final { content_length = none })
        else (true, final))

unfoldable pub http_on_trailer_headers : ℕ → Bool
http_on_trailer_headers flags = not (bit_and flags Flag.end_stream == 0)

-- Whether a body of `n` bytes in all may end here.
abbrev pub length_is : Option ℕ → ℕ → Bool
length_is none n = true
length_is (some k) n = k == n

-- The test of `int64_t` values: a count from 2^63 on is negative.
abbrev pub length_exceeded : Option ℕ → ℕ → Bool
length_exceeded none n = false
length_exceeded (some k) n = ltb n (2 ^ 63) && ltb k n

unfoldable pub http_on_remote_end_stream : HttpStream → Bool
http_on_remote_end_stream s =
    not (s.http_flags HttpFlag.expect_final_response)
    && length_is s.content_length s.recv_content_length

-- The sum wraps to 64 bits, as `int64_t` does in two's complement.
unfoldable pub http_on_data_chunk : ℕ → HttpStream → Bool × HttpStream
http_on_data_chunk n s =
    let s' = record s { recv_content_length = (s.recv_content_length + n) % 2 ^ 64 } in
    (
      not (
          s'.http_flags HttpFlag.expect_final_response
          || length_exceeded s'.content_length s'.recv_content_length),
      s',
    )

-- The loop over the header fields of a request that is sent.
record_method : List Nv → HttpStream → HttpStream
record_method [] s = s
record_method (nv ∷ nva) s =
    if not (bytes_eq nv.name (codes ":method"))
    then record_method nva s
    else if bytes_eq nv.value (codes "CONNECT")
    then set_flag HttpFlag.meth_connect s
    else if bytes_eq nv.value (codes "HEAD")
    then set_flag HttpFlag.meth_head s
    else s

unfoldable pub http_record_request_method : ℕ → List Nv → HttpStream → HttpStream
unfolding record_method
http_record_request_method type nva s =
    if type == FrameType.headers || type == FrameType.push_promise then record_method nva s else s
