-- ===== src/Frame/Flag.antt =====
-- `nghttp2_flag` of lib/includes/nghttp2/nghttp2.h.
use newhttp.Common.{ℕ}

abbrev pub none : ℕ
none = 0

abbrev pub end_stream : ℕ
end_stream = 0x01

abbrev pub end_headers : ℕ
end_headers = 0x04

abbrev pub padded : ℕ
padded = 0x08

abbrev pub priority : ℕ
priority = 0x20
