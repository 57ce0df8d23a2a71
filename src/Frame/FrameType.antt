-- ===== src/Frame/FrameType.antt =====
-- `nghttp2_frame_type` of lib/includes/nghttp2/nghttp2.h.
use newhttp.Common.{ℕ}

abbrev pub headers : ℕ
headers = 1

abbrev pub priority : ℕ
priority = 2

abbrev pub rst_stream : ℕ
rst_stream = 3

abbrev pub settings : ℕ
settings = 4

abbrev pub push_promise : ℕ
push_promise = 5

abbrev pub ping : ℕ
ping = 6

abbrev pub goaway : ℕ
goaway = 7

abbrev pub window_update : ℕ
window_update = 8

abbrev pub continuation : ℕ
continuation = 9

-- NGHTTP2_DATA
abbrev pub data_frame : ℕ
data_frame = 0
