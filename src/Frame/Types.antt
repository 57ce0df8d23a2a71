-- ===== src/Frame/Types.antt =====
-- The frames of lib/includes/nghttp2/nghttp2.h, and the functions of lib/nghttp2_frame.c and
-- lib/nghttp2_priority_spec.c that fill them.
use newhttp.Common.{
  ℕ, ◌+◌, ◌-◌, ◌*◌, Bool, false, ◌&&◌, List, Option, none, some, length, ◌==◌, if◌then◌else◌, not,
  bit_and, ltb, replicate,
}
use newhttp.Frame.{FrameHd, frame_hd_init}
use newhttp.Frame.FrameType
use newhttp.Frame.Flag

pub record PrioritySpec : Type 0 where
  pub stream_id : ℕ
  pub weight : ℕ
  pub exclusive : Bool

pub record Nv : Type 0 where
  pub name : List ℕ
  pub value : List ℕ
  pub flags : ℕ

pub record Data : Type 0 where
  pub hd : FrameHd
  pub padlen : ℕ

-- `nghttp2_headers_category`
pub data HeadersCategory : Type 0 where
  request response push_response headers : HeadersCategory

pub record Headers : Type 0 where
  pub hd : FrameHd
  pub padlen : ℕ
  pub pri_spec : PrioritySpec
  pub nva : List Nv
  pub cat : HeadersCategory

pub record Priority : Type 0 where
  pub hd : FrameHd
  pub pri_spec : PrioritySpec

pub record RstStream : Type 0 where
  pub hd : FrameHd
  pub error_code : ℕ

pub record SettingsEntry : Type 0 where
  pub settings_id : ℕ
  pub value : ℕ

pub record Settings : Type 0 where
  pub hd : FrameHd
  pub iv : List SettingsEntry

pub record PushPromise : Type 0 where
  pub hd : FrameHd
  pub padlen : ℕ
  pub nva : List Nv
  pub promised_stream_id : ℕ
  pub reserved : ℕ

pub record Ping : Type 0 where
  pub hd : FrameHd
  pub opaque_data : List ℕ

pub record Goaway : Type 0 where
  pub hd : FrameHd
  pub last_stream_id : ℕ
  pub error_code : ℕ
  pub opaque_data : List ℕ
  pub reserved : ℕ

pub record WindowUpdate : Type 0 where
  pub hd : FrameHd
  pub window_size_increment : ℕ
  pub reserved : ℕ

abbrev pub priority_speclen : ℕ
priority_speclen = 5

abbrev pub default_weight : ℕ
default_weight = 16

abbrev pub settings_entry_length : ℕ
settings_entry_length = 6

unfoldable pub priority_spec_init : ℕ → ℕ → Bool → PrioritySpec
priority_spec_init stream_id weight exclusive = record {
  stream_id = stream_id;
  weight = weight;
  exclusive = exclusive;
}

unfoldable pub priority_spec_default_init : PrioritySpec
priority_spec_default_init = record { stream_id = 0; weight = default_weight; exclusive = false }

unfoldable pub priority_spec_check_default : PrioritySpec → Bool
priority_spec_check_default p = p.stream_id == 0 && p.weight == default_weight && not p.exclusive

unfoldable pub headers_init : ℕ → ℕ → HeadersCategory → Option PrioritySpec → List Nv → Headers
unfolding frame_hd_init priority_spec_default_init
headers_init flags stream_id cat pri_spec nva = record {
  hd = frame_hd_init 0 FrameType.headers flags stream_id;
  padlen = 0;
  pri_spec = elim pri_spec [ some p ↦ p | none ↦ priority_spec_default_init ];
  nva = nva;
  cat = cat;
}

unfoldable pub priority_init : ℕ → PrioritySpec → Priority
unfolding frame_hd_init
priority_init stream_id pri_spec = record {
  hd = frame_hd_init priority_speclen FrameType.priority Flag.none stream_id;
  pri_spec = pri_spec;
}

unfoldable pub rst_stream_init : ℕ → ℕ → RstStream
unfolding frame_hd_init
rst_stream_init stream_id error_code = record {
  hd = frame_hd_init 4 FrameType.rst_stream Flag.none stream_id;
  error_code = error_code;
}

unfoldable pub settings_init : ℕ → List SettingsEntry → Settings
unfolding frame_hd_init
settings_init flags iv = record {
  hd = frame_hd_init (length iv * settings_entry_length) FrameType.settings flags 0;
  iv = iv;
}

unfoldable pub push_promise_init : ℕ → ℕ → ℕ → List Nv → PushPromise
unfolding frame_hd_init
push_promise_init flags stream_id promised_stream_id nva = record {
  hd = frame_hd_init 0 FrameType.push_promise flags stream_id;
  padlen = 0;
  nva = nva;
  promised_stream_id = promised_stream_id;
  reserved = 0;
}

unfoldable pub ping_init : ℕ → Option (List ℕ) → Ping
unfolding frame_hd_init
ping_init flags opaque_data = record {
  hd = frame_hd_init 8 FrameType.ping flags 0;
  opaque_data = elim opaque_data [ some d ↦ d | none ↦ replicate 8 0 ];
}

unfoldable pub goaway_init : ℕ → ℕ → List ℕ → Goaway
unfolding frame_hd_init
goaway_init last_stream_id error_code opaque_data = record {
  hd = frame_hd_init (8 + length opaque_data) FrameType.goaway Flag.none 0;
  last_stream_id = last_stream_id;
  error_code = error_code;
  opaque_data = opaque_data;
  reserved = 0;
}

unfoldable pub window_update_init : ℕ → ℕ → ℕ → WindowUpdate
unfolding frame_hd_init
window_update_init flags stream_id window_size_increment = record {
  hd = frame_hd_init 4 FrameType.window_update flags stream_id;
  window_size_increment = window_size_increment;
  reserved = 0;
}

unfoldable pub data_init : ℕ → ℕ → Data
unfolding frame_hd_init
data_init flags stream_id = record {
  hd = frame_hd_init 0 FrameType.data_frame flags stream_id;
  padlen = 0;
}

-- `padlen` of a padded frame counts the Pad Length field.
unfoldable pub trail_padlen : FrameHd → ℕ → ℕ
trail_padlen hd padlen = padlen - (if ltb 0 (bit_and hd.flags Flag.padded) then 1 else 0)

unfoldable pub priority_len : ℕ → ℕ
priority_len flags = if bit_and flags Flag.priority == 0 then 0 else priority_speclen
