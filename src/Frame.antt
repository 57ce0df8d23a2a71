-- ===== src/Frame.antt =====
-- lib/nghttp2_frame.c and lib/nghttp2_frame.h: the frame header and how it is read and written.
pub mod Header
pub mod FrameType
pub mod Flag
pub mod SettingsId
pub mod Types
pub mod Pack
pub mod Unpack
mod Tests
pub mod Pad
pub mod Written
pub mod RoundTrip
pub mod PadLaws
pub mod SettingsLaws
pub mod Nv
use newhttp.Common.{ℕ, ◌+◌, ◌-◌, ◌*◌, ◌/◌, ◌%◌, ◌^◌, List, bit_and, get_or, set, drop}
use newhttp.Common.Memory.{at}
use newhttp.Helper.{put_uint32be, get_uint32}

pub record FrameHd : Type 0 where
  pub length : ℕ
  pub stream_id : ℕ
  pub type : ℕ
  pub flags : ℕ
  pub reserved : ℕ

abbrev pub frame_hdlen : ℕ
frame_hdlen = 9

abbrev pub stream_id_mask : ℕ
stream_id_mask = 2 ^ 31 - 1

unfoldable pub pack_frame_hd : List ℕ → FrameHd → List ℕ
pack_frame_hd buf hd =
    let buf1 = put_uint32be buf (hd.length * 2 ^ 8 % 2 ^ 32) in
    let buf2 = set buf1 3 hd.type in
    let buf3 = set buf2 4 hd.flags in at 5 (λ p. put_uint32be p hd.stream_id) buf3

unfoldable pub unpack_frame_hd : List ℕ → FrameHd
unpack_frame_hd buf = record {
  length = get_uint32 buf / 2 ^ 8;
  stream_id = bit_and (get_uint32 (drop 5 buf)) stream_id_mask;
  type = get_or buf 3 0;
  flags = get_or buf 4 0;
  reserved = 0;
}

unfoldable pub frame_hd_init : ℕ → ℕ → ℕ → ℕ → FrameHd
frame_hd_init length type flags stream_id = record {
  length = length;
  stream_id = stream_id;
  type = type;
  flags = flags;
  reserved = 0;
}
