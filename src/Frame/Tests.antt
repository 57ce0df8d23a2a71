-- ===== src/Frame/Tests.antt =====
-- Concrete frames, written by the functions of lib/nghttp2_frame.c and read back.
use newhttp.Common.{ℕ, ◌≡◌, refl, arith, true, false, [], ◌∷◌, ◌++◌, drop, replicate}
use Prim.Native.Nat.{Ordering}
use Prim.Native.String.{String}
use newhttp.Common.Text.{codes}
use newhttp.Errors.{ok}
use newhttp.Buf.{Buf, contents}
use newhttp.Buf.Chain.{Bufs}
use newhttp.Frame.{FrameHd, unpack_frame_hd}
use newhttp.Frame.FrameType
use newhttp.Frame.Header.{IsHd, hd_bytes}
use newhttp.Frame.Types.{PrioritySpec, Priority, RstStream, Settings, Ping, WindowUpdate, Nv}
use newhttp.Frame.Pack.{pack_settings}
use newhttp.Frame.Unpack.{unpack_settings_payload2}
use newhttp.Frame.Written.{HasRoom}
use newhttp.Frame.RoundTrip.{IsPriority}
use newhttp.Frame.SettingsId
use newhttp.Frame.SettingsLaws.{pack_settings-unpack}
use newhttp.Frame.Pad.{frame_set_pad}
use newhttp.Frame.PadLaws.{padded, IsWritten, contents-frame_set_pad}
use newhttp.Frame.Nv.{nv_compar}

-- An empty chunk with ten bytes in front, as the session makes them.
abbrev empty : Buf
empty = record { mem = replicate 40 0; pos = 10; last = 10; mark = 0 }

abbrev chain : Bufs
chain = record {
  before = [];
  cur = empty;
  after = [];
  serves = λ k. true;
  chunk_length = 40;
  max_chunk = 1;
  chunk_used = 1;
  chunk_keep = 1;
  offset = 10;
}

empty-HasRoom : HasRoom 12 empty
empty-HasRoom = record { empty = refl; front = omega arith; back = omega arith }

abbrev header : ℕ → ℕ → ℕ → FrameHd
header len type id = record { length = len; type = type; flags = 0; stream_id = id; reserved = 0 }

rst-IsHd : IsHd (header 4 FrameType.rst_stream 1)
rst-IsHd = record {
  length_fits = omega arith;
  type_fits = omega arith;
  flags_fits = omega arith;
  stream_id_fits = omega arith;
  reserved_zero = refl;
}

abbrev rst : RstStream
rst = record { hd = header 4 FrameType.rst_stream 1; error_code = 8 }

four-HasRoom : HasRoom 4 empty
four-HasRoom = record { empty = refl; front = omega arith; back = omega arith }

abbrev window_update : WindowUpdate
window_update = record {
  hd = header 4 FrameType.window_update 3;
  window_size_increment = 65535;
  reserved = 0;
}

window_update-IsHd : IsHd window_update.hd
window_update-IsHd = record {
  length_fits = omega arith;
  type_fits = omega arith;
  flags_fits = omega arith;
  stream_id_fits = omega arith;
  reserved_zero = refl;
}

abbrev priority : Priority
priority = record {
  hd = header 5 FrameType.priority 5;
  pri_spec = record { stream_id = 3; weight = 200; exclusive = true };
}

priority-IsHd : IsHd priority.hd
priority-IsHd = record {
  length_fits = omega arith;
  type_fits = omega arith;
  flags_fits = omega arith;
  stream_id_fits = omega arith;
  reserved_zero = refl;
}

spec-IsPriority : IsPriority priority.pri_spec
spec-IsPriority = record {
  stream_id_fits = omega arith;
  weight_low = omega arith;
  weight_high = omega arith;
}

five-HasRoom : HasRoom 5 empty
five-HasRoom = record { empty = refl; front = omega arith; back = omega arith }

abbrev no_priority : PrioritySpec
no_priority = record { stream_id = 0; weight = 16; exclusive = false }

abbrev ping : Ping
ping = record { hd = header 8 FrameType.ping 0; opaque_data = codes "deadbeef" }

ping-IsHd : IsHd ping.hd
ping-IsHd = record {
  length_fits = omega arith;
  type_fits = omega arith;
  flags_fits = omega arith;
  stream_id_fits = omega arith;
  reserved_zero = refl;
}

eight-HasRoom : HasRoom 8 empty
eight-HasRoom = record { empty = refl; front = omega arith; back = omega arith }

abbrev settings : Settings
settings = record {
  hd = header 12 FrameType.settings 0;
  iv =
      (record { settings_id = SettingsId.max_concurrent_streams; value = 100 })
      ∷ (record { settings_id = SettingsId.initial_window_size; value = 65535 })
      ∷ [];
}

settings-IsHd : IsHd settings.hd
settings-IsHd = record {
  length_fits = omega arith;
  type_fits = omega arith;
  flags_fits = omega arith;
  stream_id_fits = omega arith;
  reserved_zero = refl;
}

pack_settings-unpack_example :
    (out : Bufs) × (pack_settings chain settings ≡ ok out)
    × (unpack_frame_hd (contents out.cur) ≡ settings.hd)
    × (unpack_settings_payload2 true (drop 9 (contents out.cur)) 12 ≡ ok settings.iv)
pack_settings-unpack_example =
    pack_settings-unpack chain settings refl empty-HasRoom settings-IsHd refl (omega arith)

-- A DATA frame with two bytes and room for padding.
abbrev data_hd : FrameHd
data_hd = header 2 FrameType.data_frame 1

abbrev data_buf : Buf
data_buf = record {
  mem = 0 ∷ (hd_bytes data_hd ++ (104 ∷ 105 ∷ replicate 8 9));
  pos = 1;
  last = 12;
  mark = 12;
}

data-IsHd : IsHd data_hd
data-IsHd = record {
  length_fits = omega arith;
  type_fits = omega arith;
  flags_fits = omega arith;
  stream_id_fits = omega arith;
  reserved_zero = refl;
}

data-IsWritten : IsWritten data_buf data_hd (104 ∷ 105 ∷ []) (replicate 8 9)
data-IsWritten = record {
  spare = 0;
  front = omega arith;
  inside = omega arith;
  bytes = refl;
  filled = refl;
}

contents-frame_set_pad_example :
    contents (frame_set_pad data_buf 4 false)
    ≡ hd_bytes (padded data_hd 4) ++ (3 ∷ ((104 ∷ 105 ∷ []) ++ (0 ∷ 0 ∷ 0 ∷ [])))
contents-frame_set_pad_example =
    contents-frame_set_pad data_hd 4 data-IsHd (omega arith) data_buf (104 ∷ 105 ∷ [])
      (replicate 8 9) data-IsWritten (omega arith) (omega arith) (omega arith)

abbrev nv : String → String → Nv
nv name value = record { name = codes name; value = codes value; flags = 0 }

a_below_b : nv_compar (nv "age" "1") (nv "age" "2") ≡ Ordering.lt
unfolding nv_compar
a_below_b = refl

b_below_c : nv_compar (nv "age" "2") (nv "etag" "") ≡ Ordering.lt
unfolding nv_compar
b_below_c = refl
