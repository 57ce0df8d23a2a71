-- ===== src/Frame/RoundTrip.antt =====
-- Frames that lib/nghttp2_frame.c writes and reads back.
use newhttp.Common.{
  ℕ, ◌+◌, ◌-◌, ◌/◌, ◌%◌, ◌^◌, ◌≤◌, ◌<◌, ◌≡◌, List, [], ◌∷◌, ◌++◌, arith, length, drop, bit_and,
  if◌then◌else◌, take-all,
}
use newhttp.Common.Bits.{bit_or_bit, bit_and_bit, bit_and_mask}
use newhttp.Common.Memory.{copy, copy_lem}
use newhttp.Errors.{ok}
use newhttp.Helper.{be32, put_uint32be, get_uint32}
use newhttp.Helper.Bytes.{put_uint32be_lem, get_uint32-be32}
use newhttp.Buf.{contents}
use newhttp.Buf.Chain.{Bufs}
use newhttp.Frame.{unpack_frame_hd}
use newhttp.Frame.Header.{IsHd, hd_bytes, unpack_frame_hd-hd_bytes}
use newhttp.Frame.Types.{PrioritySpec, Priority, RstStream, Ping, WindowUpdate, priority_spec_init}
use newhttp.Frame.Pack.{
  push_hd, put_last, pack_priority_spec, pack_priority, pack_rst_stream, pack_ping,
  pack_window_update,
}
use newhttp.Frame.Unpack.{
  unpack_priority_spec, unpack_priority_payload, unpack_rst_stream_payload, unpack_ping_payload,
  unpack_window_update_payload,
}
use newhttp.Frame.Written.{HasRoom, Writes, written_lem}

-- A specification that fits the wire: 31 bits of stream identifier, and a weight from 1 to 256.
pub record IsPriority (p : PrioritySpec) : Type 0 where
  pub stream_id_fits : p.stream_id < 2 ^ 31
  pub weight_low : 1 ≤ p.weight
  pub weight_high : p.weight ≤ 256

abbrev priority_bytes : PrioritySpec → List ℕ
priority_bytes p =
    (p.stream_id / 2 ^ 24 % 256 + (if p.exclusive then 128 else 0))
    ∷ (p.stream_id / 2 ^ 16 % 256)
    ∷ (p.stream_id / 256 % 256)
    ∷ (p.stream_id % 256)
    ∷ (p.weight - 1)
    ∷ []

pack_priority_spec-Writes :
    (s : PrioritySpec) → IsPriority s → Writes (λ p. pack_priority_spec p s) (priority_bytes s)
unfolding pack_priority_spec put_uint32be
pack_priority_spec-Writes s h (a ∷ b ∷ c ∷ d ∷ e ∷ p) r =
    ground (arith, bit_or_bit 7 (s.stream_id / 2 ^ 24 % 256))
pack_priority_spec-Writes s h [] r = absurd (omega arith)
pack_priority_spec-Writes s h (_ ∷ []) r = absurd (omega arith)
pack_priority_spec-Writes s h (_ ∷ _ ∷ []) r = absurd (omega arith)
pack_priority_spec-Writes s h (_ ∷ _ ∷ _ ∷ []) r = absurd (omega arith)
pack_priority_spec-Writes s h (_ ∷ _ ∷ _ ∷ _ ∷ []) r = absurd (omega arith)

unpack_priority_spec-priority_bytes :
    (s : PrioritySpec) → IsPriority s → unpack_priority_spec (priority_bytes s) ≡ s
unfolding unpack_priority_spec get_uint32 priority_spec_init
unpack_priority_spec-priority_bytes s h = ground (
  arith,
  bit_and_mask 31 (get_uint32 (priority_bytes s)),
  bit_and_bit 7 (s.stream_id / 2 ^ 24 % 256 + (if s.exclusive then 128 else 0)),
)

-- A PRIORITY frame that fits the wire, packed into an empty first chunk with room for it, is
-- written without an error and read back as it was.
pub pack_priority-unpack :
    (bufs : Bufs) (f : Priority) (old : PrioritySpec)
    → bufs.before ≡ []
    → HasRoom 5 bufs.cur
    → IsHd f.hd
    → IsPriority f.pri_spec
    → (out : Bufs) × (pack_priority bufs f ≡ ok out)
      × (let c = contents out.cur in
          unpack_priority_payload (record { hd = unpack_frame_hd c; pri_spec = old }) (drop 9 c)
          ≡ f)
unfolding pack_priority unpack_priority_payload
pack_priority-unpack bufs f old first room hd spec =
    let w = λ (p : List ℕ). pack_priority_spec p f.pri_spec in
    let writes = pack_priority_spec-Writes f.pri_spec spec in
    (
      record bufs { cur = put_last (push_hd bufs.cur f.hd) 5 w },
      ground arith,
      rw (
        written_lem bufs.cur f.hd w (priority_bytes f.pri_spec) writes room,
        unpack_frame_hd-hd_bytes f.hd (priority_bytes f.pri_spec) hd,
        unpack_priority_spec-priority_bytes f.pri_spec spec,
      ),
    )

-- A RST_STREAM frame that fits the wire, packed into an empty first chunk with room for it, is
-- written without an error and read back as it was.
pub pack_rst_stream-unpack :
    (bufs : Bufs) (f : RstStream) (old : ℕ)
    → bufs.before ≡ []
    → HasRoom 4 bufs.cur
    → IsHd f.hd
    → f.error_code < 2 ^ 32
    → (out : Bufs) × (pack_rst_stream bufs f ≡ ok out)
      × (let c = contents out.cur in
          unpack_rst_stream_payload (record { hd = unpack_frame_hd c; error_code = old }) (drop 9 c)
          ≡ f)
unfolding pack_rst_stream unpack_rst_stream_payload
pack_rst_stream-unpack bufs f old first room hd fits =
    let w = λ (p : List ℕ). put_uint32be p f.error_code in
    let bytes = be32 f.error_code in
    (
      record bufs { cur = put_last (push_hd bufs.cur f.hd) 4 w },
      ground arith,
      rw (
        written_lem bufs.cur f.hd w bytes (λ p. put_uint32be_lem p f.error_code) room,
        unpack_frame_hd-hd_bytes f.hd bytes hd,
        get_uint32-be32 f.error_code [] fits,
      ),
    )

-- A WINDOW_UPDATE frame that fits the wire, packed into an empty first chunk with room for it, is
-- written without an error and read back as it was.
pub pack_window_update-unpack :
    (bufs : Bufs) (f : WindowUpdate) (old : ℕ)
    → bufs.before ≡ []
    → HasRoom 4 bufs.cur
    → IsHd f.hd
    → f.window_size_increment < 2 ^ 31
    → (out : Bufs) × (pack_window_update bufs f ≡ ok out)
      × (let c = contents out.cur in
          unpack_window_update_payload
            (record { hd = unpack_frame_hd c; window_size_increment = old; reserved = f.reserved })
            (drop 9 c)
          ≡ f)
unfolding pack_window_update unpack_window_update_payload
pack_window_update-unpack bufs f old first room hd fits =
    let w = λ (p : List ℕ). put_uint32be p f.window_size_increment in
    let bytes = be32 f.window_size_increment in
    let whole = get_uint32-be32 f.window_size_increment [] (omega arith) in
    let masked : bit_and f.window_size_increment 0x7fff_ffff ≡ f.window_size_increment =
      omega (arith, bit_and_mask 31 f.window_size_increment) in
    (
      record bufs { cur = put_last (push_hd bufs.cur f.hd) 4 w },
      ground arith,
      rw (
        written_lem bufs.cur f.hd w bytes (λ p. put_uint32be_lem p f.window_size_increment) room,
        unpack_frame_hd-hd_bytes f.hd bytes hd,
        whole,
        masked,
      ),
    )

-- A PING frame with eight bytes whose header fits the wire, packed into an empty first chunk with
-- room for it, is written without an error and read back as it was.
pub pack_ping-unpack :
    (bufs : Bufs) (f : Ping) (old : List ℕ)
    → bufs.before ≡ []
    → HasRoom 8 bufs.cur
    → IsHd f.hd
    → length f.opaque_data ≡ 8
    → (out : Bufs) × (pack_ping bufs f ≡ ok out)
      × (let c = contents out.cur in
          unpack_ping_payload (record { hd = unpack_frame_hd c; opaque_data = old }) (drop 9 c) ≡ f)
unfolding pack_ping unpack_ping_payload
pack_ping-unpack bufs f old first room hd eight =
    let w = λ (p : List ℕ). copy p f.opaque_data in
    let whole : contents (put_last (push_hd bufs.cur f.hd) 8 w) ≡ hd_bytes f.hd ++ f.opaque_data =
      rw (← eight) (
        written_lem bufs.cur f.hd w f.opaque_data (λ p. copy_lem p f.opaque_data)
          (rw eight room)) in
    (
      record bufs { cur = put_last (push_hd bufs.cur f.hd) 8 w },
      ground arith,
      rw (whole, unpack_frame_hd-hd_bytes f.hd f.opaque_data hd, take-all f.opaque_data 8 eight),
    )
