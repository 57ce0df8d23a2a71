-- ===== src/Frame/Header.antt =====
-- The frame header of lib/nghttp2_frame.c: nine bytes, and what they are read back as.
use newhttp.Common.{ℕ, ◌/◌, ◌%◌, ◌^◌, ◌≤◌, ◌<◌, ◌≡◌, List, [], ◌∷◌, ◌++◌, arith, length, drop}
use newhttp.Common.Bits.{bit_and_mask}
use newhttp.Helper.{be32, get_uint32, put_uint32be}
use newhttp.Frame.{FrameHd, pack_frame_hd, unpack_frame_hd}

-- A header that fits its fields on the wire: 24 bits of length, 31 bits of stream identifier.
pub record IsHd (hd : FrameHd) : Type 0 where
  pub length_fits : hd.length < 2 ^ 24
  pub type_fits : hd.type < 256
  pub flags_fits : hd.flags < 256
  pub stream_id_fits : hd.stream_id < 2 ^ 31
  pub reserved_zero : hd.reserved ≡ 0

-- The layout of RFC 7540, section 4.1.
abbrev pub hd_bytes : FrameHd → List ℕ
hd_bytes hd =
    (hd.length / 2 ^ 16 % 256)
    ∷ (hd.length / 256 % 256)
    ∷ (hd.length % 256)
    ∷ hd.type
    ∷ hd.flags
    ∷ be32 hd.stream_id

-- A frame header is written as the nine bytes of its layout, and the bytes behind them stay.
pub pack_frame_hd-hd_bytes :
    (buf : List ℕ) (hd : FrameHd)
    → 9 ≤ length buf
    → pack_frame_hd buf hd ≡ hd_bytes hd ++ drop 9 buf
unfolding pack_frame_hd put_uint32be
pack_frame_hd-hd_bytes (a ∷ b ∷ c ∷ d ∷ e ∷ f ∷ g ∷ h ∷ i ∷ buf) hd p = ground arith
pack_frame_hd-hd_bytes [] hd p = absurd (omega arith)
pack_frame_hd-hd_bytes (_ ∷ []) hd p = absurd (omega arith)
pack_frame_hd-hd_bytes (_ ∷ _ ∷ []) hd p = absurd (omega arith)
pack_frame_hd-hd_bytes (_ ∷ _ ∷ _ ∷ []) hd p = absurd (omega arith)
pack_frame_hd-hd_bytes (_ ∷ _ ∷ _ ∷ _ ∷ []) hd p = absurd (omega arith)
pack_frame_hd-hd_bytes (_ ∷ _ ∷ _ ∷ _ ∷ _ ∷ []) hd p = absurd (omega arith)
pack_frame_hd-hd_bytes (_ ∷ _ ∷ _ ∷ _ ∷ _ ∷ _ ∷ []) hd p = absurd (omega arith)
pack_frame_hd-hd_bytes (_ ∷ _ ∷ _ ∷ _ ∷ _ ∷ _ ∷ _ ∷ []) hd p = absurd (omega arith)
pack_frame_hd-hd_bytes (_ ∷ _ ∷ _ ∷ _ ∷ _ ∷ _ ∷ _ ∷ _ ∷ []) hd p = absurd (omega arith)

-- A header that fits the wire is read back from the nine bytes of its layout, whatever follows.
pub unpack_frame_hd-hd_bytes :
    (hd : FrameHd) (rest : List ℕ) → IsHd hd → unpack_frame_hd (hd_bytes hd ++ rest) ≡ hd
unfolding unpack_frame_hd get_uint32
unpack_frame_hd-hd_bytes hd rest h =
    ground (arith, bit_and_mask 31 (get_uint32 (be32 hd.stream_id ++ rest)))
