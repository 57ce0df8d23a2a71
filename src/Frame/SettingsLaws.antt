-- ===== src/Frame/SettingsLaws.antt =====
-- SETTINGS frames of lib/nghttp2_frame.c, written and read back.
use newhttp.Common.{
  ℕ, ◌*◌, ◌/◌, ◌^◌, ◌<◌, ◌≡◌, refl, ap, true, List, [], ◌∷◌, ◌++◌, arith, length, drop, All,
  if◌then◌else◌, ◌==◌,
}
use newhttp.Errors.{ok}
use newhttp.Helper.{be16, be32, put_uint16be, put_uint32be}
use newhttp.Helper.Bytes.{get_uint16-be16, get_uint32-be32}
use newhttp.Buf.{contents}
use newhttp.Buf.Chain.{Bufs}
use newhttp.Frame.{unpack_frame_hd}
use newhttp.Frame.Header.{IsHd, hd_bytes, unpack_frame_hd-hd_bytes}
use newhttp.Frame.Types.{SettingsEntry, Settings}
use newhttp.Frame.Pack.{push_hd, put_last, pack_settings_payload, pack_settings}
use newhttp.Frame.Unpack.{unpack_settings_entry, unpack_entries, unpack_settings_payload2}
use newhttp.Frame.Written.{HasRoom, Writes, written_lem}
use mathlib.Core.List.{append-nil}

-- An entry that fits the wire.
abbrev pub IsEntry : SettingsEntry → Type 0
IsEntry e = (e.settings_id < 2 ^ 16) × (e.value < 2 ^ 32)

abbrev pub settings_bytes : List SettingsEntry → List ℕ
settings_bytes [] = []
settings_bytes (e ∷ iv) = be16 e.settings_id ++ (be32 e.value ++ settings_bytes iv)

length-settings_bytes : (iv : List SettingsEntry) → length (settings_bytes iv) ≡ 6 * length iv
length-settings_bytes [] = refl
length-settings_bytes (e ∷ iv) = omega (arith, length-settings_bytes iv)

pack_settings_payload-Writes :
    (iv : List SettingsEntry) → Writes (λ p. pack_settings_payload p iv) (settings_bytes iv)
unfolding pack_settings_payload put_uint16be put_uint32be
pack_settings_payload-Writes [] p h = refl
pack_settings_payload-Writes (e ∷ iv) (a ∷ b ∷ c ∷ d ∷ f ∷ g ∷ p) h =
    ap (λ t. be16 e.settings_id ++ (be32 e.value ++ t))
      (pack_settings_payload-Writes iv p (omega arith))
pack_settings_payload-Writes (e ∷ iv) [] h = absurd (omega arith)
pack_settings_payload-Writes (e ∷ iv) (_ ∷ []) h = absurd (omega arith)
pack_settings_payload-Writes (e ∷ iv) (_ ∷ _ ∷ []) h = absurd (omega arith)
pack_settings_payload-Writes (e ∷ iv) (_ ∷ _ ∷ _ ∷ []) h = absurd (omega arith)
pack_settings_payload-Writes (e ∷ iv) (_ ∷ _ ∷ _ ∷ _ ∷ []) h = absurd (omega arith)
pack_settings_payload-Writes (e ∷ iv) (_ ∷ _ ∷ _ ∷ _ ∷ _ ∷ []) h = absurd (omega arith)

unpack_entries-settings_bytes :
    (iv : List SettingsEntry) (rest : List ℕ)
    → All IsEntry iv
    → unpack_entries (length iv) (settings_bytes iv ++ rest) ≡ iv
unfolding unpack_entries unpack_settings_entry
unpack_entries-settings_bytes [] rest h = refl
unpack_entries-settings_bytes (e ∷ iv) rest h = ground (
  arith,
  get_uint16-be16 e.settings_id (be32 e.value ++ (settings_bytes iv ++ rest)),
  get_uint32-be32 e.value (settings_bytes iv ++ rest),
  unpack_entries-settings_bytes iv rest,
)

some_entries :
    (iv : List SettingsEntry) (bytes : List ℕ)
    → unpack_entries (length iv) bytes ≡ iv
    → (if length iv == 0 then ok [] else ok (unpack_entries (length iv) bytes)) ≡ ok iv
some_entries [] bytes h = refl
some_entries (e ∷ iv) bytes h = ground arith

-- A SETTINGS frame whose header and entries fit the wire and whose length is six bytes for each
-- entry, packed into an empty first chunk with room for it, is written without an error; where
-- the allocator serves the reader, its header and its entries are read back in the same order.
pub pack_settings-unpack :
    (bufs : Bufs) (f : Settings)
    → bufs.before ≡ []
    → HasRoom (6 * length f.iv) bufs.cur
    → IsHd f.hd
    → f.hd.length ≡ 6 * length f.iv
    → All IsEntry f.iv
    → (out : Bufs) × (pack_settings bufs f ≡ ok out)
      × (unpack_frame_hd (contents out.cur) ≡ f.hd)
      × (unpack_settings_payload2 true (drop 9 (contents out.cur)) f.hd.length ≡ ok f.iv)
unfolding pack_settings unpack_settings_payload2
pack_settings-unpack bufs f first room hd len entries =
    let w = λ (p : List ℕ). pack_settings_payload p f.iv in
    let bytes = settings_bytes f.iv in
    let size = length-settings_bytes f.iv in
    let whole : contents (put_last (push_hd bufs.cur f.hd) (6 * length f.iv) w)
        ≡ hd_bytes f.hd ++ bytes =
      rw (← size)
        (written_lem bufs.cur f.hd w bytes (pack_settings_payload-Writes f.iv) (rw size room)) in
    let back = rw (append-nil bytes) at (unpack_entries-settings_bytes f.iv [] entries) in
    let count : f.hd.length / 6 ≡ length f.iv = omega arith in
    (
      record bufs { cur = put_last (push_hd bufs.cur f.hd) (6 * length f.iv) w },
      ground arith,
      rw (whole, unpack_frame_hd-hd_bytes f.hd bytes hd),
      rw (whole, count) (some_entries f.iv bytes back),
    )
