-- ===== src/Frame/Pack.antt =====
-- lib/nghttp2_frame.c: the frames without a header block, written into the first buffer. The
-- header goes in front of `pos`, where the buffer was given room for it.
use newhttp.Common.{
  ℕ, ◌+◌, ◌-◌, ◌*◌, ◌%◌, List, [], ◌∷◌, length, ltb, leb, if◌then◌else◌, bit_or, get_or, set,
}
use newhttp.Common.Memory.{at, copy}
use newhttp.Errors.{Rv, ok, err, ◌>>◌, assert, frame_size_error}
use newhttp.Helper.{put_uint16be, put_uint32be}
use newhttp.Buf.{Buf, buf_avail}
use newhttp.Buf.Chain.{Bufs, head_is_cur}
use newhttp.Frame.{FrameHd, frame_hdlen, pack_frame_hd}
use newhttp.Frame.Types.{
  PrioritySpec, Priority, RstStream, SettingsEntry, Settings, Ping, WindowUpdate, priority_speclen,
  settings_entry_length,
}

-- `buf->pos -= NGHTTP2_FRAME_HDLEN; nghttp2_frame_pack_frame_hd(buf->pos, hd)`
unfoldable pub push_hd : Buf → FrameHd → Buf
push_hd b hd =
    let pos = b.pos - frame_hdlen in
    record b { mem = at pos (λ p. pack_frame_hd p hd) b.mem; pos = pos }

-- A write of `n` bytes through `buf->last`, which moves past them.
unfoldable pub put_last : Buf → ℕ → (List ℕ → List ℕ) → Buf
put_last b n f = record b { mem = at b.last f b.mem; last = b.last + n }

unfoldable pub pack_priority_spec : List ℕ → PrioritySpec → List ℕ
pack_priority_spec buf pri_spec =
    let buf1 = put_uint32be buf pri_spec.stream_id in
    let buf2 = if pri_spec.exclusive then set buf1 0 (bit_or (get_or buf1 0 0) 0x80) else buf1 in
    set buf2 4 ((pri_spec.weight + 255) % 256)

unfoldable pub pack_priority : Bufs → Priority → Rv Bufs
unfolding push_hd put_last
pack_priority bufs frame = do
  assert (head_is_cur bufs)
  assert (leb priority_speclen (buf_avail bufs.cur))
  let buf = push_hd bufs.cur frame.hd
  ok (record bufs {
    cur = put_last buf priority_speclen (λ p. pack_priority_spec p frame.pri_spec);
  })

unfoldable pub pack_rst_stream : Bufs → RstStream → Rv Bufs
unfolding push_hd put_last
pack_rst_stream bufs frame = do
  assert (head_is_cur bufs)
  assert (leb 4 (buf_avail bufs.cur))
  let buf = push_hd bufs.cur frame.hd
  ok (record bufs { cur = put_last buf 4 (λ p. put_uint32be p frame.error_code) })

unfoldable pub pack_settings_payload : List ℕ → List SettingsEntry → List ℕ
pack_settings_payload buf [] = buf
pack_settings_payload buf (e ∷ iv) =
    let buf1 = put_uint16be buf e.settings_id in
    let buf2 = at 2 (λ p. put_uint32be p e.value) buf1 in
    at 6 (λ p. pack_settings_payload p iv) buf2

unfoldable pub pack_settings : Bufs → Settings → Rv Bufs
unfolding push_hd put_last
pack_settings bufs frame = do
  assert (head_is_cur bufs)
  let buf = push_hd bufs.cur frame.hd
  let payload = λ (p : List ℕ). pack_settings_payload p frame.iv
  let done = put_last buf (settings_entry_length * length frame.iv) payload
  if ltb (buf_avail bufs.cur) frame.hd.length
      then err frame_size_error
      else ok (record bufs { cur = done })

unfoldable pub pack_ping : Bufs → Ping → Rv Bufs
unfolding push_hd put_last
pack_ping bufs frame = do
  assert (head_is_cur bufs)
  assert (leb 8 (buf_avail bufs.cur))
  let buf = push_hd bufs.cur frame.hd
  ok (record bufs { cur = put_last buf 8 (λ p. copy p frame.opaque_data) })

unfoldable pub pack_window_update : Bufs → WindowUpdate → Rv Bufs
unfolding push_hd put_last
pack_window_update bufs frame = do
  assert (head_is_cur bufs)
  assert (leb 4 (buf_avail bufs.cur))
  let buf = push_hd bufs.cur frame.hd
  ok (record bufs { cur = put_last buf 4 (λ p. put_uint32be p frame.window_size_increment) })
