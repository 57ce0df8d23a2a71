-- ===== src/Frame/Unpack.antt =====
-- lib/nghttp2_frame.c: the functions that read payloads. `served` says whether the allocator gives
-- the memory that a call asks for.
use newhttp.Common.{
  ℕ, zero, suc, ◌+◌, ◌-◌, ◌/◌, ◌^◌, Bool, List, [], ◌∷◌, ltb, ◌==◌, if◌then◌else◌, bit_and, get_or,
  take, drop,
}
use newhttp.Errors.{Rv, ok, err, nomem}
use newhttp.Helper.{get_uint16, get_uint32}
use newhttp.Frame.{stream_id_mask}
use newhttp.Frame.Flag
use newhttp.Frame.Types.{
  PrioritySpec, Headers, Priority, RstStream, SettingsEntry, Settings, PushPromise, Ping, Goaway,
  WindowUpdate, priority_spec_init, priority_spec_default_init, settings_entry_length,
}

abbrev window_size_increment_mask : ℕ
window_size_increment_mask = 2 ^ 31 - 1

unfoldable pub unpack_priority_spec : List ℕ → PrioritySpec
unfolding priority_spec_init
unpack_priority_spec payload =
    let dep_stream_id = bit_and (get_uint32 payload) stream_id_mask in
    let exclusive = ltb 0 (bit_and (get_or payload 0 0) 0x80) in
    let weight = get_or payload 4 0 + 1 in priority_spec_init dep_stream_id weight exclusive

unfoldable pub unpack_headers_payload : Headers → List ℕ → Headers
unfolding priority_spec_default_init
unpack_headers_payload frame payload =
    let spec =
      if bit_and frame.hd.flags Flag.priority == 0
      then priority_spec_default_init
      else unpack_priority_spec payload in
    record frame { pri_spec = spec; nva = [] }

unfoldable pub unpack_priority_payload : Priority → List ℕ → Priority
unpack_priority_payload frame payload = record frame { pri_spec = unpack_priority_spec payload }

unfoldable pub unpack_rst_stream_payload : RstStream → List ℕ → RstStream
unpack_rst_stream_payload frame payload = record frame { error_code = get_uint32 payload }

unfoldable pub unpack_settings_payload : Bool → Settings → List SettingsEntry → Rv Settings
unpack_settings_payload served frame [] = ok (record frame { iv = [] })
unpack_settings_payload served frame (e ∷ iv) =
    if served then ok (record frame { iv = e ∷ iv }) else err nomem

unfoldable pub unpack_settings_entry : List ℕ → SettingsEntry
unpack_settings_entry payload = record {
  settings_id = get_uint16 payload;
  value = get_uint32 (drop 2 payload);
}

-- `n` entries from the pointer on.
unfoldable pub unpack_entries : ℕ → List ℕ → List SettingsEntry
unpack_entries zero payload = []
unpack_entries (suc n) payload = unpack_settings_entry payload ∷ unpack_entries n (drop 6 payload)

unfoldable pub unpack_settings_payload2 : Bool → List ℕ → ℕ → Rv (List SettingsEntry)
unpack_settings_payload2 served payload payloadlen =
    let niv = payloadlen / settings_entry_length in
    if niv == 0 then ok [] else if served then ok (unpack_entries niv payload) else err nomem

unfoldable pub unpack_push_promise_payload : PushPromise → List ℕ → PushPromise
unpack_push_promise_payload frame payload = record frame {
  nva = [];
  promised_stream_id = bit_and (get_uint32 payload) stream_id_mask;
}

unfoldable pub unpack_ping_payload : Ping → List ℕ → Ping
unpack_ping_payload frame payload = record frame { opaque_data = take 8 payload }

unfoldable pub unpack_goaway_payload : Goaway → List ℕ → List ℕ → Goaway
unpack_goaway_payload frame payload var_gift_payload = record frame {
  last_stream_id = bit_and (get_uint32 payload) stream_id_mask;
  error_code = get_uint32 (drop 4 payload);
  opaque_data = var_gift_payload;
}

unfoldable pub unpack_goaway_payload2 : Bool → Goaway → List ℕ → ℕ → Rv Goaway
unfolding unpack_goaway_payload
unpack_goaway_payload2 served frame payload payloadlen =
    let giftlen = if ltb 8 payloadlen then payloadlen - 8 else 0 in
    if giftlen == 0
    then ok (unpack_goaway_payload frame payload [])
    else if served
    then ok (unpack_goaway_payload frame payload (take giftlen (drop 8 payload)))
    else err nomem

unfoldable pub unpack_window_update_payload : WindowUpdate → List ℕ → WindowUpdate
unpack_window_update_payload frame payload = record frame {
  window_size_increment = bit_and (get_uint32 payload) window_size_increment_mask;
}
