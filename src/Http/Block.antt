-- ===== src/Http/Block.antt =====
-- The loop of `inflate_header_block` in lib/nghttp2_session.c over the header fields that the
-- decompressor emits, with the handlers of lib/nghttp2_http.c. The decompressor and the callbacks
-- of the application are left out: the fields are given as a list.
pub mod Laws
pub mod Request
use newhttp.Common.{ℕ, Bool, true, false, List, [], ◌∷◌, Option, none, some}
use newhttp.Errors.{Rv, ok, err, abort, http_header, ign_http_header, temporal_callback_failure}
use newhttp.Frame.Types.{Nv}
use newhttp.Hd.Lookup.{lookup_token}
use newhttp.Http.{HttpFlag, HttpStream, M}
use newhttp.Http.OnHeader.{http_on_header}

-- A new stream, as `nghttp2_stream_init` leaves these fields.
unfoldable pub http_stream_init : ℕ → HttpStream
http_stream_init stream_id = record {
  stream_id = stream_id;
  http_flags = λ f. false;
  content_length = none;
  recv_content_length = 0;
  status_code = none;
}

-- After a field: an ignored one counts as handled, and an invalid one resets the stream. The handler
-- has no other code.
abbrev pub after_field : Rv (Unit {0}) × HttpStream → M (Unit {0}) → Rv (Unit {0}) × HttpStream
after_field (ok _, s) rest = rest s
after_field (err ign_http_header, s) rest = rest s
after_field (err http_header, s) rest = (err temporal_callback_failure, s)
after_field (err e, s) rest = (err e, s)
after_field (abort, s) rest = (abort, s)

unfoldable pub on_fields : Bool → Bool → List Nv → M (Unit {0})
on_fields request trailer [] s = (ok tt, s)
on_fields request trailer (nv ∷ fields) s =
    after_field (http_on_header request nv (lookup_token nv.name) trailer s)
      (on_fields request trailer fields)
