-- ===== src/Http/Block/Request.antt =====
-- What an accepted header block of a request looks like.
use newhttp.Common.{ℕ, ◌+◌, ◌≤◌, ◌<◌, ◌≡◌, refl, true, false, List, [], ◌∷◌, arith, ◌⊎◌}
use newhttp.Errors.{Rv, ok, err, abort, ign_http_header}
use newhttp.Frame.Types.{Nv}
use newhttp.Hd.Lookup.{lookup_token}
use newhttp.Http.{HttpFlag, HttpStream, M, flag_bit}
use newhttp.Http.OnHeader.{http_on_header}
use newhttp.Http.OnHeader.Ignored.{http_on_header-Accepted, http_on_header-ignored}
use newhttp.Http.Message.{http_on_request_headers}
use newhttp.Http.Block.{http_stream_init, after_field, on_fields}
use newhttp.Http.Block.Laws.{count, PseudoFirst, b2n, FieldStep, Accepted-step, ignored_step}

-- What a block does that ends without an error.
record BlockStep (fields : List Nv) (s s' : HttpStream) : Type 0 where
  counted :
      (f : HttpFlag)
      → flag_bit f < 4
      → b2n (s'.http_flags f) ≡ b2n (s.http_flags f) + count f fields
  host :
      s'.http_flags HttpFlag.host ≡ true
      → (s.http_flags HttpFlag.host ≡ true) ⊎ (1 ≤ count HttpFlag.host fields)
  ordered : PseudoFirst (s.http_flags HttpFlag.pseudo_header_disallowed) fields

-- The first field of a block that ends without an error.
first_field :
    (nv : Nv) (s : HttpStream) (r : Rv (Unit {0}) × HttpStream) (rest : M (Unit {0}))
    (s' : HttpStream)
    → http_on_header true nv (lookup_token nv.name) false s ≡ r
    → after_field r rest ≡ (ok tt, s')
    → (s1 : HttpStream) × FieldStep nv s s1 × (rest s1 ≡ (ok tt, s'))
first_field nv s (ok a, s1) rest s' h e =
    (s1, Accepted-step nv s s1 (http_on_header-Accepted nv _ false s s1 h).2, e)
first_field nv s (abort, s1) rest s' h e = ground arith
first_field nv s (err ign_http_header, s1) rest s' h e =
    let i = http_on_header-ignored nv _ false s s1 h in (s1, ignored_step nv s s1 i.0 i.1, e)
first_field nv s (err x, s1) rest s' h e = ground arith

-- Both parts of a block together.
join_steps :
    (nv : Nv) (fields : List Nv) (s s1 s' : HttpStream)
    → FieldStep nv s s1
    → BlockStep fields s1 s'
    → BlockStep (nv ∷ fields) s s'
join_steps nv fields s s1 s' step block = record {
  counted = λ f h. omega (arith, step.counted f h, block.counted f h);
  host = λ h. ground (arith, block.host h, step.host);
  ordered = (step.early, rw (← step.closed) block.ordered);
}

on_fields_step :
    (fields : List Nv) (s s' : HttpStream)
    → on_fields true false fields s ≡ (ok tt, s')
    → BlockStep fields s s'
unfolding on_fields
on_fields_step [] s s' h = record {
  counted = λ f k. ground arith;
  host = λ k. ground arith;
  ordered = tt;
}
on_fields_step (nv ∷ fields) s s' h =
    let (s1, step, rest) = first_field nv s _ (on_fields true false fields) s' refl h in
    join_steps nv fields s s1 s' step (on_fields_step fields s1 s' rest)

-- A request header block that is accepted from its first field to the check at its end, and is no
-- CONNECT request, has `:method`, `:scheme` and `:path` exactly once each, `:authority` at most
-- once, `:authority` or `host` at least once, and no pseudo header field behind a regular one.
pub on_fields_request :
    (stream_id type : ℕ) (fields : List Nv) (s s' : HttpStream)
    → on_fields true false fields (http_stream_init stream_id) ≡ (ok tt, s)
    → s.http_flags HttpFlag.meth_connect ≡ false
    → http_on_request_headers type s ≡ (true, s')
    → (count HttpFlag.method fields ≡ 1)
      × (count HttpFlag.scheme fields ≡ 1)
      × (count HttpFlag.path fields ≡ 1)
      × (count HttpFlag.authority fields ≤ 1)
      × (1 ≤ count HttpFlag.authority fields + count HttpFlag.host fields)
      × PseudoFirst false fields
unfolding http_stream_init http_on_request_headers
on_fields_request stream_id type fields s s' h connect e =
    let b = on_fields_step fields (http_stream_init stream_id) s h in
    let method = b.counted HttpFlag.method (omega arith) in
    let scheme = b.counted HttpFlag.scheme (omega arith) in
    let path = b.counted HttpFlag.path (omega arith) in
    let authority = b.counted HttpFlag.authority (omega arith) in
    (ground arith, ground arith, ground arith, ground arith, ground (arith, b.host), b.ordered)
