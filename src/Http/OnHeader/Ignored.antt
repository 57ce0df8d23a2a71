-- ===== src/Http/OnHeader/Ignored.antt =====
-- Header fields that are dropped rather than refused.
use newhttp.Common.{
  ℕ, Bool, true, false, List, [], ◌∷◌, Option, ◌≡◌, arith, ◌==◌, get_or, length, ltb, ◌≢◌,
}
use newhttp.Errors.{Rv, ok, err, abort, ign_http_header}
use newhttp.Frame.Types.{Nv}
use newhttp.Helper.Charset.{check_header_name, check_header_value}
use newhttp.Http.{HttpFlag, HttpStream, bind, set_flag}
use newhttp.Http.OnHeader.{
  is_pseudo, check_position, close_pseudo, request_case, http_request_on_header, http_on_header,
}
use newhttp.Http.OnHeader.Rules.{RequestRules}
use newhttp.Http.OnHeader.Laws.{Accepted, marks, http_request_on_header-Accepted}

module _ (nv : Nv) (t : Option ℕ) (s s' : HttpStream) where
  request_case-ne-ign : request_case nv t s ≢ (err ign_http_header, s')
  unfolding request_case
  request_case-ne-ign h = ground arith

  check_position-ne-ign : (trailer : Bool) → check_position nv trailer s ≢ (err ign_http_header, s')
  unfolding check_position
  check_position-ne-ign trailer h = ground arith

bind-ne-ign :
    (m : Rv (Unit {0}) × HttpStream) (f : Unit {0} → HttpStream → Rv (Unit {0}) × HttpStream)
    → ((s : HttpStream) → m ≢ (err ign_http_header, s))
    → ((s s' : HttpStream) → f tt s ≢ (err ign_http_header, s'))
    → (s' : HttpStream) → bind m f ≢ (err ign_http_header, s')
bind-ne-ign (ok a, s) f h k s' e = k s s' e
bind-ne-ign (err x, s) f h k s' e = h s' e
bind-ne-ign (abort, s) f h k s' e = h s' e

http_request_on_header-ne-ign :
    (nv : Nv) (t : Option ℕ) (trailer : Bool) (s s' : HttpStream)
    → http_request_on_header nv t trailer s ≢ (err ign_http_header, s')
unfolding http_request_on_header close_pseudo
http_request_on_header-ne-ign nv t trailer s s' =
    bind-ne-ign (check_position nv trailer s) _ (λ s1. check_position-ne-ign nv t s s1 trailer)
      (λ s1 s2.
        bind-ne-ign (request_case nv t s1) _ (λ s3. request_case-ne-ign nv t s1 s3)
          (λ s3 s4 e. ground arith) s2)
      s'

colon-nonempty : (name : List ℕ) → (get_or name 0 0 == b':') ≡ true → ltb 0 (length name) ≡ true
colon-nonempty [] h = cc
colon-nonempty (c ∷ name) h = ground arith

-- A request field that is ignored is a regular field, and all that it leaves is that no pseudo
-- header field may follow.
pub http_on_header-ignored :
    (nv : Nv) (t : Option ℕ) (trailer : Bool) (s s' : HttpStream)
    → http_on_header true nv t trailer s ≡ (err ign_http_header, s')
    → (is_pseudo nv ≡ false) × (s' ≡ set_flag HttpFlag.pseudo_header_disallowed s)
unfolding http_on_header
http_on_header-ignored nv t trailer s s' h =
    ground (arith, colon-nonempty nv.name, http_request_on_header-ne-ign nv t trailer s s')

pub http_on_header-Accepted :
    (nv : Nv) (t : Option ℕ) (trailer : Bool) (s s' : HttpStream)
    → http_on_header true nv t trailer s ≡ (ok tt, s')
    → (check_header_name nv.name ≡ true)
      × (check_header_value nv.value ≡ true)
      × Accepted marks nv t trailer s s'
      × RequestRules nv t s s'
unfolding http_on_header
http_on_header-Accepted nv t trailer s s' h =
    let (accepted, rules) = http_request_on_header-Accepted nv t trailer s s' (ground arith) in
    (ground arith, ground arith, accepted, rules)
