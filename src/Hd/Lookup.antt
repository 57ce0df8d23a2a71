-- ===== src/Hd/Lookup.antt =====
-- `lookup_token` of lib/nghttp2_hd.c. The nested `switch` on the length, on the last byte, and the
-- tests of what stands in front of it, are tables, in the order of the source.
pub mod Laws
use newhttp.Common.{
  ℕ, zero, suc, ◌-◌, Bool, true, false, ◌&&◌, List, [], ◌∷◌, Option, none, some, length, take,
  get_or, ◌==◌, if◌then◌else◌,
}
use newhttp.Common.Text.{codes, bytes_eq}
use newhttp.Hd.Token

-- `lstreq(a, b, n)`: `a` has `n` bytes, and they are the first of `b`.
unfoldable pub lstreq : List ℕ → List ℕ → ℕ → Bool
lstreq a b n = length a == n && bytes_eq a (take n b)

-- One test of a case: the literal, and the token that is returned.
pub record Test : Type 0 where
  pub literal : List ℕ
  pub token : ℕ

-- `case c:` of a switch on the last byte.
pub record ByteCase : Type 0 where
  pub byte : ℕ
  pub tests : List Test

-- `case n:` of the switch on the length.
pub record LengthCase : Type 0 where
  pub size : ℕ
  pub cases : List ByteCase

abbrev test : List ℕ → ℕ → Test
test literal token = record { literal = literal; token = token }

abbrev on_byte : ℕ → List Test → ByteCase
on_byte byte tests = record { byte = byte; tests = tests }

abbrev on_length : ℕ → List ByteCase → LengthCase
on_length size cases = record { size = size; cases = cases }

run_tests : List ℕ → ℕ → List Test → Option ℕ
run_tests name n [] = none
run_tests name n (t ∷ ts) = if lstreq t.literal name n then some t.token else run_tests name n ts

run_bytes : List ℕ → ℕ → List ByteCase → Option ℕ
run_bytes name n [] = none
run_bytes name n (c ∷ cs) =
    if get_or name n 0 == c.byte then run_tests name n c.tests else run_bytes name n cs

run_lengths : List ℕ → List LengthCase → Option ℕ
run_lengths name [] = none
run_lengths name (c ∷ cs) =
    if length name == c.size then run_bytes name (c.size - 1) c.cases else run_lengths name cs

unfoldable pub length_2 : LengthCase
length_2 = on_length 2 (on_byte b'e' (test (codes "t") Token.te ∷ []) ∷ [])

unfoldable pub length_3 : LengthCase
length_3 = on_length 3 (
    on_byte b'a' (test (codes "vi") Token.via ∷ [])
    ∷ on_byte b'e' (test (codes "ag") Token.age ∷ [])
    ∷ [])

unfoldable pub length_4 : LengthCase
length_4 = on_length 4 (
    on_byte b'e' (test (codes "dat") Token.date ∷ [])
    ∷ on_byte b'g' (test (codes "eta") Token.etag ∷ [])
    ∷ on_byte b'k' (test (codes "lin") Token.link ∷ [])
    ∷ on_byte b'm' (test (codes "fro") Token.from ∷ [])
    ∷ on_byte b't' (test (codes "hos") Token.host ∷ [])
    ∷ on_byte b'y' (test (codes "var") Token.vary ∷ [])
    ∷ [])

unfoldable pub length_5 : LengthCase
length_5 = on_length 5 (
    on_byte b'e' (test (codes "rang") Token.range ∷ [])
    ∷ on_byte b'h'
        (test (codes ":pat") Token.pseudo_path ∷ test (codes ":pat") Token.pseudo_path ∷ [])
    ∷ on_byte b'w' (test (codes "allo") Token.allow ∷ [])
    ∷ [])

unfoldable pub length_6 : LengthCase
length_6 = on_length 6 (
    on_byte b'e' (test (codes "cooki") Token.cookie ∷ [])
    ∷ on_byte b'r' (test (codes "serve") Token.server ∷ [])
    ∷ on_byte b't' (test (codes "accep") Token.accept ∷ test (codes "expec") Token.expect ∷ [])
    ∷ [])

unfoldable pub length_7 : LengthCase
length_7 = on_length 7 (
    on_byte b'd'
      (test (codes ":metho") Token.pseudo_method ∷ test (codes ":metho") Token.pseudo_method ∷ [])
    ∷ on_byte b'e' (
        test (codes ":schem") Token.pseudo_scheme
        ∷ test (codes ":schem") Token.pseudo_scheme
        ∷ test (codes "upgrad") Token.upgrade
        ∷ [])
    ∷ on_byte b'h' (test (codes "refres") Token.refresh ∷ [])
    ∷ on_byte b'r' (test (codes "refere") Token.referer ∷ [])
    ∷ on_byte b's' (
        test (codes ":statu") Token.pseudo_status
        ∷ test (codes ":statu") Token.pseudo_status
        ∷ test (codes ":statu") Token.pseudo_status
        ∷ test (codes ":statu") Token.pseudo_status
        ∷ test (codes ":statu") Token.pseudo_status
        ∷ test (codes ":statu") Token.pseudo_status
        ∷ test (codes ":statu") Token.pseudo_status
        ∷ test (codes "expire") Token.expires
        ∷ [])
    ∷ [])

unfoldable pub length_8 : LengthCase
length_8 = on_length 8 (
    on_byte b'e' (test (codes "if-rang") Token.if_range ∷ [])
    ∷ on_byte b'h' (test (codes "if-matc") Token.if_match ∷ [])
    ∷ on_byte b'n' (test (codes "locatio") Token.location ∷ [])
    ∷ [])

unfoldable pub length_10 : LengthCase
length_10 = on_length 10 (
    on_byte b'e'
      (test (codes "keep-aliv") Token.keep_alive ∷ test (codes "set-cooki") Token.set_cookie ∷ [])
    ∷ on_byte b'n' (test (codes "connectio") Token.connection ∷ [])
    ∷ on_byte b't' (test (codes "user-agen") Token.user_agent ∷ [])
    ∷ on_byte b'y' (test (codes ":authorit") Token.pseudo_authority ∷ [])
    ∷ [])

unfoldable pub length_11 : LengthCase
length_11 = on_length 11 (on_byte b'r' (test (codes "retry-afte") Token.retry_after ∷ []) ∷ [])

unfoldable pub length_12 : LengthCase
length_12 = on_length 12 (
    on_byte b'e' (test (codes "content-typ") Token.content_type ∷ [])
    ∷ on_byte b's' (test (codes "max-forward") Token.max_forwards ∷ [])
    ∷ [])

unfoldable pub length_13 : LengthCase
length_13 = on_length 13 (
    on_byte b'd' (test (codes "last-modifie") Token.last_modified ∷ [])
    ∷ on_byte b'e' (test (codes "content-rang") Token.content_range ∷ [])
    ∷ on_byte b'h' (test (codes "if-none-matc") Token.if_none_match ∷ [])
    ∷ on_byte b'l' (test (codes "cache-contro") Token.cache_control ∷ [])
    ∷ on_byte b'n' (test (codes "authorizatio") Token.authorization ∷ [])
    ∷ on_byte b's' (test (codes "accept-range") Token.accept_ranges ∷ [])
    ∷ [])

unfoldable pub length_14 : LengthCase
length_14 = on_length 14 (
    on_byte b'h' (test (codes "content-lengt") Token.content_length ∷ [])
    ∷ on_byte b't' (test (codes "accept-charse") Token.accept_charset ∷ [])
    ∷ [])

unfoldable pub length_15 : LengthCase
length_15 = on_length 15 (
    on_byte b'e' (test (codes "accept-languag") Token.accept_language ∷ [])
    ∷ on_byte b'g' (test (codes "accept-encodin") Token.accept_encoding ∷ [])
    ∷ [])

unfoldable pub length_16 : LengthCase
length_16 = on_length 16 (
    on_byte b'e' (
      test (codes "content-languag") Token.content_language
      ∷ test (codes "www-authenticat") Token.www_authenticate
      ∷ [])
    ∷ on_byte b'g' (test (codes "content-encodin") Token.content_encoding ∷ [])
    ∷ on_byte b'n' (
        test (codes "content-locatio") Token.content_location
        ∷ test (codes "proxy-connectio") Token.proxy_connection
        ∷ [])
    ∷ [])

unfoldable pub length_17 : LengthCase
length_17 = on_length 17 (
    on_byte b'e' (test (codes "if-modified-sinc") Token.if_modified_since ∷ [])
    ∷ on_byte b'g' (test (codes "transfer-encodin") Token.transfer_encoding ∷ [])
    ∷ [])

unfoldable pub length_18 : LengthCase
length_18 =
    on_length 18
      (on_byte b'e' (test (codes "proxy-authenticat") Token.proxy_authenticate ∷ []) ∷ [])

unfoldable pub length_19 : LengthCase
length_19 = on_length 19 (
    on_byte b'e' (test (codes "if-unmodified-sinc") Token.if_unmodified_since ∷ [])
    ∷ on_byte b'n' (
        test (codes "content-dispositio") Token.content_disposition
        ∷ test (codes "proxy-authorizatio") Token.proxy_authorization
        ∷ [])
    ∷ [])

unfoldable pub length_25 : LengthCase
length_25 = on_length 25 (
    on_byte b'y' (test (codes "strict-transport-securit") Token.strict_transport_security ∷ [])
    ∷ [])

unfoldable pub length_27 : LengthCase
length_27 = on_length 27 (
    on_byte b'n' (test (codes "access-control-allow-origi") Token.access_control_allow_origin ∷ [])
    ∷ [])

unfoldable pub switch_table : List LengthCase
unfolding length_2 length_3 length_4 length_5 length_6 length_7 length_8 length_10 length_11
    length_12 length_13 length_14 length_15 length_16 length_17 length_18 length_19 length_25
    length_27
switch_table =
    length_2 ∷ length_3 ∷ length_4 ∷ length_5 ∷ length_6 ∷ length_7 ∷ length_8 ∷ length_10
    ∷ length_11 ∷ length_12 ∷ length_13 ∷ length_14 ∷ length_15 ∷ length_16 ∷ length_17 ∷ length_18
    ∷ length_19 ∷ length_25 ∷ length_27 ∷ []

-- The token of a name, or -1, which is `none`.
unfoldable pub lookup_token : List ℕ → Option ℕ
unfolding lstreq run_tests run_bytes run_lengths switch_table
lookup_token name = run_lengths name switch_table
