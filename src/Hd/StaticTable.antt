-- ===== src/Hd/StaticTable.antt =====
-- `static_table` of lib/nghttp2_hd.c.
use newhttp.Common.{ℕ, List, [], ◌∷◌}
use newhttp.Common.Text.{codes}

-- `nghttp2_hd_entry` of the static table: a name, a value and the token of the name.
pub record StaticEntry : Type 0 where
  pub name : List ℕ
  pub value : List ℕ
  pub token : ℕ

abbrev entry : List ℕ → List ℕ → ℕ → StaticEntry
entry name value token = record { name = name; value = value; token = token }

unfoldable pub static_table : List StaticEntry
static_table =
    entry (codes ":authority") (codes "") 0
    ∷ entry (codes ":method") (codes "GET") 1
    ∷ entry (codes ":method") (codes "POST") 1
    ∷ entry (codes ":path") (codes "/") 3
    ∷ entry (codes ":path") (codes "/index.html") 3
    ∷ entry (codes ":scheme") (codes "http") 5
    ∷ entry (codes ":scheme") (codes "https") 5
    ∷ entry (codes ":status") (codes "200") 7
    ∷ entry (codes ":status") (codes "204") 7
    ∷ entry (codes ":status") (codes "206") 7
    ∷ entry (codes ":status") (codes "304") 7
    ∷ entry (codes ":status") (codes "400") 7
    ∷ entry (codes ":status") (codes "404") 7
    ∷ entry (codes ":status") (codes "500") 7
    ∷ entry (codes "accept-charset") (codes "") 14
    ∷ entry (codes "accept-encoding") (codes "gzip, deflate") 15
    ∷ entry (codes "accept-language") (codes "") 16
    ∷ entry (codes "accept-ranges") (codes "") 17
    ∷ entry (codes "accept") (codes "") 18
    ∷ entry (codes "access-control-allow-origin") (codes "") 19
    ∷ entry (codes "age") (codes "") 20
    ∷ entry (codes "allow") (codes "") 21
    ∷ entry (codes "authorization") (codes "") 22
    ∷ entry (codes "cache-control") (codes "") 23
    ∷ entry (codes "content-disposition") (codes "") 24
    ∷ entry (codes "content-encoding") (codes "") 25
    ∷ entry (codes "content-language") (codes "") 26
    ∷ entry (codes "content-length") (codes "") 27
    ∷ entry (codes "content-location") (codes "") 28
    ∷ entry (codes "content-range") (codes "") 29
    ∷ entry (codes "content-type") (codes "") 30
    ∷ entry (codes "cookie") (codes "") 31
    ∷ entry (codes "date") (codes "") 32
    ∷ entry (codes "etag") (codes "") 33
    ∷ entry (codes "expect") (codes "") 34
    ∷ entry (codes "expires") (codes "") 35
    ∷ entry (codes "from") (codes "") 36
    ∷ entry (codes "host") (codes "") 37
    ∷ entry (codes "if-match") (codes "") 38
    ∷ entry (codes "if-modified-since") (codes "") 39
    ∷ entry (codes "if-none-match") (codes "") 40
    ∷ entry (codes "if-range") (codes "") 41
    ∷ entry (codes "if-unmodified-since") (codes "") 42
    ∷ entry (codes "last-modified") (codes "") 43
    ∷ entry (codes "link") (codes "") 44
    ∷ entry (codes "location") (codes "") 45
    ∷ entry (codes "max-forwards") (codes "") 46
    ∷ entry (codes "proxy-authenticate") (codes "") 47
    ∷ entry (codes "proxy-authorization") (codes "") 48
    ∷ entry (codes "range") (codes "") 49
    ∷ entry (codes "referer") (codes "") 50
    ∷ entry (codes "refresh") (codes "") 51
    ∷ entry (codes "retry-after") (codes "") 52
    ∷ entry (codes "server") (codes "") 53
    ∷ entry (codes "set-cookie") (codes "") 54
    ∷ entry (codes "strict-transport-security") (codes "") 55
    ∷ entry (codes "transfer-encoding") (codes "") 56
    ∷ entry (codes "user-agent") (codes "") 57
    ∷ entry (codes "vary") (codes "") 58
    ∷ entry (codes "via") (codes "") 59
    ∷ entry (codes "www-authenticate") (codes "") 60
    ∷ []
