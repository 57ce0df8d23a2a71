-- ===== src/Helper.antt =====
-- lib/nghttp2_helper.c: integers in network byte order. `htonl` and `memcpy` together store the
-- most significant byte first.
mod Tests
pub mod Bytes
pub mod Charset
pub mod Window
use newhttp.Common.{ℕ, ◌+◌, ◌*◌, ◌/◌, ◌%◌, ◌^◌, List, [], ◌∷◌, get_or}
use newhttp.Common.Memory.{copy}

abbrev pub be16 : ℕ → List ℕ
be16 n = (n / 256 % 256) ∷ (n % 256) ∷ []

abbrev pub be32 : ℕ → List ℕ
be32 n = (n / 2 ^ 24 % 256) ∷ (n / 2 ^ 16 % 256) ∷ (n / 256 % 256) ∷ (n % 256) ∷ []

unfoldable pub put_uint16be : List ℕ → ℕ → List ℕ
put_uint16be buf n = copy buf (be16 n)

unfoldable pub put_uint32be : List ℕ → ℕ → List ℕ
put_uint32be buf n = copy buf (be32 n)

-- A read past the end of the allocation, which the callers exclude, is 0 here.
unfoldable pub get_uint16 : List ℕ → ℕ
get_uint16 buf = get_or buf 0 0 * 256 + get_or buf 1 0

unfoldable pub get_uint32 : List ℕ → ℕ
get_uint32 buf =
    get_or buf 0 0 * 2 ^ 24 + get_or buf 1 0 * 2 ^ 16 + get_or buf 2 0 * 256 + get_or buf 3 0
