-- ===== src/Helper/Bytes.antt =====
-- Laws of the network byte order helpers of lib/nghttp2_helper.c.
use newhttp.Common.{ℕ, ◌^◌, ◌≤◌, ◌<◌, ◌≡◌, List, ◌++◌, arith, length, drop}
use newhttp.Common.Memory.{copy_lem}
use newhttp.Helper.{be16, be32, put_uint16be, put_uint32be, get_uint16, get_uint32}

pub put_uint16be_lem :
    (buf : List ℕ) (n : ℕ) → 2 ≤ length buf → put_uint16be buf n ≡ be16 n ++ drop 2 buf
unfolding put_uint16be
put_uint16be_lem buf n h = copy_lem buf (be16 n) h

pub put_uint32be_lem :
    (buf : List ℕ) (n : ℕ) → 4 ≤ length buf → put_uint32be buf n ≡ be32 n ++ drop 4 buf
unfolding put_uint32be
put_uint32be_lem buf n h = copy_lem buf (be32 n) h

pub get_uint16-be16 : (n : ℕ) (rest : List ℕ) → n < 2 ^ 16 → get_uint16 (be16 n ++ rest) ≡ n
unfolding get_uint16
get_uint16-be16 n rest h = omega arith

pub get_uint32-be32 : (n : ℕ) (rest : List ℕ) → n < 2 ^ 32 → get_uint32 (be32 n ++ rest) ≡ n
unfolding get_uint32
get_uint32-be32 n rest h = omega arith
