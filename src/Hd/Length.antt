-- ===== src/Hd/Length.antt =====
-- The integer representation of HPACK in lib/nghttp2_hd.c (RFC 7541, section 5.1).

pub mod Bounds
pub mod Steps
pub mod RoundTrip
pub mod Pieces
use newhttp.Common.{
  ℕ, zero, suc, ◌+◌, ◌-◌, ◌*◌, ◌/◌, ◌%◌, ◌^◌, Bool, true, false, not, List, [], ◌∷◌, length, ltb,
  leb, ◌==◌, if◌then◌else◌, bit_and, bit_or, get_or, set,
}
use newhttp.Common.Memory.{at, copy}

-- The loops on `n`, which at least halves: `fuel` bounds the steps, and `n` itself is enough.
unfoldable pub count_loop : ℕ → ℕ → ℕ → ℕ
count_loop zero n len = len
count_loop (suc fuel) n len =
    let rest = count_loop fuel (n / 128) (len + 1) in if leb 128 n then rest else len

unfoldable pub count_encoded_length : ℕ → ℕ → ℕ
unfolding count_loop
count_encoded_length n prefix =
    let k = 2 ^ prefix - 1 in if ltb n k then 1 else count_loop (n - k) (n - k) 1 + 1

-- The bytes behind the first one.
unfoldable pub encode_loop : ℕ → ℕ → List ℕ
encode_loop zero n = (n % 256) ∷ []
encode_loop (suc fuel) n =
    let rest = encode_loop fuel (n / 128) in
    if leb 128 n then bit_or (2 ^ 7) (bit_and n 0x7f) ∷ rest else (n % 256) ∷ []

-- What is in the memory at `buf` afterwards, and how many bytes were written.
unfoldable pub encode_length : List ℕ → ℕ → ℕ → List ℕ × ℕ
encode_length buf n prefix =
    let k = 2 ^ prefix - 1 in
    let cleared = bit_and (get_or buf 0 0) (2 ^ 64 - 1 - k) in
    let tail = encode_loop (n - k) (n - k) in
    if ltb n k
    then (set buf 0 (bit_or cleared n), 1)
    else (at 1 (λ p. copy p tail) (set buf 0 (bit_or cleared k)), 1 + length tail)

abbrev pub uint32_max : ℕ
uint32_max = 2 ^ 32 - 1

-- What the decoder stores: `*res`, `*shift_ptr`, `*final`, and the bytes processed.
pub record Decoded : Type 0 where
  pub res : ℕ
  pub shift : ℕ
  pub final : Bool
  pub processed : ℕ

-- `failed` is -1. C does not define a shift of a `uint32_t` by 32 or more, which is `undefined`.
pub data Decoding : Type 0 where
  decoded : Decoded → Decoding
  failed : Decoding
  undefined : Decoding

-- `n` is the number so far, and `count` bytes were processed.
unfoldable pub decode_loop : ℕ → ℕ → ℕ → List ℕ → Decoding
decode_loop shift n count [] =
    decoded (record { res = n; shift = shift; final = false; processed = count })
decode_loop shift n count (b ∷ bytes) =
    let bits = bit_and b 0x7f in
    let add = bits * 2 ^ shift % 2 ^ 32 in
    let rest = decode_loop (shift + 7) (n + add) (count + 1) bytes in
    if leb 32 shift
    then undefined
    else if ltb (uint32_max / 2 ^ shift) bits
    then failed
    else if ltb (uint32_max - add) n
    then failed
    else if bit_and b (2 ^ 7) == 0
    then decoded (record { res = n + add; shift = shift; final = true; processed = count + 1 })
    else rest

-- Behind a first byte that is full: the end of the input leaves `*shift_ptr` at 0.
start_tail : ℕ → ℕ → List ℕ → Decoding
unfolding decode_loop
start_tail shift k [] = decoded (record { res = k; shift = 0; final = false; processed = 1 })
start_tail shift k (b ∷ []) = decoded (record { res = k; shift = 0; final = false; processed = 1 })
start_tail shift k (b ∷ c ∷ bytes) = decode_loop shift k 1 (c ∷ bytes)

-- `bytes` are those from `in` to `last`, and there is one at least.
unfoldable pub decode_length : ℕ → ℕ → List ℕ → ℕ → Decoding
unfolding decode_loop start_tail
decode_length initial shift bytes prefix =
    let k = 2 ^ prefix - 1 in
    let first = bit_and (get_or bytes 0 0) k in
    if initial == 0
    then if not (first == k)
      then decoded (record { res = first; shift = 0; final = true; processed = 1 })
      else start_tail shift k bytes
    else decode_loop shift initial 0 bytes
