-- ===== src/Hd/Length/RoundTrip.antt =====
-- `decode_length` reads what `encode_length` wrote.
use newhttp.Common.{
  ℕ, zero, suc, ◌+◌, ◌-◌, ◌*◌, ◌/◌, ◌^◌, ◌≤◌, ◌<◌, ◌≡◌, refl, ◌∙◌, true, false, List, [], ◌∷◌, ◌++◌,
  arith, length, ltb, ◌==◌, ltb→lt, ltb→ge, ==_iff, drop, length-append, Bool-cases, inl, inr,
  bit_and, bit_or,
}
use native.Mathlib.Nat.{one-le-pow}
use mathlib.Core.List.{append_assoc}
use newhttp.Common.Memory.{copy, copy_lem}
use newhttp.Common.Table.{holds_below, holds_below_at}
use newhttp.Common.Bits.{low_fields, bit_or_fields}
use newhttp.Hd.Length.{
  count_loop, encode_loop, decode_loop, start_tail, count_encoded_length, encode_length,
  decode_length,
}
use newhttp.Hd.Length.Steps.{finished, finished_eq, length-encode_loop, encode_loop-decode_loop}

-- The high bits of a byte, for every prefix.
high_bits_table :
    holds_below
      (λ p. holds_below (λ b. bit_and b (2 ^ 64 - 1 - (2 ^ p - 1)) == b / 2 ^ p * 2 ^ p) 256)
      9
    ≡ true
unfolding holds_below
high_bits_table = refl

high_bits : (b p : ℕ) → b < 256 → p < 9 → bit_and b (2 ^ 64 - 1 - (2 ^ p - 1)) ≡ b / 2 ^ p * 2 ^ p
high_bits b p byte low =
    (==_iff _ _).0 (holds_below_at _ 256 b byte (holds_below_at _ 9 p low high_bits_table))

-- The first byte: its high bits stay, and the prefix holds `v`.
first_byte :
    (b v prefix : ℕ)
    → b < 256
    → prefix ≤ 8
    → v ≤ 2 ^ prefix - 1
    → bit_and (bit_or (bit_and b (2 ^ 64 - 1 - (2 ^ prefix - 1))) v) (2 ^ prefix - 1) ≡ v
first_byte b v prefix byte p h =
    let positive = one-le-pow prefix 2 (omega arith) in
    let below : v < 2 ^ prefix = omega arith in
    rw (high_bits b prefix byte (omega arith), bit_or_fields prefix (b / 2 ^ prefix) v below)
      (low_fields prefix (b / 2 ^ prefix) v below)

count_loop-encode_loop :
    (fuel n len : ℕ) → count_loop fuel n len + 1 ≡ len + length (encode_loop fuel n)
unfolding count_loop encode_loop
count_loop-encode_loop zero n len = refl
count_loop-encode_loop (suc fuel) n len =
    ground (arith, count_loop-encode_loop fuel (n / 128) (len + 1))

-- The count that the encoder makes room for is the number of bytes that it writes.
pub count_encoded_length-encode_length :
    (buf : List ℕ) (n prefix : ℕ) → count_encoded_length n prefix ≡ (encode_length buf n prefix).1
unfolding count_encoded_length encode_length
count_encoded_length-encode_length buf n prefix =
    let k = 2 ^ prefix - 1 in
    elim (Bool-cases (ltb n k)) [
      | inl y ↦ rw y refl
      | inr z ↦ rw z (count_loop-encode_loop (n - k) (n - k) 1)
    ]

start_tail-decode_loop :
    (shift k b : ℕ) (bytes : List ℕ)
    → 1 ≤ length bytes
    → start_tail shift k (b ∷ bytes) ≡ decode_loop shift k 1 bytes
unfolding start_tail
start_tail-decode_loop shift k b [] h = absurd (omega arith)
start_tail-decode_loop shift k b (c ∷ bytes) h = refl

-- A number that does not fit the prefix.
long_form :
    (b k n : ℕ) (buf rest : List ℕ)
    → k ≤ n
    → n < 2 ^ 32
    → 1 + length (encode_loop (n - k) (n - k)) ≤ length (b ∷ buf)
    → start_tail 0 k (b ∷ (copy buf (encode_loop (n - k) (n - k)) ++ rest))
      ≡ finished n
          (7 * (length (encode_loop (n - k) (n - k)) - 1))
          (1 + length (encode_loop (n - k) (n - k)))
long_form b k n buf rest le fits room =
    let m = n - k in
    let tail = encode_loop m m in
    let some = length-encode_loop m m in
    let after = drop (length tail) buf ++ rest in
    rw (copy_lem buf tail (omega arith), append_assoc tail (drop (length tail) buf) rest)
      (start_tail-decode_loop 0 k b (tail ++ after) (omega (arith, length-append tail after))
        ∙ encode_loop-decode_loop m m 0 k 1 after (omega arith) (omega arith) (omega arith)
        ∙ finished_eq (omega arith) (omega arith) refl)

-- What `encode_length` writes with a prefix of at most 8 bits, for a number below 2^32 and into a
-- memory that has room for it, is read back by `decode_length`, whatever follows: the same number,
-- whole, and exactly the bytes that were written.
pub encode_length-decode_length :
    (b : ℕ) (buf rest : List ℕ) (n prefix : ℕ)
    → b < 256
    → prefix ≤ 8
    → n < 2 ^ 32
    → count_encoded_length n prefix ≤ length (b ∷ buf)
    → (shift : ℕ) × (decode_length 0 0 ((encode_length (b ∷ buf) n prefix).0 ++ rest) prefix
        ≡ finished n shift (encode_length (b ∷ buf) n prefix).1)
unfolding encode_length decode_length
encode_length-decode_length b buf rest n prefix byte high fits room =
    let k = 2 ^ prefix - 1 in
    let tail = encode_loop (n - k) (n - k) in
    elim (Bool-cases (ltb n k)) [
      | inl y ↦
          let less = ltb→lt n k y in
          let other : (n == k) ≡ false = ground arith in
          (0, rw (y, first_byte b n prefix byte high (omega arith), other) refl)
      | inr z ↦
          let same : (k == k) ≡ true = (==_iff k k).1 refl in
          let count = rw z at (count_encoded_length-encode_length (b ∷ buf) n prefix) in
          (
            7 * (length tail - 1),
            rw (z, first_byte b k prefix byte high (omega arith), same)
                (long_form (bit_or (bit_and b (2 ^ 64 - 1 - k)) k) k n buf rest (ltb→ge n k z) fits
                  (omega (arith, count))),
          )
    ]
