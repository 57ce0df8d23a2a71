-- ===== src/Hd/Length/Bounds.antt =====
-- The numbers that `decode_length` answers.
use newhttp.Common.{
  ℕ, ◌+◌, ◌-◌, ◌*◌, ◌%◌, ◌^◌, ◌≤◌, ◌<◌, ◌≡◌, List, [], ◌∷◌, arith, length, get_or, bit_and,
  Bool-cases, inl, inr, ◌==◌, true,
}
use newhttp.Common.Bits.{bit_and_mask}
use native.Mathlib.Nat.{pow-le-pow_right, one-le-pow}
use newhttp.Hd.Length.{Decoded, decoded, decode_loop, start_tail, decode_length}

decode_loop-bound :
    (bytes : List ℕ) (shift n count : ℕ) (d : Decoded)
    → n < 2 ^ 32
    → decode_loop shift n count bytes ≡ decoded d
    → (d.res < 2 ^ 32) × (d.processed ≤ count + length bytes)
unfolding decode_loop
decode_loop-bound [] shift n count d h e = ground arith
decode_loop-bound (b ∷ bytes) shift n count d h e = ground (
  arith,
  decode_loop-bound bytes (shift + 7) (n + bit_and b 0x7f * 2 ^ shift % 2 ^ 32) (count + 1) d,
)

start_tail-bound :
    (bytes : List ℕ) (shift n : ℕ) (d : Decoded)
    → n < 2 ^ 32
    → 1 ≤ length bytes
    → start_tail shift n bytes ≡ decoded d
    → (d.res < 2 ^ 32) × (d.processed ≤ length bytes)
unfolding start_tail
start_tail-bound [] shift n d h l e = absurd (omega arith)
start_tail-bound (b ∷ []) shift n d h l e = ground arith
start_tail-bound (b ∷ c ∷ bytes) shift n d h l e =
    let b = decode_loop-bound (c ∷ bytes) shift n 1 d h e in (b.0, omega (arith, b.1))

short-bound :
    (n len : ℕ) (d : Decoded)
    → n < 2 ^ 32
    → 1 ≤ len
    → decoded (record { res = n; shift = 0; final = true; processed = 1 }) ≡ decoded d
    → (d.res < 2 ^ 32) × (d.processed ≤ len)
short-bound n len d h l e = ground arith

-- A number that is decoded, whole or in part, from a prefix of at most 8 bits and one byte at
-- least fits 32 bits, and no byte behind the input is processed.
pub decode_length_lem :
    (initial shift : ℕ) (bytes : List ℕ) (prefix : ℕ) (d : Decoded)
    → initial < 2 ^ 32
    → 1 ≤ length bytes
    → prefix ≤ 8
    → decode_length initial shift bytes prefix ≡ decoded d
    → (d.res < 2 ^ 32) × (d.processed ≤ length bytes)
unfolding decode_length
decode_length_lem initial shift bytes prefix d h l p e =
    let small : 2 ^ prefix ≤ 2 ^ 8 = pow-le-pow_right (omega arith) p in
    let k = 2 ^ prefix - 1 in
    elim (Bool-cases (initial == 0)) [
      | inl y ↦ elim (Bool-cases (bit_and (get_or bytes 0 0) k == k)) [
        | inl z ↦ start_tail-bound bytes shift k d (omega arith) l (rw (y, z) at e)
        | inr z ↦
            let first = bit_and_mask prefix (get_or bytes 0 0) in
            let positive = one-le-pow prefix 2 (omega arith) in
            short-bound (bit_and (get_or bytes 0 0) k) (length bytes) d (omega arith) l
              (rw (y, z) at e)
      ]
      | inr y ↦
          let b = decode_loop-bound bytes shift initial 0 d h (rw y at e) in
          (b.0, omega (arith, b.1))
    ]
