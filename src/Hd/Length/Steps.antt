-- ===== src/Hd/Length/Steps.antt =====
-- The bytes behind the first one, written by `encode_loop` and read by `decode_loop`.
use newhttp.Common.{
  ℕ, zero, suc, ◌+◌, ◌-◌, ◌*◌, ◌/◌, ◌%◌, ◌^◌, ◌≤◌, ◌<◌, ◌≡◌, refl, ap, ◌∙◌, true, List, ◌∷◌, ◌++◌,
  arith, length, leb, ◌==◌, if◌then◌else◌, leb→le, lt→leb, ge→ltb, Bool-cases, inl, inr, bit_and,
  bit_or,
}
use native.Mathlib.Nat.{mul-le-mul_right, pow-le-pow_right, one-le-pow, le-div_iff_mul-le, pow-suc}
use newhttp.Common.Bits.{bit_and_mask, bit_and_bit, bit_or_fields}
use newhttp.Hd.Length.{Decoding, decoded, encode_loop, decode_loop, uint32_max}

-- A number that is decoded whole.
abbrev pub finished : ℕ → ℕ → ℕ → Decoding
finished res shift processed =
    decoded (record { res = res; shift = shift; final = true; processed = processed })

pub finished_eq : {a b c d e f : ℕ} → a ≡ b → c ≡ d → e ≡ f → finished a c e ≡ finished b d f
finished_eq p q r = rw (p, q, r) refl

-- A shift that keeps a positive number below 2^32 is below 32.
shift_small : (s m : ℕ) → 1 ≤ m → m * 2 ^ s < 2 ^ 32 → s < 32
shift_small s m h fits = elim (Bool-cases (leb 32 s)) [
  | inl y ↦
      let big : 2 ^ 32 ≤ 2 ^ s = pow-le-pow_right (omega arith) (leb→le 32 s y) in
      let more : 1 * 2 ^ s ≤ m * 2 ^ s = mul-le-mul_right (2 ^ s) h in absurd (omega arith)
  | inr n ↦ ground arith
]

-- A number that fits behind the shift passes the test of the decoder.
no_overflow : (s a : ℕ) → a * 2 ^ s < 2 ^ 32 → a ≤ uint32_max / 2 ^ s
no_overflow s a h = (le-div_iff_mul-le (one-le-pow s 2 (omega arith))).1 (omega arith)

pow_add-seven : (s : ℕ) → 2 ^ (s + 7) ≡ 128 * 2 ^ s
pow_add-seven zero = refl
pow_add-seven (suc s) =
    let same : suc s + 7 ≡ suc (s + 7) = omega arith in
    rw same (omega (arith, pow-suc 2 (s + 7), pow-suc 2 s, pow_add-seven s))

split_shift : (s m : ℕ) → m * 2 ^ s ≡ m % 128 * 2 ^ s + m / 128 * 2 ^ (s + 7)
split_shift s m =
    let whole : m % 128 + 128 * (m / 128) ≡ m = omega arith in
    omega (arith, ap (λ (x : ℕ). x * 2 ^ s) whole, ap (λ (x : ℕ). m / 128 * x) (pow_add-seven s))

-- One byte of which `a` are the low bits.
decode_step :
    (b a shift n count : ℕ) (bytes : List ℕ)
    → bit_and b 0x7f ≡ a
    → shift < 32
    → n + a * 2 ^ shift < 2 ^ 32
    → decode_loop shift n count (b ∷ bytes) ≡ (
        if bit_and b (2 ^ 7) == 0
        then finished (n + a * 2 ^ shift) shift (count + 1)
        else decode_loop (shift + 7) (n + a * 2 ^ shift) (count + 1) bytes)
unfolding decode_loop
decode_step b a shift n count bytes low q h =
    let same : a * 2 ^ shift % 2 ^ 32 ≡ a * 2 ^ shift = omega arith in
    let over = no_overflow shift a (omega arith) in
    rw
      (
        low,
        same,
        lt→leb 32 shift q,
        ge→ltb (uint32_max / 2 ^ shift) a over,
        ge→ltb (uint32_max - a * 2 ^ shift) n (omega arith),
      )
      refl

last_byte :
    (m shift n count : ℕ) (bytes : List ℕ)
    → m < 128
    → shift < 32
    → n + m * 2 ^ shift < 2 ^ 32
    → decode_loop shift n count ((m % 256) ∷ bytes) ≡ finished (n + m * 2 ^ shift) shift (count + 1)
last_byte m shift n count bytes small q h =
    let low : bit_and (m % 256) 0x7f ≡ m = omega (arith, bit_and_mask 7 (m % 256)) in
    let end : bit_and (m % 256) (2 ^ 7) ≡ 0 = omega (arith, bit_and_bit 7 (m % 256)) in
    rw (decode_step (m % 256) m shift n count bytes low q h, end) refl

next_byte :
    (m shift n count : ℕ) (bytes : List ℕ)
    → shift < 32
    → n + m * 2 ^ shift < 2 ^ 32
    → decode_loop shift n count (bit_or (2 ^ 7) (bit_and m 0x7f) ∷ bytes)
      ≡ decode_loop (shift + 7) (n + m % 128 * 2 ^ shift) (count + 1) bytes
next_byte m shift n count bytes q h =
    let b = bit_or (2 ^ 7) (bit_and m 0x7f) in
    let byte : b ≡ 128 + m % 128 =
      omega (arith, bit_and_mask 7 m, bit_or_fields 7 1 (bit_and m 0x7f)) in
    let low : bit_and b 0x7f ≡ m % 128 = omega (arith, byte, bit_and_mask 7 b) in
    let on : bit_and b (2 ^ 7) ≡ 128 = omega (arith, byte, bit_and_bit 7 b) in
    rw (decode_step b (m % 128) shift n count bytes low q (omega (arith, split_shift shift m)), on)
      refl

pub length-encode_loop : (fuel m : ℕ) → 1 ≤ length (encode_loop fuel m)
unfolding encode_loop
length-encode_loop zero m = omega arith
length-encode_loop (suc fuel) m = ground arith

pub encode_loop-decode_loop :
    (fuel m shift n count : ℕ) (rest : List ℕ)
    → m ≤ fuel
    → shift < 32
    → n + m * 2 ^ shift < 2 ^ 32
    → decode_loop shift n count (encode_loop fuel m ++ rest)
      ≡ finished
          (n + m * 2 ^ shift)
          (shift + 7 * (length (encode_loop fuel m) - 1))
          (count + length (encode_loop fuel m))
unfolding encode_loop
encode_loop-decode_loop zero m shift n count rest p q h =
    last_byte m shift n count rest (omega arith) q h ∙ finished_eq refl (omega arith) refl
encode_loop-decode_loop (suc fuel) m shift n count rest p q h = elim (Bool-cases (leb 128 m)) [
  | inl y ↦
      let large = leb→le 128 m y in
      let split = split_shift shift m in
      let small = shift_small (shift + 7) (m / 128) (omega arith) (omega arith) in
      let tail = encode_loop fuel (m / 128) in
      let long : 1 ≤ length tail = length-encode_loop fuel (m / 128) in
      let later =
        encode_loop-decode_loop fuel (m / 128) (shift + 7) (n + m % 128 * 2 ^ shift) (count + 1)
          rest (omega arith) small (omega arith) in
      rw y (
        next_byte m shift n count (tail ++ rest) q h
        ∙ later
        ∙ finished_eq (omega arith) (omega arith) (omega arith))
  | inr z ↦
      rw z (last_byte m shift n count rest (ground arith) q h ∙ finished_eq refl (omega arith) refl)
]
