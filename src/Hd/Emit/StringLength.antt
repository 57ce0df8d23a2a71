-- ===== src/Hd/Emit/StringLength.antt =====
-- lib/nghttp2_hd.c: the bytes of the length of a string.
use newhttp.Common.{
  ℕ, zero, suc, ◌+◌, ◌-◌, ◌*◌, ◌/◌, ◌%◌, ◌^◌, ◌≤◌, ◌<◌, ◌≡◌, refl, ap, ap₂, not, ◌&&◌, ◌∙◌, Bool,
  true, false, List, [], ◌∷◌, ◌++◌, length, ltb, ltb→lt, leb, leb→le, ◌==◌, if◌then◌else◌, bit_and,
  bit_or, get_or, arith, map, inl, inr, Bool-cases,
}
use newhttp.Common.Bits.{bit_or_fields, bit_and_mask}
use newhttp.Common.Table.{holds_below, holds_below_at}
use newhttp.Buf.Add.Copy.{low8}
use newhttp.Hd.Length.{count_encoded_length, encode_loop}
use newhttp.Hd.Huffman.Rows.{&&-true}
use newhttp.Hd.Emit.Laws.{sent, length-sent}

encode_loop-low8 : (fuel n : ℕ) → map low8 (encode_loop fuel n) ≡ encode_loop fuel n
unfolding encode_loop
encode_loop-low8 zero n = ap (λ k. k ∷ []) (omega arith)
encode_loop-low8 (suc fuel) n = elim (Bool-cases (leb 128 n)) [
  | inr last ↦ rw last (ap (λ k. k ∷ []) (omega arith))
  | inl more ↦
      (let m : bit_and n 0x7f ≡ n % 128 = bit_and_mask 7 n in
        let e : bit_or (2 ^ 7) (bit_and n 0x7f) ≡ 128 + n % 128 =
          ap (bit_or (2 ^ 7)) m ∙ bit_or_fields 7 1 (n % 128) (omega arith) in
        let small : low8 (bit_or (2 ^ 7) (bit_and n 0x7f)) ≡ bit_or (2 ^ 7) (bit_and n 0x7f) =
          omega (arith, e) in
        rw more (ap₂ (λ x xs. x ∷ xs) small (encode_loop-low8 fuel (n / 128))))
]

-- The first byte: the bit of the coding over a prefix of seven bits.
abbrev pub first_bit : Bool → ℕ
first_bit huffman = if huffman then 0x80 else 0

abbrev first_fits : Bool → ℕ → Bool
first_fits huffman v =
    let x = bit_or (bit_and (first_bit huffman) (2 ^ 64 - 1 - 127)) v in
    ltb x 256 && (if huffman then not (bit_and x (2 ^ 7) == 0) else bit_and x (2 ^ 7) == 0)

firsts_fit :
    (holds_below (first_fits true) 128 ≡ true) × (holds_below (first_fits false) 128 ≡ true)
unfolding holds_below
firsts_fit = (refl, refl)

first_at : (huffman : Bool) (v : ℕ) → v < 128 → first_fits huffman v ≡ true
first_at true v h = holds_below_at (first_fits true) 128 v h firsts_fit.0
first_at false v h = holds_below_at (first_fits false) 128 v h firsts_fit.1

not-not : (b : Bool) → not b ≡ true → b ≡ false
not-not true h = cc
not-not false h = refl

flag_at :
    (huffman : Bool) (v : ℕ)
    → v < 128
    → (bit_and (bit_or (bit_and (first_bit huffman) (2 ^ 64 - 1 - 127)) v) (2 ^ 7) == 0)
      ≡ not huffman
flag_at true v h =
    not-not _
      (&&-true (ltb (bit_or (bit_and 0x80 (2 ^ 64 - 1 - 127)) v) 256) _ (first_at true v h)).1
flag_at false v h =
    (&&-true (ltb (bit_or (bit_and 0 (2 ^ 64 - 1 - 127)) v) 256) _ (first_at false v h)).1

pub low8_small : (k : ℕ) → k < 256 → low8 k ≡ k
low8_small k h = omega arith

module _ (huffman : Bool) (n : ℕ) where
  pub sent-low8 : map low8 (sent (first_bit huffman) n 7) ≡ sent (first_bit huffman) n 7
  unfolding sent
  sent-low8 = elim (Bool-cases (ltb n 127)) [
    | inl y ↦
        (let h = &&-true _ _ (first_at huffman n (omega (arith, ltb→lt _ _ y))) in
          rw y (ap (λ k. k ∷ []) (low8_small _ (ltb→lt _ _ h.0))))
    | inr z ↦
        (let h = &&-true _ _ (first_at huffman 127 (omega arith)) in
          rw z (
            ap₂ (λ x xs. x ∷ xs) (low8_small _ (ltb→lt _ _ h.0))
              (encode_loop-low8 (n - 127) (n - 127))))
  ]

  -- The bit of the coding is read back.
  pub first-sent :
      (rest : List ℕ)
      → (bit_and (get_or (sent (first_bit huffman) n 7 ++ rest) 0 0) (2 ^ 7) == 0) ≡ not huffman
  unfolding sent
  first-sent rest = elim (Bool-cases (ltb n 127)) [
    | inl y ↦ rw y (flag_at huffman n (omega (arith, ltb→lt _ _ y)))
    | inr z ↦ rw z (flag_at huffman 127 (omega arith))
  ]

-- Numbers of `suc k` digits to the base of 128 are below it.
abbrev digits_bound : ℕ → ℕ
digits_bound zero = 128
digits_bound (suc k) = 128 * digits_bound k

div_below : (n m : ℕ) → n < 128 * m → n / 128 < m
div_below n m h = omega (arith, h)

length-encode_loop_le : (k fuel n : ℕ) → n < digits_bound k → length (encode_loop fuel n) ≤ suc k
unfolding encode_loop
length-encode_loop_le k zero n h = omega arith
length-encode_loop_le zero (suc fuel) n h = elim (Bool-cases (leb 128 n)) [
  | inl more ↦ absurd (omega (arith, leb→le _ _ more))
  | inr last ↦ rw last (omega arith)
]
length-encode_loop_le (suc k) (suc fuel) n h = elim (Bool-cases (leb 128 n)) [
  | inr last ↦ rw last (omega arith)
  | inl more ↦
      rw more
        (omega (arith, length-encode_loop_le k fuel (n / 128) (div_below n (digits_bound k) h)))
]

-- A length of a header string takes four bytes at most.
pub count_small : (n : ℕ) → n ≤ 65536 → count_encoded_length n 7 ≤ 4
unfolding sent
count_small n h = elim (Bool-cases (ltb n 127)) [
  | inl y ↦ omega (arith, rw y at (length-sent 0 n 7))
  | inr z ↦ omega (
    arith,
    rw z at (length-sent 0 n 7),
    length-encode_loop_le 2 (n - 127) (n - 127) (omega arith),
  )
]
