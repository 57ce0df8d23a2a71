-- ===== src/Hd/Length/Pieces.antt =====
-- `decode_length` on an input that arrives in pieces.
use newhttp.Common.{
  ℕ, ◌+◌, ◌-◌, ◌*◌, ◌%◌, ◌^◌, ◌≤◌, ◌≡◌, ◌≢◌, sym, refl, ap, ◌∙◌, true, false, List, [], ◌∷◌, ◌++◌,
  arith, bit_and, Bool-cases, inl, inr, ◌==◌,
}
use native.Mathlib.Nat.{pow-le-pow_right}
use newhttp.Hd.Length.{
  Decoded, Decoding, decoded, failed, undefined, decode_loop, start_tail, decode_length,
}

-- The result with `k` bytes that were processed before.
abbrev pub after_bytes : ℕ → Decoding → Decoding
after_bytes k (decoded d) = decoded (record d { processed = k + d.processed })
after_bytes k failed = failed
after_bytes k undefined = undefined

decode_loop-after_bytes :
    (bytes : List ℕ) (k shift n count : ℕ)
    → decode_loop shift n (k + count) bytes ≡ after_bytes k (decode_loop shift n count bytes)
unfolding decode_loop
decode_loop-after_bytes [] k shift n count = refl
decode_loop-after_bytes (b ∷ bytes) k shift n count =
    let ih =
      decode_loop-after_bytes bytes k (shift + 7) (n + bit_and b 0x7f * 2 ^ shift % 2 ^ 32)
        (count + 1) in
    let same : k + count + 1 ≡ k + (count + 1) = omega arith in rw same (ground (arith, ih))

resume_loop :
    (bytes more : List ℕ) (shift n count : ℕ) (d : Decoded)
    → decode_loop shift n count bytes ≡ decoded d
    → d.final ≡ false
    → decode_loop shift n count (bytes ++ more) ≡ decode_loop d.shift d.res d.processed more
unfolding decode_loop
resume_loop [] more shift n count d h f = ground arith
resume_loop (b ∷ bytes) more shift n count d h f =
    let ih =
      resume_loop bytes more (shift + 7) (n + bit_and b 0x7f * 2 ^ shift % 2 ^ 32) (count + 1) d in
    ground arith

-- The number only grows.
decode_loop-grows :
    (bytes : List ℕ) (shift n count : ℕ) (d : Decoded)
    → decode_loop shift n count bytes ≡ decoded d
    → n ≤ d.res
unfolding decode_loop
decode_loop-grows [] shift n count d h = ground arith
decode_loop-grows (b ∷ bytes) shift n count d h =
    let ih =
      decode_loop-grows bytes (shift + 7) (n + bit_and b 0x7f * 2 ^ shift % 2 ^ 32) (count + 1) d in
    ground arith

only_first :
    (k : ℕ) (d : Decoded)
    → decoded (record { res = k; shift = 0; final = false; processed = 1 }) ≡ decoded d
    → d ≡ record { res = k; shift = 0; final = false; processed = 1 }
only_first k d h = cc

decode_loop-nil :
    (shift n count : ℕ)
    → decode_loop shift n count []
      ≡ decoded (record { res = n; shift = shift; final = false; processed = count })
unfolding decode_loop
decode_loop-nil shift n count = refl

not_partial :
    (n : ℕ) (d : Decoded)
    → decoded (record { res = n; shift = 0; final = true; processed = 1 }) ≡ decoded d
    → d.final ≢ false
not_partial n d h f = ground arith

resume_tail :
    (b : ℕ) (bytes more : List ℕ) (k : ℕ) (d : Decoded)
    → start_tail 0 k (b ∷ bytes) ≡ decoded d
    → d.final ≡ false
    → (start_tail 0 k (b ∷ (bytes ++ more))
        ≡ after_bytes d.processed (decode_loop d.shift d.res 0 more))
      × (k ≤ d.res)
unfolding start_tail
resume_tail b [] [] k d h f =
    let same = only_first k d h in
    rw same (sym (decode_loop-nil 0 k 1) ∙ decode_loop-after_bytes [] 1 0 k 0, omega arith)
resume_tail b [] (c ∷ more) k d h f =
    let same = only_first k d h in rw same (decode_loop-after_bytes (c ∷ more) 1 0 k 0, omega arith)
resume_tail b (c ∷ bytes) more k d h f = (
  resume_loop (c ∷ bytes) more 0 k 1 d h f
      ∙ ap (λ j. decode_loop d.shift d.res j more) (omega arith)
      ∙ decode_loop-after_bytes more d.processed d.shift d.res 0,
  decode_loop-grows (c ∷ bytes) 0 k 1 d h,
)

-- Where the input ends inside a number, the decoder goes on with the next piece, from the number
-- and the shift that it stored: the result is that of the whole input at once.
pub decode_length-append :
    (b : ℕ) (bytes more : List ℕ) (prefix : ℕ) (d : Decoded)
    → 1 ≤ prefix
    → decode_length 0 0 (b ∷ bytes) prefix ≡ decoded d
    → d.final ≡ false
    → decode_length 0 0 (b ∷ (bytes ++ more)) prefix
      ≡ after_bytes d.processed (decode_length d.res d.shift more prefix)
unfolding decode_length
decode_length-append b bytes more prefix d p h f =
    let k = 2 ^ prefix - 1 in
    elim (Bool-cases (bit_and b k == k)) [
      | inl y ↦
          let (same, grown) = resume_tail b bytes more k d (rw y at h) f in
          let two : 2 ^ 1 ≤ 2 ^ prefix = pow-le-pow_right (omega arith) p in
          let some : (d.res == 0) ≡ false = ground arith in rw (y, some) same
      | inr z ↦ absurd (not_partial (bit_and b k) d (rw z at h) f)
    ]
