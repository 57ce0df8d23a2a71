-- ===== src/Http/Laws.antt =====
-- Numbers in header values, and the length of a body.
use newhttp.Common.{
  ℕ, ◌+◌, ◌-◌, ◌*◌, ◌%◌, ◌^◌, ◌≤◌, ◌<◌, ◌≡◌, refl, ◌↔◌, Bool, true, false, ◌&&◌, ◌||◌, not, List,
  [], ◌∷◌, some, arith, if◌then◌else◌, length, All, Bool-cases, inl, inr,
}
use newhttp.Http.{HttpFlag, HttpStream}
use newhttp.Http.Value.{int64_max, parse_uint_loop, parse_uint}
use newhttp.Http.Message.{http_on_data_chunk, http_on_remote_end_stream, length_is, length_exceeded}

abbrev pub IsDigit : ℕ → Type 0
IsDigit c = (b'0' ≤ c) × (c ≤ b'9')

-- The number that a string of digits stands for, with `n` in front of it.
abbrev pub decimal : ℕ → List ℕ → ℕ
decimal n [] = n
decimal n (c ∷ s) = decimal (n * 10 + (c - b'0')) s

decimal-le : (n : ℕ) (s : List ℕ) → n ≤ decimal n s
decimal-le n [] = omega arith
decimal-le n (c ∷ s) = omega (arith, decimal-le (n * 10 + (c - b'0')) s)

parse_sound :
    (s : List ℕ) (n v : ℕ)
    → n ≤ int64_max
    → parse_uint_loop n s ≡ some v
    → All IsDigit s × (v ≡ decimal n s) × (v ≤ int64_max)
unfolding parse_uint_loop
parse_sound [] n v h e = ground arith
parse_sound (c ∷ s) n v h e = ground (arith, parse_sound s (n * 10 + (c - b'0')) v)

parse_complete :
    (s : List ℕ) (n : ℕ)
    → All IsDigit s
    → decimal n s ≤ int64_max
    → parse_uint_loop n s ≡ some (decimal n s)
unfolding parse_uint_loop
parse_complete [] n d h = refl
parse_complete (c ∷ s) n d h =
    let le = decimal-le (n * 10 + (c - b'0')) s in
    ground (arith, le, parse_complete s (n * 10 + (c - b'0')))

-- `parse_uint` answers a number exactly for a non-empty string of digits whose value is at most
-- INT64_MAX, and the answer is that value.
pub parse_uint_iff :
    (s : List ℕ) (v : ℕ)
    → (parse_uint s ≡ some v) ↔ (0 < length s) × All IsDigit s × (v ≡ decimal 0 s) × (v ≤ int64_max)
unfolding parse_uint
parse_uint_iff [] v = (λ h. cc, λ h. absurd (omega arith))
parse_uint_iff (c ∷ s) v = (
  λ h. let p = parse_sound (c ∷ s) 0 v (omega arith) (ground arith) in (omega arith, p.0, p.1, p.2),
  λ h. ground (arith, parse_complete (c ∷ s) 0 h.1 (ground arith)),
)

-- The DATA chunks of a body: whether all are accepted, and the stream after them.
abbrev pub on_chunks : List ℕ → HttpStream → Bool × HttpStream
on_chunks [] s = (true, s)
on_chunks (n ∷ ns) s =
    let (accepted, s') = http_on_data_chunk n s in
    let rest = on_chunks ns s' in if accepted then rest else (false, s')

abbrev pub sum : List ℕ → ℕ
sum [] = 0
sum (n ∷ ns) = n + sum ns

abbrev after : ℕ → HttpStream → HttpStream
after n s = record s { recv_content_length = s.recv_content_length + n }

-- Whether a body in chunks is accepted to its end.
abbrev pub body_ok : List ℕ → HttpStream → Bool
body_ok ns s = (on_chunks ns s).0 && http_on_remote_end_stream (on_chunks ns s).1

-- The sum of a chunk does not wrap.
Fits : ℕ → List ℕ → HttpStream → Type 0
Fits n ns s = s.recv_content_length + (n + sum ns) ≤ int64_max

body_step :
    (n : ℕ) (ns : List ℕ) (s : HttpStream)
    → Fits n ns s
    → body_ok (n ∷ ns) s ≡ ((http_on_data_chunk n s).0 && body_ok ns (after n s))
unfolding http_on_data_chunk Fits
body_step n ns s fits =
    let exact : (s.recv_content_length + n) % 2 ^ 64 ≡ s.recv_content_length + n =
      omega (arith, fits) in
    rw exact
      (elim (Bool-cases (
        not (
          s.http_flags HttpFlag.expect_final_response
          || length_exceeded s.content_length (s.recv_content_length + n)))) [
            | inl y ↦ rw y refl
            | inr z ↦ rw z refl
          ])

-- No final response is missing, and the chunks, with what was received before, have the announced
-- length, if there is one.
abbrev pub IsComplete : List ℕ → HttpStream → Type 0
IsComplete ns s =
    (s.http_flags HttpFlag.expect_final_response ≡ false)
    × (length_is s.content_length (s.recv_content_length + sum ns) ≡ true)

IsComplete-step :
    (n : ℕ) (ns : List ℕ) (s : HttpStream) → IsComplete (n ∷ ns) s ↔ IsComplete ns (after n s)
IsComplete-step n ns s =
    let e : s.recv_content_length + (n + sum ns) ≡ s.recv_content_length + n + sum ns =
      omega arith in
    rw e ((λ h. h), λ h. h)

not_exceeded :
    (n : ℕ) (ns : List ℕ) (s : HttpStream)
    → Fits n ns s
    → IsComplete ns (after n s)
    → (http_on_data_chunk n s).0 ≡ true
unfolding http_on_data_chunk Fits
not_exceeded n ns s fits h =
    let exact : (s.recv_content_length + n) % 2 ^ 64 ≡ s.recv_content_length + n =
      omega (arith, fits) in
    rw exact (ground (arith, h))

and_right : (a b : Bool) → (a && b) ≡ true → b ≡ true
and_right a b h = ground arith

and_intro : (a b : Bool) → a ≡ true → b ≡ true → (a && b) ≡ true
and_intro a b h k = ground arith

-- A body is accepted chunk by chunk and at its end exactly if it is complete: no final response is
-- missing, and the chunks, with what was received before, have the announced length, if any. What
-- is received in all is assumed to be at most INT64_MAX, so that the count does not wrap.
pub body_ok_iff :
    (ns : List ℕ) (s : HttpStream)
    → s.recv_content_length + sum ns ≤ int64_max
    → (body_ok ns s ≡ true) ↔ IsComplete ns s
unfolding Fits
body_ok_iff [] s fits = unfold http_on_remote_end_stream in (λ h. ground arith, λ h. ground arith)
body_ok_iff (n ∷ ns) s fits =
    let ih = body_ok_iff ns (after n s) (omega (arith, fits)) in
    let same = IsComplete-step n ns s in
    rw (body_step n ns s fits) (
      λ h. same.1 (ih.0 (and_right _ _ h)),
      λ h. and_intro _ _ (not_exceeded n ns s fits (same.0 h)) (ih.1 (same.0 h)),
    )
