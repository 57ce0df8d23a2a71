-- ===== src/Http/Value.antt =====
-- lib/nghttp2_http.c: reading header values.
use newhttp.Common.{
  ℕ, zero, suc, ◌+◌, ◌-◌, ◌*◌, ◌/◌, ◌^◌, Bool, true, false, ◌&&◌, ◌||◌, List, [], ◌∷◌, Option, none,
  some, length, ltb, leb, ◌==◌, if◌then◌else◌,
}

abbrev pub int64_max : ℕ
int64_max = 2 ^ 63 - 1

unfoldable pub downcase : ℕ → ℕ
downcase c = if leb b'A' c && leb c b'Z' then c - b'A' + b'a' else c

-- The loop on `n` bytes of two strings that have them.
unfoldable pub memieq : List ℕ → List ℕ → ℕ → Bool
unfolding downcase
memieq a b zero = true
memieq [] b (suc n) = true
memieq (x ∷ a) [] (suc n) = true
memieq (x ∷ a) (y ∷ b) (suc n) = if downcase x == downcase y then memieq a b n else false

unfoldable pub lstrieq : List ℕ → List ℕ → Bool
unfolding memieq
lstrieq a b = length a == length b && memieq a b (length b)

-- The loop of `parse_uint` with what it has read in `n`; `none` is -1.
unfoldable pub parse_uint_loop : ℕ → List ℕ → Option ℕ
parse_uint_loop n [] = some n
parse_uint_loop n (c ∷ s) =
    let rest = parse_uint_loop (n * 10 + (c - b'0')) s in
    if leb b'0' c && leb c b'9'
    then if ltb (int64_max / 10) n
      then none
      else if ltb (int64_max - (c - b'0')) (n * 10)
      then none
      else rest
    else none

unfoldable pub parse_uint : List ℕ → Option ℕ
unfolding parse_uint_loop
parse_uint s = if length s == 0 then none else parse_uint_loop 0 s

unfoldable pub lws : List ℕ → Bool
lws [] = true
lws (c ∷ s) = if c == b' ' || c == 9 then lws s else false
