-- ===== src/Hd/Emit/Laws.antt =====
-- lib/nghttp2_hd.c: the bytes that the deflater writes for a number and for a string.
use newhttp.Common.{
  ℕ, ◌+◌, ◌-◌, ◌^◌, ◌≤◌, ◌<◌, ◌≡◌, refl, sym, ap, ◌∙◌, List, [], ◌∷◌, ◌++◌, take, drop, length,
  length-drop, take-append, length-replicate, replicate, ltb, ge→ltb, if◌then◌else◌, bit_and,
  bit_or, arith, map, inl, inr, Bool-cases,
}
use mathlib.Core.List.{append-nil}
use newhttp.Common.Memory.{copy_lem}
use newhttp.Errors.{ok}
use newhttp.Buf.Chain.{Bufs}
use newhttp.Buf.Add.{bufs_cpymem, bufs_cur_avail}
use newhttp.Buf.Add.Laws.{text, IsReady}
use newhttp.Buf.Add.Copy.{bufs_add_total, bufs_cpymem_lem, low8}
use newhttp.Hd.Length.{count_encoded_length, encode_length, encode_loop, decode_length}
use newhttp.Hd.Length.Steps.{finished}
use newhttp.Hd.Length.RoundTrip.{encode_length-decode_length, count_encoded_length-encode_length}
use newhttp.Hd.Emit.{emit_number}

-- The bytes of a number behind a first byte.
unfoldable pub sent : ℕ → ℕ → ℕ → List ℕ
sent b n prefix =
    let k = 2 ^ prefix - 1 in
    let cleared = bit_and b (2 ^ 64 - 1 - k) in
    if ltb n k then bit_or cleared n ∷ [] else bit_or cleared k ∷ encode_loop (n - k) (n - k)

pub length-sent : (b n prefix : ℕ) → length (sent b n prefix) ≡ count_encoded_length n prefix
unfolding sent encode_length
length-sent b n prefix = elim (Bool-cases (ltb n (2 ^ prefix - 1))) [
  | inl y ↦ rw y (sym (rw y at (count_encoded_length-encode_length (b ∷ []) n prefix)))
  | inr z ↦ rw z (omega (arith, rw z at (count_encoded_length-encode_length (b ∷ []) n prefix)))
]

-- They are what `encode_length` leaves at the start of a memory that is long enough.
start_sent :
    (b n prefix : ℕ) (buf : List ℕ)
    → count_encoded_length n prefix ≤ length (b ∷ buf)
    → (r : List ℕ) × ((encode_length (b ∷ buf) n prefix).0 ≡ sent b n prefix ++ r)
      × (length r + count_encoded_length n prefix ≡ length (b ∷ buf))
unfolding sent encode_length
start_sent b n prefix buf room =
    let k = 2 ^ prefix - 1 in
    let tail = encode_loop (n - k) (n - k) in
    let count = length-sent b n prefix in
    elim (Bool-cases (ltb n k)) [
      | inl y ↦ (let c = rw y at count in (buf, rw y refl, omega (arith, c)))
      | inr z ↦
          (let c = rw z at count in
            let le : length tail ≤ length buf = omega (arith, c, room) in
            (
              drop (length tail) buf,
              rw z (ap (λ m. bit_or (bit_and b (2 ^ 64 - 1 - k)) k ∷ m) (copy_lem buf tail le)),
              omega (arith, c, le, length-drop (length tail) buf),
            ))
    ]

pub take-encode_length :
    (b n prefix : ℕ) (buf : List ℕ)
    → count_encoded_length n prefix ≤ length (b ∷ buf)
    → take (count_encoded_length n prefix) (encode_length (b ∷ buf) n prefix).0 ≡ sent b n prefix
take-encode_length b n prefix buf room =
    let (r, e, _) = start_sent b n prefix buf room in
    ap (take (count_encoded_length n prefix)) e
    ∙ ap (λ k. take k (sent b n prefix ++ r)) (sym (length-sent b n prefix))
    ∙ take-append (sent b n prefix) r

length-eq-zero : (xs : List ℕ) → length xs ≡ 0 → xs ≡ []
length-eq-zero [] h = refl
length-eq-zero (x ∷ xs) h = absurd (omega (arith, h))

sent_pos : (b n prefix : ℕ) → 0 < length (sent b n prefix)
unfolding sent
sent_pos b n prefix = elim (Bool-cases (ltb n (2 ^ prefix - 1))) [
  | inl y ↦ rw y (omega arith)
  | inr z ↦ rw z (omega arith)
]

-- And they are read back.
pub decode-sent :
    (b n prefix : ℕ) (rest : List ℕ)
    → b < 256
    → prefix ≤ 8
    → n < 2 ^ 32
    → (shift : ℕ) × (decode_length 0 0 (sent b n prefix ++ rest) prefix
        ≡ finished n shift (length (sent b n prefix)))
decode-sent b n prefix rest byte high fits =
    let count = count_encoded_length n prefix in
    let buf = replicate (count - 1) 0 in
    let len : length (b ∷ buf) ≡ count = omega (
      arith,
      length-replicate {A = ℕ} (count - 1) 0,
      length-sent b n prefix,
      sent_pos b n prefix,
    ) in
    let (r, e, k) = start_sent b n prefix buf (omega (arith, len)) in
    let whole : (encode_length (b ∷ buf) n prefix).0 ≡ sent b n prefix =
      e
      ∙ ap (λ t. sent b n prefix ++ t) (length-eq-zero r (omega (arith, k, len)))
      ∙ append-nil (sent b n prefix) in
    let (shift, d) =
      encode_length-decode_length b buf rest n prefix byte high fits (omega (arith, len)) in
    (
      shift,
      ap (λ t. decode_length 0 0 (t ++ rest) prefix) (sym whole)
          ∙ d
          ∙ ap (finished n shift) (
              sym (count_encoded_length-encode_length (b ∷ buf) n prefix)
              ∙ sym (length-sent b n prefix)),
    )

-- A number is emitted where its bytes fit the sixteen of the source and the current buffer.
pub emit_number_total :
    (bufs : Bufs) (first n prefix : ℕ)
    → IsReady 4 bufs
    → count_encoded_length n prefix ≤ 16
    → count_encoded_length n prefix ≤ bufs_cur_avail bufs
    → (bufs' : Bufs) × (emit_number bufs first n prefix ≡ ok bufs')
      × (text bufs' ≡ text bufs ++ map low8 (sent first n prefix))
      × IsReady 4 bufs'
      × (bufs_cur_avail bufs' + count_encoded_length n prefix ≡ bufs_cur_avail bufs)
unfolding emit_number
emit_number_total bufs first n prefix ready few room =
    let s = sent first n prefix in
    let len = length-sent first n prefix in
    let e = take-encode_length first n prefix (replicate 15 0) (omega (arith, few)) in
    let a = bufs_cpymem_lem 4 bufs s ready (omega (arith, room, len)) in
    (
      bufs_cpymem bufs s,
      rw (ge→ltb 16 (count_encoded_length n prefix) few, e)
          (bufs_add_total bufs s (omega (arith, room, len))),
      a.0,
      a.1,
      omega (arith, a.2, len),
    )
