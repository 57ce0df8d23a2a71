-- ===== src/Hd/Inflate/NameLength.antt =====
-- lib/nghttp2_hd.c: the inflater reads the length of a name.
use newhttp.Common.{
  ℕ, ◌^◌, ◌≤◌, ◌<◌, ◌≡◌, refl, ap, ◌∙◌, Bool, true, false, not, List, ◌++◌, drop, length,
  drop-append, ge→ltb, ◌==◌, if◌then◌else◌, bit_and, get_or, arith,
}
use newhttp.Errors.{ok}
use newhttp.Hd.Length.{decode_length}
use newhttp.Hd.Length.Steps.{finished}
use newhttp.Hd.Huffman.{huff_decode_context_init}
use newhttp.Hd.Emit.Laws.{sent, decode-sent}
use newhttp.Hd.Emit.StringLength.{first_bit, first-sent}
use newhttp.Hd.Inflate.{
  Inflater, InflateState, goes_on, max_nv, store_len, inflate_read_len, inflate_set_huffman_encoded,
  read_namelen, check_namelen,
}

-- The inflater behind the length of a name.
abbrev pub at_body : Inflater → Bool → ℕ → ℕ → Inflater
at_body i huffman n shift = record i {
  state = if huffman then InflateState.newname_read_namehuff else InflateState.newname_read_name;
  left = n;
  shift = shift;
  huffman_encoded = huffman;
  huff_decode_ctx = if huffman then huff_decode_context_init else i.huff_decode_ctx;
}

not-not_eq : (b c : Bool) → b ≡ not c → not b ≡ c
not-not_eq b true h = ap not h
not-not_eq b false h = ap not h

first_lt : (huffman : Bool) → first_bit huffman < 256
first_lt true = omega arith
first_lt false = omega arith

choose :
    (i : Inflater) (huffman : Bool) (rest : List ℕ)
    → (if huffman
        then ok (
            goes_on
              (record i {
                huff_decode_ctx = huff_decode_context_init;
                state = InflateState.newname_read_namehuff;
              })
              rest)
        else ok (goes_on (record i { state = InflateState.newname_read_name }) rest))
      ≡ ok (
          goes_on
            (record i {
              state =
                  if huffman
                  then InflateState.newname_read_namehuff
                  else InflateState.newname_read_name;
              huff_decode_ctx = if huffman then huff_decode_context_init else i.huff_decode_ctx;
            })
            rest)
choose i true rest = refl
choose i false rest = refl

read_namelen_lem :
    (i : Inflater) (n shift k : ℕ) (src : List ℕ)
    → n ≤ max_nv
    → decode_length i.left i.shift src 7 ≡ finished n shift k
    → read_namelen i src ≡ ok (goes_on (at_body i i.huffman_encoded n shift) (drop k src))
unfolding read_namelen inflate_read_len store_len
read_namelen_lem i n shift k src small e =
    rw (e, ge→ltb max_nv n small)
      (choose (record i { left = n; shift = shift }) i.huffman_encoded (drop k src))

pub check_namelen_lem :
    (i : Inflater) (huffman : Bool) (n : ℕ) (rest : List ℕ)
    → n ≤ max_nv
    → (shift : ℕ) × (check_namelen i (sent (first_bit huffman) n 7 ++ rest)
        ≡ ok (goes_on (at_body i huffman n shift) rest))
unfolding check_namelen inflate_set_huffman_encoded
check_namelen_lem i huffman n rest small =
    let s = sent (first_bit huffman) n 7 in
    let (shift, e) =
      decode-sent (first_bit huffman) n 7 rest (first_lt huffman) (omega arith)
        (omega (arith, small)) in
    let flag = not-not_eq _ huffman (first-sent huffman n rest) in
    let j = record i {
      huffman_encoded = not (bit_and (get_or (s ++ rest) 0 0) (2 ^ 7) == 0);
      state = InflateState.newname_read_namelen;
      left = 0;
      shift = 0;
    } in
    (
      shift,
      read_namelen_lem j n shift (length s) (s ++ rest) small e
          ∙ ap (λ b. ok (goes_on (at_body i b n shift) (drop (length s) (s ++ rest)))) flag
          ∙ ap (λ r. ok (goes_on (at_body i huffman n shift) r)) (drop-append s rest),
    )
