-- ===== src/Hd/Emit/StringLaws.antt =====
-- lib/nghttp2_hd.c: the bytes that the deflater writes for a string.
use newhttp.Common.{
  ℕ, ◌+◌, ◌≤◌, ◌≡◌, refl, sym, ap, ap₂, ◌∙◌, Bool, true, false, List, [], ◌∷◌, ◌++◌, length, ltb,
  ltb→lt, ◌==◌, ==_iff, if◌then◌else◌, arith, map, inl, inr, Bool-cases,
}
use mathlib.Core.List.{append_assoc}
use newhttp.Errors.{ok}
use newhttp.Buf.Chain.{Bufs}
use newhttp.Buf.Add.{bufs_cpymem, bufs_cur_avail}
use newhttp.Buf.Add.Laws.{text, IsReady}
use newhttp.Buf.Add.Copy.{bufs_add_total, bufs_cpymem_lem, low8}
use newhttp.Hd.Length.{count_encoded_length}
use newhttp.Hd.Huffman.Bits.{byte_bits, codes_of}
use newhttp.Hd.Huffman.Rows.{is_padding}
use newhttp.Hd.Huffman.Sound.{Bytes}
use newhttp.Hd.Huffman.Stream.{pad_parts}
use newhttp.Hd.Huffman.Encode.{huff_encode_count}
use newhttp.Hd.Huffman.Encode.Total.{huff_encode_total, length-coded}
use newhttp.Hd.Huffman.Encode.RoundTrip.{huff_encode_lem}
use newhttp.Hd.Emit.{emit_string}
use newhttp.Hd.Emit.Laws.{sent, emit_number_total}
use newhttp.Hd.Emit.StringLength.{first_bit, sent-low8, count_small, low8_small}

-- The bytes of a string: whether it is in Huffman coding, and what follows the length.
pub record Literal (str s : List ℕ) : Type 0 where
  pub huffman : Bool
  pub bs : List ℕ
  pub small : Bytes bs
  pub bytes : s ≡ sent (first_bit huffman) (length bs) 7 ++ bs
  pub body :
      if huffman
      then ((p : List Bool) × (byte_bits bs ≡ codes_of str ++ p) × (is_padding p ≡ true))
      else (bs ≡ str)
  pub length_le : length bs ≤ length str

-- The room that a string wants: that of its length and of the shorter of its two forms.
abbrev pub string_room : List ℕ → ℕ
string_room str =
    let count = huff_encode_count str in
    let enclen = if ltb count (length str) then count else length str in
    count_encoded_length enclen 7 + enclen

emit_string_huffman :
    (bufs : Bufs) (str : List ℕ)
    → Bytes str
    → IsReady 4 bufs
    → length str ≤ 65536
    → ltb (huff_encode_count str) (length str) ≡ true
    → count_encoded_length (huff_encode_count str) 7 + huff_encode_count str ≤ bufs_cur_avail bufs
    → (bufs' : Bufs) × (s : List ℕ) × (emit_string bufs str ≡ ok bufs')
      × (text bufs' ≡ text bufs ++ s)
      × Literal str s
unfolding emit_string
emit_string_huffman bufs str b ready long shorter room =
    let n = huff_encode_count str in
    let lt = ltb→lt _ _ shorter in
    let few = count_small n (omega (arith, lt, long)) in
    let (c, e, t, r, a) =
      emit_number_total bufs 0x80 n 7 ready (omega (arith, few)) (omega (arith, room)) in
    let (bufs', f) = huff_encode_total c str b r (omega (arith, a, room)) in
    let (bs, p, small, whole, coded, pad) = huff_encode_lem c str b r f in
    let len : length bs ≡ n = length-coded str bs p coded (pad_parts p pad).1 in
    (
      bufs',
      sent 0x80 n 7 ++ bs,
      rw (shorter, e) f,
      whole
          ∙ ap (λ u. u ++ bs) (t ∙ ap (λ u. text bufs ++ u) (sent-low8 true n))
          ∙ append_assoc (text bufs) (sent 0x80 n 7) bs,
      record {
        huffman = true;
        bs = bs;
        small = small;
        bytes = ap (λ k. sent 0x80 k 7 ++ bs) (sym len);
        body = (p, coded, pad);
        length_le = omega (arith, len, lt);
      },
    )

pub Bytes-low8_eq : (bs : List ℕ) → Bytes bs → map low8 bs ≡ bs
Bytes-low8_eq [] h = refl
Bytes-low8_eq (b ∷ bs) h = ap₂ (λ x xs. x ∷ xs) (low8_small b h.0) (Bytes-low8_eq bs h.1)

emit_string_plain :
    (bufs : Bufs) (str : List ℕ)
    → Bytes str
    → IsReady 4 bufs
    → length str ≤ 65536
    → ltb (huff_encode_count str) (length str) ≡ false
    → count_encoded_length (length str) 7 + length str ≤ bufs_cur_avail bufs
    → (bufs' : Bufs) × (s : List ℕ) × (emit_string bufs str ≡ ok bufs')
      × (text bufs' ≡ text bufs ++ s)
      × Literal str s
unfolding emit_string
emit_string_plain bufs str b ready long longer room =
    let n = length str in
    let few = count_small n long in
    let (c, e, t, r, a) =
      emit_number_total bufs 0 n 7 ready (omega (arith, few)) (omega (arith, room)) in
    let fits : n ≤ bufs_cur_avail c = omega (arith, a, room) in
    let same : (n == n) ≡ true = (==_iff n n).1 refl in
    let k = bufs_cpymem_lem 4 c str r fits in
    (
      bufs_cpymem c str,
      sent 0 n 7 ++ str,
      rw (longer, e, same) (bufs_add_total c str fits),
      k.0
          ∙ ap (λ u. text c ++ u) (Bytes-low8_eq str b)
          ∙ ap (λ u. u ++ str) (t ∙ ap (λ u. text bufs ++ u) (sent-low8 false n))
          ∙ append_assoc (text bufs) (sent 0 n 7) str,
      record {
        huffman = false;
        bs = str;
        small = b;
        bytes = refl;
        body = refl;
        length_le = omega arith;
      },
    )

-- A string of bytes up to the longest that the inflater takes is emitted where its room is there.
pub emit_string_total :
    (bufs : Bufs) (str : List ℕ)
    → Bytes str
    → IsReady 4 bufs
    → length str ≤ 65536
    → string_room str ≤ bufs_cur_avail bufs
    → (bufs' : Bufs) × (s : List ℕ) × (emit_string bufs str ≡ ok bufs')
      × (text bufs' ≡ text bufs ++ s)
      × Literal str s
emit_string_total bufs str b ready long room =
    elim (Bool-cases (ltb (huff_encode_count str) (length str))) [
      | inl shorter ↦ emit_string_huffman bufs str b ready long shorter (rw shorter at room)
      | inr longer ↦ emit_string_plain bufs str b ready long longer (rw longer at room)
    ]
