-- ===== src/Hd/Inflate/Laws.antt =====
-- lib/nghttp2_hd.c: a name that the deflater writes is read back by the inflater.
use newhttp.Common.{
  ℕ, ◌+◌, ◌-◌, ◌≤◌, ◌<◌, ◌≡◌, refl, ap, ◌∙◌, Bool, true, false, List, [], ◌∷◌, ◌++◌, min, take,
  drop, length, length-append, take-append, drop-append, ==_iff, lt→ltb, leb, le→leb, ◌==◌,
  if◌then◌else◌, arith,
}
use mathlib.Core.List.{append_assoc}
use newhttp.Errors.{ok}
use newhttp.Buf.Chain.{Bufs}
use newhttp.Buf.Add.{bufs_fast_addb, bufs_addb, bufs_cpymem, bufs_cur_avail, bufs_len}
use newhttp.Buf.Add.Laws.{text, IsReady, bufs_fast_addb_lem}
use newhttp.Buf.Add.Copy.{bufs_add_total, bufs_cpymem_lem, bufs_len-cpymem}
use newhttp.Hd.Huffman.{huff_decode_context_init, huff_decode}
use newhttp.Hd.Huffman.Sound.{Bytes}
use newhttp.Hd.Huffman.Bits.{byte_bits, codes_of}
use newhttp.Hd.Huffman.Rows.{is_padding}
use newhttp.Hd.Huffman.Laws.{huff_decode_room}
use newhttp.Hd.Emit.{emit_string}
use newhttp.Hd.Emit.Laws.{sent}
use newhttp.Hd.Emit.StringLaws.{emit_string_total, string_room, Literal, Bytes-low8_eq}
use newhttp.Hd.Emit.StringLength.{first_bit}
use newhttp.Hd.Inflate.NameLength.{at_body, check_namelen_lem}
use newhttp.Hd.Inflate.{
  Inflater, InflateState, Progress, goes_on, almost_ok, max_nv, inflate_read_huff, inflate_read,
  check_namelen, end_name, read_namehuff, read_name, name_step, name_switch,
}

-- The inflater behind a name: its bytes and a zero are added, and `newnamelen` is the number of
-- bytes in the buffers without that zero.
abbrev pub HasName : Inflater → List ℕ → List ℕ → Progress → Type 0
HasName i str rest (goes_on i' rest') =
    (i'.state ≡ InflateState.check_valuelen)
    × (rest' ≡ rest)
    × (text i'.nvbufs ≡ (text i.nvbufs ++ str) ++ 0 ∷ [])
    × (i'.newnamelen ≡ bufs_len i.nvbufs + length str)
HasName i str rest (almost_ok i') = ⊥

end_name_lem :
    (i i' : Inflater) (str rest : List ℕ)
    → i'.left ≡ 0
    → IsReady 1 i'.nvbufs
    → 0 < bufs_cur_avail i'.nvbufs
    → text i'.nvbufs ≡ text i.nvbufs ++ str
    → bufs_len i'.nvbufs ≡ bufs_len i.nvbufs + length str
    → (p : Progress) × (end_name i' rest ≡ ok p) × HasName i str rest p
unfolding end_name bufs_addb
end_name_lem i i' str rest left ready room e len =
    let zero_left : (i'.left == 0) ≡ true = (==_iff i'.left 0).1 left in
    let a = bufs_fast_addb_lem 1 i'.nvbufs 0 ready room (omega arith) in
    (
      goes_on
          (record i' {
            newnamelen = bufs_len i'.nvbufs;
            nvbufs = bufs_fast_addb i'.nvbufs 0;
            state = InflateState.check_valuelen;
          })
          rest,
      rw (zero_left, lt→ltb 0 (bufs_cur_avail i'.nvbufs) room) refl,
      (refl, refl, a.0 ∙ ap (λ t. t ++ 0 ∷ []) e, len),
    )

read_namehuff_lem :
    (i : Inflater) (bs str : List ℕ) (p : List Bool) (rest : List ℕ)
    → i.left ≡ length bs
    → i.huff_decode_ctx ≡ huff_decode_context_init
    → Bytes bs
    → Bytes str
    → byte_bits bs ≡ codes_of str ++ p
    → is_padding p ≡ true
    → IsReady 1 i.nvbufs
    → length str + 1 ≤ bufs_cur_avail i.nvbufs
    → (q : Progress) × (read_namehuff i (bs ++ rest) ≡ ok q) × HasName i str rest q
unfolding read_namehuff inflate_read_huff
read_namehuff_lem i bs str p rest left ctx small b coded pad ready room =
    let (r, h, t, n, ready', spare, len) =
      huff_decode_room 1 i.nvbufs bs str p small b ready room pad coded in
    let j = record i { huff_decode_ctx = r.0; nvbufs = r.1; left = i.left - r.2 } in
    let (q, e, name) = end_name_lem i j str rest (omega (arith, left, n)) ready' spare t len in
    let whole : leb i.left (length (bs ++ rest)) ≡ true =
      le→leb _ _ (omega (arith, left, length-append bs rest)) in
    let cut : take i.left (bs ++ rest) ≡ bs =
      ap (λ k. take k (bs ++ rest)) left ∙ take-append bs rest in
    let behind : drop r.2 (bs ++ rest) ≡ rest =
      ap (λ k. drop k (bs ++ rest)) n ∙ drop-append bs rest in
    let read : huff_decode i.huff_decode_ctx i.nvbufs bs true ≡ ok r =
      ap (λ c. huff_decode c i.nvbufs bs true) ctx ∙ h in
    (q, rw (whole, cut, read, behind) e, name)

read_name_lem :
    (i : Inflater) (str rest : List ℕ)
    → i.left ≡ length str
    → Bytes str
    → IsReady 1 i.nvbufs
    → length str + 1 ≤ bufs_cur_avail i.nvbufs
    → (q : Progress) × (read_name i (str ++ rest) ≡ ok q) × HasName i str rest q
unfolding read_name inflate_read
read_name_lem i str rest left b ready room =
    let a = bufs_cpymem_lem 1 i.nvbufs str ready (omega (arith, room)) in
    let len : min (length (str ++ rest)) i.left ≡ length str =
      omega (arith, left, length-append str rest) in
    let cut : take (min (length (str ++ rest)) i.left) (str ++ rest) ≡ str =
      ap (λ k. take k (str ++ rest)) len ∙ take-append str rest in
    let behind : drop (min (length (str ++ rest)) i.left) (str ++ rest) ≡ rest =
      ap (λ k. drop k (str ++ rest)) len ∙ drop-append str rest in
    let j = record i {
      nvbufs = bufs_cpymem i.nvbufs str;
      left = i.left - min (length (str ++ rest)) i.left;
    } in
    let (q, e, name) =
      end_name_lem i j str rest (omega (arith, left, len)) a.1 (omega (arith, a.2, room))
        (a.0 ∙ ap (λ t. text i.nvbufs ++ t) (Bytes-low8_eq str b))
        (bufs_len-cpymem 1 i.nvbufs str ready (omega (arith, room))) in
    (q, rw (cut, bufs_add_total i.nvbufs str (omega (arith, room)), behind) e, name)

-- Two rounds of the loop read a name: one its length, one its bytes.
abbrev pub ReadsName : Inflater → List ℕ → List ℕ → List ℕ → Type 0
ReadsName i s str rest =
    (i' : Inflater) × (src : List ℕ) × (p : Progress) × (name_step i (s ++ rest)
      ≡ ok (goes_on i' src))
    × (name_step i' src ≡ ok p)
    × HasName i str rest p

read_body :
    (i : Inflater) (str rest bs : List ℕ) (shift : ℕ) (huffman : Bool)
    → Bytes bs
    → Bytes str
    → IsReady 1 i.nvbufs
    → length str + 1 ≤ bufs_cur_avail i.nvbufs
    → (if huffman
        then ((p : List Bool) × (byte_bits bs ≡ codes_of str ++ p) × (is_padding p ≡ true))
        else (bs ≡ str))
    → (q : Progress) × (name_step (at_body i huffman (length bs) shift) (bs ++ rest) ≡ ok q)
      × HasName i str rest q
unfolding name_step name_switch
read_body i str rest bs shift true small b ready room (p, coded, pad) =
    read_namehuff_lem (at_body i true (length bs) shift) bs str p rest refl refl small b coded pad
      ready room
read_body i str rest bs shift false small b ready room e =
    let (q, h, name) =
      read_name_lem (at_body i false (length bs) shift) str rest (ap length e) b ready room in
    (q, ap (λ u. read_name (at_body i false (length bs) shift) (u ++ rest)) e ∙ h, name)

name_step_lem :
    (i : Inflater) (str s rest : List ℕ)
    → i.state ≡ InflateState.newname_check_namelen
    → Literal str s
    → Bytes str
    → length str ≤ max_nv
    → IsReady 1 i.nvbufs
    → length str + 1 ≤ bufs_cur_avail i.nvbufs
    → ReadsName i s str rest
unfolding name_step name_switch
name_step_lem i str s rest state l b long ready room =
    let (shift, e) =
      check_namelen_lem i l.huffman (length l.bs) (l.bs ++ rest)
        (omega (arith, l.length_le, long)) in
    let (q, h, name) = read_body i str rest l.bs shift l.huffman l.small b ready room l.body in
    (
      at_body i l.huffman (length l.bs) shift,
      l.bs ++ rest,
      q,
      ap (λ st. name_switch st i (s ++ rest)) state
          ∙ ap (check_namelen i) (
              ap (λ u. u ++ rest) l.bytes
              ∙ append_assoc (sent (first_bit l.huffman) (length l.bs) 7) l.bs rest)
          ∙ e,
      h,
      name,
    )

-- A string that the deflater emits where there is room, in Huffman coding or not, is read back by
-- the inflater as a name, whatever follows: the length in one round of its loop and the name in
-- the next one, with a zero behind it and none of what follows taken. `newnamelen` is the number of
-- bytes that were in the buffers and the length of the name.
pub emit_string-name_step :
    (bufs : Bufs) (str rest : List ℕ) (i : Inflater)
    → Bytes str
    → length str ≤ max_nv
    → IsReady 4 bufs
    → string_room str ≤ bufs_cur_avail bufs
    → i.state ≡ InflateState.newname_check_namelen
    → IsReady 1 i.nvbufs
    → length str + 1 ≤ bufs_cur_avail i.nvbufs
    → (bufs' : Bufs) × (s : List ℕ) × (emit_string bufs str ≡ ok bufs')
      × (text bufs' ≡ text bufs ++ s)
      × ReadsName i s str rest
emit_string-name_step bufs str rest i b long ready room state ready' room' =
    let (bufs', s, e, t, l) = emit_string_total bufs str b ready long room in
    (bufs', s, e, t, name_step_lem i str s rest state l b long ready' room')
