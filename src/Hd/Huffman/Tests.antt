-- ===== src/Hd/Huffman/Tests.antt =====
-- Tests of Huffman coding, and its theorems at concrete inputs. The bytes of `coded` are those of
-- RFC 7541, section C.4.1.
use newhttp.Common.{
  ℕ, ◌+◌, ◌*◌, ◌≤◌, ◌≡◌, refl, true, false, List, [], ◌∷◌, ◌++◌, length, replicate, arith,
}
use newhttp.Common.Text.{codes}
use newhttp.Errors.{Rv, ok, err, header_comp, buffer_error, ◌>>=◌}
use newhttp.Buf.Chain.{Bufs}
use newhttp.Buf.Add.{
  bufs_fast_addb, bufs_fast_addb_hold, bufs_fast_orb, bufs_fast_orb_hold, bufs_addb, bufs_addb_hold,
  bufs_advance,
}
use newhttp.Buf.Add.Laws.{text, IsReady}
use newhttp.Hd.Huffman.{
  HuffContext, huff_decode_context_init, huff_decode, huff_decode_loop, huff_decode_byte, huff_take,
  huff_decode_sym_emit, entry,
}
use newhttp.Hd.Huffman.DecodeTable.{huff_decode_table}
use newhttp.Hd.Huffman.SymTable.{huff_sym_table}
use newhttp.Hd.Huffman.Bits.{bits, byte_bits, codes_of, code_of}
use newhttp.Hd.Huffman.Rows.{is_padding}
use newhttp.Hd.Huffman.Laws.{
  Read, huff_decode_lem, huff_decode_total, huff_decode-append, init-IsState,
}
use newhttp.Hd.Huffman.Encode.{
  huff_encode, huff_encode_loop, huff_encode_sym, huff_start_byte, huff_encode_end,
  huff_encode_count, huff_encode_tail,
}
use newhttp.Hd.Huffman.Encode.RoundTrip.{Coded, huff_encode_lem, huff_encode-decode}

abbrev site : List ℕ
site = codes "www.example.com"

abbrev coded : List ℕ
coded = 0xf1 ∷ 0xe3 ∷ 0xc2 ∷ 0xe5 ∷ 0xf2 ∷ 0x3a ∷ 0x6b ∷ 0xa0 ∷ 0xab ∷ 0x90 ∷ 0xf4 ∷ 0xff ∷ []

-- Chunks of `n` bytes, `k` of them at most.
abbrev chunks : ℕ → ℕ → Bufs
chunks n k = record {
  before = [];
  cur = record { mem = replicate n 0; pos = 0; last = 0; mark = 0 };
  after = [];
  serves = λ i. true;
  chunk_length = n;
  max_chunk = k;
  chunk_used = 1;
  chunk_keep = 1;
  offset = 0;
}

abbrev text_of : Rv Bufs → Rv (List ℕ)
text_of m = m >>= λ b. ok (text b)

abbrev decoded : Rv (HuffContext × Bufs × ℕ) → Rv (List ℕ)
decoded m = m >>= λ x. ok (text x.1)

encode_site : text_of (huff_encode (chunks 16 1) site) ≡ ok coded
unfolding huff_encode huff_encode_loop huff_encode_sym huff_start_byte huff_encode_end
    huff_sym_table bufs_fast_addb bufs_fast_addb_hold bufs_fast_orb bufs_fast_orb_hold
encode_site = refl

-- Chunks of five bytes: the text goes on in the next one.
encode_chunks : text_of (huff_encode (chunks 5 3) site) ≡ ok coded
unfolding huff_encode huff_encode_loop huff_encode_sym huff_start_byte huff_encode_end
    huff_sym_table bufs_fast_addb bufs_fast_addb_hold bufs_fast_orb bufs_fast_orb_hold
    bufs_addb_hold bufs_advance
encode_chunks = refl

encode_no_room : text_of (huff_encode (chunks 5 2) site) ≡ err buffer_error
unfolding huff_encode huff_encode_loop huff_encode_sym huff_start_byte huff_encode_end
    huff_sym_table bufs_fast_addb bufs_fast_addb_hold bufs_fast_orb bufs_fast_orb_hold
    bufs_addb_hold bufs_advance
encode_no_room = refl

count_site : huff_encode_count site ≡ 12
unfolding huff_encode_count
count_site = refl

decode_site : decoded (huff_decode huff_decode_context_init (chunks 4 4) coded true) ≡ ok site
unfolding huff_decode huff_decode_context_init huff_decode_loop huff_decode_byte huff_take
    huff_decode_sym_emit entry huff_decode_table bufs_fast_addb bufs_addb
decode_site = refl

-- A padding of eight ones is refused.
decode_padding :
    decoded (huff_decode huff_decode_context_init (chunks 16 1) (coded ++ 0xff ∷ []) true)
    ≡ err header_comp
unfolding huff_decode huff_decode_context_init huff_decode_loop huff_decode_byte huff_take
    huff_decode_sym_emit entry huff_decode_table bufs_fast_addb bufs_addb
decode_padding = refl

-- A chunk of three bytes passes the assertion of the encoder, and a code of thirty bits behind
-- seven filled ones wants four: `last` stands at the end of the memory with a byte to hold.
overrun : (huff_encode_tail (chunks 3 1) 29 (0x1ffffffc * 8)).0.cur.last ≡ 3
unfolding huff_encode_tail bufs_fast_addb bufs_fast_addb_hold
overrun = refl

huff_encode-decode_example :
    (bufs' : Bufs) × (bs : List ℕ) × (r : HuffContext × Bufs × ℕ) × (huff_encode (chunks 16 1) site
      ≡ ok bufs')
    × (text bufs' ≡ text (chunks 16 1) ++ bs)
    × (length bs ≡ huff_encode_count site)
    × (huff_decode huff_decode_context_init (chunks 16 1) bs true ≡ ok r)
    × (text r.1 ≡ text (chunks 16 1) ++ site)
    × (r.2 ≡ length bs)
huff_encode-decode_example =
    huff_encode-decode (chunks 16 1) (chunks 16 1) site (omega arith)
      (record { pos_le = omega arith; last_le = omega arith; fresh = tt; room = omega arith })
      (record { pos_le = omega arith; last_le = omega arith; fresh = tt; room = omega arith })
      (omega (arith, count_site)) (omega arith)

-- A chain of one chunk of sixteen bytes that holds `xs`.
abbrev holding : List ℕ → Bufs
holding xs = record {
  before = [];
  cur = record { mem = xs; pos = 0; last = 15; mark = 0 };
  after = [];
  serves = λ i. true;
  chunk_length = 16;
  max_chunk = 1;
  chunk_used = 1;
  chunk_keep = 1;
  offset = 0;
}

abbrev read_site : HuffContext × Bufs × ℕ
read_site = (record { state = 74; accept = true }, holding (site ++ 0 ∷ []), 12)

decode_whole : huff_decode huff_decode_context_init (chunks 16 1) coded true ≡ ok read_site
unfolding huff_decode huff_decode_context_init huff_decode_loop huff_decode_byte huff_take
    huff_decode_sym_emit entry huff_decode_table bufs_fast_addb bufs_addb
decode_whole = refl

chunks-IsReady : (r : ℕ) → r ≤ 16 → IsReady r (chunks 16 1)
chunks-IsReady r h = record {
  pos_le = omega arith;
  last_le = omega arith;
  fresh = tt;
  room = omega arith;
}

huff_decode_lem_example : Read (chunks 16 1) coded read_site
huff_decode_lem_example =
    huff_decode_lem (chunks 16 1) coded {r = read_site} (omega arith)
      (chunks-IsReady 1 (omega arith)) decode_whole

site_bits : byte_bits coded ≡ codes_of site ++ true ∷ true ∷ true ∷ true ∷ true ∷ true ∷ true ∷ []
unfolding byte_bits codes_of code_of bits
site_bits = refl

seven_ones : is_padding (true ∷ true ∷ true ∷ true ∷ true ∷ true ∷ true ∷ []) ≡ true
unfolding is_padding
seven_ones = refl

huff_decode_total_example :
    (r : HuffContext × Bufs × ℕ) × (huff_decode huff_decode_context_init (chunks 16 1) coded true
      ≡ ok r)
    × (text r.1 ≡ text (chunks 16 1) ++ site)
    × (r.2 ≡ 12)
huff_decode_total_example =
    huff_decode_total (chunks 16 1) coded site (true ∷ true ∷ true ∷ true ∷ true ∷ true ∷ true ∷ [])
      (omega arith) (omega arith) (chunks-IsReady 1 (omega arith)) (omega arith) seven_ones
      site_bits

huff_decode-append_example :
    huff_decode huff_decode_context_init (chunks 16 1) ((0xf1 ∷ 0xe3 ∷ []) ++ 0xff ∷ []) true ≡ (
      huff_decode huff_decode_context_init (chunks 16 1) (0xf1 ∷ 0xe3 ∷ []) false >>= λ x.
      huff_decode x.0 x.1 (0xff ∷ []) true >>= λ z. ok (z.0, z.1, x.2 + z.2))
huff_decode-append_example =
    huff_decode-append huff_decode_context_init (chunks 16 1) (0xf1 ∷ 0xe3 ∷ []) (0xff ∷ []) true
      init-IsState (omega arith) (chunks-IsReady 1 (omega arith))

-- Two chunks of four bytes, the second one in use.
abbrev two_chunks : Bufs
two_chunks = record {
  before = record { mem = 0xf1 ∷ 0xe3 ∷ 0xc2 ∷ 0xe5 ∷ []; pos = 0; last = 4; mark = 0 } ∷ [];
  cur = record { mem = 0xf3 ∷ 0 ∷ 0 ∷ 0 ∷ []; pos = 0; last = 1; mark = 0 };
  after = [];
  serves = λ i. true;
  chunk_length = 4;
  max_chunk = 2;
  chunk_used = 2;
  chunk_keep = 1;
  offset = 0;
}

encode_two : huff_encode (chunks 4 2) (codes "www.ex") ≡ ok two_chunks
unfolding huff_encode huff_encode_loop huff_encode_sym huff_start_byte huff_encode_end
    huff_sym_table bufs_fast_addb bufs_fast_addb_hold bufs_fast_orb bufs_fast_orb_hold
    bufs_addb_hold bufs_advance
encode_two = refl

huff_encode_lem_example : Coded [] (codes_of (codes "www.ex")) two_chunks
huff_encode_lem_example =
    huff_encode_lem (chunks 4 2) (codes "www.ex") {bufs' = two_chunks} (omega arith)
      (record { pos_le = omega arith; last_le = omega arith; fresh = tt; room = omega arith })
      encode_two
