-- ===== src/Hd/Huffman/DecodeTable.antt =====
-- lib/nghttp2_hd_huffman_data.c: `huff_decode_table`, a row of sixteen entries for each state.
pub mod Rows0
pub mod Rows64
pub mod Rows128
pub mod Rows192
use newhttp.Common.{List, ◌++◌}
use newhttp.Hd.Huffman.Types.{HuffDecode}
use newhttp.Hd.Huffman.DecodeTable.Rows0.{
  rows_0, rows_8, rows_16, rows_24, rows_32, rows_40, rows_48, rows_56,
}
use newhttp.Hd.Huffman.DecodeTable.Rows64.{
  rows_64, rows_72, rows_80, rows_88, rows_96, rows_104, rows_112, rows_120,
}
use newhttp.Hd.Huffman.DecodeTable.Rows128.{
  rows_128, rows_136, rows_144, rows_152, rows_160, rows_168, rows_176, rows_184,
}
use newhttp.Hd.Huffman.DecodeTable.Rows192.{
  rows_192, rows_200, rows_208, rows_216, rows_224, rows_232, rows_240, rows_248,
}

unfoldable pub huff_decode_table : List (List HuffDecode)
unfolding rows_0 rows_8 rows_16 rows_24 rows_32 rows_40 rows_48 rows_56 rows_64 rows_72 rows_80
    rows_88 rows_96 rows_104 rows_112 rows_120 rows_128 rows_136 rows_144 rows_152 rows_160 rows_168
    rows_176 rows_184 rows_192 rows_200 rows_208 rows_216 rows_224 rows_232 rows_240 rows_248
huff_decode_table =
    rows_0 ++ rows_8 ++ rows_16 ++ rows_24 ++ rows_32 ++ rows_40 ++ rows_48 ++ rows_56 ++ rows_64
    ++ rows_72 ++ rows_80 ++ rows_88 ++ rows_96 ++ rows_104 ++ rows_112 ++ rows_120 ++ rows_128
    ++ rows_136 ++ rows_144 ++ rows_152 ++ rows_160 ++ rows_168 ++ rows_176 ++ rows_184 ++ rows_192
    ++ rows_200 ++ rows_208 ++ rows_216 ++ rows_224 ++ rows_232 ++ rows_240 ++ rows_248
