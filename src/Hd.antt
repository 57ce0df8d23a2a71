-- ===== src/Hd.antt =====
-- lib/nghttp2_hd.c and lib/nghttp2_hd.h: header compression (HPACK).
mod Tests
pub mod Ring
pub mod Table
pub mod Length
pub mod Token
pub mod Lookup
pub mod StaticTable
pub mod Huffman
pub mod Emit
pub mod Inflate
