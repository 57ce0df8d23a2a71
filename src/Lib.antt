-- ===== src/Lib.antt =====
-- A model of nghttp2, an HTTP/2 library in C, in lib/ of the repository.
--
-- The library reads and writes HTTP/2 frames (lib/nghttp2_frame.c) through buffers
-- (lib/nghttp2_buf.c), compresses header blocks (lib/nghttp2_hd.c), and holds every message to the
-- rules of HTTP (lib/nghttp2_http.c). A session (lib/nghttp2_session.c) joins these parts: it reads a
-- frame header, hands a payload to the reader of its type, hands header blocks to the decompressor
-- and each field that comes out to the HTTP handlers, and answers a code.
--
-- Files and what they model:
--   Common          shared names, tests, lists, bit operations, integers and memory as a list of bytes
--   Errors          the codes of lib/includes/nghttp2/nghttp2.h; `Rv` is the return code with the
--                   values written; `abort` stands for a failed `assert`
--   Helper          lib/nghttp2_helper.c: byte order, Helper/Charset for the character tables and the
--                   checks of header names and values, Helper/Window for the local window
--   Buf             lib/nghttp2_buf.h and lib/nghttp2_buf.c: pointers are offsets from `begin`;
--                   Buf/Chain and Buf/Add for chained buffers
--   Frame           lib/nghttp2_frame.c and lib/nghttp2_priority_spec.c: Frame/Types has the
--                   structures, Frame/Pack and Frame/Unpack the writers and readers, Frame/Pad the
--                   padding, Frame/Nv the pairs and the check of SETTINGS entries
--   Hd              lib/nghttp2_hd.c: Hd/StaticTable, Hd/Token and Hd/Lookup for the static table and
--                   `lookup_token`, Hd/Length for the integers of HPACK, Hd/Table for
--                   the dynamic table with its ring buffer as a list
--                   Hd/Ring has that ring buffer, with the same operations on it
--                   Hd/Huffman has lib/nghttp2_hd_huffman.c with the two tables of
--                   lib/nghttp2_hd_huffman_data.c: the decoder, and Hd/Huffman/Encode the encoder
--                   Hd/Emit has the blocks that the deflater writes, Hd/Inflate the states of the
--                   inflater that read a name
--   Map             lib/nghttp2_map.c: the hash map from identifiers to streams
--   Outbound        lib/nghttp2_outbound_item.c: the linked queue of outbound items
--   Session         lib/nghttp2_session.c: stream numbers and the map of streams, Session/Queue for the
--                   frames that the session queues by itself, Session/Receive and Session/Consume for
--                   the receiving side of flow control, Session/Data for the checks of a DATA frame,
--                   Session/WindowUpdate for the frame of the connection
--   Http            lib/nghttp2_http.c: Http/OnHeader for one field, Http/Message for the end of a
--                   block and of a body, Http/Block for the loop over the fields of a block in
--                   `inflate_header_block` of lib/nghttp2_session.c
--   Pq              lib/nghttp2_pq.c: the priority queue
--
-- Bounds: memory is a list of bytes, and a write through a pointer replaces bytes at an offset. The
-- native numbers have no bound, so where C computes in a fixed width the model writes the remainder
-- or the theorem asks for the range. Every loop is a recursion on the list or the count that it
-- runs over, so no fuel is needed, but for these: the integer encoder of HPACK, whose fuel is the
-- number, which each step divides by 128; eviction, whose fuel is the number of entries, which each
-- step lowers by one; the search for the size of a ring, which 64 doublings end for sizes up to
-- 2^63 (beyond, the loop of the source does not end, and the model gives `abort`); the loop of
-- `nghttp2_bufs_add`, which copies at least one byte in two rounds; and the loops of the heap,
-- which move along a path of the tree. The heap's loops give nothing when fuel is missing, and the
-- theorems on push, pop, remove and update show that it is not. A shift that C does not define is a
-- result of its own (`undefined` in Hd/Length).
--
-- Allocation is outside: a function that allocates takes a Boolean which says whether it is served,
-- or a function from the size asked for to such a Boolean. So are the callbacks of the application,
-- whose results are arguments, and the comparison of the heap, which is assumed to compare keys.
-- Pointers to entries are addresses in Pq and Map; the chains of a bucket and the queues of a
-- session are lists.
-- Not modelled: reading and sending of frames by the session but for what is named above, opening
-- and closing of streams, SETTINGS of the session, the dependency tree of streams, chained buffers
-- but for the bytes that are added at their end, the inflater but for the states that read a name,
-- the deflater but for the blocks that it writes, options and callbacks. Http/Block takes the
-- fields that the decompressor emits as a list, and leaves out the callbacks of the application.
-- The programs in src/, which use the library, and the vendored parser in third-party/ are not
-- modelled.
pub mod Common
pub mod Errors
pub mod Helper
pub mod Buf
pub mod Frame
pub mod Hd
pub mod Http
pub mod Pq
pub mod Map
pub mod Session
pub mod Outbound
