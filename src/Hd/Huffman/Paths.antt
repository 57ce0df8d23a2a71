-- ===== src/Hd/Huffman/Paths.antt =====
-- The bits that a state of the decoder stands for: those read since the last symbol.
use newhttp.Common.{List, ◌++◌}
use newhttp.Hd.Huffman.Types.{HuffSym, four}

unfoldable pub state_paths : List HuffSym
state_paths =
    four 0 0x0 1 0x0 2 0x0 3 0x0
    ++ four 4 0x0 4 0x1 3 0x1 4 0x2
    ++ four 4 0x3 2 0x1 3 0x2 4 0x4
    ++ four 4 0x5 5 0xa 5 0xb 3 0x3
    ++ four 4 0x6 5 0xc 5 0xd 4 0x7
    ++ four 5 0xe 5 0xf 1 0x1 2 0x2
    ++ four 3 0x4 4 0x8 5 0x10 5 0x11
    ++ four 4 0x9 5 0x12 5 0x13 3 0x5
    ++ four 4 0xa 5 0x14 5 0x15 4 0xb
    ++ four 5 0x16 5 0x17 6 0x2e 6 0x2f
    ++ four 2 0x3 3 0x6 4 0xc 5 0x18
    ++ four 6 0x30 6 0x31 5 0x19 6 0x32
    ++ four 6 0x33 4 0xd 5 0x1a 6 0x34
    ++ four 6 0x35 5 0x1b 6 0x36 6 0x37
    ++ four 3 0x7 4 0xe 5 0x1c 6 0x38
    ++ four 6 0x39 5 0x1d 6 0x3a 6 0x3b
    ++ four 4 0xf 5 0x1e 6 0x3c 6 0x3d
    ++ four 5 0x1f 6 0x3e 7 0x7c 7 0x7d
    ++ four 6 0x3f 7 0x7e 7 0x7f 8 0xfe
    ++ four 9 0x1fc 9 0x1fd 8 0xff 9 0x1fe
    ++ four 10 0x3fd 9 0x1ff 10 0x3fe 11 0x7fd
    ++ four 10 0x3ff 11 0x7fe 12 0xffc 12 0xffd
    ++ four 11 0x7ff 12 0xffe 12 0xfff 13 0x1ffe
    ++ four 13 0x1fff 14 0x3ffe 14 0x3fff 15 0x7fff
    ++ four 16 0xfffe 17 0x1fffc 18 0x3fff8 18 0x3fff9
    ++ four 19 0x7fff3 17 0x1fffd 18 0x3fffa 19 0x7fff4
    ++ four 19 0x7fff5 18 0x3fffb 19 0x7fff6 19 0x7fff7
    ++ four 20 0xfffee 20 0xfffef 16 0xffff 17 0x1fffe
    ++ four 18 0x3fffc 19 0x7fff8 20 0xffff0 20 0xffff1
    ++ four 19 0x7fff9 20 0xffff2 20 0xffff3 18 0x3fffd
    ++ four 19 0x7fffa 20 0xffff4 21 0x1fffe9 20 0xffff5
    ++ four 21 0x1fffea 21 0x1fffeb 19 0x7fffb 20 0xffff6
    ++ four 21 0x1fffec 21 0x1fffed 20 0xffff7 21 0x1fffee
    ++ four 21 0x1fffef 17 0x1ffff 18 0x3fffe 19 0x7fffc
    ++ four 20 0xffff8 21 0x1ffff0 21 0x1ffff1 20 0xffff9
    ++ four 21 0x1ffff2 21 0x1ffff3 19 0x7fffd 20 0xffffa
    ++ four 21 0x1ffff4 21 0x1ffff5 20 0xffffb 21 0x1ffff6
    ++ four 22 0x3fffec 22 0x3fffed 21 0x1ffff7 22 0x3fffee
    ++ four 22 0x3fffef 18 0x3ffff 19 0x7fffe 20 0xffffc
    ++ four 21 0x1ffff8 22 0x3ffff0 22 0x3ffff1 21 0x1ffff9
    ++ four 22 0x3ffff2 22 0x3ffff3 20 0xffffd 21 0x1ffffa
    ++ four 22 0x3ffff4 22 0x3ffff5 21 0x1ffffb 22 0x3ffff6
    ++ four 22 0x3ffff7 19 0x7ffff 20 0xffffe 21 0x1ffffc
    ++ four 22 0x3ffff8 22 0x3ffff9 21 0x1ffffd 22 0x3ffffa
    ++ four 23 0x7ffff5 22 0x3ffffb 23 0x7ffff6 23 0x7ffff7
    ++ four 20 0xfffff 21 0x1ffffe 22 0x3ffffc 23 0x7ffff8
    ++ four 23 0x7ffff9 22 0x3ffffd 23 0x7ffffa 23 0x7ffffb
    ++ four 24 0xfffff6 24 0xfffff7 21 0x1fffff 22 0x3ffffe
    ++ four 23 0x7ffffc 24 0xfffff8 25 0x1fffff0 25 0x1fffff1
    ++ four 24 0xfffff9 25 0x1fffff2 25 0x1fffff3 23 0x7ffffd
    ++ four 24 0xfffffa 25 0x1fffff4 25 0x1fffff5 24 0xfffffb
    ++ four 25 0x1fffff6 25 0x1fffff7 26 0x3ffffef 22 0x3fffff
    ++ four 23 0x7ffffe 24 0xfffffc 25 0x1fffff8 26 0x3fffff0
    ++ four 26 0x3fffff1 25 0x1fffff9 26 0x3fffff2 26 0x3fffff3
    ++ four 24 0xfffffd 25 0x1fffffa 26 0x3fffff4 26 0x3fffff5
    ++ four 25 0x1fffffb 26 0x3fffff6 26 0x3fffff7 23 0x7fffff
    ++ four 24 0xfffffe 25 0x1fffffc 26 0x3fffff8 27 0x7fffff1
    ++ four 26 0x3fffff9 27 0x7fffff2 27 0x7fffff3 25 0x1fffffd
    ++ four 26 0x3fffffa 27 0x7fffff4 27 0x7fffff5 26 0x3fffffb
    ++ four 27 0x7fffff6 27 0x7fffff7 24 0xffffff 25 0x1fffffe
    ++ four 26 0x3fffffc 27 0x7fffff8 27 0x7fffff9 26 0x3fffffd
    ++ four 27 0x7fffffa 27 0x7fffffb 25 0x1ffffff 26 0x3fffffe
    ++ four 27 0x7fffffc 27 0x7fffffd 26 0x3ffffff 27 0x7fffffe
    ++ four 27 0x7ffffff 28 0xfffffff 29 0x1ffffffe 29 0x1fffffff
