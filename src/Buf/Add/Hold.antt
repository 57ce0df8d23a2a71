-- ===== src/Buf/Add/Hold.antt =====
-- lib/nghttp2_buf.h: the byte at `last`, under the operations that write it.
use newhttp.Common.{
  ℕ, ◌+◌, ◌-◌, ◌≤◌, ◌<◌, ◌≡◌, sym, ap, ◌∙◌, [], ◌∷◌, ◌++◌, take, drop, set, length-set, get_or-set,
  arith,
}
use mathlib.Core.List.{append_assoc}
use newhttp.Buf.{Buf, contents}
use newhttp.Buf.Chain.{Bufs}
use newhttp.Buf.Add.{bufs_cur_avail, put_last, step_last, at_last}
use newhttp.Buf.Add.Laws.{text, texts, IsReady, contents-put, take-set, drop-set}

abbrev pub held : Bufs → ℕ
held bufs = at_last bufs.cur

contents-hold : (b : Buf) (v : ℕ) → b.pos ≤ b.last → contents (put_last b v) ≡ contents b
contents-hold b v le =
    let e : b.pos + (b.last - b.pos) ≡ b.last = omega arith in
    let d : drop b.pos (set b.mem b.last v) ≡ set (drop b.pos b.mem) (b.last - b.pos) v =
      ap (λ k. drop b.pos (set b.mem k v)) (sym e) ∙ drop-set b.mem b.pos (b.last - b.pos) v in
    ap (take (b.last - b.pos)) d ∙ take-set (drop b.pos b.mem) (b.last - b.pos) v

module _ (r : ℕ) (bufs : Bufs) (v : ℕ) (ready : IsReady r bufs)
    (spare : 0 < bufs_cur_avail bufs) where
  -- A byte is held at `last`, and the text stays.
  abbrev pub Holds : Bufs → Type 0
  Holds bufs' =
      (text bufs' ≡ text bufs)
      × IsReady r bufs'
      × (bufs_cur_avail bufs' ≡ bufs_cur_avail bufs)
      × (held bufs' ≡ v)

  -- A byte is added.
  abbrev pub Adds : Bufs → Type 0
  Adds bufs' =
      (text bufs' ≡ text bufs ++ v ∷ [])
      × IsReady r bufs'
      × (bufs_cur_avail bufs' + 1 ≡ bufs_cur_avail bufs)

  pub put-Holds : Holds (record bufs { cur = put_last bufs.cur v })
  put-Holds =
      let len = length-set bufs.cur.mem bufs.cur.last v in
      (
        ap (λ t. texts bufs.before ++ t) (contents-hold bufs.cur v ready.pos_le),
        record {
          pos_le = ready.pos_le;
          last_le = omega (arith, ready.last_le, len);
          fresh = ready.fresh;
          room = ready.room;
        },
        omega (arith, len),
        get_or-set bufs.cur.mem bufs.cur.last v 0 (omega arith),
      )

  pub put-Adds : Adds (record bufs { cur = step_last (put_last bufs.cur v) })
  put-Adds =
      let len = length-set bufs.cur.mem bufs.cur.last v in
      (
        ap (λ t. texts bufs.before ++ t) (contents-put bufs.cur v ready.pos_le (omega arith))
            ∙ sym (append_assoc (texts bufs.before) (contents bufs.cur) (v ∷ [])),
        record {
          pos_le = omega (arith, ready.pos_le);
          last_le = omega (arith, ready.last_le, len);
          fresh = ready.fresh;
          room = ready.room;
        },
        omega (arith, len),
      )
