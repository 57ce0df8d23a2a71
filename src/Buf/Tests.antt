-- ===== src/Buf/Tests.antt =====
-- A buffer of three bytes that grows to eight.
use newhttp.Common.{◌≤◌, ◌≡◌, true, false, [], ◌∷◌, take, leb, ◌⊎◌}
use newhttp.Errors.{ok, err, nomem}
use newhttp.Buf.{Buf, buf_cap, buf_reserve}
use newhttp.Buf.Laws.{buf_reserve_lem}

abbrev three : Buf
three = record { mem = 1 ∷ 2 ∷ 3 ∷ []; pos = 1; last = 3; mark = 2 }

buf_reserve_example :
    ((b : Buf) × (buf_reserve true three 8 ≡ ok b)
      × (8 ≤ buf_cap b)
      × (take 3 b.mem ≡ 1 ∷ 2 ∷ 3 ∷ [])
      × (b.pos ≡ 1)
      × (b.last ≡ 3)
      × (b.mark ≡ 2))
    ⊎ (buf_reserve true three 8 ≡ err nomem) × (true ≡ false) × (leb 8 3 ≡ false)
buf_reserve_example = buf_reserve_lem true three 8
