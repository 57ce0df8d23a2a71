-- ===== src/Buf/Chain.antt =====
-- lib/nghttp2_buf.h: `nghttp2_bufs`, a chain of buffers with a current one.
use newhttp.Common.{ℕ, Bool, true, false, List, [], ◌∷◌}
use newhttp.Buf.{Buf}

-- The chain is `before`, then `cur`, then `after`; `serves k` says whether the allocator gives
-- the memory for the chunk numbered `k`.
pub record Bufs : Type 0 where
  pub before : List Buf
  pub cur : Buf
  pub after : List Buf
  pub serves : ℕ → Bool
  pub chunk_length : ℕ
  pub max_chunk : ℕ
  pub chunk_used : ℕ
  pub chunk_keep : ℕ
  pub offset : ℕ

abbrev pub is_nil {ℓ} : {A : Type ℓ} → List A → Bool
is_nil [] = true
is_nil (x ∷ xs) = false

-- `bufs->head == bufs->cur`
abbrev pub head_is_cur : Bufs → Bool
head_is_cur bufs = is_nil bufs.before
