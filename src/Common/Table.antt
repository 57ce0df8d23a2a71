-- ===== src/Common/Table.antt =====
-- A test that is run on every number below a bound, and what it shows of one of them.
use newhttp.Common.{ℕ, zero, suc, ◌<◌, ◌≡◌, Bool, true, false, arith, if◌then◌else◌}

unfoldable pub holds_below : (ℕ → Bool) → ℕ → Bool
holds_below test zero = true
holds_below test (suc k) = if test k then holds_below test k else false

pub holds_below_at : (test : ℕ → Bool) (k i : ℕ) → i < k → holds_below test k ≡ true → test i ≡ true
unfolding holds_below
holds_below_at test zero i below h = absurd (omega arith)
holds_below_at test (suc k) i below h = ground (arith, holds_below_at test k i)
