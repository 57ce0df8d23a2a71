-- ===== src/Session/Receive/Range.antt =====
-- Sizes in the range of `int32_t`, on which its arithmetic is exact.
use newhttp.Common.{
  ℕ, ◌+◌, ◌-◌, ◌^◌, ◌≤◌, ◌≡◌, refl, arith, ap, Bool, true, false, ◌||◌, none, some, ◌⊎◌, inl, inr,
}
use newhttp.Common.Int.{ℤ, pos, ◌+ℤ◌, ◌-ℤ◌, ◌≤ℤ◌, int_laws, ltb_ℤ}
use newhttp.Helper.Window.{max_window_size, int32_max, int32_min}
use newhttp.Session.Receive.{to_size, to_int32, int32, adjust_recv_window_size}

abbrev pub IsInt32 : ℤ → Type 0
IsInt32 x = (int32_min ≤ℤ x) × (x ≤ℤ int32_max)

pub to_int32_exact : (n : ℕ) → n ≤ 2 ^ 31 - 1 → to_int32 n ≡ pos n
to_int32_exact n h = ground arith

pub int32_exact : (x : ℤ) → IsInt32 x → int32 x ≡ x
int32_exact x h = ground arith

add_exact :
    (x : ℤ) (n : ℕ)
    → n ≤ 2 ^ 31 - 1
    → IsInt32 x
    → x +ℤ pos n ≤ℤ int32_max
    → to_int32 (to_size x + n) ≡ x +ℤ pos n
unfolding ◌+ℤ◌
add_exact x n small h fits = ground arith

-- The peer sends more than the window, or than a window can be.
abbrev pub Exceeds : ℤ → ℕ → ℤ → Type 0
Exceeds recv delta limit =
    (limit +ℤ pos 1 ≤ℤ recv +ℤ pos delta) ⊎ (pos (2 ^ 31) ≤ℤ recv +ℤ pos delta)

abbrev pub Within : ℤ → ℕ → ℤ → Type 0
Within recv delta limit = recv +ℤ pos delta ≤ℤ limit

-- The sizes are those of `int32_t`, and so is the difference of the window and `delta`.
pub record InRange (recv : ℤ) (delta : ℕ) (limit : ℤ) : Type 0 where
  pub delta_le : delta ≤ 2 ^ 31 - 1
  pub recv_fits : IsInt32 recv
  pub limit_le : limit ≤ℤ int32_max
  pub rest_fits : int32_min ≤ℤ limit -ℤ pos delta

-- The two tests without the conversions.
abbrev refused : ℤ → ℕ → ℤ → Bool
refused recv delta limit =
    ltb_ℤ (limit -ℤ pos delta) recv || ltb_ℤ (max_window_size -ℤ pos delta) recv

refused-Exceeds :
    (recv : ℤ) (delta : ℕ) (limit : ℤ)
    → ((refused recv delta limit ≡ true) × Exceeds recv delta limit)
      ⊎ ((refused recv delta limit ≡ false)
          × Within recv delta limit
          × (recv +ℤ pos delta ≤ℤ int32_max))
unfolding ◌+ℤ◌ ◌-ℤ◌
refused-Exceeds recv delta limit = ground arith

pub adjust-Exceeds :
    (recv : ℤ) (delta : ℕ) (limit : ℤ)
    → InRange recv delta limit
    → ((adjust_recv_window_size recv delta limit ≡ none) × Exceeds recv delta limit)
      ⊎ ((adjust_recv_window_size recv delta limit ≡ some (recv +ℤ pos delta))
          × Within recv delta limit)
unfolding adjust_recv_window_size
adjust-Exceeds recv delta limit range =
    let cast = to_int32_exact delta range.delta_le in
    let rest =
      int32_exact (limit -ℤ pos delta) (range.rest_fits, omega (int_laws, range.limit_le)) in
    let most =
      int32_exact (pos (2 ^ 31 - 1) -ℤ pos delta)
        (omega (int_laws, range.delta_le), omega (int_laws, range.delta_le)) in
    elim (refused-Exceeds recv delta limit) [
      | inl (e, x) ↦ rw (cast, rest, most, e) (inl (refl, x))
      | inr (e, w, small) ↦
          rw (cast, rest, most, e)
            (inr (ap some (add_exact recv delta range.delta_le range.recv_fits small), w))
    ]
