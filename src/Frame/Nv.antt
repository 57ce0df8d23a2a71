-- ===== src/Frame/Nv.antt =====
-- lib/nghttp2_frame.c: name/value pairs and the check of SETTINGS entries.
pub mod Laws
use newhttp.Common.{
  ℕ, zero, suc, ◌+◌, ◌-◌, ◌^◌, Bool, true, false, ◌&&◌, ◌||◌, List, [], ◌∷◌, length, ltb, leb, ◌==◌,
  if◌then◌else◌, not, take,
}
use Prim.Native.Nat.{compare, Ordering}
use newhttp.Errors.{Rv, ok, err, nomem}
use newhttp.Helper.Charset.{downcase}
use newhttp.Frame.Types.{Nv, SettingsEntry}
use newhttp.Frame.SettingsId

-- The sign of `memcmp(a, b, n)`, for `a` and `b` of `n` bytes at least.
unfoldable pub memcmp : List ℕ → List ℕ → ℕ → Ordering
memcmp a b zero = Ordering.eq
memcmp [] b (suc n) = Ordering.eq
memcmp (x ∷ a) [] (suc n) = Ordering.eq
memcmp (x ∷ a) (y ∷ b) (suc n) = elim (compare x y) [
  | Ordering.lt ↦ Ordering.lt
  | Ordering.eq ↦ memcmp a b n
  | Ordering.gt ↦ Ordering.gt
]

abbrev pub is_eq : Ordering → Bool
is_eq Ordering.lt = false
is_eq Ordering.eq = true
is_eq Ordering.gt = false

-- The first argument, unless it is 0.
abbrev pub or_else : Ordering → Ordering → Ordering
or_else Ordering.lt y = Ordering.lt
or_else Ordering.eq y = y
or_else Ordering.gt y = Ordering.gt

unfoldable pub bytes_compar : List ℕ → List ℕ → Ordering
unfolding memcmp
bytes_compar a b =
    if length a == length b
    then memcmp a b (length a)
    else if ltb (length a) (length b)
    then or_else (memcmp a b (length a)) Ordering.lt
    else or_else (memcmp a b (length b)) Ordering.gt

unfoldable pub nv_compare_name : Nv → Nv → Ordering
unfolding bytes_compar
nv_compare_name lhs rhs = bytes_compar lhs.name rhs.name

unfoldable pub nv_compar : Nv → Nv → Ordering
unfolding bytes_compar
nv_compar a b = or_else (bytes_compar a.name b.name) (bytes_compar a.value b.value)

unfoldable pub nv_equal : Nv → Nv → Bool
unfolding memcmp
nv_equal a b =
    length a.name == length b.name
    && length a.value == length b.value
    && is_eq (memcmp a.name b.name (length a.name))
    && is_eq (memcmp a.value b.value (length a.value))

copy_pairs : List Nv → List Nv
copy_pairs [] = []
copy_pairs (nv ∷ nva) =
    record { name = downcase nv.name; value = nv.value; flags = nv.flags } ∷ copy_pairs nva

-- One block of memory holds the copies, each string with a terminating zero behind it.
unfoldable pub nv_array_copy : Bool → List Nv → Rv (List Nv)
unfolding copy_pairs
nv_array_copy served [] = ok []
nv_array_copy served (nv ∷ nva) = if served then ok (copy_pairs (nv ∷ nva)) else err nomem

abbrev pub max_window_size : ℕ
max_window_size = 2 ^ 31 - 1

abbrev pub max_frame_size_min : ℕ
max_frame_size_min = 2 ^ 14

abbrev pub max_frame_size_max : ℕ
max_frame_size_max = 2 ^ 24 - 1

-- The `switch` on one entry: whether the loop goes on.
entry_ok : SettingsEntry → Bool
entry_ok e =
    if e.settings_id == SettingsId.enable_push
    then e.value == 0 || e.value == 1
    else if e.settings_id == SettingsId.initial_window_size
    then leb e.value max_window_size
    else if e.settings_id == SettingsId.max_frame_size
    then leb max_frame_size_min e.value && leb e.value max_frame_size_max
    else true

unfoldable pub iv_check : List SettingsEntry → Bool
unfolding entry_ok
iv_check [] = true
iv_check (e ∷ iv) = if entry_ok e then iv_check iv else false
