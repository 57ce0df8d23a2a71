-- ===== src/Helper/Charset/Laws.antt =====
-- The tables of lib/nghttp2_helper.c against the character classes that they stand for.
use newhttp.Common.{
  ℕ, ◌+◌, ◌<◌, ◌≡◌, refl, ap₂, Bool, true, false, ◌&&◌, ◌||◌, not, List, [], ◌∷◌, map, arith, leb,
  ◌==◌, ==_iff, if◌then◌else◌, get_or, All,
}
use newhttp.Common.Table.{holds_below, holds_below_at}
use newhttp.Helper.Charset.{
  downcase_tbl, valid_hd_name_chars, valid_hd_value_chars, downcase, all_valid, check_header_name,
  check_header_value,
}

abbrev pub IsByte : ℕ → Type 0
IsByte c = c < 256

-- ASCII upper case to lower case.
abbrev pub lower : ℕ → ℕ
lower c = if leb b'A' c && leb c b'Z' then c + 32 else c

-- The characters of a token (RFC 7230, section 3.2.6) that are not upper case letters.
abbrev pub is_lower_tchar : ℕ → Bool
is_lower_tchar c =
    leb b'a' c && leb c b'z'
    || leb b'0' c && leb c b'9'
    || c == b'!'
    || leb b'#' c && leb c 0x27
    || c == b'*'
    || c == b'+'
    || c == b'-'
    || c == b'.'
    || leb b'^' c && leb c b'`'
    || c == b'|'
    || c == b'~'

-- Visible characters, the space, the tab and what is not ASCII.
abbrev pub is_value_char : ℕ → Bool
is_value_char c = c == 9 || leb 32 c && not (c == 127)

abbrev pub every : (ℕ → Bool) → List ℕ → Bool
every p [] = true
every p (c ∷ s) = p c && every p s

abbrev pub is_token : List ℕ → Bool
is_token [] = false
is_token (c ∷ s) = every is_lower_tchar (c ∷ s)

-- A token in lower case, or a colon and such a token.
abbrev pub is_field_name : List ℕ → Bool
is_field_name [] = false
is_field_name (c ∷ s) = if c == b':' then is_token s else is_token (c ∷ s)

downcase_table : holds_below (λ c. get_or downcase_tbl c 0 == lower c) 256 ≡ true
unfolding holds_below downcase_tbl
downcase_table = refl

bool_eq : Bool → Bool → Bool
bool_eq true b = b
bool_eq false b = not b

bool_eq_sound : (a b : Bool) → bool_eq a b ≡ true → a ≡ b
unfolding bool_eq
bool_eq_sound a b h = ground arith

name_table :
    holds_below (λ c. bool_eq (not (get_or valid_hd_name_chars c 0 == 0)) (is_lower_tchar c)) 256
    ≡ true
unfolding holds_below valid_hd_name_chars bool_eq
name_table = refl

value_table :
    holds_below (λ c. bool_eq (not (get_or valid_hd_value_chars c 0 == 0)) (is_value_char c)) 256
    ≡ true
unfolding holds_below valid_hd_value_chars bool_eq
value_table = refl

all_valid-every :
    (table : List ℕ) (p : ℕ → Bool)
    → holds_below (λ c. bool_eq (not (get_or table c 0 == 0)) (p c)) 256 ≡ true
    → (s : List ℕ) → All IsByte s
    → all_valid table s ≡ every p s
unfolding all_valid
all_valid-every table p h [] b = refl
all_valid-every table p h (c ∷ s) b =
    let e = bool_eq_sound _ (p c) (holds_below_at _ 256 c b.0 h) in
    ground (arith, e, all_valid-every table p h s b.1)

-- The table lookup is the change of ASCII upper case letters to lower case, on every byte string.
pub downcase-map-lower : (s : List ℕ) → All IsByte s → downcase s ≡ map lower s
unfolding downcase
downcase-map-lower [] h = refl
downcase-map-lower (c ∷ s) h =
    let e = (==_iff _ _).0 (holds_below_at _ 256 c h.0 downcase_table) in
    ap₂ ◌∷◌ e (downcase-map-lower s h.1)

-- A header name of bytes passes exactly if it is a lower case token, or a colon and a lower case token.
pub check_header_name-is_field_name :
    (name : List ℕ) → All IsByte name → check_header_name name ≡ is_field_name name
unfolding check_header_name
check_header_name-is_field_name [] h = refl
check_header_name-is_field_name (c ∷ []) h =
    ground (arith, all_valid-every valid_hd_name_chars is_lower_tchar name_table (c ∷ []) h)
check_header_name-is_field_name (c ∷ d ∷ s) h = ground (
  arith,
  all_valid-every valid_hd_name_chars is_lower_tchar name_table (c ∷ d ∷ s) h,
  all_valid-every valid_hd_name_chars is_lower_tchar name_table (d ∷ s) h.1,
)

-- A header value of bytes passes exactly if it has no control character but the tab.
pub check_header_value-every :
    (value : List ℕ) → All IsByte value → check_header_value value ≡ every is_value_char value
unfolding check_header_value
check_header_value-every value h =
    all_valid-every valid_hd_value_chars is_value_char value_table value h
