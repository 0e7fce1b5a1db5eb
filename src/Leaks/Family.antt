-- ===== src/Leaks/Family.antt =====
-- internal/leaks/family.go: the key of a sibling family, and the handle that a report names it by.
-- Names are texts of bytes.
pub mod Handle
use noo_noo.Common.{
  Bool, Option, [], false, if◌then◌else◌, leb, length, none, not, some, true, ℕ, ◌&&◌, ◌++◌, ◌==◌,
  ◌||◌, ◌∷◌,
}
use noo_noo.Leaks.Text.{Bytes, all_bytes, is_digit, is_lower, is_upper}

pub record FamilyKey : Type 0 where
  pub prefix : Bytes
  pub sep : Bytes

-- the separators "-_."
abbrev pub is_sep : ℕ → Bool
is_sep c = c == b'-' || c == b'_' || c == b'.'

-- A name in two: the longest tail whose bytes all pass the test, and what stands before it.
abbrev pub put_front : (ℕ → Bool) → ℕ → Bytes × Bytes → Bytes × Bytes
put_front p c ([], tail) = if p c then ([], c ∷ tail) else (c ∷ [], tail)
put_front p c (d ∷ front, tail) = (c ∷ d ∷ front, tail)

unfoldable pub split_tail : (ℕ → Bool) → Bytes → Bytes × Bytes
split_tail p [] = ([], [])
split_tail p (c ∷ s) = put_front p c (split_tail p s)

-- all but the last byte, and the last byte
abbrev pub keep_first : ℕ → Option (Bytes × ℕ) → Option (Bytes × ℕ)
keep_first c none = some ([], c)
keep_first c (some (init, last)) = some (c ∷ init, last)

unfoldable pub split_last : Bytes → Option (Bytes × ℕ)
split_last [] = none
split_last (c ∷ s) = keep_first c (split_last s)

abbrev pub is_empty : Bytes → Bool
is_empty [] = true
is_empty (c ∷ s) = false

abbrev pub is_alnum : ℕ → Bool
is_alnum c = is_digit c || is_lower c || is_upper c

-- the key of a prefix with digits behind it
abbrev pub digits_key : Bytes → Option (Bytes × ℕ) → FamilyKey
digits_key front none = record { prefix = front; sep = [] }
digits_key front (some (init, last)) =
    if not (is_empty init) && is_sep last
    then record { prefix = init; sep = last ∷ [] }
    else record { prefix = front; sep = [] }

-- `.` takes no newline
abbrev pub no_newline : ℕ → Bool
no_newline c = not (c == 10)

-- trailingDigits: anything, a byte that is no digit, and six digits or more
abbrev pub matches_digits : Option (Bytes × ℕ) → Bytes → Bool
matches_digits none tail = false
matches_digits (some (init, last)) tail = all_bytes no_newline init && leb 6 (length tail)

-- a random tail: six letters and digits or more, and not a plain word
abbrev pub is_random : Bytes → Bool
is_random tail =
    all_bytes is_alnum tail
    && leb 6 (length tail)
    && not (all_bytes is_lower tail)
    && not (all_bytes is_upper tail)

-- the key of a prefix and a separator with a random tail
abbrev pub random_key : Option (Bytes × ℕ) → Bytes → Option FamilyKey
random_key none tail = none
random_key (some (init, last)) tail =
    if not (is_empty init) && is_random tail
    then some record { prefix = init; sep = last ∷ [] }
    else none

abbrev pub no_sep : ℕ → Bool
no_sep c = not (is_sep c)

unfoldable pub family_key_of : Bytes → Option FamilyKey
unfolding split_tail split_last
family_key_of name =
    let (front, digits) = split_tail is_digit name in
    let (before, tail) = split_tail no_sep name in
    if matches_digits (split_last front) digits
    then some (digits_key front (split_last front))
    else random_key (split_last before) tail

-- the last element of the handle
unfoldable pub handle_base : FamilyKey → Bytes
handle_base key = (key.prefix ++ key.sep) ++ b'*' ∷ []

-- parseFamilyHandle, of the last element
abbrev pub stem_key : Bytes → Option (Bytes × ℕ) → Option FamilyKey
stem_key stem none = none
stem_key stem (some (init, last)) =
    if not (is_sep last)
    then some record { prefix = stem; sep = [] }
    else if is_empty init
    then none
    else some record { prefix = init; sep = last ∷ [] }

abbrev pub starred_key : Option (Bytes × ℕ) → Option FamilyKey
starred_key none = none
starred_key (some (stem, last)) = if last == b'*' then stem_key stem (split_last stem) else none

unfoldable pub parse_handle_base : Bytes → Option FamilyKey
unfolding split_last
parse_handle_base base = starred_key (split_last base)
