-- ===== src/Leaks/Text.antt =====
-- What internal/leaks uses of strings, strconv and regexp, on the bytes of a text.
use Prim.Native.Char.{code}
use noo_noo.Common.{
  Bool, List, Option, String, [], false, if◌then◌else◌, leb, ltb, none, some, suc, true, zero, ℕ,
  ◌&&◌, ◌*◌, ◌+◌, ◌-◌, ◌==◌, ◌||◌, ◌∷◌,
}
use noo_noo.Common.Int.{negsuc, pos, two63, ℤ}

abbrev pub Bytes : Type 0
Bytes = List ℕ

-- A character beyond ASCII counts as one byte, which none of the tests below tells from its bytes.
abbrev pub codes : String → Bytes
codes String.[] = []
codes (String.◌∷◌ c s) = code c ∷ codes s

abbrev pub bytes_eq : Bytes → Bytes → Bool
bytes_eq [] [] = true
bytes_eq (c ∷ s) (d ∷ t) = if c == d then bytes_eq s t else false
bytes_eq _ _ = false

abbrev pub is_digit : ℕ → Bool
is_digit c = leb b'0' c && leb c b'9'

abbrev pub is_lower : ℕ → Bool
is_lower c = leb b'a' c && leb c b'z'

abbrev pub is_upper : ℕ → Bool
is_upper c = leb b'A' c && leb c b'Z'

abbrev pub all_bytes : (ℕ → Bool) → Bytes → Bool
all_bytes p [] = true
all_bytes p (c ∷ s) = p c && all_bytes p s

-- the value of the digits behind `n`; `none` where another byte stands
unfoldable pub scan_digits : ℕ → Bytes → Option ℕ
scan_digits n [] = some n
scan_digits n (c ∷ s) = if is_digit c then scan_digits (n * 10 + (c - b'0')) s else none

unfoldable pub unsigned : Bytes → Option ℕ
unfolding scan_digits
unsigned [] = none
unsigned (c ∷ s) = scan_digits 0 (c ∷ s)

abbrev pub positive : Option ℕ → Option ℤ
positive none = none
positive (some n) = if ltb n two63 then some (pos n) else none

abbrev pub negative : Option ℕ → Option ℤ
negative none = none
negative (some zero) = some (pos 0)
negative (some (suc n)) = if ltb n two63 then some (negsuc n) else none

-- strconv.ParseInt(s, 10, 64), and Atoi
unfoldable pub parse_int : Bytes → Option ℤ
unfolding unsigned
parse_int [] = none
parse_int (c ∷ s) =
    if c == b'-'
    then negative (unsigned s)
    else if c == b'+'
    then positive (unsigned s)
    else positive (unsigned (c ∷ s))

abbrev pub push_byte : ℕ → List Bytes → List Bytes
push_byte c [] = (c ∷ []) ∷ []
push_byte c (p ∷ ps) = (c ∷ p) ∷ ps

-- strings.Split at a byte
unfoldable pub split_on : ℕ → Bytes → List Bytes
split_on c [] = [] ∷ []
split_on c (d ∷ s) = let rest = split_on c s in if d == c then [] ∷ rest else push_byte d rest

-- the text before and behind the first of a byte, by strings.IndexByte
abbrev pub keep_before : ℕ → Option (Bytes × Bytes) → Option (Bytes × Bytes)
keep_before d none = none
keep_before d (some (a, b)) = some (d ∷ a, b)

unfoldable pub cut_at : ℕ → Bytes → Option (Bytes × Bytes)
cut_at c [] = none
cut_at c (d ∷ s) = let rest = cut_at c s in if d == c then some ([], s) else keep_before d rest

-- strings.Fields, for the white space of ASCII
abbrev pub is_space : ℕ → Bool
is_space c = c == b' ' || (leb 9 c && leb c 13)

-- the fields of the text, and whether a field stands open at its front
unfoldable pub fields_of : Bytes → List Bytes × Bool
fields_of [] = ([], false)
fields_of (c ∷ s) =
    let (rest, joined) = fields_of s in
    if is_space c
    then (rest, false)
    else if joined
    then (push_byte c rest, true)
    else ((c ∷ []) ∷ rest, true)
