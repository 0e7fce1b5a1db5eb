-- ===== src/Leaks/Causality/Etime.antt =====
-- internal/leaks/causality.go: parseEtime, which reads the elapsed time that ps prints, [[dd-]hh:]mm:ss.
pub mod Printed
use noo_noo.Common.{List, Option, [], none, some, ◌∷◌}
use noo_noo.Common.Int.{add64, mul64, pos, ℤ}
use noo_noo.Leaks.Text.{Bytes, cut_at, parse_int, split_on}

-- the loop over the parts
unfoldable pub total_of : ℤ → List Bytes → Option ℤ
total_of total [] = some total
total_of total (p ∷ ps) = elim (parse_int p) [
  | none ↦ none
  | some n ↦ total_of (add64 (mul64 total (pos 60)) n) ps
]

-- two parts or three
abbrev pub total_parts : List Bytes → Option ℤ
total_parts (a ∷ b ∷ []) = total_of (pos 0) (a ∷ b ∷ [])
total_parts (a ∷ b ∷ c ∷ []) = total_of (pos 0) (a ∷ b ∷ c ∷ [])
total_parts _ = none

-- time.Second and time.Hour
abbrev pub second : ℤ
second = pos 1000000000

abbrev pub hour : ℤ
hour = pos 3600000000000

abbrev pub with_days : ℤ → Option ℤ → Option ℤ
with_days days none = none
with_days days (some total) = some (add64 (mul64 total second) (mul64 (mul64 days (pos 24)) hour))

-- the text behind the days, once these are read
abbrev pub parse_clock : ℤ → Bytes → Option ℤ
parse_clock days s = with_days days (total_parts (split_on b':' s))

unfoldable pub parse_etime : Bytes → Option ℤ
unfolding total_of
parse_etime [] = none
parse_etime (c ∷ s) = elim (cut_at b'-' (c ∷ s)) [
  | none ↦ parse_clock (pos 0) (c ∷ s)
  | some (a, b) ↦ elim (parse_int a) [ none ↦ none | some n ↦ parse_clock n b ]
]
