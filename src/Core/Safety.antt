-- ===== src/Core/Safety.antt =====
-- internal/core/safety.go: what a destructive operation may touch.
pub mod Walls
use noo_noo.Common.{
  Bool, List, Option, String, [], elem_of, false, if◌then◌else◌, none, some, str_eq, true, ◌∷◌,
}
use noo_noo.Core.Paths.{abs_path, is_inside, rel}

pub record Safety : Type 0 where
  pub roots : List (List String)
  pub blocked_names : List String

-- a root whose Abs fails is left out
abbrev pub clean_roots : Option String → List String → List (List String)
clean_roots cwd [] = []
clean_roots cwd (r ∷ rs) =
    let rest = clean_roots cwd rs in elim (abs_path cwd r) [ none ↦ rest | some p ↦ p ∷ rest ]

unfoldable pub new_safety : Option String → List String → List String → Safety
new_safety cwd roots blocked = record { roots = clean_roots cwd roots; blocked_names = blocked }

-- why a deletion is refused
pub data Denial : Type 0 where
  no_abs system_area blocked_part outside_roots : Denial

-- alwaysBlocked: "/System/", "/Library/", … as the first component
abbrev pub always_blocked : List String
always_blocked = "System" ∷ "Library" ∷ "usr" ∷ "bin" ∷ "sbin" ∷ "private" ∷ []

abbrev pub in_system_area : List String → Bool
in_system_area [] = false
in_system_area (p ∷ ps) = elem_of str_eq p always_blocked

-- strings.Split(clean, "/") begins with the empty part before the first slash
abbrev pub has_blocked_part : List String → List String → Bool
has_blocked_part [] parts = false
has_blocked_part (b ∷ bs) parts =
    let rest = has_blocked_part bs parts in if elem_of str_eq b ("" ∷ parts) then true else rest

abbrev pub is_under : List (List String) → List String → Bool
is_under [] parts = false
is_under (r ∷ rs) parts =
    let rest = is_under rs parts in if is_inside (rel r parts) then true else rest

abbrev pub check_parts : Safety → List String → Option Denial
check_parts s parts =
    if in_system_area parts
    then some system_area
    else if has_blocked_part s.blocked_names parts
    then some blocked_part
    else if is_under s.roots parts
    then none
    else some outside_roots

-- `none` is Go's nil: the path may be removed
unfoldable pub can_delete : Option String → Safety → String → Option Denial
can_delete cwd s path = elim (abs_path cwd path) [
  | none ↦ some no_abs
  | some parts ↦ check_parts s parts
]
