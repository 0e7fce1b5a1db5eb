-- ===== src/Core/LeakTarget.antt =====
-- internal/core/safety.go: CanDeleteLeakTarget, what a leak signature may have deleted.
-- filepath.EvalSymlinks is a parameter: it gives the clean parts of what a path resolves to.
pub mod Permitted
use Prim.Native.Char.{code}
use noo_noo.Common.{
  Bool, List, Option, String, [], false, if◌then◌else◌, leb, none, some, true, ℕ, ◌&&◌, ◌+◌, ◌==◌,
  ◌∷◌,
}
use noo_noo.Core.Glob.{any_match}
use noo_noo.Core.Paths.{abs_path, path_text}
use noo_noo.Core.Safety.{Safety, has_blocked_part}

-- strings.EqualFold, on the letters that the blocked names have
abbrev pub lower : ℕ → ℕ
lower c = if leb b'A' c && leb c b'Z' then c + 32 else c

unfoldable pub equal_fold : String → String → Bool
equal_fold String.[] String.[] = true
equal_fold String.[] (String.◌∷◌ d t) = false
equal_fold (String.◌∷◌ c s) String.[] = false
equal_fold (String.◌∷◌ c s) (String.◌∷◌ d t) =
    let rest = equal_fold s t in if lower (code c) == lower (code d) then rest else false

-- leakCategoricallyBlocked, each prefix by its parts
abbrev pub leak_blocked : List (List String)
leak_blocked =
    ("System" ∷ [])
    ∷ ("Library" ∷ [])
    ∷ ("usr" ∷ [])
    ∷ ("bin" ∷ [])
    ∷ ("sbin" ∷ [])
    ∷ ("private" ∷ "etc" ∷ [])
    ∷ []

-- the parts of the path begin with those of the prefix, whatever their case
unfoldable pub begins_fold : List String → List String → Bool
unfolding equal_fold
begins_fold [] parts = true
begins_fold (b ∷ bs) [] = false
begins_fold (b ∷ bs) (p ∷ ps) =
    let rest = begins_fold bs ps in if equal_fold p b then rest else false

abbrev pub any_begins : List (List String) → List String → Bool
any_begins [] parts = false
any_begins (b ∷ bs) parts =
    let rest = any_begins bs parts in if begins_fold b parts then true else rest

-- leakCategoricalCheck
abbrev pub leak_categorical : List String → Bool
leak_categorical parts = any_begins leak_blocked parts

-- why a deletion is refused
pub data LeakDenial : Type 0 where
  not_absolute leak_system_area unresolvable resolved_system_area leak_blocked_part no_glob :
      LeakDenial

abbrev pub check_resolved : Safety → List String → List String → Option LeakDenial
check_resolved s globs clean =
    if leak_categorical clean
    then some resolved_system_area
    else if has_blocked_part s.blocked_names clean
    then some leak_blocked_part
    else if any_match globs (path_text (some clean))
    then none
    else some no_glob

-- `none` is Go's nil: the target may be removed
unfoldable pub can_delete_leak_target :
    Option String
    → (List String → Option (List String))
    → Safety
    → String
    → List String
    → Option LeakDenial
unfolding begins_fold
can_delete_leak_target cwd eval_symlinks s path globs = elim (abs_path cwd path) [
  | none ↦ some not_absolute
  | some parts ↦
      if leak_categorical parts then some leak_system_area else elim (eval_symlinks parts) [
        | none ↦ some unresolvable
        | some clean ↦ check_resolved s globs clean
      ]
]
