-- ===== src/Leaks/Causality.antt =====
-- internal/leaks/causality.go: whether the processes that lsof matches are aliases of a stale tree.
-- An instant or a duration is a number of nanoseconds.
pub mod Etime
pub mod Verdict
use noo_noo.Common.{
  Bool, List, Option, [], elem_of, false, if◌then◌else◌, map, none, not, some, true, ℕ, ◌&&◌, ◌∷◌,
}
use noo_noo.Common.Int.{ltb_ℤ, pos, ℤ, ◌-ℤ◌}
use noo_noo.Leaks.Text.{Bytes, bytes_eq, codes, fields_of, parse_int}

-- ten minutes
abbrev pub causal_margin : ℕ
causal_margin = 600000000000

pub record LsofRow : Type 0 where
  pub pid : Bytes
  pub fd : Bytes

abbrev pub empty_row : LsofRow
empty_row = record { pid = []; fd = [] }

-- pid and fd of the fields of a row
unfoldable pub lsof_row_of : List Bytes → LsofRow
lsof_row_of (f0 ∷ f1 ∷ f2 ∷ f3 ∷ fs) = elim (parse_int f1) [
  | none ↦ empty_row
  | some n ↦ record { pid = f1; fd = f3 }
]
lsof_row_of _ = empty_row

unfoldable pub parse_lsof_rows : List Bytes → List LsofRow
unfolding lsof_row_of
parse_lsof_rows rows = map (λ r. lsof_row_of (fields_of r).0) rows

abbrev pub txt : Bytes
txt = codes "txt"

-- the map from processes to their start times; a process that it has is not asked again
abbrev pub Starts : Type 0
Starts = List (Bytes × ℤ)

-- the loop over the rows; `none` where it returns LIVE
unfoldable pub collect_starts : (Bytes → Option ℤ) → List LsofRow → Starts → Option Starts
collect_starts start [] starts = some starts
collect_starts start (r ∷ rs) starts =
    let known = collect_starts start rs starts in
    let asked : Option Starts = elim (start r.pid) [
      | none ↦ none
      | some t ↦ collect_starts start rs ((r.pid, t) ∷ starts)
    ] in
    if bytes_eq r.pid []
    then none
    else if not (bytes_eq r.fd txt)
    then none
    else if elem_of bytes_eq r.pid (map (λ p. p.0) starts)
    then known
    else asked

-- the process started within the margin of the tree's birth
unfoldable pub born_with : ℤ → ℤ → Bool
born_with birth t =
    let d = t -ℤ birth in
    not (ltb_ℤ d (pos 0 -ℤ pos causal_margin)) && not (ltb_ℤ (pos causal_margin) d)

abbrev pub any_born : ℤ → Starts → Bool
any_born birth [] = false
any_born birth (p ∷ ps) = let rest = any_born birth ps in if born_with birth p.1 then true else rest

-- causalVerdict: whether the tree is stale
unfoldable pub causal_verdict : List LsofRow → (Bytes → Option ℤ) → ℤ → ℤ → Bool
unfolding collect_starts
causal_verdict [] start birth now = true
causal_verdict (r ∷ rs) start birth now =
    if ltb_ℤ (now -ℤ birth) (pos causal_margin)
    then false
    else elim (collect_starts start (r ∷ rs) []) [
      | none ↦ false
      | some starts ↦ not (any_born birth starts)
    ]
