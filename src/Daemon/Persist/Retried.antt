-- ===== src/Daemon/Persist/Retried.antt =====
-- What the retried rows carry into the gates and the budget.
use noo_noo.Store.{Store, StoredSuggestion}
use noo_noo.Store.Suggestions.{dismiss_suggestion, list_open_suggestions}
use noo_noo.Heuristics.{Suggestion, evidence_at}
use noo_noo.Autoclean.{Numbers, self_proving, suggestion_size}
use noo_noo.Daemon.Persist.{is_retried, open_leak_suggestions, reopened, retry_listed, retry_rows}
use noo_noo.Common.{
  All, Bool, Bool-cases, List, Option, String, [], arith, inl, inr, none, refl, some, true, ℕ, ◌∷◌,
  ◌≡◌,
}
use noo_noo.Common.Int.{pos}

-- exempt from the size gate, and free of charge
abbrev pub IsFree : Numbers → Suggestion → Type 0
IsFree ns s = (self_proving s.module_name ≡ true) × (suggestion_size ns s ≡ pos 0)

reopened-IsFree :
    (ns : Numbers) (news : List Suggestion) (r : StoredSuggestion)
    → is_retried news r ≡ true
    → IsFree ns (reopened r)
unfolding self_proving suggestion_size evidence_at
reopened-IsFree ns news r h = (ground arith, refl)

rows-IsFree :
    (ns : Numbers) (gone : String → Bool) (now : ℕ) (news : List Suggestion)
    (rows : List StoredSuggestion) (st : Store)
    → All (IsFree ns) (retry_rows gone now news rows st).0
unfolding retry_rows
rows-IsFree ns gone now news [] st = tt
rows-IsFree ns gone now news (r ∷ rows) st =
    let stay = rows-IsFree ns gone now news rows st in
    let after = rows-IsFree ns gone now news rows (dismiss_suggestion r.id now st).1 in
    elim (Bool-cases (is_retried news r)) [
      | inr k ↦ rw (k, retry_rows) stay
      | inl k ↦ elim (Bool-cases (gone r.target)) [
        | inl g ↦ rw (k, g, retry_rows) after
        | inr g ↦ rw (k, g, retry_rows) (reopened-IsFree ns news r k, stay)
      ]
    ]

listed-IsFree :
    (ns : Numbers) (gone : String → Bool) (now : ℕ) (news : List Suggestion)
    (rows : Option (List StoredSuggestion)) (st : Store)
    → All (IsFree ns) (retry_listed gone now news rows st).0
unfolding retry_listed
listed-IsFree ns gone now news none st = tt
listed-IsFree ns gone now news (some rows) st = rows-IsFree ns gone now news rows st

-- Every row that a tick retries is self-proving and has size zero, so that it passes by the size
-- gate and charges the budget nothing, whatever size its evidence tells.
pub open_leak_suggestions-IsFree :
    (ns : Numbers) (gone : String → Bool) (now : ℕ) (news : List Suggestion) (st : Store)
    → All (IsFree ns) (open_leak_suggestions gone now news st).0
unfolding open_leak_suggestions
open_leak_suggestions-IsFree ns gone now news st =
    listed-IsFree ns gone now news (list_open_suggestions st).0 (list_open_suggestions st).1
