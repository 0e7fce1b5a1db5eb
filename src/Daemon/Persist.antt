-- ===== src/Daemon/Persist.antt =====
-- cmd/noo-nood/tick.go: persistNew and openLeakSuggestions, which read and write the suggestions.
pub mod Dedupe
pub mod Idempotent
pub mod Retried
use noo_noo.Store.{Store, StoredSuggestion}
use noo_noo.Store.Suggestions.{
  NewSuggestion, dismiss_suggestion, has_open_suggestion, insert_suggestion, list_open_suggestions,
}
use noo_noo.Heuristics.{RiskLevel, Suggestion, Value, high, low, medium, no_level, text_value}
use noo_noo.Common.{
  Bool, List, Option, String, [], false, if◌then◌else◌, none, not, some, str_eq, true, ℕ, ◌&&◌,
  ◌==◌, ◌||◌, ◌∷◌,
}
use noo_noo.Common.Int.{pos}

-- json.Marshal of an evidence value that is no text
abbrev pub Render : Type 0
Render = Value → String

abbrev pub text_of : Render → Value → String
text_of render (text_value s) = s
text_of render v = render v

abbrev pub stored_evidence : Render → List (String × Value) → List (String × String)
stored_evidence render [] = []
stored_evidence render ((k, v) ∷ rest) = (k, text_of render v) ∷ stored_evidence render rest

abbrev pub severity_of : RiskLevel → String
severity_of low = "low"
severity_of medium = "medium"
severity_of high = "high"
severity_of no_level = ""

-- a suggestion without a time, 0, is filed at the present one
abbrev pub to_stored : Render → ℕ → Suggestion → NewSuggestion
to_stored render now s = record {
  new_ts = if s.created_at == 0 then now else s.created_at;
  new_module = s.module_name;
  new_target = s.target;
  new_reason = s.reason;
  new_evidence = stored_evidence render s.evidence;
  new_severity = severity_of s.risk_level;
}

abbrev pub numbered : Suggestion → Option ℕ → Option Suggestion
numbered s none = none
numbered s (some i) = some (record s { suggestion_id = i })

-- what the loop does after the dedupe check has answered
unfoldable pub persist_checked :
    Render → ℕ → Suggestion → Option Bool → Store → Option Suggestion × Store
persist_checked render now s none st = (none, st)
persist_checked render now s (some true) st = (none, st)
persist_checked render now s (some false) st =
    let (i, st') = insert_suggestion (to_stored render now s) st in (numbered s i, st')

unfoldable pub persist_one : Render → ℕ → Suggestion → Store → Option Suggestion × Store
persist_one render now s st =
    let (is_filed, st') = has_open_suggestion s.module_name s.target st in
    persist_checked render now s is_filed st'

abbrev pub cons_if {ℓ} : {A : Type ℓ} → Option A → List A → List A
cons_if none xs = xs
cons_if (some x) xs = x ∷ xs

-- the suggestions that were filed, with their ids, and the store
unfoldable pub persist_new : Render → ℕ → List Suggestion → Store → List Suggestion × Store
persist_new render now [] st = ([], st)
persist_new render now (s ∷ ss) st =
    let (filed, st') = persist_one render now s st in
    let (rest, st'') = persist_new render now ss st' in (cons_if filed rest, st'')

-- the fields that openLeakSuggestions projects; the others have Go's zero values
abbrev pub reopened : StoredSuggestion → Suggestion
reopened r = record {
  suggestion_id = r.id;
  module_name = r.module_name;
  target = r.target;
  reason = r.reason;
  evidence = [];
  risk_level = no_level;
  size_bytes = pos 0;
  created_at = 0;
}

abbrev pub is_seen : ℕ → List Suggestion → Bool
is_seen i [] = false
is_seen i (s ∷ ss) = let rest = is_seen i ss in if s.suggestion_id == i then true else rest

abbrev pub is_retried : List Suggestion → StoredSuggestion → Bool
is_retried news r =
    (str_eq r.module_name "leaks" || str_eq r.module_name "worktrees") && not (is_seen r.id news)

-- One round of the loop for each row; `gone` is os.IsNotExist of the target's Lstat.
unfoldable pub retry_rows :
    (String → Bool) → ℕ → List Suggestion → List StoredSuggestion → Store → List Suggestion × Store
retry_rows gone now news [] st = ([], st)
retry_rows gone now news (r ∷ rs) st =
    let stay = retry_rows gone now news rs st in
    let after = retry_rows gone now news rs (dismiss_suggestion r.id now st).1 in
    if not (is_retried news r)
    then stay
    else if gone r.target
    then after
    else (reopened r ∷ stay.0, stay.1)

unfoldable pub retry_listed :
    (String → Bool)
    → ℕ
    → List Suggestion
    → Option (List StoredSuggestion)
    → Store
    → List Suggestion × Store
retry_listed gone now news none st = ([], st)
retry_listed gone now news (some rows) st = retry_rows gone now news rows st

unfoldable pub open_leak_suggestions :
    (String → Bool) → ℕ → List Suggestion → Store → List Suggestion × Store
open_leak_suggestions gone now news st =
    let (rows, st') = list_open_suggestions st in retry_listed gone now news rows st'
