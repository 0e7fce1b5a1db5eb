-- ===== src/Ipc/Dismissal.antt =====
-- What Dismiss answers on a database that works, and what it leaves.
use noo_noo.Ipc.{dismiss, dismiss_listed, has_id}
use noo_noo.Store.{StoredSuggestion, Tables, exec}
use noo_noo.Store.Suggestions.{
  dismiss_if, dismiss_row, dismiss_suggestion, is_open, list_open_suggestions, newer, open_rows,
}
use noo_noo.Daemon.Persist.Idempotent.{working}
use noo_noo.Common.{
  Bool, List, [], ap, arith, false, if◌then◌else◌, keep_if, map, none, refl, some, suc, true, ℕ,
  ◌&&◌, ◌==◌, ◌∙◌, ◌∷◌, ◌≡◌,
}
use noo_noo.Common.Int.{pos}
use noo_noo.Common.Sort.{insert_by, sort_by}

-- an open row has the id
abbrev pub has_open : ℕ → List StoredSuggestion → Bool
has_open i [] = false
has_open i (r ∷ rs) = if r.id == i && is_open r then true else has_open i rs

has_id-insert_by :
    (i : ℕ) (r : StoredSuggestion) (rows : List StoredSuggestion)
    → has_id i (insert_by newer r rows) ≡ has_id i (r ∷ rows)
unfolding insert_by
has_id-insert_by i r [] = refl
has_id-insert_by i r (q ∷ rows) = ground (arith, has_id-insert_by i r rows)

has_id-sort_by :
    (i : ℕ) (rows : List StoredSuggestion) → has_id i (sort_by newer rows) ≡ has_id i rows
unfolding sort_by
has_id-sort_by i [] = refl
has_id-sort_by i (r ∷ rows) =
    ground (arith, has_id-insert_by i r (sort_by newer rows), has_id-sort_by i rows)

has_id-keep_if :
    (i : ℕ) (rows : List StoredSuggestion) → has_id i (keep_if is_open rows) ≡ has_open i rows
has_id-keep_if i [] = refl
has_id-keep_if i (r ∷ rows) = ground (arith, has_id-keep_if i rows)

has_open-dismissed :
    (i at : ℕ) (rows : List StoredSuggestion) → has_open i (map (dismiss_if i at) rows) ≡ false
has_open-dismissed i at [] = refl
has_open-dismissed i at (r ∷ rows) = ground (arith, has_open-dismissed i at rows)

-- On a database that works, a request to dismiss a positive id succeeds exactly where an open row
-- has that id, and then dismisses it; else it fails and changes nothing. After the dismissal no
-- open row has the id.
pub dismiss_once :
    (i now : ℕ) (t : Tables)
    → dismiss (pos (suc i)) now (working t) ≡ (
        if has_open (suc i) t.suggestions
        then (some tt, working (dismiss_row (suc i) now t).1)
        else (none, working t))
      × (has_open (suc i) (dismiss_row (suc i) now t).1.suggestions ≡ false)
unfolding dismiss dismiss_listed list_open_suggestions open_rows dismiss_suggestion exec dismiss_row
dismiss_once i now t = (
  ap
      (λ (b : Bool).
        if b then (some tt, working (dismiss_row (suc i) now t).1) else (none, working t))
      (has_id-sort_by (suc i) (keep_if is_open t.suggestions)
        ∙ has_id-keep_if (suc i) t.suggestions),
  has_open-dismissed (suc i) now t.suggestions,
)
