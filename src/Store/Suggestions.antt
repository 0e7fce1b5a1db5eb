-- ===== src/Store/Suggestions.antt =====
-- internal/store/suggestions.go: the statements on the suggestions table.
use noo_noo.Common.{
  Bool, List, String, [], false, if◌then◌else◌, keep_if, leb, ltb, map, none, some, str_eq, suc,
  true, ℕ, ◌&&◌, ◌++◌, ◌+◌, ◌==◌, ◌∷◌,
}
use noo_noo.Common.Sort.{sort_by}
use noo_noo.Store.{Db, Statement, StoredSuggestion, Tables, exec}

-- the row that InsertSuggestion appends: it has no id yet, and is not dismissed
pub record NewSuggestion : Type 0 where
  pub new_ts : ℕ
  pub new_module : String
  pub new_target : String
  pub new_reason : String
  pub new_evidence : List (String × String)
  pub new_severity : String

abbrev pub row_of : ℕ → NewSuggestion → StoredSuggestion
row_of i n = record {
  id = i;
  ts = n.new_ts;
  module_name = n.new_module;
  target = n.new_target;
  reason = n.new_reason;
  evidence = n.new_evidence;
  severity = n.new_severity;
  dismissed_at = none;
}

unfoldable pub insert_row : NewSuggestion → Statement ℕ
insert_row n t = (
  t.next_suggestion,
  record t {
    suggestions = t.suggestions ++ row_of t.next_suggestion n ∷ [];
    next_suggestion = t.next_suggestion + 1;
  },
)

unfoldable pub insert_suggestion : NewSuggestion → Db ℕ
insert_suggestion n = exec (insert_row n)

-- dismissed_at IS NULL
abbrev pub is_open : StoredSuggestion → Bool
is_open r = elim r.dismissed_at [ none ↦ true | some at ↦ false ]

abbrev pub newer : StoredSuggestion → StoredSuggestion → Bool
newer a b = ltb a.ts b.ts

unfoldable pub open_rows : Tables → List StoredSuggestion
open_rows t = sort_by newer (keep_if is_open t.suggestions)

unfoldable pub list_open_suggestions : Db (List StoredSuggestion)
list_open_suggestions = exec (λ t. (open_rows t, t))

abbrev pub in_class : String → ℕ → StoredSuggestion → Bool
in_class m since r = str_eq r.module_name m && leb since r.ts

unfoldable pub rows_since : String → ℕ → Tables → List StoredSuggestion
rows_since m since t = sort_by newer (keep_if (in_class m since) t.suggestions)

pub list_suggestions_since : String → ℕ → Db (List StoredSuggestion)
list_suggestions_since m since = exec (λ t. (rows_since m since t, t))

abbrev pub dismiss_if : ℕ → ℕ → StoredSuggestion → StoredSuggestion
dismiss_if i at r = if r.id == i then record r { dismissed_at = some at } else r

unfoldable pub dismiss_row : ℕ → ℕ → Statement (Unit {0})
dismiss_row i at t = (tt, record t { suggestions = map (dismiss_if i at) t.suggestions })

unfoldable pub dismiss_suggestion : ℕ → ℕ → Db (Unit {0})
dismiss_suggestion i at = exec (dismiss_row i at)

abbrev pub is_match : String → String → StoredSuggestion → Bool
is_match m tg r = str_eq r.module_name m && (str_eq r.target tg && is_open r)

-- SELECT COUNT(*)
unfoldable pub count_open : String → String → List StoredSuggestion → ℕ
count_open m tg [] = 0
count_open m tg (r ∷ rs) = let n = count_open m tg rs in if is_match m tg r then suc n else n

unfoldable pub has_open_suggestion : String → String → Db Bool
has_open_suggestion m tg = exec (λ t. (ltb 0 (count_open m tg t.suggestions), t))
