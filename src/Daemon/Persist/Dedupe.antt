-- ===== src/Daemon/Persist/Dedupe.antt =====
-- At most one open suggestion for each module and target, whatever is filed or dismissed and whichever
-- calls of the store fail.
use noo_noo.Store.{Store, StoredSuggestion, Tables, exec-Keeps, exec-cases}
use noo_noo.Store.Suggestions.{
  NewSuggestion, count_open, dismiss_if, dismiss_row, dismiss_suggestion, has_open_suggestion,
  insert_row, insert_suggestion, is_match, row_of,
}
use noo_noo.Heuristics.{Suggestion}
use noo_noo.Daemon.Persist.{
  Render, is_retried, persist_checked, persist_new, persist_one, retry_rows, to_stored,
}
use noo_noo.Common.{
  Bool, Bool-cases, List, Option, String, [], arith, eq_iff, false, if◌then◌else◌, inl, inr, ltb,
  map, none, refl, some, sym, true, ℕ, ◌++◌, ◌+◌, ◌∙◌, ◌∷◌, ◌≡◌, ◌≤◌,
}

abbrev pub IsDeduped : List StoredSuggestion → Type 0
IsDeduped rows = (m tg : String) → count_open m tg rows ≤ 1

count-snoc :
    (m tg : String) (rows : List StoredSuggestion) (r : StoredSuggestion)
    → count_open m tg (rows ++ r ∷ []) ≡ count_open m tg rows + (if is_match m tg r then 1 else 0)
unfolding count_open
count-snoc m tg [] r = ground arith
count-snoc m tg (q ∷ rows) r = ground (arith, count-snoc m tg rows r)

count-dismiss :
    (m tg : String) (i at : ℕ) (rows : List StoredSuggestion)
    → count_open m tg (map (dismiss_if i at) rows) ≤ count_open m tg rows
unfolding count_open
count-dismiss m tg i at [] = omega arith
count-dismiss m tg i at (r ∷ rows) = ground (arith, count-dismiss m tg i at rows)

insert-IsDeduped :
    (n : NewSuggestion) (i : ℕ) (rows : List StoredSuggestion)
    → IsDeduped rows
    → count_open n.new_module n.new_target rows ≡ 0
    → IsDeduped (rows ++ row_of i n ∷ [])
insert-IsDeduped n i rows u z m tg = ground (
  arith,
  u m tg,
  z,
  count-snoc m tg rows (row_of i n),
  eq_iff n.new_module m,
  eq_iff n.new_target tg,
)

pub dismiss-IsDeduped :
    (i at : ℕ) (st : Store)
    → IsDeduped st.tables.suggestions
    → IsDeduped (dismiss_suggestion i at st).1.tables.suggestions
unfolding dismiss_suggestion dismiss_row
dismiss-IsDeduped i at st u =
    exec-Keeps (λ t. IsDeduped t.suggestions) (dismiss_row i at) st u
      (λ m tg. omega (arith, u m tg, count-dismiss m tg i at st.tables.suggestions))

checked-IsDeduped :
    (render : Render) (now : ℕ) (s : Suggestion) (is_filed : Option Bool) (st : Store)
    → (is_filed ≡ some false → count_open s.module_name s.target st.tables.suggestions ≡ 0)
    → IsDeduped st.tables.suggestions
    → IsDeduped (persist_checked render now s is_filed st).1.tables.suggestions
unfolding persist_checked insert_suggestion insert_row
checked-IsDeduped render now s none st h u = u
checked-IsDeduped render now s (some true) st h u = u
checked-IsDeduped render now s (some false) st h u =
    exec-Keeps (λ t. IsDeduped t.suggestions) (insert_row (to_stored render now s)) st u
      (insert-IsDeduped (to_stored render now s) st.tables.next_suggestion st.tables.suggestions u
        (h refl))

-- the dedupe check leaves the tables, and a negative answer is a count of none
query-open :
    (m tg : String) (st : Store)
    → ((has_open_suggestion m tg st).1.tables ≡ st.tables)
      × ((has_open_suggestion m tg st).0 ≡ some false → count_open m tg st.tables.suggestions ≡ 0)
unfolding has_open_suggestion
query-open m tg st =
    let op : Tables → Bool × Tables = λ t. (ltb 0 (count_open m tg t.suggestions), t) in
    elim (exec-cases op st) [
      | inl (v, tb) ↦ (tb, λ h. cc)
      | inr (v, tb) ↦ (
        tb,
        λ h.
            let k : some (ltb 0 (count_open m tg st.tables.suggestions)) ≡ some false = sym v ∙ h in
            ground arith,
      )
    ]

persist_one-IsDeduped :
    (render : Render) (now : ℕ) (s : Suggestion) (st : Store)
    → IsDeduped st.tables.suggestions
    → IsDeduped (persist_one render now s st).1.tables.suggestions
unfolding persist_one
persist_one-IsDeduped render now s st u =
    let (tb, z) = query-open s.module_name s.target st in
    checked-IsDeduped render now s (has_open_suggestion s.module_name s.target st).0
      (has_open_suggestion s.module_name s.target st).1 (λ h. rw tb (z h)) (rw tb u)

-- If no module and target has two open suggestions, none has after a round of filing, whichever
-- calls of the store fail.
pub persist_new-IsDeduped :
    (render : Render) (now : ℕ) (ss : List Suggestion) (st : Store)
    → IsDeduped st.tables.suggestions
    → IsDeduped (persist_new render now ss st).1.tables.suggestions
unfolding persist_new
persist_new-IsDeduped render now [] st u = u
persist_new-IsDeduped render now (s ∷ ss) st u =
    persist_new-IsDeduped render now ss (persist_one render now s st).1
      (persist_one-IsDeduped render now s st u)

pub retry_rows-IsDeduped :
    (gone : String → Bool) (now : ℕ) (news : List Suggestion) (rows : List StoredSuggestion)
    (st : Store)
    → IsDeduped st.tables.suggestions
    → IsDeduped (retry_rows gone now news rows st).1.tables.suggestions
unfolding retry_rows
retry_rows-IsDeduped gone now news [] st u = u
retry_rows-IsDeduped gone now news (r ∷ rows) st u =
    let stay = retry_rows-IsDeduped gone now news rows st u in
    let after =
      retry_rows-IsDeduped gone now news rows (dismiss_suggestion r.id now st).1
        (dismiss-IsDeduped r.id now st u) in
    elim (Bool-cases (is_retried news r)) [
      | inr k ↦ rw (k, retry_rows) stay
      | inl k ↦ elim (Bool-cases (gone r.target)) [
        | inl g ↦ rw (k, g, retry_rows) after
        | inr g ↦ rw (k, g, retry_rows) stay
      ]
    ]
