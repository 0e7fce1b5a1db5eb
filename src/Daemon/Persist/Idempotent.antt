-- ===== src/Daemon/Persist/Idempotent.antt =====
-- On a database that works, what was filed once is not filed again.
use noo_noo.Store.{Store, StoredSuggestion, Tables, exec}
use noo_noo.Store.Suggestions.{
  NewSuggestion, count_open, has_open_suggestion, insert_row, insert_suggestion, row_of,
}
use noo_noo.Heuristics.{Suggestion}
use noo_noo.Daemon.Persist.{Render, persist_checked, persist_new, persist_one, to_stored}
use noo_noo.Common.{
  All, Bool-cases, List, String, [], arith, inl, inr, ltb, none, refl, str_eq-of_eq, ℕ, ◌++◌, ◌<◌,
  ◌∷◌, ◌≡◌, ◌≤◌,
}

abbrev pub working : Tables → Store
working t = record { tables = t; faults = [] }

abbrev pub opens : String → String → Tables → ℕ
opens m tg t = count_open m tg t.suggestions

-- the tables have grown by suggestions, and those of the list are open
abbrev IsFiled : List Suggestion → Tables → Type 0
IsFiled ss t = All (λ (s : Suggestion). 0 < opens s.module_name s.target t) ss

abbrev IsMore : Tables → Tables → Type 0
IsMore t t' = (m tg : String) → opens m tg t ≤ opens m tg t'

count-grows :
    (m tg : String) (rows : List StoredSuggestion) (r : StoredSuggestion)
    → count_open m tg rows ≤ count_open m tg (rows ++ r ∷ [])
unfolding count_open
count-grows m tg [] r = ground arith
count-grows m tg (q ∷ rows) r = ground (arith, count-grows m tg rows r)

count-new :
    (n : NewSuggestion) (i : ℕ) (rows : List StoredSuggestion)
    → 0 < count_open n.new_module n.new_target (rows ++ row_of i n ∷ [])
unfolding count_open
count-new n i [] = ground (
  arith,
  str_eq-of_eq n.new_module n.new_module refl,
  str_eq-of_eq n.new_target n.new_target refl,
)
count-new n i (q ∷ rows) = ground (arith, count-new n i rows)

count-row :
    (render : Render) (now : ℕ) (s : Suggestion) (t : Tables)
    → 0 < opens s.module_name s.target (insert_row (to_stored render now s) t).1
unfolding insert_row
count-row render now s t = count-new (to_stored render now s) t.next_suggestion t.suggestions

grow-row :
    (render : Render) (now : ℕ) (s : Suggestion) (t : Tables)
    → IsMore t (insert_row (to_stored render now s) t).1
unfolding insert_row
grow-row render now s t m tg =
    count-grows m tg t.suggestions (row_of t.next_suggestion (to_stored render now s))

persist_one-files :
    (render : Render) (now : ℕ) (s : Suggestion) (t : Tables)
    → (t' : Tables) × ((persist_one render now s (working t)).1 ≡ working t')
      × (0 < opens s.module_name s.target t')
      × IsMore t t'
unfolding persist_one persist_checked has_open_suggestion insert_suggestion exec
persist_one-files render now s t =
    elim (Bool-cases (ltb 0 (count_open s.module_name s.target t.suggestions))) [
      | inl e ↦ (t, rw (e, persist_checked) refl, ground arith, λ m tg. omega arith)
      | inr e ↦ (
        (insert_row (to_stored render now s) t).1,
        rw (e, persist_checked) refl,
        count-row render now s t,
        grow-row render now s t,
      )
    ]

persist_new-files :
    (render : Render) (now : ℕ) (ss : List Suggestion) (t : Tables)
    → (t' : Tables) × ((persist_new render now ss (working t)).1 ≡ working t')
      × IsFiled ss t'
      × IsMore t t'
unfolding persist_new
persist_new-files render now [] t = (t, refl, tt, λ m tg. omega arith)
persist_new-files render now (s ∷ ss) t =
    let (t1, e1, p1, m1) = persist_one-files render now s t in
    let (t2, e2, p2, m2) = persist_new-files render now ss t1 in
    (
      t2,
      rw e1 e2,
      (omega (arith, p1, m2 s.module_name s.target), p2),
      λ m tg. omega (arith, m1 m tg, m2 m tg),
    )

persist_one-filed :
    (render : Render) (now : ℕ) (s : Suggestion) (t : Tables)
    → 0 < opens s.module_name s.target t
    → persist_one render now s (working t) ≡ (none, working t)
unfolding persist_one persist_checked has_open_suggestion exec
persist_one-filed render now s t h = ground arith

persist_new-filed :
    (render : Render) (now : ℕ) (ss : List Suggestion) (t : Tables)
    → IsFiled ss t
    → persist_new render now ss (working t) ≡ ([], working t)
unfolding persist_new
persist_new-filed render now [] t h = refl
persist_new-filed render now (s ∷ ss) t h =
    rw (persist_one-filed render now s t h.0, persist_new-filed render now ss t h.1) refl

-- On a database that works, a second round over the same suggestions files none of them and leaves
-- the store as the first round left it.
pub persist_new-twice :
    (render : Render) (now after : ℕ) (ss : List Suggestion) (t : Tables)
    → persist_new render after ss (persist_new render now ss (working t)).1
      ≡ ([], (persist_new render now ss (working t)).1)
persist_new-twice render now after ss t =
    let (t', e, p, m) = persist_new-files render now ss t in
    rw e (persist_new-filed render after ss t' p)
