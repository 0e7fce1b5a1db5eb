-- ===== src/Autoclean/Engine/Crash.antt =====
-- The audit row as a crash pivot, in every state that Apply passes through.
use noo_noo.Common.{
  All, Bool-cases, List, Option, String, [], ap, inl, inr, map, none, refl, some, ℕ, ◌++◌, ◌<◌, ◌∙◌,
  ◌∷◌, ◌≡◌, ◌⊎◌,
}
use noo_noo.Store.{
  AutoCleanEvent, Store, Tables, deleted, errored, exec, exec-cases, in_progress, skipped,
}
use noo_noo.Store.Events.{
  patch_event, record_auto_clean_event, record_row, update_auto_clean_event, update_row,
}
use noo_noo.Autoclean.{Action}
use noo_noo.Autoclean.Engine.Ledger.{IsNumbered, final_event, patch-last, patch-pre}
use noo_noo.Common.Int.{pos}
use mathlib.Core.Path.{subst}
use noo_noo.Autoclean.Engine.{
  Deletion, Engine, Refusal, Times, World, apply, finish, is_trigger, pre_event, run_deleter,
  safety_guard, skip_event, update_of,
}
use noo_noo.Autoclean.Engine.States.{
  apply_states, halfway, last-guarded, last_of, states_of_delete, states_of_guarded,
}

-- what the row says at any time
abbrev pub IsRowOf : Action → String → Times → AutoCleanEvent → Type 0
IsRowOf a trigger tm ev =
    (ev.target_path ≡ a.target_path)
    × (ev.event_module ≡ a.action_module)
    × (ev.suggestion_id ≡ a.suggestion_id)
    × (ev.trigger ≡ trigger)
    × (ev.started_at_unix ≡ tm.started)

abbrev pub IsOpen : AutoCleanEvent → Type 0
IsOpen ev = (ev.outcome ≡ in_progress) × (ev.ended_at_unix ≡ none)

abbrev pub IsSkipped : AutoCleanEvent → Type 0
IsSkipped ev = (ev.outcome ≡ skipped) × (ev.freed_bytes ≡ pos 0)

-- the row that tells the deleter's answer
abbrev pub IsClosed : Times → Deletion → AutoCleanEvent → Type 0
IsClosed tm d ev =
    (ev.outcome ≡ elim d.failure [ none ↦ deleted | some err ↦ errored ])
    × (ev.ended_at_unix ≡ some tm.ended)
    × (ev.freed_bytes ≡ d.freed)

-- the row as it is inserted
abbrev first_row : Action → String → Times → ℕ → AutoCleanEvent
first_row a trigger tm n = record (pre_event a trigger tm.started) { event_id = n }

inserted :
    (a : Action) (trigger : String) (tm : Times) (s : Store) (n : ℕ)
    → IsNumbered s.tables
    → (record_auto_clean_event (pre_event a trigger tm.started) s).0 ≡ some n
    → All (λ (r : AutoCleanEvent). r.event_id < n) s.tables.events
      × ((record_auto_clean_event (pre_event a trigger tm.started) s).1.tables.events
          ≡ s.tables.events ++ first_row a trigger tm n ∷ [])
unfolding record_auto_clean_event record_row
inserted a trigger tm s n numbered h =
    elim (exec-cases (record_row (pre_event a trigger tm.started)) s) [
      | inl (f, k) ↦ cc
      | inr (f, k) ↦
          let same : s.tables.next_event ≡ n = cc in
          subst
            (λ i.
              All (λ (r : AutoCleanEvent). r.event_id < i) s.tables.events
              × ((record_auto_clean_event (pre_event a trigger tm.started) s).1.tables.events
                  ≡ s.tables.events ++ first_row a trigger tm i ∷ []))
            same (numbered, ap (λ (t : Tables). t.events) k)
    ]

module _ {W : Type 0} where
  -- The audit table has one more row, for this action: it is open; or it says that the action was
  -- skipped, and the files are as they were; or it tells the deleter's answer, and the deleter has run.
  abbrev pub IsLogged : Engine W → Action → String → Times → World W → World W → Type 0
  IsLogged e a trigger tm w v =
      (ev : AutoCleanEvent) × (v.store.tables.events ≡ w.store.tables.events ++ ev ∷ [])
      × IsRowOf a trigger tm ev
      × (IsOpen ev
          ⊎ (IsSkipped ev × (v.files ≡ w.files))
          ⊎ (IsClosed tm (run_deleter e a w.files).0 ev × (v.files ≡ (run_deleter e a w.files).1)))

  -- Neither the files nor the audit table have changed, or the table has the row.
  abbrev pub IsTraced : Engine W → Action → String → Times → World W → World W → Type 0
  IsTraced e a trigger tm w v =
      ((v.files ≡ w.files) × (v.store.tables.events ≡ w.store.tables.events))
      ⊎ IsLogged e a trigger tm w v

  opened :
      (e : Engine W) (a : Action) (trigger : String) (tm : Times) (w : World W) (n : ℕ) (st : Store)
      (files : W)
      → st.tables.events ≡ w.store.tables.events ++ first_row a trigger tm n ∷ []
      → IsTraced e a trigger tm w (record { store = st; files = files })
  opened e a trigger tm w n st files h =
      inr (first_row a trigger tm n, h, (refl, refl, refl, refl, refl), inl (refl, refl))

  closed :
      (e : Engine W) (a : Action) (trigger : String) (tm : Times) (w : World W) (n : ℕ) (st : Store)
      → All (λ (r : AutoCleanEvent). r.event_id < n) w.store.tables.events
      → st.tables.events ≡ w.store.tables.events ++ first_row a trigger tm n ∷ []
      → IsTraced e a trigger tm w (finish a tm n (run_deleter e a w.files) st).1
  unfolding finish update_auto_clean_event update_row
  closed e a trigger tm w n st below h =
      let (d, files) = run_deleter e a w.files in
      elim (exec-cases (update_row n (update_of tm.ended d)) st) [
        | inl (f, k) ↦
            opened e a trigger tm w n (exec (update_row n (update_of tm.ended d)) st).1 files
              (ap (λ (t : Tables). t.events) k ∙ h)
        | inr (f, k) ↦ inr (
          final_event a trigger tm n d,
          ap (λ (t : Tables). t.events) k ∙ patched d,
          (refl, refl, refl, refl, refl),
          inr (inr ((refl, refl, refl), refl)),
        )
      ]
    where
      patched :
          (d : Deletion)
          → (update_row n (update_of tm.ended d) st.tables).1.events
            ≡ w.store.tables.events ++ final_event a trigger tm n d ∷ []
      patched d =
          ap (map (patch_event n (update_of tm.ended d))) h
          ∙ patch-last n (update_of tm.ended d) w.store.tables.events (first_row a trigger tm n)
              below
          ∙ ap (λ r. w.store.tables.events ++ r ∷ []) (patch-pre a trigger tm n d)

  IsTraced-halfway :
      (e : Engine W) (a : Action) (trigger : String) (tm : Times) (w : World W) (n : ℕ) (st : Store)
      (fs : List W) (rest : List (World W))
      → st.tables.events ≡ w.store.tables.events ++ first_row a trigger tm n ∷ []
      → All (IsTraced e a trigger tm w) rest
      → All (IsTraced e a trigger tm w) (halfway st fs rest)
  IsTraced-halfway e a trigger tm w n st [] rest h k = k
  IsTraced-halfway e a trigger tm w n st (f ∷ fs) rest h k =
      (opened e a trigger tm w n st f h, IsTraced-halfway e a trigger tm w n st fs rest h k)

  IsTraced-delete :
      (midway : String → W → List W) (e : Engine W) (a : Action) (trigger : String) (tm : Times)
      (w : World W) (row : Option ℕ) (st : Store)
      → ((n : ℕ)
          → row ≡ some n
          → All (λ (r : AutoCleanEvent). r.event_id < n) w.store.tables.events
            × (st.tables.events ≡ w.store.tables.events ++ first_row a trigger tm n ∷ []))
      → All (IsTraced e a trigger tm w) (states_of_delete midway e a tm row st w.files)
  IsTraced-delete midway e a trigger tm w none st h = tt
  IsTraced-delete midway e a trigger tm w (some n) st h =
      let (below, k) = h n refl in
      IsTraced-halfway e a trigger tm w n st (midway a.target_path w.files) _ k (
        opened e a trigger tm w n st (run_deleter e a w.files).1 k,
        (closed e a trigger tm w n st below k, tt),
      )

  IsTraced-guarded :
      (midway : String → W → List W) (e : Engine W) (a : Action) (trigger : String) (tm : Times)
      (g : Option Refusal) (w : World W)
      → IsNumbered w.store.tables
      → All (IsTraced e a trigger tm w) (states_of_guarded midway e a trigger tm g w)
  unfolding record_auto_clean_event record_row
  IsTraced-guarded midway e a trigger tm (some r) w numbered = (
    elim (exec-cases (record_row (skip_event a trigger tm.started r)) w.store) [
      | inl (f, k) ↦ inl (refl, ap (λ (t : Tables). t.events) k)
      | inr (f, k) ↦ inr (
        _,
        ap (λ (t : Tables). t.events) k,
        (refl, refl, refl, refl, refl),
        inr (inl ((refl, refl), refl)),
      )
    ],
    tt,
  )
  IsTraced-guarded midway e a trigger tm none w numbered = (
    elim (exec-cases (record_row (pre_event a trigger tm.started)) w.store) [
      | inl (f, k) ↦ inl (refl, ap (λ (t : Tables). t.events) k)
      | inr (f, k) ↦
          opened e a trigger tm w w.store.tables.next_event
            (record_auto_clean_event (pre_event a trigger tm.started) w.store).1 w.files
            (ap (λ (t : Tables). t.events) k)
    ],
    IsTraced-delete midway e a trigger tm w
        (record_auto_clean_event (pre_event a trigger tm.started) w.store).0
        (record_auto_clean_event (pre_event a trigger tm.started) w.store).1
        (λ n. inserted a trigger tm w.store n numbered),
  )

  -- On a database none of whose rows has an id that is still to be handed out, and whatever its
  -- calls answer: in every state that Apply passes through, also in the course of the deleter,
  -- either the files and the audit table are as they were, or the table has exactly one more row,
  -- which names the target, the module, the suggestion, the trigger and the start, and which is in
  -- progress and has no end, or says that the action was skipped and the files are as they were,
  -- or tells the deleter's answer and the deleter has run. The last of these states is the one
  -- that Apply returns.
  pub apply_crash_pivot :
      (midway : String → W → List W) (e : Engine W) (a : Action) (trigger : String) (tm : Times)
      (w : World W)
      → IsNumbered w.store.tables
      → All (IsTraced e a trigger tm w) (apply_states midway e a trigger tm w)
        × (last_of w (apply_states midway e a trigger tm w) ≡ (apply e a trigger tm w).1)
  unfolding apply
  apply_crash_pivot midway e a trigger tm w numbered = elim (Bool-cases (is_trigger trigger)) [
    | inl t ↦ rw t (
      (inl (refl, refl), IsTraced-guarded midway e a trigger tm (safety_guard e a) w numbered),
      last-guarded midway e a trigger tm (safety_guard e a) w,
    )
    | inr f ↦ rw f ((inl (refl, refl), tt), refl)
  ]
