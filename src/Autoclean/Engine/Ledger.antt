-- ===== src/Autoclean/Engine/Ledger.antt =====
-- What Apply writes to the audit table of a database that works, and what the rollup then reads.
use noo_noo.Common.{
  All, List, Option, String, [], ap, arith, if◌then◌else◌, leb, map, none, refl, some, sym, true, ℕ,
  ◌++◌, ◌+◌, ◌<◌, ◌||◌, ◌∙◌, ◌∷◌, ◌≡◌,
}
use noo_noo.Store.{AutoCleanEvent, Store, Tables, deleted, errored, exec}
use noo_noo.Store.Events.{
  AutoCleanEventUpdate, auto_clean_stats_since, in_int64, patch_event, record_auto_clean_event,
  record_row, sum_rows, update_auto_clean_event, update_row,
}
use noo_noo.Autoclean.{Action}
use noo_noo.Autoclean.Engine.{
  Deletion, Engine, Times, World, apply, apply_guarded, delete_recorded, is_trigger, pre_event,
  result_of, run_deleter, safety_guard, update_of,
}
use noo_noo.Common.Int.{ltb_ℤ, negsuc, pos, ℤ, ◌+ℤ◌}

-- every row's id was handed out
abbrev pub IsNumbered : Tables → Type 0
IsNumbered t = All (λ (e : AutoCleanEvent). e.event_id < t.next_event) t.events

patch-below :
    (n : ℕ) (u : AutoCleanEventUpdate) (evs : List AutoCleanEvent)
    → All (λ (e : AutoCleanEvent). e.event_id < n) evs
    → map (patch_event n u) evs ≡ evs
patch-below n u [] h = refl
patch-below n u (e ∷ evs) h = cc (patch-one, patch-below n u evs h.1)
  where
    patch-one : patch_event n u e ≡ e
    patch-one = let k : e.event_id < n = h.0 in ground arith

pub patch-last :
    (n : ℕ) (u : AutoCleanEventUpdate) (evs : List AutoCleanEvent) (e : AutoCleanEvent)
    → All (λ (r : AutoCleanEvent). r.event_id < n) evs
    → map (patch_event n u) (evs ++ e ∷ []) ≡ evs ++ patch_event n u e ∷ []
patch-last n u [] e h = refl
patch-last n u (r ∷ evs) e h = cc (patch-below n u (r ∷ []) (h.0, tt), patch-last n u evs e h.1)

-- the row as it stands when Apply has returned
abbrev pub final_event : Action → String → Times → ℕ → Deletion → AutoCleanEvent
final_event a trigger tm row d = record (pre_event a trigger tm.started) {
  event_id = row;
  ended_at_unix = some tm.ended;
  outcome = elim d.failure [ none ↦ deleted | some e ↦ errored ];
  freed_bytes = d.freed;
  error_msg = elim d.failure [ none ↦ "" | some e ↦ e ];
}

pub patch-pre :
    (a : Action) (trigger : String) (tm : Times) (n : ℕ) (d : Deletion)
    → patch_event n
        (update_of tm.ended d)
        (record (pre_event a trigger tm.started) { event_id = n })
      ≡ final_event a trigger tm n d
patch-pre a trigger tm n d = ground arith

sum_rows-append :
    (since : ℕ) (evs : List AutoCleanEvent) (e : AutoCleanEvent) (acc : Option (ℕ × ℤ))
    → sum_rows since (evs ++ e ∷ []) acc ≡ sum_rows since (e ∷ []) (sum_rows since evs acc)
unfolding sum_rows
sum_rows-append since [] e acc = refl
sum_rows-append since (r ∷ evs) e none = refl
sum_rows-append since (r ∷ evs) e (some (n, freed)) = sum_rows-append since evs e _

-- a rollup with one more deletion, unless its sum leaves int64
abbrev pub one_more : ℤ → Option (ℕ × ℤ) → Option (ℕ × ℤ)
one_more bytes none = none
one_more bytes (some (n, freed)) =
    if ltb_ℤ (pos 9223372036854775807) (freed +ℤ bytes)
      || ltb_ℤ (freed +ℤ bytes) (negsuc 9223372036854775807)
    then none
    else some (n + 1, freed +ℤ bytes)

in_int64_lem :
    (n : ℕ) (x : ℤ)
    → in_int64 (n, x) ≡ (
        if ltb_ℤ (pos 9223372036854775807) x || ltb_ℤ x (negsuc 9223372036854775807)
        then none
        else some (n, x))
in_int64_lem n (pos x) = ground arith
in_int64_lem n (negsuc x) = ground arith

-- the row's part in the rollup
sum_rows-final :
    (a : Action) (trigger : String) (tm : Times) (row since : ℕ) (d : Deletion)
    (acc : Option (ℕ × ℤ))
    → sum_rows since (final_event a trigger tm row d ∷ []) acc ≡ (
        if leb since tm.started
        then elim d.failure [ none ↦ one_more d.freed acc | some err ↦ acc ]
        else acc)
unfolding sum_rows
sum_rows-final a trigger tm row since d none = ground arith
sum_rows-final a trigger tm row since d (some (n, freed)) =
    let k = in_int64_lem (n + 1) (freed +ℤ d.freed) in ground (arith, k)

stats-read :
    (since : ℕ) (s : Store)
    → s.faults ≡ []
    → (auto_clean_stats_since since s).0 ≡ sum_rows since s.tables.events (some (0, pos 0))
unfolding auto_clean_stats_since exec
stats-read since s h = rw h refl

module _ {W : Type 0} where
  abbrev pub healthy : Tables → W → World W
  healthy t files = record { store = record { tables = t; faults = [] }; files = files }

  -- On a working database none of whose rows has an id that is still to be handed out, a guarded
  -- action with a permitted trigger runs its deleter once, answers as the deleter did, and appends
  -- one row that carries the outcome, the freed bytes and the error.
  pub apply_ledger :
      (e : Engine W) (a : Action) (trigger : String) (tm : Times) (t : Tables) (files : W)
      → is_trigger trigger ≡ true
      → safety_guard e a ≡ none
      → IsNumbered t
      → ((apply e a trigger tm (healthy t files)).0 ≡ result_of a (run_deleter e a files).0)
        × ((apply e a trigger tm (healthy t files)).1.files ≡ (run_deleter e a files).1)
        × ((apply e a trigger tm (healthy t files)).1.store.tables.events
            ≡ t.events ++ final_event a trigger tm t.next_event (run_deleter e a files).0 ∷ [])
  unfolding apply apply_guarded delete_recorded record_auto_clean_event record_row
      update_auto_clean_event update_row exec
  apply_ledger e a trigger tm t files h g n =
      rw (h, g, apply_guarded)
        (
          refl,
          refl,
          patch-last t.next_event (update_of tm.ended (run_deleter e a files).0) t.events _ n
              ∙ ap (λ (r : AutoCleanEvent). t.events ++ r ∷ [])
                  (patch-pre a trigger tm t.next_event (run_deleter e a files).0),
        )

  -- the database still works
  apply-faults :
      (e : Engine W) (a : Action) (trigger : String) (tm : Times) (t : Tables) (files : W)
      → is_trigger trigger ≡ true
      → safety_guard e a ≡ none
      → (apply e a trigger tm (healthy t files)).1.store.faults ≡ []
  unfolding apply apply_guarded delete_recorded record_auto_clean_event record_row
      update_auto_clean_event update_row exec
  apply-faults e a trigger tm t files h g = rw (h, g, apply_guarded) refl

  -- On a working database none of whose rows has an id that is still to be handed out, after a
  -- guarded action with a permitted trigger AutoCleanStatsSince answers as before, but where the
  -- start is no earlier than its time and the deleter succeeded: there it answers one more
  -- deletion and the freed bytes more, or an error where it was one before or the sum leaves
  -- int64.
  pub apply-stats :
      (e : Engine W) (a : Action) (trigger : String) (tm : Times) (t : Tables) (files : W)
      (since : ℕ)
      → is_trigger trigger ≡ true
      → safety_guard e a ≡ none
      → IsNumbered t
      → (auto_clean_stats_since since (apply e a trigger tm (healthy t files)).1.store).0 ≡ (
          if leb since tm.started
          then elim (run_deleter e a files).0.failure [
            | none ↦
                one_more
                  (run_deleter e a files).0.freed
                  (auto_clean_stats_since since (healthy t files).store).0
            | some err ↦ (auto_clean_stats_since since (healthy t files).store).0
          ]
          else (auto_clean_stats_since since (healthy t files).store).0)
  apply-stats e a trigger tm t files since h g n =
      let st = (apply e a trigger tm (healthy t files)).1.store in
      let d = (run_deleter e a files).0 in
      stats-read since st (apply-faults e a trigger tm t files h g)
      ∙ ap (λ evs. sum_rows since evs (some (0, pos 0)))
          (apply_ledger e a trigger tm t files h g n).2
      ∙ sum_rows-append since t.events (final_event a trigger tm t.next_event d) (some (0, pos 0))
      ∙ sum_rows-final a trigger tm t.next_event since d _
      ∙ ap
          (λ r.
            if leb since tm.started
            then elim d.failure [ none ↦ one_more d.freed r | some err ↦ r ]
            else r)
          (sym (stats-read since (healthy t files).store refl))
