-- ===== src/Daemon/Tick/Deduped.antt =====
-- A whole tick keeps the suggestions deduped.
use noo_noo.Store.{Statement, Store, StoredSuggestion, Tables, exec, exec-Keeps}
use noo_noo.Store.Events.{record_auto_clean_event, record_row, update_auto_clean_event, update_row}
use noo_noo.Store.Suggestions.{list_open_suggestions, open_rows}
use noo_noo.Store.Storms.{find_storm, last_leak_storm_alert, record_leak_storm_alert, upsert_storm}
use noo_noo.Heuristics.{Suggestion}
use noo_noo.Heuristics.Storms.{Item, LeakStorm, leak_storms}
use noo_noo.Autoclean.{Action, Numbers, evaluate_suggestion}
use noo_noo.Autoclean.Engine.{
  ApplyOutcome, Engine, Refusal, Times, World, applied_ok, apply, apply_failed, apply_guarded,
  delete_recorded, finish, is_trigger, pre_event, run_deleter, safety_guard, skip_event, update_of,
}
use noo_noo.Daemon.Persist.{open_leak_suggestions, persist_new, retry_listed}
use noo_noo.Daemon.Persist.Dedupe.{
  IsDeduped, dismiss-IsDeduped, persist_new-IsDeduped, retry_rows-IsDeduped,
}
use noo_noo.Daemon.AutoClean.{
  Moment, Tally, charged, clean_loop, clean_step, first_tally, gated, run_auto_clean, settle,
}
use noo_noo.Daemon.Storms.{
  FirstSeen, Notice, Sender, is_muted, leak_appeared_at, leak_storm_min_count, leak_storm_window,
  notify_leak_storms, notify_storm, notify_storms, storm_notice,
}
use noo_noo.Daemon.Schedule.{TickTrigger, trigger_text}
use noo_noo.Daemon.Tick.{
  Sources, TickConfig, clean_branch, collect_suggestions, is_light, may_clean, notify_branch,
  pending_auto_apply_allowed, pending_branch, run_tick, scanned,
}
use noo_noo.Common.{
  Bool, Bool-cases, List, Option, String, [], false, inl, inr, none, refl, some, suc, true, ℕ, ◌++◌,
  ◌∷◌, ◌≡◌,
}
use noo_noo.Autoclean.Budget.{Budget, take_budget}
use noo_noo.Common.Int.{ℤ}

abbrev pub IsClean : Store → Type 0
IsClean st = IsDeduped st.tables.suggestions

-- a call that leaves the suggestions
exec-IsClean :
    {A : Type 0} (op : Statement A) (st : Store)
    → (op st.tables).1.suggestions ≡ st.tables.suggestions
    → IsClean st
    → IsClean (exec op st).1
exec-IsClean op st h u = exec-Keeps (λ t. IsDeduped t.suggestions) op st u (rw h u)

storm-IsClean :
    (send : Sender) (on : Bool) (now : ℕ) (s : LeakStorm) (st : Store)
    → IsClean st
    → IsClean (notify_storm send on now s st).1
unfolding notify_storm last_leak_storm_alert record_leak_storm_alert
storm-IsClean send on now s st u =
    let q : Tables → Option ℕ × Tables = λ t. (find_storm s.storm_signature t.storms, t) in
    let r = exec q st in
    let a : IsClean r.1 = exec-IsClean q st refl u in
    let up : Tables → Unit {0} × Tables =
      λ t. (tt, record t { storms = upsert_storm s.storm_signature now s.new_count t.storms }) in
    elim (Bool-cases (is_muted now r.0)) [
      | inl m ↦ rw m a
      | inr m ↦ elim (Bool-cases on) [
        | inr o ↦ rw (m, o) a
        | inl o ↦ elim (Bool-cases (send (storm_notice s))) [
          | inr f ↦ rw (m, o, f) a
          | inl f ↦ rw (m, o, f) (exec-IsClean up r.1 refl a)
        ]
      ]
    ]

storms-IsClean :
    (send : Sender) (on : Bool) (now : ℕ) (ss : List LeakStorm) (st : Store)
    → IsClean st
    → IsClean (notify_storms send on now ss st).1
unfolding notify_storms
storms-IsClean send on now [] st u = u
storms-IsClean send on now (s ∷ ss) st u =
    storms-IsClean send on now ss (notify_storm send on now s st).1
      (storm-IsClean send on now s st u)

retried-IsClean :
    (gone : String → Bool) (now : ℕ) (news : List Suggestion)
    (rows : Option (List StoredSuggestion)) (st : Store)
    → IsClean st
    → IsClean (retry_listed gone now news rows st).1
unfolding retry_listed
retried-IsClean gone now news none st u = u
retried-IsClean gone now news (some rows) st u = retry_rows-IsDeduped gone now news rows st u

open-IsClean :
    (gone : String → Bool) (now : ℕ) (news : List Suggestion) (st : Store)
    → IsClean st
    → IsClean (open_leak_suggestions gone now news st).1
unfolding open_leak_suggestions list_open_suggestions
open-IsClean gone now news st u =
    let q : Tables → List StoredSuggestion × Tables = λ t. (open_rows t, t) in
    retried-IsClean gone now news (exec q st).0 (exec q st).1 (exec-IsClean q st refl u)

module _ {W : Type 0} where
  recorded-IsClean :
      (e : Engine W) (a : Action) (tm : Times) (r : Option ℕ × Store) (files : W)
      → IsClean r.1
      → IsClean (delete_recorded e a tm r.0 r.1 files).1.store
  unfolding delete_recorded finish update_auto_clean_event update_row
  recorded-IsClean e a tm (none, st) files u = u
  recorded-IsClean e a tm (some row, st) files u =
      exec-IsClean (update_row row (update_of tm.ended (run_deleter e a files).0)) st refl u

  guarded-IsClean :
      (e : Engine W) (a : Action) (trigger : String) (tm : Times) (g : Option Refusal) (w : World W)
      → IsClean w.store
      → IsClean (apply_guarded e a trigger tm g w).1.store
  unfolding apply_guarded record_auto_clean_event record_row
  guarded-IsClean e a trigger tm (some r) w u =
      exec-IsClean (record_row (skip_event a trigger tm.started r)) w.store refl u
  guarded-IsClean e a trigger tm none w u =
      recorded-IsClean e a tm (exec (record_row (pre_event a trigger tm.started)) w.store) w.files
        (exec-IsClean (record_row (pre_event a trigger tm.started)) w.store refl u)

  apply-IsClean :
      (e : Engine W) (a : Action) (trigger : String) (tm : Times) (w : World W)
      → IsClean w.store
      → IsClean (apply e a trigger tm w).1.store
  unfolding apply
  apply-IsClean e a trigger tm w u = elim (Bool-cases (is_trigger trigger)) [
    | inl t ↦ rw t (guarded-IsClean e a trigger tm (safety_guard e a) w u)
    | inr f ↦ rw f u
  ]

  settle-IsClean :
      (i at : ℕ) (tl : Tally W) (r : ApplyOutcome × World W)
      → IsClean r.1.store
      → IsClean (settle i at tl r).world.store
  unfolding settle
  settle-IsClean i at tl (apply_failed err, w) u = u
  settle-IsClean i at tl (applied_ok res, w) u = dismiss-IsDeduped i at w.store u

  charged-IsClean :
      (e : Engine W) (trigger : String) (m : Moment) (s : Suggestion) (a : Action)
      (b : Budget × Bool) (tl : Tally W)
      → IsClean tl.world.store
      → IsClean (charged e trigger m s a b tl).0.world.store
  unfolding charged
  charged-IsClean e trigger m s a (b, false) tl u = u
  charged-IsClean e trigger m s a (b, true) tl u =
      settle-IsClean s.suggestion_id m.dismissed_at (record tl { budget = b })
        (apply e a trigger m.times tl.world) (apply-IsClean e a trigger m.times tl.world u)

  gated-IsClean :
      (e : Engine W) (trigger : String) (m : Moment) (s : Suggestion) (r : Action × Bool)
      (tl : Tally W)
      → IsClean tl.world.store
      → IsClean (gated e trigger m s r tl).0.world.store
  unfolding gated
  gated-IsClean e trigger m s (a, false) tl u = u
  gated-IsClean e trigger m s (a, true) tl u =
      charged-IsClean e trigger m s a (take_budget a.size_bytes tl.budget) tl u

  loop-IsClean :
      (ns : Numbers) (e : Engine W) (trigger : String) (clock : ℕ → Moment) (k : ℕ)
      (ss : List Suggestion) (tl : Tally W)
      → IsClean tl.world.store
      → IsClean (clean_loop ns e trigger clock k ss tl).world.store
  unfolding clean_loop clean_step
  loop-IsClean ns e trigger clock k [] tl u = u
  loop-IsClean ns e trigger clock k (s ∷ ss) tl u =
      let r = gated e trigger (clock k) s (evaluate_suggestion ns s e.cfg) tl in
      let v = gated-IsClean e trigger (clock k) s (evaluate_suggestion ns s e.cfg) tl u in
      elim (Bool-cases r.1) [
        | inl h ↦ rw (h, clean_loop) v
        | inr h ↦ rw (h, clean_loop) (loop-IsClean ns e trigger clock (suc k) ss r.0 v)
      ]

  branch-IsClean :
      (src : Sources W) (e : Engine W) (trigger : TickTrigger) (clock : ℕ → Moment) (now : ℕ)
      (filed : List Suggestion) (w : World W)
      → IsClean w.store
      → IsClean (clean_branch src e trigger clock now filed w).2.store
  unfolding clean_branch run_auto_clean
  branch-IsClean src e trigger clock now filed w u =
      let r = open_leak_suggestions (src.is_gone w.files) now filed w.store in
      elim (Bool-cases (may_clean trigger e)) [
        | inr n ↦ rw n u
        | inl y ↦ rw y (
            loop-IsClean src.numbers e (trigger_text trigger) clock 0 (filed ++ r.0)
              (first_tally e.cfg (record w { store = r.1 }))
              (open-IsClean (src.is_gone w.files) now filed w.store u))
      ]

  pending-IsClean :
      (src : Sources W) (cfg : TickConfig) (trigger : TickTrigger) (w : World W)
      → ((v : World W) → IsClean v.store → IsClean (src.run_pending_fn v).1.store)
      → IsClean w.store
      → IsClean (pending_branch src cfg trigger w).1.store
  unfolding pending_branch
  pending-IsClean src cfg trigger w keeps u =
      elim (Bool-cases (pending_auto_apply_allowed trigger cfg).0) [
        | inl y ↦ rw y (keeps w u)
        | inr n ↦ rw n u
      ]

  notify-IsClean :
      (src : Sources W) (cfg : TickConfig) (now : ℕ) (filed : List Suggestion) (items : List Item)
      (seen : FirstSeen) (c : ℕ × ℤ × World W) (p : List Notice × World W)
      → IsClean p.1.store
      → IsClean (notify_branch src cfg now filed items seen c p).ticked_world.store
  unfolding notify_branch notify_leak_storms
  notify-IsClean src cfg now filed items seen (count, freed, w0) (moved, w) u =
      storms-IsClean src.send cfg.notify_on now
        (leak_storms (leak_appeared_at src.birth now) items now leak_storm_window
          leak_storm_min_count seen).0
        w.store u

  scanned-IsClean :
      (src : Sources W) (light : Bool) (w : World W)
      → IsClean w.store
      → IsClean (scanned src light w).store
  scanned-IsClean src true w u = u
  scanned-IsClean src false w u = u

  -- If no module and target has two open suggestions, none has after a whole tick, whichever calls
  -- of the store fail, provided that the run of the relocation queue keeps that too.
  pub run_tick-IsDeduped :
      (src : Sources W) (cfg : TickConfig) (e : Engine W) (trigger : TickTrigger)
      (clock : ℕ → Moment) (now : ℕ) (seen : FirstSeen) (w : World W)
      → ((v : World W) → IsClean v.store → IsClean (src.run_pending_fn v).1.store)
      → IsClean w.store
      → IsClean (run_tick src cfg e trigger clock now seen w).ticked_world.store
  unfolding run_tick
  run_tick-IsDeduped src cfg e trigger clock now seen w keeps u =
      let w1 = scanned src (is_light trigger) w in
      let (found, items) = collect_suggestions src cfg (is_light trigger) w1 in
      let (filed, st) = persist_new src.render now found w1.store in
      let u2 : IsClean st =
        persist_new-IsDeduped src.render now found w1.store
          (scanned-IsClean src (is_light trigger) w u) in
      let w2 : World W = record w1 { store = st } in
      let c = clean_branch src e trigger clock now filed w2 in
      notify-IsClean src cfg now filed items seen c (pending_branch src cfg trigger c.2) (
        pending-IsClean src cfg trigger c.2 keeps
          (branch-IsClean src e trigger clock now filed w2 u2))
