-- ===== src/Daemon/Tick/Quiet.antt =====
-- A tick that may neither clean nor move leaves the files, the audit table and the relocation queue.
use noo_noo.Store.{Statement, Store, Tables, exec, exec-Keeps}
use noo_noo.Store.Suggestions.{count_open, has_open_suggestion, insert_row, insert_suggestion}
use noo_noo.Store.Storms.{find_storm, last_leak_storm_alert, record_leak_storm_alert, upsert_storm}
use noo_noo.Heuristics.{Suggestion}
use noo_noo.Heuristics.Storms.{Item, LeakStorm, leak_storms}
use noo_noo.Autoclean.Engine.{Engine, World}
use noo_noo.Daemon.Persist.{Render, persist_checked, persist_new, persist_one, to_stored}
use noo_noo.Daemon.AutoClean.{Moment}
use noo_noo.Daemon.Storms.{
  FirstSeen, Notice, Sender, is_muted, leak_appeared_at, leak_storm_min_count, leak_storm_window,
  notify_leak_storms, notify_storm, notify_storms, storm_notice,
}
use noo_noo.Daemon.Schedule.{TickTrigger, trigger_daily, trigger_manual, trigger_pressure}
use noo_noo.Daemon.Tick.{
  Sources, TickConfig, clean_branch, collect_suggestions, is_light, may_clean, notify_branch,
  pending_auto_apply_allowed, pending_branch, run_tick, scanned,
}
use mathlib.Core.Path.{subst}
use noo_noo.Common.Int.{pos, ℤ}
use noo_noo.Common.{
  Bool, Bool-cases, List, Option, [], ap, arith, eq_iff, false, inl, inr, ltb, none, refl, some,
  true, ℕ, ◌∙◌, ◌∷◌, ◌≡◌, ◌≢◌, ◌⊎◌,
}

-- the audit table and the relocation queue are the same
abbrev pub IsQuiet : Store → Store → Type 0
IsQuiet a b = (b.tables.events ≡ a.tables.events) × (b.tables.relocations ≡ a.tables.relocations)

IsQuiet-trans : (a b c : Store) → IsQuiet a b → IsQuiet b c → IsQuiet a c
IsQuiet-trans a b c h k = (k.0 ∙ h.0, k.1 ∙ h.1)

exec-IsQuiet :
    {A : Type 0} (op : Statement A) (st : Store)
    → (op st.tables).1.events ≡ st.tables.events
    → (op st.tables).1.relocations ≡ st.tables.relocations
    → IsQuiet st (exec op st).1
exec-IsQuiet op st h k =
    exec-Keeps (λ t. (t.events ≡ st.tables.events) × (t.relocations ≡ st.tables.relocations)) op st
      (refl, refl) (h, k)

checked-IsQuiet :
    (render : Render) (now : ℕ) (s : Suggestion) (r : Option Bool × Store)
    → IsQuiet r.1 (persist_checked render now s r.0 r.1).1
unfolding persist_checked insert_suggestion insert_row
checked-IsQuiet render now s (none, st) = (refl, refl)
checked-IsQuiet render now s (some true, st) = (refl, refl)
checked-IsQuiet render now s (some false, st) =
    exec-IsQuiet (insert_row (to_stored render now s)) st refl refl

persist_one-IsQuiet :
    (render : Render) (now : ℕ) (s : Suggestion) (st : Store)
    → IsQuiet st (persist_one render now s st).1
unfolding persist_one has_open_suggestion
persist_one-IsQuiet render now s st =
    let op : Tables → Bool × Tables =
      λ t. (ltb 0 (count_open s.module_name s.target t.suggestions), t) in
    IsQuiet-trans st (exec op st).1 (persist_one render now s st).1 (exec-IsQuiet op st refl refl)
      (checked-IsQuiet render now s (exec op st))

persist_new-IsQuiet :
    (render : Render) (now : ℕ) (ss : List Suggestion) (st : Store)
    → IsQuiet st (persist_new render now ss st).1
unfolding persist_new
persist_new-IsQuiet render now [] st = (refl, refl)
persist_new-IsQuiet render now (s ∷ ss) st =
    let mid = (persist_one render now s st).1 in
    IsQuiet-trans st mid (persist_new render now ss mid).1 (persist_one-IsQuiet render now s st)
      (persist_new-IsQuiet render now ss mid)

storm-IsQuiet :
    (send : Sender) (on : Bool) (now : ℕ) (s : LeakStorm) (st : Store)
    → IsQuiet st (notify_storm send on now s st).1
unfolding notify_storm last_leak_storm_alert record_leak_storm_alert
storm-IsQuiet send on now s st =
    let q : Tables → Option ℕ × Tables = λ t. (find_storm s.storm_signature t.storms, t) in
    let r = exec q st in
    let a = exec-IsQuiet q st refl refl in
    let up : Tables → Unit {0} × Tables =
      λ t. (tt, record t { storms = upsert_storm s.storm_signature now s.new_count t.storms }) in
    elim (Bool-cases (is_muted now r.0)) [
      | inl m ↦ rw m a
      | inr m ↦ elim (Bool-cases on) [
        | inr o ↦ rw (m, o) a
        | inl o ↦ elim (Bool-cases (send (storm_notice s))) [
          | inr f ↦ rw (m, o, f) a
          | inl f ↦
              rw (m, o, f) (IsQuiet-trans st r.1 (exec up r.1).1 a (exec-IsQuiet up r.1 refl refl))
        ]
      ]
    ]

storms-IsQuiet :
    (send : Sender) (on : Bool) (now : ℕ) (ss : List LeakStorm) (st : Store)
    → IsQuiet st (notify_storms send on now ss st).1
unfolding notify_storms
storms-IsQuiet send on now [] st = (refl, refl)
storms-IsQuiet send on now (s ∷ ss) st =
    let mid = (notify_storm send on now s st).1 in
    IsQuiet-trans st mid (notify_storms send on now ss mid).1 (storm-IsQuiet send on now s st)
      (storms-IsQuiet send on now ss mid)

pending-idle :
    (trigger : TickTrigger) (cfg : TickConfig)
    → (trigger ≢ trigger_daily)
      ⊎ (cfg.auto_apply_pending ≡ false)
      ⊎ (cfg.offload_acknowledged_at ≡ "")
    → (pending_auto_apply_allowed trigger cfg).0 ≡ false
unfolding pending_auto_apply_allowed
pending-idle trigger_daily cfg (inl not_daily) = elim (not_daily refl) [ ]
pending-idle trigger_daily cfg (inr (inl off)) = rw off refl
pending-idle trigger_daily cfg (inr (inr no_risk)) =
    ground (arith, eq_iff cfg.offload_acknowledged_at "")
pending-idle trigger_pressure cfg h = refl
pending-idle trigger_manual cfg h = refl

module _ {W : Type 0} where
  scanned-IsQuiet :
      (src : Sources W) (light : Bool) (w : World W)
      → ((scanned src light w).files ≡ w.files) × IsQuiet w.store (scanned src light w).store
  scanned-IsQuiet src true w = (refl, (refl, refl))
  scanned-IsQuiet src false w = (refl, (refl, refl))

  clean-off :
      (src : Sources W) (e : Engine W) (trigger : TickTrigger) (clock : ℕ → Moment) (now : ℕ)
      (filed : List Suggestion) (w : World W)
      → may_clean trigger e ≡ false
      → clean_branch src e trigger clock now filed w ≡ (0, pos 0, w)
  unfolding clean_branch
  clean-off src e trigger clock now filed w h = rw h refl

  pending-off :
      (src : Sources W) (cfg : TickConfig) (trigger : TickTrigger) (w : World W)
      → (pending_auto_apply_allowed trigger cfg).0 ≡ false
      → pending_branch src cfg trigger w ≡ ([], w)
  unfolding pending_branch
  pending-off src cfg trigger w h = rw h refl

  notify-IsQuiet :
      (src : Sources W) (cfg : TickConfig) (now : ℕ) (filed : List Suggestion) (items : List Item)
      (seen : FirstSeen) (c : ℕ × ℤ × World W) (p : List Notice × World W)
      → ((notify_branch src cfg now filed items seen c p).ticked_world.files ≡ p.1.files)
        × IsQuiet p.1.store (notify_branch src cfg now filed items seen c p).ticked_world.store
  unfolding notify_branch notify_leak_storms
  notify-IsQuiet src cfg now filed items seen (count, freed, w0) (moved, w) = (
    refl,
    storms-IsQuiet src.send cfg.notify_on now
        (leak_storms (leak_appeared_at src.birth now) items now leak_storm_window
          leak_storm_min_count seen).0
        w.store,
  )

  idle_tick-IsQuiet :
      (src : Sources W) (cfg : TickConfig) (e : Engine W) (trigger : TickTrigger)
      (clock : ℕ → Moment) (now : ℕ) (seen : FirstSeen) (w : World W)
      → may_clean trigger e ≡ false
      → (pending_auto_apply_allowed trigger cfg).0 ≡ false
      → ((run_tick src cfg e trigger clock now seen w).ticked_world.files ≡ w.files)
        × IsQuiet w.store (run_tick src cfg e trigger clock now seen w).ticked_world.store
  unfolding run_tick
  idle_tick-IsQuiet src cfg e trigger clock now seen w no_clean no_move =
      let w1 = scanned src (is_light trigger) w in
      let (f1, q1) = scanned-IsQuiet src (is_light trigger) w in
      let (found, items) = collect_suggestions src cfg (is_light trigger) w1 in
      let (filed, st) = persist_new src.render now found w1.store in
      let q2 = persist_new-IsQuiet src.render now found w1.store in
      let w2 : World W = record w1 { store = st } in
      let c = clean_branch src e trigger clock now filed w2 in
      let n = notify-IsQuiet src cfg now filed items seen c (pending_branch src cfg trigger c.2) in
      let off : pending_branch src cfg trigger c.2 ≡ ([], w2) =
        rw (clean-off src e trigger clock now filed w2 no_clean)
          (pending-off src cfg trigger w2 no_move) in
      let same : (pending_branch src cfg trigger c.2).1 ≡ w2 = ap (λ r. r.1) off in
      let last =
        (notify_branch src cfg now filed items seen c
          (pending_branch src cfg trigger c.2)).ticked_world.store in
      (
        n.0 ∙ ap (λ (v : World W). v.files) same ∙ f1,
        IsQuiet-trans w.store w1.store last q1 (
            IsQuiet-trans w1.store st last q2
              (subst (λ (v : World W). IsQuiet v.store last) same n.1)),
      )

  -- A tick by memory pressure, or one of a daemon with auto-clean off, which is also not the daily one,
  -- or has the deferred moves off or their risk not acknowledged.
  abbrev pub IsIdle : TickTrigger → Engine W → TickConfig → Type 0
  IsIdle trigger e cfg =
      (trigger ≡ trigger_pressure)
      ⊎ ((e.cfg.enabled ≡ false)
          × ((trigger ≢ trigger_daily)
              ⊎ (cfg.auto_apply_pending ≡ false)
              ⊎ (cfg.offload_acknowledged_at ≡ "")))

  may_clean-off :
      (trigger : TickTrigger) (e : Engine W) → e.cfg.enabled ≡ false → may_clean trigger e ≡ false
  may_clean-off trigger_daily e h = h
  may_clean-off trigger_pressure e h = refl
  may_clean-off trigger_manual e h = h

  -- A tick by memory pressure, and a tick of a daemon with auto-clean off that is not the daily
  -- one, or has the deferred moves off or their risk not acknowledged, leaves the files as they
  -- are, and the audit table and the relocation queue as they are.
  pub run_tick-IsQuiet :
      (src : Sources W) (cfg : TickConfig) (e : Engine W) (trigger : TickTrigger)
      (clock : ℕ → Moment) (now : ℕ) (seen : FirstSeen) (w : World W)
      → IsIdle trigger e cfg
      → ((run_tick src cfg e trigger clock now seen w).ticked_world.files ≡ w.files)
        × IsQuiet w.store (run_tick src cfg e trigger clock now seen w).ticked_world.store
  unfolding pending_auto_apply_allowed
  run_tick-IsQuiet src cfg e trigger clock now seen w (inl e1) = pressed trigger e1
    where
      pressed :
          (t : TickTrigger)
          → t ≡ trigger_pressure
          → ((run_tick src cfg e t clock now seen w).ticked_world.files ≡ w.files)
            × IsQuiet w.store (run_tick src cfg e t clock now seen w).ticked_world.store
      pressed t same =
          rw same (idle_tick-IsQuiet src cfg e trigger_pressure clock now seen w refl refl)
  run_tick-IsQuiet src cfg e trigger clock now seen w (inr (off, moves_off)) =
      idle_tick-IsQuiet src cfg e trigger clock now seen w (may_clean-off trigger e off)
        (pending-idle trigger cfg moves_off)
