-- ===== src/Daemon/Tests.antt =====
-- Runs of the steps of a tick, and the theorems at concrete inputs.
use noo_noo.Store.{Store, exec, fresh}
use noo_noo.Store.Suggestions.{count_open, has_open_suggestion, insert_row, insert_suggestion}
use noo_noo.Store.Storms.{find_storm, last_leak_storm_alert, record_leak_storm_alert, upsert_storm}
use noo_noo.Heuristics.{Suggestion, low, text_value}
use noo_noo.Heuristics.Storms.{Item, LeakStorm, leak_storms}
use noo_noo.Autoclean.{Action, Config, Numbers, suggestion_size}
use noo_noo.Autoclean.Engine.{Deleter, Engine, World}
use noo_noo.Daemon.Persist.{Render, persist_checked, persist_new, persist_one}
use noo_noo.Daemon.Persist.Idempotent.{persist_new-twice, working}
use noo_noo.Daemon.AutoClean.{Moment, run_auto_clean, tick_engine}
use noo_noo.Daemon.AutoClean.Bounded.{IsLicensed, run_all, run_auto_clean-IsBounded, total_size}
use noo_noo.Daemon.Storms.{leak_appeared_at, notify_storm}
use noo_noo.Daemon.Storms.Muted.{IsSpaced, alert_times, alert_times-IsSpaced}
use noo_noo.Daemon.Schedule.{
  Lanes, Round, consume, daily_is_served, daily_post, pick_done, pick_other, posts, pressure_post,
  returned, runs, trigger_daily, trigger_pressure,
}
use noo_noo.Daemon.Tick.{Sources, TickConfig, run_tick}
use noo_noo.Daemon.Tick.Deduped.{IsClean, run_tick-IsDeduped}
use noo_noo.Heuristics.Storms.Counted.{count_new, leak_storms-reported, reportable, reported}
use noo_noo.Daemon.Tick.Quiet.{IsQuiet, run_tick-IsQuiet}
use noo_noo.Common.{
  All, List, String, [], arith, false, inl, none, refl, some, true, ℕ, ◌*◌, ◌-◌, ◌∷◌, ◌≡◌, ◌⊎◌,
}
use noo_noo.Common.Int.{pos, ◌+ℤ◌, ◌≤ℤ◌}

abbrev clone : Suggestion
clone = record {
  suggestion_id = 0;
  module_name = "leaks";
  target = "/private/var/folders/a/b/X/c";
  reason = "proven stale";
  evidence = ("signature", text_value "chrome") ∷ [];
  risk_level = low;
  size_bytes = pos 5000;
  created_at = 900;
}

abbrev plain : Render
plain v = "0"

-- a second candidate of the same target is dropped
files_once :
    (persist_new plain 1000 (clone ∷ clone ∷ []) fresh).0 ≡ record clone { suggestion_id = 1 } ∷ []
unfolding persist_new persist_one persist_checked has_open_suggestion insert_suggestion insert_row
    exec count_open
files_once = refl

persist_new-twice_example :
    persist_new plain 1100
      (clone ∷ [])
      (persist_new plain 1000 (clone ∷ []) (working fresh.tables)).1
    ≡ ([], (persist_new plain 1000 (clone ∷ []) (working fresh.tables)).1)
persist_new-twice_example = persist_new-twice plain 1000 1100 (clone ∷ []) fresh.tables

abbrev no_parse : Numbers
no_parse = record { parse_int = λ s. none; parse_float = λ s. none }

abbrev filed_once : Store
filed_once = (persist_new plain 1000 (clone ∷ []) fresh).1

-- A file system that is the list of the paths removed from it.
abbrev Gone : Type 0
Gone = List String

abbrev sweep : Deleter Gone
sweep path w = (record { freed = pos 5000; failure = none }, path ∷ w)

abbrev opted_in : Config
opted_in = record {
  enabled = true;
  modules_allowed = "leaks" ∷ [];
  min_idle_days = pos 90;
  min_size_mb = pos 1024;
  size_cap_per_tick_gb = pos 1;
  risk_acknowledged_at = "2026-05-03T00:00:00Z";
}

abbrev eng : Engine Gone
eng =
    tick_engine (some "/") ("/Users/me/src" ∷ [])
      (record { dev_deleter = sweep; leaks_deleter = sweep; worktrees_deleter = sweep }) opted_in

abbrev steady : ℕ → Moment
steady k = record { times = record { started = 100; ended = 101 }; dismissed_at = 102 }

abbrev start : World Gone
start = record { store = fresh; files = [] }

run_auto_clean-IsBounded_example :
    (acts : List Action) × ((run_auto_clean no_parse eng "daily" steady
        (clone ∷ [])
        start).world.files
      ≡ run_all no_parse eng "daily" acts [])
    × All (IsLicensed no_parse eng "daily" (clone ∷ [])) acts
    × (total_size acts ≤ℤ pos (1 * 1073741824))
unfolding suggestion_size ◌+ℤ◌
run_auto_clean-IsBounded_example =
    run_auto_clean-IsBounded no_parse eng "daily" steady (clone ∷ []) start 1 refl (omega arith)
      (omega arith, tt)

abbrev loop_storm : LeakStorm
loop_storm = record { storm_signature = "chrome"; new_count = 28; storm_workaround = "relaunch" }

alert_times-IsSpaced_example : IsSpaced (find_storm "chrome" fresh.tables.storms) (
    alert_times
      (λ n. true)
      true
      "chrome"
      ((30000, loop_storm) ∷ (31000, loop_storm) ∷ (60000, loop_storm) ∷ [])
      (working fresh.tables))
alert_times-IsSpaced_example =
    alert_times-IsSpaced (λ n. true) true "chrome"
      ((30000, loop_storm) ∷ (31000, loop_storm) ∷ (60000, loop_storm) ∷ []) fresh.tables

-- the alert in between is muted
alerts_twice :
    alert_times
      (λ n. true)
      true
      "chrome"
      ((30000, loop_storm) ∷ (31000, loop_storm) ∷ (60000, loop_storm) ∷ [])
      (working fresh.tables)
    ≡ 30000 ∷ 60000 ∷ []
unfolding alert_times notify_storm last_leak_storm_alert record_leak_storm_alert exec find_storm
    upsert_storm
alerts_twice = refl

abbrev busy : Lanes
busy = record {
  daily_waits = false;
  waiting = trigger_pressure ∷ trigger_pressure ∷ trigger_pressure ∷ trigger_pressure ∷ [];
}

abbrev round_one : Round × Lanes
round_one = consume (pressure_post ∷ daily_post ∷ []) false pick_other busy

daily_is_served_example :
    (round_one.0 ≡ runs trigger_daily)
    ⊎ ((round_one.0 ≡ returned) × (false ≡ true))
    ⊎ ((consume [] true pick_done (posts (pressure_post ∷ []) round_one.1)).0 ≡ runs trigger_daily)
daily_is_served_example =
    daily_is_served (pressure_post ∷ []) [] (pressure_post ∷ []) [] false true pick_other pick_done
      busy

abbrev quiet_sources : Sources Gone
quiet_sources = record {
  scan_faults = λ fs. fs;
  idle_repos = λ w. [];
  cache_velocity = λ w. [];
  leak_scan = λ w. some ([], clone ∷ []);
  worktree_rows = λ w. [];
  is_gone = λ w p. false;
  birth = λ p. none;
  render = plain;
  numbers = no_parse;
  send = λ n. true;
  run_pending_fn = λ w. ([], w);
}

abbrev armed : TickConfig
armed = record {
  idle_repos_on = true;
  cache_velocity_on = true;
  leaks_on = true;
  notify_on = true;
  auto_apply_pending = true;
  offload_acknowledged_at = "2026-05-03T00:00:00Z";
}

run_tick-IsQuiet_example :
    ((run_tick quiet_sources armed eng trigger_pressure steady 1000 [] start).ticked_world.files
      ≡ [])
    × IsQuiet fresh
        (run_tick quiet_sources armed eng trigger_pressure steady 1000 [] start).ticked_world.store
run_tick-IsQuiet_example =
    run_tick-IsQuiet quiet_sources armed eng trigger_pressure steady 1000 [] start (inl refl)

run_tick-IsDeduped_example :
    IsClean (run_tick quiet_sources armed eng trigger_daily steady 1000 [] start).ticked_world.store
unfolding count_open
run_tick-IsDeduped_example =
    run_tick-IsDeduped quiet_sources armed eng trigger_daily steady 1000 [] start (λ v h. h)
      (λ m tg. omega arith)

abbrev clone_item : Item
clone_item = record {
  path = "/private/var/folders/a/b/X/c";
  item_size = pos 5000;
  item_evidence = ("signature", "chrome") ∷ [];
}

leak_storms-reported_example :
    reported "chrome"
      (leak_storms
        (leak_appeared_at (λ p. none) 9000)
        (clone_item ∷ clone_item ∷ [])
        9000
        3600
        2
        []).0
    ≡ reportable 2 (
        count_new
          (leak_appeared_at (λ p. none) 9000)
          "chrome"
          (9000 - 3600)
          (clone_item ∷ clone_item ∷ [])
          [])
leak_storms-reported_example =
    leak_storms-reported (leak_appeared_at (λ p. none) 9000) "chrome" (clone_item ∷ clone_item ∷ [])
      9000 3600 2 []
