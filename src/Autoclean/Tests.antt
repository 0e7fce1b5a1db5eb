-- ===== src/Autoclean/Tests.antt =====
-- Runs of the gates, the budget and the engine on concrete inputs, and the theorems at these inputs.
use noo_noo.Common.{
  All, List, String, [], arith, if◌then◌else◌, none, refl, some, true, ◌↔◌, ◌∷◌, ◌≡◌, ◌⊎◌,
}
use noo_noo.Common.Int.{mul64, pos, wrap64, ◌*ℤ◌, ◌+ℤ◌, ◌<ℤ◌, ◌≤ℤ◌}
use noo_noo.Core.Paths.{abs_path, rel}
use noo_noo.Core.Safety.{can_delete, new_safety}
use noo_noo.Store.{exec, fresh}
use noo_noo.Store.Events.{
  auto_clean_stats_since, record_auto_clean_event, record_row, sum_rows, update_auto_clean_event,
  update_row,
}
use noo_noo.Heuristics.{Suggestion, evidence_at, int_value, low}
use noo_noo.Autoclean.{
  Action, Config, Numbers, action_of, evaluate_suggestion, min_bytes, self_proving,
  suggestion_idle_days, suggestion_size,
}
use noo_noo.Autoclean.Gates.{Qualifies, evaluate_iff}
use noo_noo.Autoclean.Budget.{
  Budget, IsSound, take_budget, take_budget-IsSound, take_budget_overflow,
}
use noo_noo.Autoclean.Engine.{
  Deleter, Engine, Times, World, apply, apply_guarded, delete_recorded, outside_every_root,
  result_of, run_deleter, safety_guard, under_some_root,
}
use noo_noo.Autoclean.Engine.Guard.{IsGuarded, apply-files}
use noo_noo.Autoclean.Engine.Crash.{IsTraced, apply_crash_pivot}
use noo_noo.Autoclean.Engine.States.{apply_states, last_of}
use noo_noo.Autoclean.Engine.Ledger.{apply-stats, apply_ledger, final_event}

-- no evidence text parses
abbrev no_numbers : Numbers
no_numbers = record { parse_int = λ s. none; parse_float = λ s. none }

abbrev careful : Config
careful = record {
  enabled = true;
  modules_allowed = "dev" ∷ "leaks" ∷ [];
  min_idle_days = pos 90;
  min_size_mb = pos 1024;
  size_cap_per_tick_gb = pos 10;
  risk_acknowledged_at = "2026-05-03T00:00:00Z";
}

abbrev old_modules : Suggestion
old_modules = record {
  suggestion_id = 7;
  module_name = "dev";
  target = "/Users/me/src/app/node_modules";
  reason = "idle";
  evidence = ("idle_days", int_value (pos 120)) ∷ [];
  risk_level = low;
  size_bytes = pos 2147483648;
  created_at = 1000;
}

evaluates : (evaluate_suggestion no_numbers old_modules careful).1 ≡ true
unfolding evaluate_suggestion action_of suggestion_idle_days suggestion_size min_bytes self_proving
    evidence_at mul64 wrap64 ◌*ℤ◌
evaluates = refl

evaluate_iff_example :
    ((evaluate_suggestion no_numbers old_modules careful).1 ≡ true)
    ↔ Qualifies no_numbers old_modules careful
evaluate_iff_example = evaluate_iff no_numbers old_modules careful

take_budget-IsSound_example :
    IsSound (take_budget (pos 5) (record { cap_bytes = pos 10; used_bytes = pos 6 })).0
    × ((take_budget (pos 5) (record { cap_bytes = pos 10; used_bytes = pos 6 })).0.cap_bytes
        ≡ pos 10)
    × ((take_budget (pos 5) (record { cap_bytes = pos 10; used_bytes = pos 6 })).0.used_bytes ≡ (
        if (take_budget (pos 5) (record { cap_bytes = pos 10; used_bytes = pos 6 })).1
        then pos 6 +ℤ pos 5
        else pos 6))
    × (((take_budget (pos 5) (record { cap_bytes = pos 10; used_bytes = pos 6 })).1 ≡ true)
        ↔ ((pos 0 ≤ℤ pos 5) × (pos 6 +ℤ pos 5 ≤ℤ pos 10)))
unfolding ◌+ℤ◌
take_budget-IsSound_example =
    take_budget-IsSound (pos 5) (record { cap_bytes = pos 10; used_bytes = pos 6 })
      (record { used_nonneg = omega arith; used_le_cap = omega arith; cap_fits = omega arith })
      (omega arith)

abbrev half_used : Budget
half_used = record { cap_bytes = pos 10; used_bytes = pos 6 }

half_used-IsSound : IsSound half_used
half_used-IsSound = record {
  used_nonneg = omega arith;
  used_le_cap = omega arith;
  cap_fits = omega arith;
}

take_budget_overflow_example :
    ((take_budget (pos 9223372036854775807) half_used).1 ≡ true)
    × ((take_budget (pos 9223372036854775807) half_used).0.used_bytes <ℤ pos 0)
unfolding ◌+ℤ◌
take_budget_overflow_example =
    take_budget_overflow 9223372036854775807 half_used half_used-IsSound (omega arith) (omega arith)

-- A file system that is the list of the paths removed from it.
abbrev Removed : Type 0
Removed = List String

abbrev remove_all : Deleter Removed
remove_all path w = (record { freed = pos 100; failure = none }, path ∷ w)

abbrev engine : Engine Removed
engine = record {
  cfg = careful;
  roots = "/Users/me/src" ∷ [];
  safety = some (new_safety (some "/") ("/Users/me/src" ∷ []) (".git" ∷ []));
  deleters = ("dev", remove_all) ∷ [];
  cwd = some "/";
}

abbrev clean_modules : Action
clean_modules = record {
  suggestion_id = 7;
  action_module = "dev";
  target_path = "/Users/me/src/app/node_modules";
  size_bytes = pos 2147483648;
  idle_days = pos 120;
  skip_reason = "";
}

abbrev outside : Action
outside = record clean_modules { target_path = "/Users/me/src/../secrets" }

abbrev at_noon : Times
at_noon = record { started = 100; ended = 160 }

abbrev before : World Removed
before = record { store = fresh; files = [] }

guard_passes : safety_guard engine clean_modules ≡ none
unfolding safety_guard abs_path under_some_root self_proving can_delete new_safety rel evidence_at
guard_passes = refl

guard_refuses : safety_guard engine outside ≡ some outside_every_root
unfolding safety_guard abs_path under_some_root self_proving can_delete new_safety rel evidence_at
guard_refuses = refl

apply-files_example :
    ((apply engine clean_modules "daily" at_noon before).1.files ≡ [])
    ⊎ (((◌≡◌ {A = String} "daily" "daily") ⊎ (◌≡◌ {A = String} "daily" "manual"))
        × IsGuarded engine clean_modules
        × ((apply engine clean_modules "daily" at_noon before).1.files
            ≡ (run_deleter engine clean_modules []).1))
apply-files_example = apply-files engine clean_modules "daily" at_noon before

-- a deleter that has removed one file below the target before it removes the target
abbrev one_file_gone : String → Removed → List Removed
one_file_gone path w = ("a file below" ∷ w) ∷ []

apply_crash_pivot_example :
    All
      (IsTraced engine clean_modules "daily" at_noon before)
      (apply_states one_file_gone engine clean_modules "daily" at_noon before)
    × (last_of before (apply_states one_file_gone engine clean_modules "daily" at_noon before)
        ≡ (apply engine clean_modules "daily" at_noon before).1)
apply_crash_pivot_example =
    apply_crash_pivot one_file_gone engine clean_modules "daily" at_noon before tt

apply_ledger_example :
    ((apply engine clean_modules "daily" at_noon before).0
      ≡ result_of clean_modules (run_deleter engine clean_modules []).0)
    × ((apply engine clean_modules "daily" at_noon before).1.files
        ≡ (run_deleter engine clean_modules []).1)
    × ((apply engine clean_modules "daily" at_noon before).1.store.tables.events
        ≡ final_event clean_modules "daily" at_noon 1 (run_deleter engine clean_modules []).0 ∷ [])
apply_ledger_example =
    apply_ledger engine clean_modules "daily" at_noon fresh.tables [] refl guard_passes tt

apply-stats_example :
    (auto_clean_stats_since 50 (apply engine clean_modules "daily" at_noon before).1.store).0
    ≡ some (1, pos 100)
unfolding auto_clean_stats_since sum_rows exec run_deleter evidence_at ◌+ℤ◌
apply-stats_example =
    apply-stats engine clean_modules "daily" at_noon fresh.tables [] 50 refl guard_passes tt

-- The whole run: the target is gone, and its row says so.
apply_runs :
    (apply engine clean_modules "daily" at_noon before).1.files
    ≡ "/Users/me/src/app/node_modules" ∷ []
unfolding apply apply_guarded delete_recorded run_deleter record_auto_clean_event record_row
    update_auto_clean_event update_row exec safety_guard abs_path under_some_root self_proving
    can_delete new_safety rel evidence_at
apply_runs = refl
