-- ===== src/Autoclean/Engine.antt =====
-- internal/autoclean/apply.go: the engine that deletes one target, with an audit row written before
-- and patched after. `W` is the state of the file system, which only a deleter touches.
pub mod Guard
pub mod Crash
pub mod Ledger
pub mod States
use noo_noo.Common.{
  Bool, List, Option, String, [], false, if◌then◌else◌, none, not, some, str_eq, true, ℕ, ◌&&◌,
  ◌||◌, ◌∷◌,
}
use noo_noo.Common.Int.{pos, ℤ}
use noo_noo.Core.Paths.{abs_path, is_inside, rel}
use noo_noo.Core.Safety.{Denial, Safety, can_delete}
use noo_noo.Store.{AutoCleanEvent, Store, deleted, errored, in_progress, skipped}
use noo_noo.Store.Events.{AutoCleanEventUpdate, record_auto_clean_event, update_auto_clean_event}
use noo_noo.Heuristics.{evidence_at}
use noo_noo.Autoclean.{Action, Config, is_allowed, self_proving}

-- a deleter's (int64, error)
pub record Deletion : Type 0 where
  pub freed : ℤ
  pub failure : Option String

abbrev pub Deleter : Type 0 → Type 0
Deleter W = String → W → Deletion × W

pub record Engine (W : Type 0) : Type 0 where
  pub cfg : Config
  pub roots : List String
  pub safety : Option Safety  -- a nil Safety is not asked
  pub deleters : List (String × Deleter W)
  pub cwd : Option String  -- the working directory, for Abs

pub record World (W : Type 0) : Type 0 where
  pub store : Store
  pub files : W

-- the clock when Apply begins and when the deleter has returned, in Unix seconds
pub record Times : Type 0 where
  pub started : ℕ
  pub ended : ℕ

pub data Refusal : Type 0 where
  no_abs_path outside_every_root module_not_in_allowlist no_deleter : Refusal
  cannot_delete : Denial → Refusal

-- the fixed part of the error text
abbrev pub message : Refusal → String
message no_abs_path = "safety: abs path"
message outside_every_root = "safety: target not under any configured root"
message module_not_in_allowlist = "safety: module not in allowlist"
message no_deleter = "safety: no deleter registered for module"
message (cannot_delete d) = "safety: core"

pub data ApplyError : Type 0 where
  pressure_trigger : ApplyError
  unsafe : Refusal → ApplyError
  audit_failed : ApplyError
  delete_failed : String → ApplyError

pub record CleanResult : Type 0 where
  pub cleaned_id : ℕ
  pub cleaned_path : String
  pub cleaned_bytes : ℤ

pub data ApplyOutcome : Type 0 where
  applied_ok : CleanResult → ApplyOutcome
  apply_failed : ApplyError → ApplyOutcome

-- No configured root is no wall; a root whose Abs fails is passed over.
unfoldable pub under_some_root : Option String → List String → List String → Bool
under_some_root cwd parts [] = false
under_some_root cwd parts (r ∷ rs) =
    let rest = under_some_root cwd parts rs in
    elim (abs_path cwd r) [ none ↦ rest | some p ↦ if is_inside (rel p parts) then true else rest ]

abbrev pub under_any_root : Option String → List String → List String → Bool
under_any_root cwd parts [] = true
under_any_root cwd parts (r ∷ rs) = under_some_root cwd parts (r ∷ rs)

-- filepath.Abs of an absolute clean path is the path, so CanDelete is asked of the action's path
abbrev pub safety_says : Option String → Option Safety → String → Option Denial
safety_says cwd none path = none
safety_says cwd (some s) path = can_delete cwd s path

module _ {W : Type 0} where
  abbrev pub has_deleter : Engine W → String → Bool
  has_deleter e m = elim (evidence_at m e.deleters) [ none ↦ false | some d ↦ true ]

  abbrev pub last_checks : Engine W → Action → Option Refusal
  last_checks e a = if has_deleter e a.action_module then none else some no_deleter

  abbrev pub root_checks : Engine W → Action → Option Refusal
  root_checks e a =
      if self_proving a.action_module
      then last_checks e a
      else elim (safety_says e.cwd e.safety a.target_path) [
        | none ↦ last_checks e a
        | some d ↦ some (cannot_delete d)
      ]

  abbrev pub guard_parts : Engine W → Action → List String → Option Refusal
  guard_parts e a parts =
      if not (self_proving a.action_module) && not (under_any_root e.cwd parts e.roots)
      then some outside_every_root
      else if not (is_allowed e.cfg a.action_module)
      then some module_not_in_allowlist
      else root_checks e a

  -- `none` is Go's nil
  unfoldable pub safety_guard : Engine W → Action → Option Refusal
  safety_guard e a = elim (abs_path e.cwd a.target_path) [
    | none ↦ some no_abs_path
    | some parts ↦ guard_parts e a parts
  ]

abbrev pub pre_event : Action → String → ℕ → AutoCleanEvent
pre_event a trigger now = record {
  event_id = 0;
  started_at_unix = now;
  ended_at_unix = none;
  trigger = trigger;
  outcome = in_progress;
  skip_reason = "";
  target_path = a.target_path;
  event_module = a.action_module;
  target_size_bytes = a.size_bytes;
  freed_bytes = pos 0;
  idle_days_at_decision = a.idle_days;
  suggestion_id = a.suggestion_id;
  error_msg = "";
}

abbrev pub skip_event : Action → String → ℕ → Refusal → AutoCleanEvent
skip_event a trigger now r = record (pre_event a trigger now) {
  ended_at_unix = some now;
  outcome = skipped;
  skip_reason = "safety_guard";
  error_msg = message r;
}

abbrev pub update_of : ℕ → Deletion → AutoCleanEventUpdate
update_of now d = record {
  update_ended_at = now;
  update_outcome = elim d.failure [ none ↦ deleted | some e ↦ errored ];
  update_freed = d.freed;
  update_error = elim d.failure [ none ↦ "" | some e ↦ e ];
}

abbrev pub result_of : Action → Deletion → ApplyOutcome
result_of a d = elim d.failure [
  | none ↦ applied_ok (record {
    cleaned_id = a.suggestion_id;
    cleaned_path = a.target_path;
    cleaned_bytes = d.freed;
  })
  | some e ↦ apply_failed (delete_failed e)
]

abbrev pub is_trigger : String → Bool
is_trigger t = str_eq t "daily" || str_eq t "manual"

module _ {W : Type 0} where
  -- the guard has found a deleter before it is called; a nil one would be a panic
  unfoldable pub run_deleter : Engine W → Action → W → Deletion × W
  run_deleter e a w = elim (evidence_at a.action_module e.deleters) [
    | none ↦ (record { freed = pos 0; failure = some "nil deleter" }, w)
    | some d ↦ d a.target_path w
  ]

  -- the post-delete update, whose own error is dropped
  unfoldable pub finish : Action → Times → ℕ → Deletion × W → Store → ApplyOutcome × World W
  finish a tm row (d, files) st =
      let (done, st') = update_auto_clean_event row (update_of tm.ended d) st in
      (result_of a d, record { store = st'; files = files })

  unfoldable pub delete_recorded :
      Engine W → Action → Times → Option ℕ → Store → W → ApplyOutcome × World W
  unfolding finish
  delete_recorded e a tm none st w = (apply_failed audit_failed, record { store = st; files = w })
  delete_recorded e a tm (some row) st w = finish a tm row (run_deleter e a w) st

  unfoldable pub apply_guarded :
      Engine W → Action → String → Times → Option Refusal → World W → ApplyOutcome × World W
  apply_guarded e a trigger tm (some r) w =
      let (row, st) = record_auto_clean_event (skip_event a trigger tm.started r) w.store in
      (apply_failed (unsafe r), record w { store = st })
  apply_guarded e a trigger tm none w =
      let (row, st) = record_auto_clean_event (pre_event a trigger tm.started) w.store in
      delete_recorded e a tm row st w.files

  unfoldable pub apply : Engine W → Action → String → Times → World W → ApplyOutcome × World W
  apply e a trigger tm w =
      if is_trigger trigger
      then apply_guarded e a trigger tm (safety_guard e a) w
      else (apply_failed pressure_trigger, w)
