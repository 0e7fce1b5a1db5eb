-- ===== src/Autoclean.antt =====
-- internal/autoclean/config.go: the gates that a suggestion passes before it may be cleaned.
pub mod Gates
pub mod Budget
pub mod Engine
mod Tests
use noo_noo.Common.{
  Bool, List, Option, String, elem_of, false, if◌then◌else◌, none, not, some, str_eq, true, ℕ, ◌||◌,
}
use noo_noo.Common.Int.{ltb_ℤ, mul64, pos, ℤ}
use noo_noo.Heuristics.{
  Suggestion, Value, evidence_at, float_value, int64_value, int_value, other_value, text_value,
}

pub record Config : Type 0 where
  pub enabled : Bool
  pub modules_allowed : List String
  pub min_idle_days : ℤ
  pub min_size_mb : ℤ
  pub size_cap_per_tick_gb : ℤ
  pub risk_acknowledged_at : String

pub record Action : Type 0 where
  pub suggestion_id : ℕ
  pub action_module : String
  pub target_path : String
  pub size_bytes : ℤ
  pub idle_days : ℤ
  pub skip_reason : String

-- strconv.ParseInt and strconv.ParseFloat, the latter with the conversion to int64 that follows it
pub record Numbers : Type 0 where
  pub parse_int : String → Option ℤ
  pub parse_float : String → Option ℤ

abbrev pub parse_size : Numbers → String → ℤ
parse_size ns s = elim (ns.parse_int s) [
  | some n ↦ n
  | none ↦ elim (ns.parse_float s) [ some f ↦ f | none ↦ pos 0 ]
]

abbrev pub value_size : Numbers → Option Value → ℤ
value_size ns none = pos 0
value_size ns (some (int_value n)) = n
value_size ns (some (int64_value n)) = n
value_size ns (some (float_value n)) = n
value_size ns (some (text_value s)) = parse_size ns s
value_size ns (some other_value) = pos 0

unfoldable pub suggestion_size : Numbers → Suggestion → ℤ
suggestion_size ns s =
    if ltb_ℤ (pos 0) s.size_bytes
    then s.size_bytes
    else value_size ns (evidence_at "size_bytes" s.evidence)

abbrev pub value_days : Option Value → ℤ
value_days (some (int_value n)) = n
value_days (some (int64_value n)) = n
value_days (some (float_value n)) = n
value_days _ = pos 0

unfoldable pub suggestion_idle_days : Suggestion → ℤ
suggestion_idle_days s = value_days (evidence_at "idle_days" s.evidence)

unfoldable pub self_proving : String → Bool
self_proving m = str_eq m "leaks" || str_eq m "worktrees"

abbrev pub is_allowed : Config → String → Bool
is_allowed cfg m = elem_of str_eq m cfg.modules_allowed

-- int64(cfg.MinSizeMB) * 1024 * 1024
unfoldable pub min_bytes : Config → ℤ
min_bytes cfg = mul64 (mul64 cfg.min_size_mb (pos 1024)) (pos 1024)

unfoldable pub action_of : Numbers → Suggestion → Action
action_of ns s = record {
  suggestion_id = s.suggestion_id;
  action_module = s.module_name;
  target_path = s.target;
  size_bytes = suggestion_size ns s;
  idle_days = suggestion_idle_days s;
  skip_reason = "";
}

abbrev pub skip : String → Action → Action × Bool
skip why a = (record a { skip_reason = why }, false)

-- The gates in the order of the source.
unfoldable pub evaluate_suggestion : Numbers → Suggestion → Config → Action × Bool
evaluate_suggestion ns s cfg =
    let a = action_of ns s in
    if not cfg.enabled
    then skip "not_enabled" a
    else if str_eq cfg.risk_acknowledged_at ""
    then skip "risk_not_acknowledged" a
    else if not (is_allowed cfg s.module_name)
    then skip "module_not_allowed" a
    else if self_proving s.module_name
    then (a, true)
    else if ltb_ℤ a.idle_days cfg.min_idle_days
    then skip "idle_too_short" a
    else if ltb_ℤ a.size_bytes (min_bytes cfg)
    then skip "size_too_small" a
    else (a, true)
