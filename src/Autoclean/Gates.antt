-- ===== src/Autoclean/Gates.antt =====
-- What the gate cascade lets through, and what it says where it does not.
use noo_noo.Common.{arith, eq_iff, true, ◌↔◌, ◌≡◌, ◌≢◌, ◌⊎◌}
use noo_noo.Common.Int.{◌≤ℤ◌}
use noo_noo.Heuristics.{Suggestion}
use noo_noo.Autoclean.{
  Config, Numbers, action_of, evaluate_suggestion, is_allowed, min_bytes, self_proving,
  suggestion_idle_days, suggestion_size,
}

-- The dev-artifact gates, from which the self-proving modules are exempt.
abbrev pub IsWorthIt : Numbers → Suggestion → Config → Type 0
IsWorthIt ns s cfg =
    (self_proving s.module_name ≡ true)
    ⊎ ((cfg.min_idle_days ≤ℤ suggestion_idle_days s) × (min_bytes cfg ≤ℤ suggestion_size ns s))

-- Everything that a suggestion must have to be cleaned.
pub record Qualifies (ns : Numbers) (s : Suggestion) (cfg : Config) : Type 0 where
  pub switched_on : cfg.enabled ≡ true
  pub acknowledged : cfg.risk_acknowledged_at ≢ ""
  pub module_allowed : is_allowed cfg s.module_name ≡ true
  pub worth_it : IsWorthIt ns s cfg

evaluate-Qualifies :
    (ns : Numbers) (s : Suggestion) (cfg : Config)
    → (evaluate_suggestion ns s cfg).1 ≡ true
    → Qualifies ns s cfg
unfolding evaluate_suggestion action_of
evaluate-Qualifies ns s cfg h = ground (arith, eq_iff cfg.risk_acknowledged_at "")

Qualifies-evaluate :
    (ns : Numbers) (s : Suggestion) (cfg : Config)
    → Qualifies ns s cfg
    → (evaluate_suggestion ns s cfg).1 ≡ true
unfolding evaluate_suggestion action_of
Qualifies-evaluate ns s cfg q = ground (arith, eq_iff cfg.risk_acknowledged_at "")

-- A suggestion passes the gates exactly when auto-clean is switched on, the risk is acknowledged,
-- its module is on the allowlist, and it is self-proving or else idle enough and large enough.
pub evaluate_iff :
    (ns : Numbers) (s : Suggestion) (cfg : Config)
    → ((evaluate_suggestion ns s cfg).1 ≡ true) ↔ Qualifies ns s cfg
evaluate_iff ns s cfg = (evaluate-Qualifies ns s cfg, Qualifies-evaluate ns s cfg)

-- What the action says of the suggestion, whatever the gates answer.
pub evaluate-action :
    (ns : Numbers) (s : Suggestion) (cfg : Config)
    → ((evaluate_suggestion ns s cfg).0.suggestion_id ≡ s.suggestion_id)
      × ((evaluate_suggestion ns s cfg).0.action_module ≡ s.module_name)
      × ((evaluate_suggestion ns s cfg).0.target_path ≡ s.target)
      × ((evaluate_suggestion ns s cfg).0.size_bytes ≡ suggestion_size ns s)
unfolding evaluate_suggestion action_of
evaluate-action ns s cfg = ground arith

-- An accepted suggestion gives its action as it is read, with no reason to skip.
pub evaluate-accepted :
    (ns : Numbers) (s : Suggestion) (cfg : Config)
    → (evaluate_suggestion ns s cfg).1 ≡ true
    → (evaluate_suggestion ns s cfg).0 ≡ action_of ns s
unfolding evaluate_suggestion
evaluate-accepted ns s cfg h = ground arith
