-- ===== src/Heuristics.antt =====
-- internal/heuristics/types.go: what every heuristic emits.
pub mod Storms
use noo_noo.Common.{List, Option, String, [], if◌then◌else◌, none, some, str_eq, ℕ, ◌∷◌}
use noo_noo.Common.Int.{ℤ}

-- An evidence value, Go's `any`. A float64 is read only through its conversion to an integer, so it
-- is kept as that integer.
pub data Value : Type 0 where
  int_value : ℤ → Value
  int64_value : ℤ → Value
  float_value : ℤ → Value
  text_value : String → Value
  other_value : Value

-- `no_level` is the empty text, Go's zero value
pub data RiskLevel : Type 0 where
  low medium high no_level : RiskLevel

-- `suggestion_id` is 0 until the row is stored
pub record Suggestion : Type 0 where
  pub suggestion_id : ℕ
  pub module_name : String
  pub target : String
  pub reason : String
  pub evidence : List (String × Value)
  pub risk_level : RiskLevel
  pub size_bytes : ℤ
  pub created_at : ℕ

-- s.Evidence[key]
unfoldable pub evidence_at {ℓ} : {V : Type ℓ} → String → List (String × V) → Option V
evidence_at key [] = none
evidence_at key ((k, v) ∷ rest) = if str_eq k key then some v else evidence_at key rest
