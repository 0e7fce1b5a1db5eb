-- ===== src/Leaks/Classify.antt =====
-- internal/leaks/module.go: classify and inspect, whether one hit is stale, and what is recorded.
pub mod Stale
use noo_noo.Common.{
  Bool, List, Option, String, [], false, if◌then◌else◌, none, not, some, str_eq, true, ◌&&◌, ◌||◌,
  ◌∷◌,
}
use noo_noo.Common.Int.{ltb_ℤ, pos, ℤ, ◌-ℤ◌}
use noo_noo.Core.Paths.{split}
use noo_noo.Leaks.Signature.{
  AliasRule, SessionRule, Signature, Staleness, alias_launch_causality, alias_none,
  is_scratch_entry, is_session_uuid, when_aged, when_session_dead,
}

-- what Lstat finds of a path
pub record Entry : Type 0 where
  pub is_symlink : Bool
  pub owner : ℤ

-- The machine at the time of a call: the file system, the probes and the clock.
pub record Machine : Type 0 where
  pub lstat : String → Option Entry
  pub newest_mtime : String → Option ℤ
  pub session_alive : String → ℤ → Bool
  pub probe_live : String → Bool
  pub causal_stale : String → Bool
  pub unique_allocated : String → Option ℤ
  pub blocks : String → Option ℤ
  pub uid : ℤ
  pub now : ℤ

-- filepath.Base
abbrev pub last_part : String → List String → String
last_part found [] = found
last_part found (p ∷ ps) = last_part (if str_eq p "" then found else p) ps

unfoldable pub base_name : String → String
unfolding split
base_name path =
    if str_eq path ""
    then "."
    else let last = last_part "" (split path) in if str_eq last "" then "/" else last

-- The entries of the evidence that the code reads again.
pub record Evidence : Type 0 where
  pub session_state : Option Bool  -- "session_alive"
  pub is_stale : Bool  -- "staleness"
  pub unique_bytes : Option ℤ
  pub blocks_bytes : Option ℤ

-- what the switch over the signature's rule decides: LIVE at once, or an age gate
pub data Rule : Type 0 where
  session_lives : Rule
  gated : Option Bool → Bool → ℤ → Rule

-- the cases of the session rule
abbrev pub session_switch : Machine → Signature → SessionRule → String → Rule
session_switch m sig rule path =
    if is_scratch_entry sig path
    then gated none true rule.entry_idle
    else if is_session_uuid (base_name path)
    then (if m.session_alive (base_name path) rule.transcript_window
        then session_lives
        else gated (some false) true rule.dead_after)
    else gated none true sig.min_age

abbrev pub is_aged : Staleness → Bool
is_aged when_aged = true
is_aged _ = false

abbrev pub rule_by : Machine → Signature → String → Staleness → Option SessionRule → Rule
rule_by m sig path when_session_dead (some rule) = session_switch m sig rule path
rule_by m sig path st _ = gated none (is_aged st) sig.min_age

unfoldable pub rule_of : Machine → Signature → String → Rule
rule_of m sig path = rule_by m sig path sig.staleness sig.session_rule

-- the age gate: the newest time of the tree lies the age back
abbrev pub old_enough : Machine → String → ℤ → Bool
old_enough m path age = elim (m.newest_mtime path) [
  | none ↦ false
  | some newest ↦ not (ltb_ℤ (m.now -ℤ newest) age)
]

abbrev pub arbitrate : Machine → AliasRule → String → Bool
arbitrate m alias_launch_causality path = m.causal_stale path
arbitrate m alias_none path = false

-- the probe, and the arbitration that some signatures opt in to
abbrev pub unheld : Machine → Signature → String → Bool
unheld m sig path = if m.probe_live path then arbitrate m sig.alias_rule path else true

abbrev pub judge_rule : Machine → Signature → String → Rule → Bool × Option Bool
judge_rule m sig path session_lives = (false, some true)
judge_rule m sig path (gated state aged age) =
    if aged && not (old_enough m path age) then (false, state) else (unheld m sig path, state)

-- whether the hit is stale, and "session_alive"
unfoldable pub classify : Machine → Signature → String → Bool × Option Bool
unfolding rule_of
classify m sig path = judge_rule m sig path (rule_of m sig path)

pub record Hit : Type 0 where
  pub item_path : String
  pub item_size : ℤ
  pub evidence : Evidence

abbrev pub bytes_or_zero : Option ℤ → ℤ
bytes_or_zero none = pos 0
bytes_or_zero (some n) = n

-- `none`: no candidate at all
unfoldable pub inspect : Machine → Signature → String → Option Hit
unfolding classify
inspect m sig path = elim (m.lstat path) [
  | none ↦ none
  | some e ↦
      if e.is_symlink
      then none
      else if ltb_ℤ e.owner m.uid || ltb_ℤ m.uid e.owner
      then none
      else let (stale, state) = classify m sig path in
        some record {
          item_path = path;
          item_size = bytes_or_zero (m.unique_allocated path);
          evidence = record {
            session_state = state;
            is_stale = stale;
            unique_bytes = m.unique_allocated path;
            blocks_bytes = m.blocks path;
          };
        }
]
