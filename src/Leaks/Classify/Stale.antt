-- ===== src/Leaks/Classify/Stale.antt =====
-- When a hit counts as stale: the age that its rule asks for, and that nothing holds it open.
use noo_noo.Common.{
  Bool-cases, Option, Option-cases, String, arith, false, if◌then◌else◌, inl, inr, none, refl, some,
  true, ◌↔◌, ◌≡◌, ◌⊎◌,
}
use noo_noo.Common.Int.{ℤ, ◌-ℤ◌, ◌≤ℤ◌}
use noo_noo.Leaks.Signature.{
  AliasRule, SessionRule, Signature, Staleness, alias_launch_causality, alias_none,
  is_scratch_entry, is_session_uuid, when_aged, when_family_aged, when_lsof_empty,
  when_session_dead,
}
use noo_noo.Leaks.Classify.{
  Machine, Rule, arbitrate, base_name, classify, gated, judge_rule, old_enough, rule_by, rule_of,
  session_lives, session_switch, unheld,
}

-- The path is a session's own directory, and not one of its scratch entries.
abbrev IsSessionDir : Signature → String → Type 0
IsSessionDir sig path =
    (is_scratch_entry sig path ≡ false) × (is_session_uuid (base_name path) ≡ true)

-- The age that the signature's rule asks of a path, if it asks for one. A live session has none.
pub data Asks (m : Machine) (sig : Signature) (path : String) : Option ℤ → Type 0 where
  no_age : sig.staleness ≡ when_lsof_empty → Asks m sig path none
  plain_age : sig.staleness ≡ when_aged → Asks m sig path (some sig.min_age)
  family_age : sig.staleness ≡ when_family_aged → Asks m sig path none
  no_session_rule :
      sig.staleness ≡ when_session_dead → sig.session_rule ≡ none → Asks m sig path none
  scratch_entry :
      (rule : SessionRule)
      → sig.staleness ≡ when_session_dead
      → sig.session_rule ≡ some rule
      → is_scratch_entry sig path ≡ true
      → Asks m sig path (some rule.entry_idle)
  dead_session :
      (rule : SessionRule)
      → sig.staleness ≡ when_session_dead
      → sig.session_rule ≡ some rule
      → IsSessionDir sig path
      → m.session_alive (base_name path) rule.transcript_window ≡ false
      → Asks m sig path (some rule.dead_after)
  no_session :
      (rule : SessionRule)
      → sig.staleness ≡ when_session_dead
      → sig.session_rule ≡ some rule
      → is_scratch_entry sig path ≡ false
      → is_session_uuid (base_name path) ≡ false
      → Asks m sig path (some sig.min_age)

-- The whole tree is at least that old, and its newest time could be read.
abbrev pub IsOld : Machine → String → Option ℤ → Type 0
IsOld m path none = Unit
IsOld m path (some age) =
    (newest : ℤ) × (m.newest_mtime path ≡ some newest) × (age ≤ℤ m.now -ℤ newest)

-- No process holds the tree open, or launch causality shows that the matches are aliases.
abbrev pub IsUnheld : Machine → Signature → String → Type 0
IsUnheld m sig path =
    (m.probe_live path ≡ false)
    ⊎ ((sig.alias_rule ≡ alias_launch_causality) × (m.causal_stale path ≡ true))

pub record IsStale (m : Machine) (sig : Signature) (path : String) : Type 0 where
  pub age : Option ℤ
  pub asked : Asks m sig path age
  pub old : IsOld m path age
  pub unheld_now : IsUnheld m sig path

-- What the decided rule asks for; `none` is the live session.
abbrev asked_of : Rule → Option (Option ℤ)
asked_of session_lives = none
asked_of (gated state aged age) = some (if aged then some age else none)

session_switch-Asks :
    (m : Machine) (sig : Signature) (path : String) (rule : SessionRule) (age : Option ℤ)
    → sig.staleness ≡ when_session_dead
    → sig.session_rule ≡ some rule
    → asked_of (session_switch m sig rule path) ≡ some age
    → Asks m sig path age
session_switch-Asks m sig path rule age st sr h = elim (Bool-cases (is_scratch_entry sig path)) [
  | inl entry ↦
      let e : some rule.entry_idle ≡ age = ground arith in rw (← e) (scratch_entry rule st sr entry)
  | inr whole ↦ elim (Bool-cases (is_session_uuid (base_name path))) [
    | inr no_uuid ↦
        let e : some sig.min_age ≡ age = ground arith in
        rw (← e) (no_session rule st sr whole no_uuid)
    | inl uuid ↦ elim (Bool-cases (m.session_alive (base_name path) rule.transcript_window)) [
      | inl alive ↦ ground arith
      | inr dead ↦
          let e : some rule.dead_after ≡ age = ground arith in
          rw (← e) (dead_session rule st sr (whole, uuid) dead)
    ]
  ]
]

rule_by-Asks :
    (m : Machine) (sig : Signature) (path : String) (age : Option ℤ)
    → (st : Staleness) (sr : Option SessionRule) → sig.staleness ≡ st
    → sig.session_rule ≡ sr
    → asked_of (rule_by m sig path st sr) ≡ some age
    → Asks m sig path age
rule_by-Asks m sig path age when_session_dead (some rule) st sr h =
    session_switch-Asks m sig path rule age st sr h
rule_by-Asks m sig path age when_session_dead none st sr h =
    let e : none ≡ age = cc h in rw (← e) (no_session_rule st sr)
rule_by-Asks m sig path age when_lsof_empty _ st sr h =
    let e : none ≡ age = cc h in rw (← e) (no_age st)
rule_by-Asks m sig path age when_aged _ st sr h =
    let e : some sig.min_age ≡ age = cc h in rw (← e) (plain_age st)
rule_by-Asks m sig path age when_family_aged _ st sr h =
    let e : none ≡ age = cc h in rw (← e) (family_age st)

Asks-rule_of :
    (m : Machine) (sig : Signature) (path : String) (age : Option ℤ)
    → Asks m sig path age
    → asked_of (rule_of m sig path) ≡ some age
unfolding rule_of
Asks-rule_of m sig path _ (no_age st) = ground arith
Asks-rule_of m sig path _ (plain_age st) = ground arith
Asks-rule_of m sig path _ (family_age st) = ground arith
Asks-rule_of m sig path _ (no_session_rule st sr) = ground arith
Asks-rule_of m sig path _ (scratch_entry rule st sr entry) = ground arith
Asks-rule_of m sig path _ (dead_session rule st sr dir dead) = ground arith
Asks-rule_of m sig path _ (no_session rule st sr whole no_uuid) = ground arith

arbitrate-true :
    (m : Machine) (a : AliasRule) (path : String)
    → arbitrate m a path ≡ true
    → (a ≡ alias_launch_causality) × (m.causal_stale path ≡ true)
arbitrate-true m alias_none path h = cc
arbitrate-true m alias_launch_causality path h = (refl, h)

IsUnheld-of_unheld :
    (m : Machine) (sig : Signature) (path : String) → unheld m sig path ≡ true → IsUnheld m sig path
IsUnheld-of_unheld m sig path h = elim (Bool-cases (m.probe_live path)) [
  | inl live ↦ inr (arbitrate-true m sig.alias_rule path (rw live at h))
  | inr quiet ↦ inl quiet
]

unheld-of_IsUnheld :
    (m : Machine) (sig : Signature) (path : String) → IsUnheld m sig path → unheld m sig path ≡ true
unheld-of_IsUnheld m sig path (inl quiet) = rw quiet refl
unheld-of_IsUnheld m sig path (inr (opted, stale)) = ground arith

old_enough_iff :
    (m : Machine) (path : String) (age : ℤ)
    → (old_enough m path age ≡ true) ↔ IsOld m path (some age)
old_enough_iff m path age = elim (Option-cases (m.newest_mtime path)) [
  | inl lost ↦ (λ h. ground arith, λ h. ground arith)
  | inr (newest, got) ↦ (λ h. (newest, got, ground arith), λ h. ground arith)
]

judge_rule-true :
    (m : Machine) (sig : Signature) (path : String) (r : Rule)
    → (judge_rule m sig path r).0 ≡ true
    → (age : Option ℤ) × (asked_of r ≡ some age) × IsOld m path age × IsUnheld m sig path
judge_rule-true m sig path session_lives h = cc
judge_rule-true m sig path (gated state true age) h = elim (Bool-cases (old_enough m path age)) [
  | inl old ↦ (
    some age,
    refl,
    (old_enough_iff m path age).0 old,
    IsUnheld-of_unheld m sig path (ground arith),
  )
  | inr young ↦ ground arith
]
judge_rule-true m sig path (gated state false age) h =
    (none, refl, tt, IsUnheld-of_unheld m sig path h)

true-judge_rule :
    (m : Machine) (sig : Signature) (path : String) (r : Rule) (age : Option ℤ)
    → asked_of r ≡ some age
    → IsOld m path age
    → IsUnheld m sig path
    → (judge_rule m sig path r).0 ≡ true
true-judge_rule m sig path session_lives age h old u = cc
true-judge_rule m sig path (gated state true n) age h old u =
    let e : age ≡ some n = cc h in
    let is_old = (old_enough_iff m path n).1 (rw e at old) in
    rw is_old (unheld-of_IsUnheld m sig path u)
true-judge_rule m sig path (gated state false n) age h old u = unheld-of_IsUnheld m sig path u

IsStale-of_classify :
    (m : Machine) (sig : Signature) (path : String)
    → (classify m sig path).0 ≡ true
    → IsStale m sig path
unfolding classify rule_of
IsStale-of_classify m sig path h =
    let (age, asks, old, u) = judge_rule-true m sig path (rule_of m sig path) h in
    record {
      age = age;
      asked = rule_by-Asks m sig path age sig.staleness sig.session_rule refl refl asks;
      old = old;
      unheld_now = u;
    }

classify-of_IsStale :
    (m : Machine) (sig : Signature) (path : String)
    → IsStale m sig path
    → (classify m sig path).0 ≡ true
unfolding classify
classify-of_IsStale m sig path s =
    true-judge_rule m sig path (rule_of m sig path) s.age (Asks-rule_of m sig path s.age s.asked)
      s.old s.unheld_now

-- A hit is stale exactly when its signature's rule does not find a live session, the whole tree is
-- readable and at least as old as the age that the rule asks for, if it asks for one, and no
-- process holds it open or the signature's launch causality shows that the matches are aliases.
pub classify_iff :
    (m : Machine) (sig : Signature) (path : String)
    → ((classify m sig path).0 ≡ true) ↔ IsStale m sig path
classify_iff m sig path = (IsStale-of_classify m sig path, classify-of_IsStale m sig path)
