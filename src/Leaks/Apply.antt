-- ===== src/Leaks/Apply.antt =====
-- internal/leaks: Plan and Apply of module.go, and applyFamily of family.go. The machine is read anew
-- at every check: it is a function of the number of members done.
pub mod Proven
pub mod Untouched
use noo_noo.Common.{
  Bool, List, Option, String, [], false, if◌then◌else◌, inl, inr, length, ltb, none, not, some, suc,
  true, ℕ, ◌==◌, ◌∷◌, ◌⊎◌,
}
use noo_noo.Common.Int.{ltb_ℤ, mul64, sub64, ℤ, ◌-ℤ◌}
use noo_noo.Core.Safety.{Safety}
use noo_noo.Core.LeakTarget.{LeakDenial, can_delete_leak_target}
use noo_noo.Leaks.Signature.{FamilyRule, ModuleRisk, Signature, all_globs, risk_low, signature_for}
use noo_noo.Leaks.Listing.{Child, Family, family_for_handle}
use noo_noo.Leaks.Classify.{Hit, Machine, inspect}

-- treeFacts: the newest time, and whether the tree holds a special file
pub record TreeFacts : Type 0 where
  pub newest : ℤ
  pub special : Bool

-- what the family rule reads besides
pub record Trees : Type 0 where
  pub machine : Machine
  pub tree_facts : String → Option TreeFacts
  pub read_dir : String → Option (List Child)

pub record Statfs : Type 0 where
  pub bavail : ℤ
  pub bsize : ℤ

-- The module, with what its calls reach.
pub record LeaksModule : Type 0 where
  pub signatures : List Signature
  pub cwd : Option String
  pub eval_symlinks : List String → Option (List String)
  pub safety : Safety
  pub trees_at : ℕ → Trees
  pub cancelled : ℕ → Bool
  pub remove_all : String → Bool
  pub statfs_before : Option Statfs
  pub statfs_after : Option Statfs

pub data LeakOp : Type 0 where
  op_delete : LeakOp
  op_other : String → LeakOp

pub record LeakAction : Type 0 where
  pub op : LeakOp
  pub target : String
  pub size : ℤ
  pub action_risk : ModuleRisk

abbrev pub risk_for : Option Signature → ModuleRisk
risk_for none = risk_low
risk_for (some sig) = sig.risk

abbrev pub action_for : LeaksModule → Hit → LeakAction
action_for m it = record {
  op = op_delete;
  target = it.item_path;
  size = it.item_size;
  action_risk = risk_for (signature_for m.cwd m.signatures it.item_path);
}

-- the deletions of the stale hits
unfoldable pub plan : LeaksModule → List Hit → List LeakAction
plan m [] = []
plan m (it ∷ its) =
    let rest = plan m its in if it.evidence.is_stale then action_for m it ∷ rest else rest

pub data LeakError : Type 0 where
  unsupported_op no_signature not_inspectable went_live : LeakError
  unsafe : LeakDenial → LeakError
  statfs_failed remove_failed : LeakError
  no_family too_few stopped none_deletable : LeakError

-- The bytes freed or an error, without the bytes that a failed batch tells besides, and the paths that were handed to RemoveAll.
pub record LeakOutcome : Type 0 where
  pub result : LeakError ⊎ ℤ
  pub removed : List String

abbrev pub fail_with : LeakError → LeakOutcome
fail_with e = record { result = inl e; removed = [] }

-- sizer.FreedByDelete, around a removal that was run and may have failed with an error
abbrev pub measured : Option Statfs → Option Statfs → Option LeakError → LeakError ⊎ ℤ
measured none after err = inl statfs_failed
measured (some before) none err = inl statfs_failed
measured (some before) (some after) none =
    inr (mul64 (sub64 after.bavail before.bavail) before.bsize)
measured (some before) (some after) (some e) = inl e

abbrev pub freed_by_removal : LeaksModule → List String → Option LeakError → LeakOutcome
freed_by_removal m paths err = record {
  result = measured m.statfs_before m.statfs_after err;
  removed = elim m.statfs_before [ none ↦ [] | some before ↦ paths ];
}

-- the last steps for a path that is not a family
abbrev pub remove_target : LeaksModule → Signature → String → LeakOutcome
remove_target m sig path =
    elim (can_delete_leak_target m.cwd m.eval_symlinks m.safety path (all_globs sig)) [
      | some denial ↦ fail_with (unsafe denial)
      | none ↦
          freed_by_removal m (path ∷ []) (if m.remove_all path then none else some remove_failed)
    ]

-- staleness is established again
unfoldable pub apply_path : LeaksModule → Signature → String → LeakOutcome
apply_path m sig path = elim (inspect (m.trees_at 0).machine sig path) [
  | none ↦ fail_with not_inspectable
  | some it ↦ if it.evidence.is_stale then remove_target m sig path else fail_with went_live
]

-- memberRefusal: `true` is a refusal
abbrev pub facts_refuse : Trees → Signature → String → Option TreeFacts → Bool
facts_refuse t sig path none = true
facts_refuse t sig path (some f) =
    if f.special
    then true
    else if ltb_ℤ (t.machine.now -ℤ f.newest) sig.min_age
    then true
    else t.machine.probe_live path

unfoldable pub member_refusal : Trees → Signature → String → Bool
member_refusal t sig path = elim (t.machine.lstat path) [
  | none ↦ true
  | some e ↦ if e.is_symlink then true else facts_refuse t sig path (t.tree_facts path)
]

-- the loop over the members: whether it was stopped, the paths removed, and how many of them went
pub record Swept : Type 0 where
  pub was_stopped : Bool
  pub handed : List String
  pub deleted_count : ℕ

abbrev pub swept_nothing : Bool → Swept
swept_nothing b = record { was_stopped = b; handed = []; deleted_count = 0 }

abbrev pub sweep_one : LeaksModule → String → Swept → Swept
sweep_one m path rest = record {
  was_stopped = rest.was_stopped;
  handed = path ∷ rest.handed;
  deleted_count = if m.remove_all path then suc rest.deleted_count else rest.deleted_count;
}

unfoldable pub sweep_members : LeaksModule → Signature → ℕ → List String → Swept
unfolding member_refusal
sweep_members m sig n [] = swept_nothing false
sweep_members m sig n (path ∷ paths) =
    let rest = sweep_members m sig (suc n) paths in
    let tried =
      elim (can_delete_leak_target m.cwd m.eval_symlinks m.safety path sig.globs) as (λ o. Swept) [
        | some denial ↦ rest
        | none ↦ sweep_one m path rest
      ] in
    if m.cancelled n
    then swept_nothing true
    else if member_refusal (m.trees_at n) sig path
    then rest
    else tried

-- the outcome of the whole batch
abbrev pub sweep_error : Swept → Option LeakError
sweep_error s = if s.was_stopped then some stopped else none

abbrev pub count_result : Swept → LeakError ⊎ ℤ → LeakError ⊎ ℤ
count_result s (inl e) = inl e
count_result s (inr freed) = if s.deleted_count == 0 then inl none_deletable else inr freed

abbrev pub swept_outcome : Swept → LeakOutcome → LeakOutcome
swept_outcome s o = record { result = count_result s o.result; removed = o.removed }

-- applyFamily
abbrev pub apply_members : LeaksModule → Signature → FamilyRule → Family → LeakOutcome
apply_members m sig rule fam =
    if ltb (length fam.members) rule.min_members
    then fail_with too_few
    else let s = sweep_members m sig 0 fam.members in
      swept_outcome s (freed_by_removal m s.handed (sweep_error s))

unfoldable pub apply_family : LeaksModule → Signature → FamilyRule → String → LeakOutcome
unfolding sweep_members
apply_family m sig rule handle =
    elim (family_for_handle (m.trees_at 0).machine.uid rule (m.trees_at 0).read_dir handle) [
      | none ↦ fail_with no_family
      | some fam ↦ apply_members m sig rule fam
    ]

abbrev pub apply_by_rule : LeaksModule → Signature → String → Option FamilyRule → LeakOutcome
apply_by_rule m sig path none = apply_path m sig path
apply_by_rule m sig path (some rule) = apply_family m sig rule path

abbrev pub is_delete : LeakOp → Bool
is_delete op_delete = true
is_delete (op_other s) = false

-- Apply
unfoldable pub apply_leak : LeaksModule → LeakAction → LeakOutcome
unfolding apply_path apply_family
apply_leak m a =
    if not (is_delete a.op)
    then fail_with unsupported_op
    else elim (signature_for m.cwd m.signatures a.target) [
      | none ↦ fail_with no_signature
      | some sig ↦ apply_by_rule m sig a.target sig.family_rule
    ]
