-- ===== src/Leaks/Apply/Proven.antt =====
-- Whatever Apply hands to RemoveAll was proven stale at that time, and is a permitted leaf.
use noo_noo.Common.{
  All, Bool-cases, List, Option, Option-cases, String, [], arith, false, if◌then◌else◌, inl, inr,
  length, length-append, ltb, none, refl, some, suc, sym, ℕ, ◌++◌, ◌∙◌, ◌∷◌, ◌≡◌, ◌⊎◌,
}
use mathlib.Core.Path.{subst}
use mathlib.Core.List.{append_assoc}
use noo_noo.Common.Int.{◌-ℤ◌, ◌≤ℤ◌}
use noo_noo.Core.LeakTarget.{can_delete_leak_target}
use noo_noo.Leaks.Signature.{FamilyRule, Signature, all_globs, signature_for}
use noo_noo.Leaks.Classify.Stale.{IsStale, classify_iff}
use noo_noo.Leaks.Apply.{
  LeakAction, LeakError, LeaksModule, TreeFacts, Trees, apply_by_rule, apply_family, apply_leak,
  apply_members, apply_path, facts_refuse, freed_by_removal, is_delete, member_refusal,
  remove_failed, remove_target, sweep_error, sweep_members,
}
use noo_noo.Leaks.Classify.{Hit, Machine, classify, inspect}
use noo_noo.Leaks.Listing.{Family, family_for_handle}

-- CanDeleteLeakTarget lets the path through, by some of the globs.
abbrev pub IsPermitted : LeaksModule → String → List String → Type 0
IsPermitted m path globs = can_delete_leak_target m.cwd m.eval_symlinks m.safety path globs ≡ none

-- A member of a family that is plain scratch, old and held open by nothing.
pub record IsQuietMember (t : Trees) (sig : Signature) (path : String) : Type 0 where
  pub facts : TreeFacts
  pub readable : t.tree_facts path ≡ some facts
  pub no_special : facts.special ≡ false
  pub old : sig.min_age ≤ℤ t.machine.now -ℤ facts.newest
  pub quiet : t.machine.probe_live path ≡ false

-- The members of the family that the handle names are those done, and then the others.
abbrev pub AreMembers : LeaksModule → Signature → String → List String → List String → Type 0
AreMembers m sig handle done others =
    (rule : FamilyRule) × (fam : Family) × (sig.family_rule ≡ some rule)
    × (family_for_handle (m.trees_at 0).machine.uid rule (m.trees_at 0).read_dir handle ≡ some fam)
    × (fam.members ≡ done ++ others)

-- The path is the family's member after those done, and on the machine as it is when they are done, it
-- is a quiet member, and nothing has stopped the run.
abbrev pub IsProvenMember : LeaksModule → Signature → String → List String → String → Type 0
IsProvenMember m sig handle done path =
    ((after : List String) × AreMembers m sig handle done (path ∷ after))
    × IsQuietMember (m.trees_at (length done)) sig path
    × (m.cancelled (length done) ≡ false)
    × IsPermitted m path sig.globs

-- The path is the stale target itself, or a member that is quiet at its own turn.
abbrev pub IsProven : LeaksModule → Signature → String → String → Type 0
IsProven m sig target path =
    ((path ≡ target) × IsStale (m.trees_at 0).machine sig path × IsPermitted m path (all_globs sig))
    ⊎ ((done : List String) × IsProvenMember m sig target done path)

facts_refuse-IsQuietMember :
    (t : Trees) (sig : Signature) (path : String) (o : Option TreeFacts)
    → t.tree_facts path ≡ o
    → facts_refuse t sig path o ≡ false
    → IsQuietMember t sig path
facts_refuse-IsQuietMember t sig path none e h = cc
facts_refuse-IsQuietMember t sig path (some f) e h = record {
  facts = f;
  readable = e;
  no_special = ground arith;
  old = ground arith;
  quiet = ground arith;
}

member_refusal-IsQuietMember :
    (t : Trees) (sig : Signature) (path : String)
    → member_refusal t sig path ≡ false
    → IsQuietMember t sig path
unfolding member_refusal
member_refusal-IsQuietMember t sig path h =
    facts_refuse-IsQuietMember t sig path (t.tree_facts path) refl (ground arith)

next-AreMembers :
    (m : LeaksModule) (sig : Signature) (handle path : String) (done others : List String)
    → AreMembers m sig handle done (path ∷ others)
    → AreMembers m sig handle (done ++ path ∷ []) others
next-AreMembers m sig handle path done others (rule, fam, by_rule, found, e) =
    (rule, fam, by_rule, found, e ∙ sym (append_assoc done (path ∷ []) others))

swept-IsProvenMember :
    (m : LeaksModule) (sig : Signature) (target path : String) (n : ℕ) (done paths : List String)
    → n ≡ length done
    → AreMembers m sig target done (path ∷ paths)
    → member_refusal (m.trees_at n) sig path ≡ false
    → m.cancelled n ≡ false
    → IsPermitted m path sig.globs
    → IsProvenMember m sig target done path
swept-IsProvenMember m sig target path n done paths e h free on permitted = (
  (paths, h),
  subst (λ k. IsQuietMember (m.trees_at k) sig path) e
      (member_refusal-IsQuietMember (m.trees_at n) sig path free),
  subst (λ k. m.cancelled k ≡ false) e on,
  permitted,
)

sweep_members-IsProven :
    (m : LeaksModule) (sig : Signature) (target : String) (n : ℕ) (done paths : List String)
    → n ≡ length done
    → AreMembers m sig target done paths
    → All (IsProven m sig target) (sweep_members m sig n paths).handed
unfolding sweep_members
sweep_members-IsProven m sig target n done [] e h = tt
sweep_members-IsProven m sig target n done (path ∷ paths) e h =
    let rest =
      sweep_members-IsProven m sig target (suc n) (done ++ path ∷ []) paths
        (omega (arith, e, length-append done (path ∷ [])))
        (next-AreMembers m sig target path done paths h) in
    elim (Bool-cases (m.cancelled n)) [
      | inl stop ↦ rw stop tt
      | inr on ↦ elim (Bool-cases (member_refusal (m.trees_at n) sig path)) [
        | inl no_go ↦ rw (on, no_go) rest
        | inr free ↦
            elim (Option-cases
              (can_delete_leak_target m.cwd m.eval_symlinks m.safety path sig.globs)) [
                | inr (denial, denied) ↦ rw (on, free, denied) rest
                | inl permitted ↦
                    rw (on, free, permitted)
                      (
                        inr (
                          done,
                          swept-IsProvenMember m sig target path n done paths e h free on permitted,
                        ),
                        rest,
                      )
              ]
      ]
    ]

freed_by_removal-All :
    (P : String → Type 0) (m : LeaksModule) (paths : List String) (err : Option LeakError)
    → All P paths
    → All P (freed_by_removal m paths err).removed
freed_by_removal-All P m paths err h = elim (Option-cases m.statfs_before) [
  | inl lost ↦ rw lost tt
  | inr (before, got) ↦ rw got h
]

apply_members-IsProven :
    (m : LeaksModule) (sig : Signature) (rule : FamilyRule) (handle : String) (fam : Family)
    → sig.family_rule ≡ some rule
    → family_for_handle (m.trees_at 0).machine.uid rule (m.trees_at 0).read_dir handle ≡ some fam
    → All (IsProven m sig handle) (apply_members m sig rule fam).removed
apply_members-IsProven m sig rule handle fam by_rule found =
    elim (Bool-cases (ltb (length fam.members) rule.min_members)) [
      | inl few ↦ rw few tt
      | inr enough ↦ rw enough (
          freed_by_removal-All (IsProven m sig handle) m (sweep_members m sig 0 fam.members).handed
            (sweep_error (sweep_members m sig 0 fam.members))
            (sweep_members-IsProven m sig handle 0 [] fam.members refl
              (rule, fam, by_rule, found, refl)))
    ]

apply_family-IsProven :
    (m : LeaksModule) (sig : Signature) (rule : FamilyRule) (handle : String)
    → sig.family_rule ≡ some rule
    → All (IsProven m sig handle) (apply_family m sig rule handle).removed
unfolding apply_family
apply_family-IsProven m sig rule handle by_rule =
    elim (Option-cases
      (family_for_handle (m.trees_at 0).machine.uid rule (m.trees_at 0).read_dir handle)) [
        | inl lost ↦ rw (lost, apply_family) tt
        | inr (fam, found) ↦
            rw (found, apply_family) (apply_members-IsProven m sig rule handle fam by_rule found)
      ]

inspect-stale :
    (m : Machine) (sig : Signature) (path : String) (it : Hit)
    → inspect m sig path ≡ some it
    → it.evidence.is_stale ≡ (classify m sig path).0
unfolding inspect
inspect-stale m sig path it h = ground arith

remove_target-IsProven :
    (m : LeaksModule) (sig : Signature) (path : String)
    → IsStale (m.trees_at 0).machine sig path
    → All (IsProven m sig path) (remove_target m sig path).removed
remove_target-IsProven m sig path stale =
    elim (Option-cases
      (can_delete_leak_target m.cwd m.eval_symlinks m.safety path (all_globs sig))) [
        | inr (denial, denied) ↦ rw (denied, remove_target) tt
        | inl permitted ↦
            rw (permitted, remove_target)
              (freed_by_removal-All (IsProven m sig path) m (path ∷ [])
                (if m.remove_all path then none else some remove_failed)
                (inl (refl, stale, permitted), tt))
      ]

apply_path-IsProven :
    (m : LeaksModule) (sig : Signature) (path : String)
    → All (IsProven m sig path) (apply_path m sig path).removed
unfolding apply_path
apply_path-IsProven m sig path = elim (Option-cases (inspect (m.trees_at 0).machine sig path)) [
  | inl lost ↦ rw (lost, apply_path) tt
  | inr (it, got) ↦ elim (Bool-cases it.evidence.is_stale) [
    | inr live ↦ rw (got, apply_path, live) tt
    | inl stale ↦
        rw (got, apply_path, stale)
          (remove_target-IsProven m sig path (
            (classify_iff (m.trees_at 0).machine sig path).0
              (sym (inspect-stale (m.trees_at 0).machine sig path it got) ∙ stale)))
  ]
]

apply_by_rule-IsProven :
    (m : LeaksModule) (sig : Signature) (path : String) (o : Option FamilyRule)
    → sig.family_rule ≡ o
    → All (IsProven m sig path) (apply_by_rule m sig path o).removed
apply_by_rule-IsProven m sig path none by_rule = apply_path-IsProven m sig path
apply_by_rule-IsProven m sig path (some rule) by_rule =
    apply_family-IsProven m sig rule path by_rule

-- The removal has a signature whose leaves the target is among, and is proven by its rule.
abbrev pub IsWarranted : LeaksModule → LeakAction → String → Type 0
IsWarranted m a path =
    (sig : Signature) × (signature_for m.cwd m.signatures a.target ≡ some sig)
    × IsProven m sig a.target path

IsProven-IsWarranted :
    (m : LeaksModule) (a : LeakAction) (sig : Signature) (paths : List String)
    → signature_for m.cwd m.signatures a.target ≡ some sig
    → All (IsProven m sig a.target) paths
    → All (IsWarranted m a) paths
IsProven-IsWarranted m a sig [] e h = tt
IsProven-IsWarranted m a sig (p ∷ ps) e h = ((sig, e, h.0), IsProven-IsWarranted m a sig ps e h.1)

-- Every path that Apply of a leak hands to RemoveAll has a registered signature whose leaves the
-- target is among, is let through by CanDeleteLeakTarget, and is either the target, stale by its
-- signature's whole rule on the machine as Apply found it, or a member of the family that the
-- target names, which on the machine as it was when exactly the members before it were done had a
-- readable tree with no special file, old enough and held open by no process, in a run that was
-- not cancelled by then.
pub apply_leak-IsWarranted :
    (m : LeaksModule) (a : LeakAction) → All (IsWarranted m a) (apply_leak m a).removed
unfolding apply_leak
apply_leak-IsWarranted m a = elim (Bool-cases (is_delete a.op)) [
  | inr other ↦ rw (other, apply_leak) tt
  | inl delete ↦ elim (Option-cases (signature_for m.cwd m.signatures a.target)) [
    | inl lost ↦ rw (delete, apply_leak, lost) tt
    | inr (sig, found) ↦
        rw (delete, apply_leak, found)
          (IsProven-IsWarranted m a sig (apply_by_rule m sig a.target sig.family_rule).removed found
            (apply_by_rule-IsProven m sig a.target sig.family_rule refl))
  ]
]
