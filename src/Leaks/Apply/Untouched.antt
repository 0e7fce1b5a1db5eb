-- ===== src/Leaks/Apply/Untouched.antt =====
-- A refusal leaves the disk as it was.
use noo_noo.Common.{
  Bool, Bool-cases, List, Option, Option-cases, String, [], arith, false, if◌then◌else◌, inl, inr,
  length, ltb, none, refl, some, true, ◌∷◌, ◌≡◌, ◌⊎◌,
}
use noo_noo.Common.Int.{ℤ}
use noo_noo.Core.LeakTarget.{can_delete_leak_target}
use noo_noo.Leaks.Signature.{FamilyRule, Signature, all_globs, signature_for}
use noo_noo.Leaks.Classify.{inspect}
use noo_noo.Leaks.Listing.{Family, family_for_handle}
use noo_noo.Leaks.Apply.{
  LeakAction, LeakError, LeakOutcome, LeaksModule, Swept, apply_by_rule, apply_family, apply_leak,
  apply_members, apply_path, count_result, fail_with, freed_by_removal, is_delete, no_family,
  no_signature, none_deletable, not_inspectable, remove_failed, remove_target, statfs_failed,
  stopped, sweep_error, sweep_members, too_few, unsafe, unsupported_op, went_live,
}

-- The errors that are answered before anything is removed.
abbrev pub is_refusal : LeakError → Bool
is_refusal statfs_failed = false
is_refusal remove_failed = false
is_refusal stopped = false
is_refusal none_deletable = false
is_refusal _ = true

abbrev IsUntouched : LeakOutcome → Type 0
IsUntouched o = (e : LeakError) → o.result ≡ inl e → is_refusal e ≡ true → o.removed ≡ []

fail_with-IsUntouched : (x : LeakError) → IsUntouched (fail_with x)
fail_with-IsUntouched x e h r = refl

-- The error of a measured removal is no refusal, unless the removal's own is.
freed_by_removal-IsUntouched :
    (m : LeaksModule) (paths : List String) (err : Option LeakError)
    → ((x : LeakError) → err ≡ some x → is_refusal x ≡ false)
    → IsUntouched (freed_by_removal m paths err)
freed_by_removal-IsUntouched m paths none late e h r = ground arith
freed_by_removal-IsUntouched m paths (some x) late e h r = ground (arith, late x)

remove_target-IsUntouched :
    (m : LeaksModule) (sig : Signature) (path : String) → IsUntouched (remove_target m sig path)
remove_target-IsUntouched m sig path =
    elim (Option-cases
      (can_delete_leak_target m.cwd m.eval_symlinks m.safety path (all_globs sig))) [
        | inr (denial, denied) ↦ rw (denied, remove_target) (fail_with-IsUntouched (unsafe denial))
        | inl permitted ↦
            rw (permitted, remove_target)
              (freed_by_removal-IsUntouched m (path ∷ [])
                (if m.remove_all path then none else some remove_failed) (λ x h. ground arith))
      ]

apply_path-IsUntouched :
    (m : LeaksModule) (sig : Signature) (path : String) → IsUntouched (apply_path m sig path)
unfolding apply_path
apply_path-IsUntouched m sig path = elim (Option-cases (inspect (m.trees_at 0).machine sig path)) [
  | inl lost ↦ rw (lost, apply_path) (fail_with-IsUntouched not_inspectable)
  | inr (it, got) ↦ elim (Bool-cases it.evidence.is_stale) [
    | inr live ↦ rw (got, apply_path, live) (fail_with-IsUntouched went_live)
    | inl stale ↦ rw (got, apply_path, stale) (remove_target-IsUntouched m sig path)
  ]
]

count_result-late :
    (s : Swept) (r : LeakError ⊎ ℤ) (e : LeakError)
    → count_result s r ≡ inl e
    → is_refusal e ≡ true
    → r ≡ inl e
count_result-late s (inl x) e h k = h
count_result-late s (inr freed) e h k = ground arith

apply_members-IsUntouched :
    (m : LeaksModule) (sig : Signature) (rule : FamilyRule) (fam : Family)
    → IsUntouched (apply_members m sig rule fam)
apply_members-IsUntouched m sig rule fam =
    elim (Bool-cases (ltb (length fam.members) rule.min_members)) [
      | inl few ↦ rw few (fail_with-IsUntouched too_few)
      | inr enough ↦ rw enough (λ e h r.
          let s = sweep_members m sig 0 fam.members in
          freed_by_removal-IsUntouched m s.handed (sweep_error s) (λ x k. ground arith) e
            (count_result-late s (freed_by_removal m s.handed (sweep_error s)).result e h r) r)
    ]

apply_by_rule-IsUntouched :
    (m : LeaksModule) (sig : Signature) (path : String) (o : Option FamilyRule)
    → IsUntouched (apply_by_rule m sig path o)
unfolding apply_family
apply_by_rule-IsUntouched m sig path none = apply_path-IsUntouched m sig path
apply_by_rule-IsUntouched m sig path (some rule) =
    elim (Option-cases
      (family_for_handle (m.trees_at 0).machine.uid rule (m.trees_at 0).read_dir path)) [
        | inl lost ↦ rw (lost, apply_family) (fail_with-IsUntouched no_family)
        | inr (fam, found) ↦ rw (found, apply_family) (apply_members-IsUntouched m sig rule fam)
      ]

-- If Apply of a leak answers with an error other than a failing measurement, a failing removal, a
-- cancelled run or a family of which nothing was deletable, it handed no path to RemoveAll.
pub apply_leak-untouched :
    (m : LeaksModule) (a : LeakAction) (e : LeakError)
    → (apply_leak m a).result ≡ inl e
    → is_refusal e ≡ true
    → (apply_leak m a).removed ≡ []
unfolding apply_leak
apply_leak-untouched m a = elim (Bool-cases (is_delete a.op)) [
  | inr other ↦ rw (other, apply_leak) (fail_with-IsUntouched unsupported_op)
  | inl delete ↦ elim (Option-cases (signature_for m.cwd m.signatures a.target)) [
    | inl lost ↦ rw (delete, apply_leak, lost) (fail_with-IsUntouched no_signature)
    | inr (sig, found) ↦
        rw (delete, apply_leak, found) (apply_by_rule-IsUntouched m sig a.target sig.family_rule)
  ]
]
