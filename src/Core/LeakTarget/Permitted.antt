-- ===== src/Core/LeakTarget/Permitted.antt =====
-- What a permitted leak target is, and that a link or a system area lets nothing else through.
use noo_noo.Common.{
  Any, Bool-cases, List, Option, Option-cases, String, [], arith, false, inl, inr, none, refl, some,
  true, ◌↔◌, ◌∷◌, ◌≡◌,
}
use noo_noo.Core.Glob.{any_match, glob_match}
use noo_noo.Core.Glob.Relation.{Matches, glob_match_iff}
use noo_noo.Core.Paths.{abs_path, path_text}
use noo_noo.Core.Safety.{Safety, has_blocked_part}
use noo_noo.Core.LeakTarget.{can_delete_leak_target, check_resolved, leak_categorical}
use noo_noo.Core.Glob.Depth.{Matches-slashes, slashes}

any_match-Any : (gs : List String) (t : String) → any_match gs t ≡ true → Any (λ g. Matches g t) gs
any_match-Any [] t h = cc
any_match-Any (g ∷ gs) t h = elim (Bool-cases (glob_match g t)) [
  | inl e ↦ inl ((glob_match_iff g t).0 e)
  | inr e ↦ inr (any_match-Any gs t (rw e at h))
]

Any-any_match : (gs : List String) (t : String) → Any (λ g. Matches g t) gs → any_match gs t ≡ true
Any-any_match [] t h = elim h [ ]
Any-any_match (g ∷ gs) t (inl m) = rw ((glob_match_iff g t).1 m) refl
Any-any_match (g ∷ gs) t (inr m) = ground (arith, Any-any_match gs t m)

-- The path is in no system area, and what it resolves to is in none either, has no blocked
-- component and is matched by one of the globs.
pub record IsLeakLeaf (cwd : Option String) (eval_symlinks : List String → Option (List String))
    (s : Safety) (path : String) (globs : List String) : Type 0 where
  pub parts : List String
  pub target : List String
  pub resolves : abs_path cwd path ≡ some parts
  pub no_system : leak_categorical parts ≡ false
  pub follows : eval_symlinks parts ≡ some target
  pub target_no_system : leak_categorical target ≡ false
  pub no_blocked : has_blocked_part s.blocked_names target ≡ false
  pub matched : Any (λ g. Matches g (path_text (some target))) globs

Any-slashes :
    (gs : List String) (t : String)
    → Any (λ g. Matches g t) gs
    → Any (λ g. slashes g ≡ slashes t) gs
Any-slashes [] t h = elim h [ ]
Any-slashes (g ∷ gs) t (inl m) = inl (Matches-slashes g t m)
Any-slashes (g ∷ gs) t (inr m) = inr (Any-slashes gs t m)

check_resolved-none :
    (s : Safety) (globs clean : List String)
    → check_resolved s globs clean ≡ none
    → (leak_categorical clean ≡ false)
      × (has_blocked_part s.blocked_names clean ≡ false)
      × (any_match globs (path_text (some clean)) ≡ true)
check_resolved-none s globs clean h = ground arith

module _ (cwd : Option String) (eval_symlinks : List String → Option (List String)) (s : Safety)
    (path : String) (globs : List String) where
  permitted-IsLeakLeaf :
      can_delete_leak_target cwd eval_symlinks s path globs ≡ none
      → IsLeakLeaf cwd eval_symlinks s path globs
  unfolding can_delete_leak_target
  permitted-IsLeakLeaf h = elim (Option-cases (abs_path cwd path)) [
    | inl e ↦ ground arith
    | inr (parts, e) ↦ elim (Bool-cases (leak_categorical parts)) [
      | inl sys ↦ cc (rw (e, can_delete_leak_target, sys) at h)
      | inr clear ↦ elim (Option-cases (eval_symlinks parts)) [
        | inl f ↦ cc (rw (e, can_delete_leak_target, clear, f) at h)
        | inr (target, f) ↦
            let passed = rw (e, can_delete_leak_target, clear, f) at h in
            let (a, b, m) = check_resolved-none s globs target passed in
            record {
              parts = parts;
              target = target;
              resolves = e;
              no_system = clear;
              follows = f;
              target_no_system = a;
              no_blocked = b;
              matched = any_match-Any globs (path_text (some target)) m;
            }
      ]
    ]
  ]

  IsLeakLeaf-permitted :
      IsLeakLeaf cwd eval_symlinks s path globs
      → can_delete_leak_target cwd eval_symlinks s path globs ≡ none
  unfolding can_delete_leak_target
  IsLeakLeaf-permitted d =
      ground
        (arith, d.resolves, d.follows, Any-any_match globs (path_text (some d.target)) d.matched)

  -- CanDeleteLeakTarget permits a path exactly when it resolves to a path in no categorical system
  -- area, whose links lead to a path that is in none either, has no blocked component and is
  -- matched by one of the globs.
  pub can_delete_leak_target_iff :
      (can_delete_leak_target cwd eval_symlinks s path globs ≡ none)
      ↔ IsLeakLeaf cwd eval_symlinks s path globs
  can_delete_leak_target_iff = (permitted-IsLeakLeaf, IsLeakLeaf-permitted)

  -- A path that CanDeleteLeakTarget permits resolves to one that has as many slashes as one of the
  -- globs.
  pub can_delete_leak_target-slashes :
      can_delete_leak_target cwd eval_symlinks s path globs ≡ none
      → (parts target : List String) → abs_path cwd path ≡ some parts
      → eval_symlinks parts ≡ some target
      → Any (λ g. slashes g ≡ slashes (path_text (some target))) globs
  can_delete_leak_target-slashes h parts target e f =
      let d = permitted-IsLeakLeaf h in
      let same : d.target ≡ target = ground (arith, d.resolves, d.follows) in
      rw (← same) (Any-slashes globs (path_text (some d.target)) d.matched)
