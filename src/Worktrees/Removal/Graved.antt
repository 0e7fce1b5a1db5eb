-- ===== src/Worktrees/Removal/Graved.antt =====
-- The forced removal of a judged worktree stands behind its archives.
use mathlib.Core.List.{append-nil}
use noo_noo.Common.{
  Any, Bool-cases, List, Option-cases, Sum-cases, [], ap, arith, inl, inr, refl, sym, true, ◌++◌,
  ◌∙◌, ◌∷◌, ◌≡◌,
}
use noo_noo.Leaks.Text.{Bytes}
use noo_noo.Worktrees.Rows.{Info}
use noo_noo.Worktrees.Removal.{
  Command, WorktreeWorld, archive_dirty, bundle_head, force_delete_branch, force_remove,
  force_remove_worktree, force_run, forced_branch, grave, locate,
}

abbrev pub IsForce : Command → Type 0
IsForce (force_remove r t) = Unit
IsForce (force_delete_branch r b) = Unit
IsForce _ = ⊥

-- The run began with the bundle and the archive of the worktree, and both went well.
pub record IsGraved (w : WorktreeWorld) (target : Bytes) (cs : List Command) : Type 0 where
  pub repo : Bytes
  pub wt : Info
  pub rest : List Command
  pub located : locate w target ≡ inr (repo, wt)
  pub begun : cs ≡ bundle_head wt.wt_path ∷ archive_dirty wt.wt_path ∷ rest
  pub bundled : w.succeeds (bundle_head wt.wt_path) ≡ true
  pub archived : w.succeeds (archive_dirty wt.wt_path) ≡ true

-- A grave that went well is these two commands.
grave-done :
    (w : WorktreeWorld) (wt : Info)
    → (grave w wt).0 ≡ true
    → ((grave w wt).1 ≡ bundle_head wt.wt_path ∷ archive_dirty wt.wt_path ∷ [])
      × (w.succeeds (bundle_head wt.wt_path) ≡ true)
      × (w.succeeds (archive_dirty wt.wt_path) ≡ true)
grave-done w wt h = ground arith

-- The run of a removal begins with what was dug.
force_run-begins :
    (w : WorktreeWorld) (target repo : Bytes) (wt : Info) (dug : List Command)
    → (rest : List Command) × ((force_run w target repo wt dug).commands ≡ dug ++ rest)
force_run-begins w target repo wt dug = elim (Bool-cases w.statfs_ok) [
  | inr lost ↦ ([], rw (lost, force_run) (sym (append-nil dug)))
  | inl ready ↦ elim (Option-cases w.freed) [
    | inl lost ↦ (force_remove repo target ∷ [], rw (ready, force_run, lost) refl)
    | inr (n, got) ↦ elim (Bool-cases (w.succeeds (force_remove repo target))) [
      | inl done ↦ (
        force_remove repo target ∷ forced_branch repo wt.branch,
        rw (ready, force_run, got, done) refl,
      )
      | inr failed ↦ (force_remove repo target ∷ [], rw (ready, force_run, got, failed) refl)
    ]
  ]
]

-- A grave has no forced command.
grave-gentle : (w : WorktreeWorld) (wt : Info) → Any IsForce (grave w wt).1 → ⊥
grave-gentle w wt h = elim (Bool-cases w.grave_dir) [
  | inr no_dir ↦ rw (no_dir, grave) at h
  | inl dir ↦ elim (Bool-cases (w.succeeds (bundle_head wt.wt_path))) [
    | inr failed ↦ elim (rw (dir, grave, failed) at h) [ inl x ↦ x | inr y ↦ y ]
    | inl done ↦ elim (rw (dir, grave, done) at h) [
      | inl x ↦ x
      | inr y ↦ elim y [ inl x ↦ x | inr z ↦ z ]
    ]
  ]
]

located-IsGraved :
    (w : WorktreeWorld) (target repo : Bytes) (wt : Info)
    → locate w target ≡ inr (repo, wt)
    → (grave w wt).0 ≡ true
    → IsGraved w target (force_run w target repo wt (grave w wt).1).commands
located-IsGraved w target repo wt e h =
    let (dug, bundle, archive) = grave-done w wt h in
    let (rest, begins) = force_run-begins w target repo wt (grave w wt).1 in
    record {
      repo = repo;
      wt = wt;
      rest = rest;
      located = e;
      begun = begins ∙ ap (λ cs. cs ++ rest) dug;
      bundled = bundle;
      archived = archive;
    }

-- A forced removal that starts any forced command began with the bundle of the registered worktree
-- and the archive of its dirty files, and both succeeded.
pub force_remove_worktree-IsGraved :
    (w : WorktreeWorld) (target : Bytes)
    → Any IsForce (force_remove_worktree w target).commands
    → IsGraved w target (force_remove_worktree w target).commands
unfolding force_remove_worktree
force_remove_worktree-IsGraved w target h = elim (Sum-cases (locate w target)) [
  | inl (e, lost) ↦ elim (rw (lost, force_remove_worktree) at h) [ ]
  | inr (found, got) ↦ elim (Bool-cases (grave w found.1).0) [
    | inl done ↦
        rw (got, force_remove_worktree, done) (located-IsGraved w target found.0 found.1 got done)
    | inr failed ↦ absurd (grave-gentle w found.1 (rw (got, force_remove_worktree, failed) at h))
  ]
]
