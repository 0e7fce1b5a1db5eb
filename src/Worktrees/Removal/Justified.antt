-- ===== src/Worktrees/Removal/Justified.antt =====
-- What Apply asks git for: each command by the row and the proofs that it rests on.
use noo_noo.Common.{
  All, Bool, Bool-cases, List, Option-cases, Sum-cases, [], arith, false, inl, inr, refl, true, ◌∷◌,
  ◌≡◌,
}
use noo_noo.Leaks.Text.{Bytes, bytes_eq}
use noo_noo.Worktrees.Rows.{Info}
use noo_noo.Worktrees.Facts.Finished.{IsFinished, classify_worktree_iff}
use noo_noo.Worktrees.Removal.{
  Command, WorktreeWorld, answer_row, apply_located, apply_worktree, branch_command, delete_branch,
  discover_repos, is_obvious, locate, locate_in, prune, remove, remove_obvious, row_for, rows_of,
}
use noo_noo.Worktrees.Facts.{
  WorktreeClass, class_active, class_judgment, class_obvious, classify_worktree,
}

-- A prune has a row that is gone; a removal and a branch's deletion have a finished worktree. No
-- command has the force.
abbrev pub IsJustified : WorktreeWorld → Bytes → Bytes → Info → Command → Type 0
IsJustified w target repo wt (prune r) = (r ≡ repo) × (wt.prunable ≡ true)
IsJustified w target repo wt (remove r t) =
    (r ≡ repo) × (t ≡ target) × IsFinished w.probes wt w.now w.min_idle
IsJustified w target repo wt (delete_branch r b) =
    (r ≡ repo) × (b ≡ wt.branch) × IsFinished w.probes wt w.now w.min_idle
IsJustified w target repo wt _ = ⊥

branch_command-IsJustified :
    (w : WorktreeWorld) (target repo : Bytes) (wt : Info)
    → IsFinished w.probes wt w.now w.min_idle
    → All (IsJustified w target repo wt) (branch_command repo wt.branch)
branch_command-IsJustified w target repo wt f = elim (Bool-cases (bytes_eq wt.branch [])) [
  | inl bare ↦ rw bare tt
  | inr named ↦ rw named ((refl, refl, f), tt)
]

remove_obvious-IsJustified :
    (w : WorktreeWorld) (target repo : Bytes) (wt : Info)
    → IsFinished w.probes wt w.now w.min_idle
    → All (IsJustified w target repo wt) (remove_obvious w target repo wt).commands
remove_obvious-IsJustified w target repo wt f = elim (Bool-cases w.statfs_ok) [
  | inr lost ↦ rw (lost, remove_obvious) tt
  | inl ready ↦ elim (Option-cases w.freed) [
    | inl lost ↦ rw (ready, remove_obvious, lost) ((refl, refl, f), tt)
    | inr (n, got) ↦ elim (Bool-cases (w.succeeds (remove repo target))) [
      | inl done ↦
          rw (ready, remove_obvious, got, done)
            ((refl, refl, f), branch_command-IsJustified w target repo wt f)
      | inr failed ↦ rw (ready, remove_obvious, got, failed) ((refl, refl, f), tt)
    ]
  ]
]

obvious-class : (c : WorktreeClass) → is_obvious c ≡ true → c ≡ class_obvious
obvious-class class_obvious h = refl
obvious-class class_active h = cc
obvious-class class_judgment h = cc

apply_located-IsJustified :
    (w : WorktreeWorld) (target repo : Bytes) (wt : Info)
    → All (IsJustified w target repo wt) (apply_located w target repo wt).commands
unfolding apply_located
apply_located-IsJustified w target repo wt = elim (Bool-cases wt.prunable) [
  | inl gone ↦ ground arith
  | inr stands ↦
      let now_class = (classify_worktree w.probes wt w.now w.min_idle).1 in
      elim (Bool-cases (is_obvious now_class)) [
        | inr other ↦ ground arith
        | inl obvious ↦
            let finished =
              (classify_worktree_iff w.probes wt w.now w.min_idle).0
                (obvious-class now_class obvious) in
            ground (arith, remove_obvious-IsJustified w target repo wt finished)
      ]
]

answer_row-secondary :
    (r : Bytes) (row : Info) (repo : Bytes) (wt : Info)
    → answer_row r row ≡ inr (repo, wt)
    → wt.primary ≡ false
answer_row-secondary r row repo wt h = ground arith

-- What locate finds is no primary checkout.
locate_in-secondary :
    (w : WorktreeWorld) (target : Bytes) (rs : List Bytes) (repo : Bytes) (wt : Info)
    → locate_in w target rs ≡ inr (repo, wt)
    → wt.primary ≡ false
unfolding locate_in
locate_in-secondary w target [] repo wt h = cc
locate_in-secondary w target (r ∷ rs) repo wt h =
    elim (Option-cases (row_for target (rows_of (w.list_worktrees r)))) [
      | inl lost ↦ locate_in-secondary w target rs repo wt (rw (lost, locate_in) at h)
      | inr (row, found) ↦ answer_row-secondary r row repo wt (rw (found, locate_in) at h)
    ]

-- The command rests on the row that locate finds, which is no primary checkout.
abbrev pub HasWarrant : WorktreeWorld → Bytes → Command → Type 0
HasWarrant w target c =
    (repo : Bytes) × (wt : Info) × (locate w target ≡ inr (repo, wt))
    × (wt.primary ≡ false)
    × IsJustified w target repo wt c

IsJustified-HasWarrant :
    (w : WorktreeWorld) (target repo : Bytes) (wt : Info) (cs : List Command)
    → locate w target ≡ inr (repo, wt)
    → All (IsJustified w target repo wt) cs
    → All (HasWarrant w target) cs
unfolding locate
IsJustified-HasWarrant w target repo wt [] e h = tt
IsJustified-HasWarrant w target repo wt (c ∷ cs) e h = (
  (repo, wt, e, locate_in-secondary w target (discover_repos w.dirs w.roots 3) repo wt e, h.0),
  IsJustified-HasWarrant w target repo wt cs e h.1,
)

-- Every git command that Apply of a worktree starts is for a registered row that is not the
-- primary checkout: a prune for a prunable row, a removal of the target or a deletion of its
-- branch for one that is finished at that time; none has the force.
pub apply_worktree-HasWarrant :
    (w : WorktreeWorld) (deletes : Bool) (target : Bytes)
    → All (HasWarrant w target) (apply_worktree w deletes target).commands
unfolding apply_worktree
apply_worktree-HasWarrant w false target = tt
apply_worktree-HasWarrant w true target = elim (Sum-cases (locate w target)) [
  | inl (e, lost) ↦ rw (lost, apply_worktree) tt
  | inr (found, got) ↦
      rw (got, apply_worktree)
        (IsJustified-HasWarrant w target found.0 found.1
          (apply_located w target found.0 found.1).commands got
          (apply_located-IsJustified w target found.0 found.1))
]
