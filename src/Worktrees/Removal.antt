-- ===== src/Worktrees/Removal.antt =====
-- internal/worktrees/module.go: Scan, Plan, Apply, Grave and ForceRemove, and DiscoverRepos. A run is
-- the list of the git commands and archives that it started, in order.
pub mod Justified
pub mod Graved
use noo_noo.Common.{
  Bool, List, Option, [], elem_of, false, if◌then◌else◌, inl, inr, map, none, not, some, suc, true,
  zero, ℕ, ◌&&◌, ◌++◌, ◌||◌, ◌∷◌, ◌⊎◌,
}
use noo_noo.Common.Int.{pos, ℤ}
use noo_noo.Leaks.Text.{Bytes, bytes_eq, split_on}
use noo_noo.Worktrees.Rows.{Info, parse_worktree_list}
use noo_noo.Worktrees.Facts.{Probes, WorktreeClass, class_obvious, classify_worktree, join_name}

-- What a walk finds of a directory: whether it has a .git directory, and its children that are
-- directories with no dot in front; no children where it cannot be read.
pub record Dir : Type 0 where
  pub has_git : Bool
  pub children : List Bytes

-- the directories seen, and the repositories found
abbrev pub Walked : Type 0
Walked = List Bytes × List Bytes

abbrev pub visit_all : (Bytes → Walked → Walked) → List Bytes → Walked → Walked
visit_all visit [] st = st
visit_all visit (c ∷ cs) st = visit_all visit cs (visit c st)

-- walk, with one more than the levels that are left
unfoldable pub walk : (Bytes → Dir) → ℕ → Bytes → Walked → Walked
walk dirs zero dir st = st
walk dirs (suc n) dir st =
    let d = dirs dir in
    let found = if d.has_git then st.1 ++ dir ∷ [] else st.1 in
    let deeper = visit_all (walk dirs n) (map (join_name dir) d.children) (dir ∷ st.0, found) in
    if elem_of bytes_eq dir st.0 then st else deeper

-- DiscoverRepos
unfoldable pub discover_repos : (Bytes → Dir) → List Bytes → ℕ → List Bytes
unfolding walk
discover_repos dirs roots max_depth = (visit_all (walk dirs (suc max_depth)) roots ([], [])).1

-- filepath.Clean, as the parts of a path
abbrev pub push_clean : Bytes → List Bytes → List Bytes
push_clean p done =
    if bytes_eq p [] || bytes_eq p (b'.' ∷ [])
    then done
    else if bytes_eq p (b'.' ∷ b'.' ∷ [])
    then (elim done [ [] ↦ [] | q ∷ qs ↦ qs ])
    else p ∷ done

abbrev pub clean_bytes_from : List Bytes → List Bytes → List Bytes
clean_bytes_from done [] = done
clean_bytes_from done (p ∷ ps) = clean_bytes_from (push_clean p done) ps

abbrev pub parts_eq : List Bytes → List Bytes → Bool
parts_eq [] [] = true
parts_eq (p ∷ ps) (q ∷ qs) = bytes_eq p q && parts_eq ps qs
parts_eq _ _ = false

unfoldable pub same_path : Bytes → Bytes → Bool
unfolding split_on
same_path a b =
    parts_eq (clean_bytes_from [] (split_on b'/' a)) (clean_bytes_from [] (split_on b'/' b))

pub data Command : Type 0 where
  prune : Bytes → Command
  remove : Bytes → Bytes → Command
  delete_branch : Bytes → Bytes → Command
  bundle_head : Bytes → Command
  archive_dirty : Bytes → Command
  force_remove : Bytes → Bytes → Command
  force_delete_branch : Bytes → Bytes → Command

pub record WorktreeWorld : Type 0 where
  pub dirs : Bytes → Dir
  pub roots : List Bytes
  pub list_worktrees : Bytes → Option Bytes  -- `none` is an error of git
  pub probes : Probes
  pub now : ℤ
  pub min_idle : ℤ
  pub grave_dir : Bool  -- one is configured, and can be made
  pub succeeds : Command → Bool
  pub freed : Option ℤ  -- `none` where statfs fails after the removal
  pub statfs_ok : Bool  -- and before it

pub data RemovalError : Type 0 where
  unsupported_op is_primary not_registered git_failed reclassified : RemovalError
  grave_failed : RemovalError

-- the row of a repository's list that has the path
abbrev pub row_for : Bytes → List Info → Option Info
row_for target [] = none
row_for target (w ∷ ws) =
    let rest = row_for target ws in if same_path w.wt_path target then some w else rest

abbrev pub answer_row : Bytes → Info → RemovalError ⊎ (Bytes × Info)
answer_row repo w = if w.primary then inl is_primary else inr (repo, w)

abbrev pub rows_of : Option Bytes → List Info
rows_of none = []
rows_of (some out) = parse_worktree_list out

unfoldable pub locate_in : WorktreeWorld → Bytes → List Bytes → RemovalError ⊎ (Bytes × Info)
locate_in w target [] = inl not_registered
locate_in w target (r ∷ rs) = elim (row_for target (rows_of (w.list_worktrees r))) [
  | none ↦ locate_in w target rs
  | some row ↦ answer_row r row
]

-- locate
unfoldable pub locate : WorktreeWorld → Bytes → RemovalError ⊎ (Bytes × Info)
unfolding locate_in discover_repos same_path
locate w target = locate_in w target (discover_repos w.dirs w.roots 3)

pub record Run : Type 0 where
  pub outcome : RemovalError ⊎ ℤ
  pub commands : List Command

abbrev pub run_error : RemovalError → Run
run_error e = record { outcome = inl e; commands = [] }

abbrev pub branch_command : Bytes → Bytes → List Command
branch_command repo branch = if bytes_eq branch [] then [] else delete_branch repo branch ∷ []

-- FreedByDelete around `git worktree remove`, and the branch behind it
abbrev pub remove_obvious : WorktreeWorld → Bytes → Bytes → Info → Run
remove_obvious w target repo wt =
    let cmd = remove repo target in
    if not w.statfs_ok then run_error git_failed else elim w.freed [
      | none ↦ record { outcome = inl git_failed; commands = cmd ∷ [] }
      | some n ↦
          if w.succeeds cmd
          then record { outcome = inr n; commands = cmd ∷ branch_command repo wt.branch }
          else record { outcome = inl git_failed; commands = cmd ∷ [] }
    ]

abbrev pub is_obvious : WorktreeClass → Bool
is_obvious class_obvious = true
is_obvious _ = false

unfoldable pub apply_located : WorktreeWorld → Bytes → Bytes → Info → Run
apply_located w target repo wt =
    if wt.prunable
    then record {
      outcome = if w.succeeds (prune repo) then inr (pos 0) else inl git_failed;
      commands = prune repo ∷ [];
    }
    else if is_obvious (classify_worktree w.probes wt w.now w.min_idle).1
    then remove_obvious w target repo wt
    else run_error reclassified

-- Apply; the flag says that the action is a deletion
unfoldable pub apply_worktree : WorktreeWorld → Bool → Bytes → Run
unfolding apply_located
apply_worktree w deletes target =
    if not deletes then run_error unsupported_op else elim (locate w target) [
      | inl e ↦ run_error e
      | inr (repo, wt) ↦ apply_located w target repo wt
    ]

-- Grave: the commands, and whether both went well
abbrev pub grave : WorktreeWorld → Info → Bool × List Command
grave w wt =
    let bundle = bundle_head wt.wt_path in
    let archive = archive_dirty wt.wt_path in
    if not w.grave_dir
    then (false, [])
    else if not (w.succeeds bundle)
    then (false, bundle ∷ [])
    else (w.succeeds archive, bundle ∷ archive ∷ [])

abbrev pub forced_branch : Bytes → Bytes → List Command
forced_branch repo branch = if bytes_eq branch [] then [] else force_delete_branch repo branch ∷ []

abbrev pub force_run : WorktreeWorld → Bytes → Bytes → Info → List Command → Run
force_run w target repo wt dug =
    let cmd = force_remove repo target in
    if not w.statfs_ok then record { outcome = inl git_failed; commands = dug } else elim w.freed [
      | none ↦ record { outcome = inl git_failed; commands = dug ++ cmd ∷ [] }
      | some n ↦
          if w.succeeds cmd
          then record { outcome = inr n; commands = dug ++ cmd ∷ forced_branch repo wt.branch }
          else record { outcome = inl git_failed; commands = dug ++ cmd ∷ [] }
    ]

-- ForceRemove
unfoldable pub force_remove_worktree : WorktreeWorld → Bytes → Run
force_remove_worktree w target = elim (locate w target) [
  | inl e ↦ run_error e
  | inr (repo, wt) ↦
      if (grave w wt).0
      then force_run w target repo wt (grave w wt).1
      else record { outcome = inl grave_failed; commands = (grave w wt).1 }
]
