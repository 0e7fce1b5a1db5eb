-- ===== src/Worktrees/Tests.antt =====
-- Runs of the worktrees module, and the theorems at concrete inputs.
use noo_noo.Common.{
  All, Any, String, [], false, inl, inr, none, refl, some, true, ◌++◌, ◌↔◌, ◌∷◌, ◌≡◌,
}
use noo_noo.Common.Int.{pos, ◌-ℤ◌}
use noo_noo.Leaks.Text.{Bytes, codes}
use noo_noo.Worktrees.Rows.{Info, parse_worktree_list}
use noo_noo.Worktrees.Facts.{
  Probes, class_judgment, class_obvious, classify_worktree, gather_facts, idle_for, judge_facts,
}
use noo_noo.Worktrees.Facts.Finished.{IsFinished, classify_worktree_iff}
use noo_noo.Worktrees.Removal.{
  WorktreeWorld, apply_worktree, delete_branch, force_remove_worktree, is_primary, locate, remove,
  run_error,
}
use noo_noo.Worktrees.Removal.Justified.{HasWarrant, apply_worktree-HasWarrant}
use noo_noo.Worktrees.Removal.Graved.{IsForce, IsGraved, force_remove_worktree-IsGraved}

abbrev line : String → Bytes
line s = codes s ++ 10 ∷ []

-- a repository with one linked worktree
abbrev listing : Bytes
listing =
    line "worktree /r"
    ++ line "HEAD aa"
    ++ line "branch refs/heads/main"
    ++ line ""
    ++ line "worktree /w"
    ++ line "HEAD bb"
    ++ line "branch refs/heads/wave"
    ++ line ""

abbrev main_row : Info
main_row = record {
  wt_path = codes "/r";
  head = codes "aa";
  branch = codes "main";
  detached = false;
  locked = false;
  prunable = false;
  primary = true;
}

abbrev wave_row : Info
wave_row = record {
  wt_path = codes "/w";
  head = codes "bb";
  branch = codes "wave";
  detached = false;
  locked = false;
  prunable = false;
  primary = false;
}

parses : parse_worktree_list listing ≡ main_row ∷ wave_row ∷ []
unfolding parse_worktree_list
parses = refl

abbrev probes_with : Bytes → Probes
probes_with status = record {
  status = λ p. some status;
  last_log = λ p. some (codes "2026-01-01 work");
  remote_contains = λ p. some (codes "origin/main");
  count_ahead = λ p. some (codes "0");
  mtime = λ p. some (pos 100);
  read_file = λ p. none;
  is_live = λ p. false;
}

clean_is_obvious :
    (classify_worktree (probes_with []) wave_row (pos 5000) (pos 3600)).1 ≡ class_obvious
unfolding classify_worktree idle_for gather_facts judge_facts ◌-ℤ◌
clean_is_obvious = refl

dirty_is_judged :
    (classify_worktree (probes_with (codes " M a.go")) wave_row (pos 5000) (pos 3600)).1
    ≡ class_judgment
unfolding classify_worktree idle_for gather_facts judge_facts ◌-ℤ◌
dirty_is_judged = refl

classify_worktree_iff_example :
    ((classify_worktree (probes_with []) wave_row (pos 5000) (pos 3600)).1 ≡ class_obvious)
    ↔ IsFinished (probes_with []) wave_row (pos 5000) (pos 3600)
classify_worktree_iff_example =
    classify_worktree_iff (probes_with []) wave_row (pos 5000) (pos 3600)

-- one repository at the root of the walk
abbrev world : WorktreeWorld
world = record {
  dirs = λ d. record { has_git = true; children = [] };
  roots = codes "/r" ∷ [];
  list_worktrees = λ r. some listing;
  probes = probes_with [];
  now = pos 5000;
  min_idle = pos 3600;
  grave_dir = true;
  succeeds = λ c. true;
  freed = some (pos 4096);
  statfs_ok = true;
}

removes : apply_worktree world true (codes "/w/") ≡ record {
  outcome = inr (pos 4096);
  commands = remove (codes "/r") (codes "/w/") ∷ delete_branch (codes "/r") (codes "wave") ∷ [];
}
unfolding apply_worktree locate parse_worktree_list classify_worktree idle_for gather_facts
    judge_facts ◌-ℤ◌
removes = refl

refuses_primary : apply_worktree world true (codes "/r") ≡ run_error is_primary
unfolding apply_worktree locate parse_worktree_list
refuses_primary = refl

apply_worktree-HasWarrant_example :
    All (HasWarrant world (codes "/w/")) (apply_worktree world true (codes "/w/")).commands
apply_worktree-HasWarrant_example = apply_worktree-HasWarrant world true (codes "/w/")

forces : Any IsForce (force_remove_worktree world (codes "/w")).commands
unfolding force_remove_worktree locate parse_worktree_list
forces = inr (inr (inl tt))

force_remove_worktree-IsGraved_example :
    IsGraved world (codes "/w") (force_remove_worktree world (codes "/w")).commands
force_remove_worktree-IsGraved_example = force_remove_worktree-IsGraved world (codes "/w") forces
