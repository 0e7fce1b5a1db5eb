-- ===== src/Offload/Tests.antt =====
-- Runs of Apply and of the queue, and the theorems at concrete inputs.
use noo_noo.Store.{fresh}
use noo_noo.Offload.Disk.{
  Disk, Node, eval_symlinks, exists, put, remove, remove_all, rename, symlink, tree,
}
use noo_noo.Offload.Apply.{
  Move, OffloadModule, after_copy, after_link, after_swap, apply_checked, apply_move, check_move,
  check_stop_gate, gate_path, move_failed, moved, op_relocate, playbook_for_target, prepare_dest,
  relocate, restore, restored, swap,
}
use noo_noo.Offload.Apply.Kept.{IsApart, IsKept, IsLocal, apply_move-IsKept}
use noo_noo.Offload.Pending.{Place, enqueue_deferred, run_pending}
use noo_noo.Offload.Pending.Truthful.{IsTruthful, run_pending-IsTruthful}
use noo_noo.Offload.Pending.Budgeted.{IsBudgeted, run_pending-IsBudgeted}
use noo_noo.Core.Paths.{abs_path, rel}
use noo_noo.Common.{
  All, Bool, Option, String, [], arith, eq_iff, false, if◌then◌else◌, none, refl, some, str_eq,
  str_eq-false, true, ℕ, ◌∷◌, ◌≡◌, ◌≢◌,
}
use noo_noo.Common.Int.{pos}

-- a tree is its number of files; a copy of one that is missing fails
abbrev copy_node : String → String → Disk ℕ → Bool × Disk ℕ
copy_node p q d = (exists (d.nodes p), put q (d.nodes p) d)

abbrev count_files : Option (Node ℕ) → Option (ℕ × ℕ)
count_files (some (tree n)) = some (n, n)
count_files _ = none

abbrev offloader : OffloadModule ℕ
offloader = record {
  playbooks =
      record {
        asset_id = "jobs";
        asset_path = "/Users/me/.claude/jobs";
        asset_class = relocate;
        gate = gate_path;
        stop_gate = "";
      }
      ∷ [];
  offload_cfg = record { dest_root = "/Volumes/Big"; dest_volume_uuid = "UUID" };
  check_dest = λ p u. true;
  running = λ p. some false;
  path_probe = λ p. false;
  copier = copy_node;
  count_and_bytes = count_files;
  freed_by_delete = λ p d. pos 700;
  is_dir = λ n. true;
  leftover = λ n. n;
  mkdir_parent = λ p. true;
}

abbrev jobs_at : String → Option (Node ℕ)
jobs_at p = if str_eq p "/Users/me/.claude/jobs" then some (tree 12) else none

abbrev before : Disk ℕ
before = record { nodes = jobs_at; os_faults = [] }

-- the link is refused by the system
abbrev no_links : Disk ℕ
no_links = record { nodes = jobs_at; os_faults = false ∷ true ∷ [] }

abbrev jobs_move : Move
jobs_move = record {
  op = op_relocate;
  move_target = "/Users/me/.claude/jobs";
  destination = "/Volumes/Big/jobs";
}

moves_jobs : (apply_move offloader jobs_move before).0 ≡ moved (pos 700)
unfolding apply_move check_move playbook_for_target check_stop_gate prepare_dest abs_path rel
    apply_checked after_copy swap after_swap after_link rename symlink eval_symlinks remove_all
moves_jobs = refl

restores_jobs : (apply_move offloader jobs_move no_links).0 ≡ move_failed restored
unfolding apply_move check_move playbook_for_target check_stop_gate prepare_dest abs_path rel
    apply_checked after_copy swap after_swap after_link rename symlink eval_symlinks remove_all
    restore remove
restores_jobs = refl

jobs-IsApart : IsApart jobs_move
jobs-IsApart = record {
  target_dest = ground (arith, eq_iff "/Users/me/.claude/jobs" "/Volumes/Big/jobs");
  target_backup =
      ground (arith, eq_iff "/Users/me/.claude/jobs" "/Users/me/.claude/jobs.noo-noo-bak");
  dest_backup = ground (arith, eq_iff "/Volumes/Big/jobs" "/Users/me/.claude/jobs.noo-noo-bak");
}

copy_node-IsLocal : IsLocal copy_node
copy_node-IsLocal p q x d h = rw (str_eq-false x q h) refl

apply_move-IsKept_example :
    IsKept offloader jobs_move no_links (apply_move offloader jobs_move no_links)
apply_move-IsKept_example =
    apply_move-IsKept offloader jobs_move no_links jobs-IsApart copy_node-IsLocal

abbrev waiting_jobs : Place ℕ
waiting_jobs = record {
  queue = (enqueue_deferred offloader jobs_move "in use" 50 fresh).1;
  disk = before;
}

run_pending-IsBudgeted_example :
    IsBudgeted offloader 1 before (run_pending offloader "daily" (some 1) 90 waiting_jobs).1.disk
    × (◌≢◌ {A = String} "daily" "daily"
        → ◌≢◌ {A = String} "daily" "manual"
        → run_pending offloader "daily" (some 1) 90 waiting_jobs ≡ (none, waiting_jobs))
run_pending-IsBudgeted_example = run_pending-IsBudgeted offloader "daily" 1 90 waiting_jobs

run_pending-IsTruthful_example :
    All
      (IsTruthful offloader waiting_jobs.queue.tables.relocations before)
      (run_pending offloader "daily" (some 1) 90 waiting_jobs).1.queue.tables.relocations
run_pending-IsTruthful_example = run_pending-IsTruthful offloader "daily" (some 1) 90 waiting_jobs
