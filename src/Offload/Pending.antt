-- ===== src/Offload/Pending.antt =====
-- internal/modules/offload/pending.go: the deferred queue's consent, its gates and its runner. A run is
-- taken to be cancelled by no context.
pub mod Budgeted
pub mod Truthful
use noo_noo.Core.Paths.{abs_path, path_text}
use noo_noo.Store.{Db, RelocationQueueEntry, Store, applied, blocked, queued}
use noo_noo.Store.Queue.{
  enqueue_relocation, list_pending_relocations, mark_relocation_attempt, resolve_relocation,
}
use noo_noo.Offload.Disk.{Disk, Node, exists, tree}
use noo_noo.Offload.Apply.{
  Move, MoveError, MoveOutcome, OffloadConfig, OffloadModule, Playbook, apply_move, configured,
  gate_path, gate_process, is_relocate, move_failed, moved, op_relocate, playbook_for_target,
}
use noo_noo.Common.{
  Bool, List, Option, String, [], concat_text, false, if◌then◌else◌, leb, none, not, some, str_eq,
  true, ℕ, ◌+◌, ◌||◌, ◌∷◌,
}
use noo_noo.Common.Int.{pos, ℤ}

pub data BlockReason : Type 0 where
  dest_changed asset_gone class_changed source_gone path_in_use : BlockReason
  stop_gate_failed still_running dest_not_ok dest_taken : BlockReason
  apply_failed : MoveError → BlockReason

-- the fixed part of the reason's text
abbrev pub reason_text : BlockReason → String
reason_text dest_changed = "offload destination changed since queued"
reason_text asset_gone = "is no longer a known playbook asset"
reason_text class_changed = "not relocatable by file move"
reason_text source_gone = "source is missing or no longer a real directory"
reason_text path_in_use = "path-gate: still in use"
reason_text stop_gate_failed = "stop-gate check failed"
reason_text still_running = "stop-gate: still running"
reason_text dest_not_ok = "destination refused"
reason_text dest_taken = "destination already exists"
reason_text (apply_failed err) = "apply failed"

-- the outcomes, with Attempted, which says that Apply was called
pub data PendingResult : Type 0 where
  pending_applied : ℤ → PendingResult
  pending_blocked : BlockReason → Bool → PendingResult
  pending_unmarked : PendingResult
  pending_skipped : PendingResult

pub record Place (T : Type 0) : Type 0 where
  pub queue : Store
  pub disk : Disk T

-- filepath.Join of the destination root and the asset's name
abbrev pub dest_of : RelocationQueueEntry → String
dest_of e =
    path_text (abs_path none (concat_text e.dest_root (concat_text "/" e.playbook_asset_id)))

abbrev pub move_of : RelocationQueueEntry → Move
move_of e = record { op = op_relocate; move_target = e.source_path; destination = dest_of e }

abbrev pub consented : OffloadConfig → Move → String → ℕ → Playbook → RelocationQueueEntry
consented cfg a why now pb = record {
  entry_id = 0;
  queued_at_unix = now;
  source_path = path_text (abs_path none a.move_target);
  playbook_asset_id = pb.asset_id;
  dest_root = cfg.dest_root;
  dest_volume_uuid = cfg.dest_volume_uuid;
  gate_reason = why;
  status = queued;
  blocked_reason = "";
  attempts = 0;
  last_attempt_at_unix = 0;
  resolved_at_unix = 0;
  reclaimed_bytes = pos 0;
}

abbrev pub running_gate : Option Bool → Option BlockReason
running_gate none = some stop_gate_failed
running_gate (some true) = some still_running
running_gate (some false) = none

abbrev pub is_spent : Option ℕ → ℕ → Bool
is_spent none attempted = false
is_spent (some budget) attempted = leb budget attempted

module _ {T : Type 0} where
  abbrev pub enqueue_asset : OffloadModule T → Move → String → ℕ → Option Playbook → Db ℕ
  enqueue_asset m a why now none st = (none, st)
  enqueue_asset m a why now (some pb) st =
      if is_relocate pb.asset_class
      then enqueue_relocation (consented m.offload_cfg a why now pb) st
      else (none, st)

  unfoldable pub enqueue_deferred : OffloadModule T → Move → String → ℕ → Db ℕ
  enqueue_deferred m a why now st =
      if not (configured m.offload_cfg)
      then (none, st)
      else enqueue_asset m a why now (playbook_for_target a.move_target m.playbooks) st

  -- Lstat finds a directory
  abbrev pub is_directory : OffloadModule T → Option (Node T) → Bool
  is_directory m (some (tree t)) = m.is_dir t
  is_directory m _ = false

  abbrev pub liveness_gate : OffloadModule T → Playbook → String → Option BlockReason
  liveness_gate m pb target = elim pb.gate [
    | gate_path ↦ if m.path_probe target then some path_in_use else none
    | gate_process ↦ if str_eq pb.stop_gate "" then none else running_gate (m.running pb.stop_gate)
  ]

  abbrev pub dest_gates :
      OffloadModule T → RelocationQueueEntry → Disk T → Option BlockReason → Option BlockReason
  dest_gates m e d (some r) = some r
  dest_gates m e d none =
      if not (m.check_dest e.dest_root e.dest_volume_uuid)
      then some dest_not_ok
      else if exists (d.nodes (dest_of e))
      then some dest_taken
      else none

  abbrev pub asset_gates :
      OffloadModule T → RelocationQueueEntry → Disk T → Option Playbook → Option BlockReason
  asset_gates m e d none = some asset_gone
  asset_gates m e d (some pb) =
      if not (is_relocate pb.asset_class)
      then some class_changed
      else if not (is_directory m (d.nodes e.source_path))
      then some source_gone
      else dest_gates m e d (liveness_gate m pb e.source_path)

  -- gates 0 to 5; `none` lets the entry through
  unfoldable pub recheck_gates :
      OffloadModule T → RelocationQueueEntry → Disk T → Option BlockReason
  recheck_gates m e d =
      if not (str_eq e.dest_root m.offload_cfg.dest_root)
        || not (str_eq e.dest_volume_uuid m.offload_cfg.dest_volume_uuid)
      then some dest_changed
      else asset_gates m e d (playbook_for_target e.source_path m.playbooks)

  -- the row is blocked with the reason; an error of the update is only reported
  unfoldable pub block_relocation : RelocationQueueEntry → BlockReason → Place T → Place T
  block_relocation e r w = record w {
    queue =
        (resolve_relocation e.entry_id
          (record {
            to_status = blocked;
            to_reason = reason_text r;
            to_freed = pos 0;
            to_resolved_at = 0;
          })
          w.queue).1;
  }

  -- phase 2, after Apply
  unfoldable pub patch_outcome :
      RelocationQueueEntry → ℕ → Store → MoveOutcome × Disk T → PendingResult × Place T
  patch_outcome e now st (moved freed, d) = (
    pending_applied freed,
    record {
      queue =
          (resolve_relocation e.entry_id
            (record { to_status = applied; to_reason = ""; to_freed = freed; to_resolved_at = now })
            st).1;
      disk = d;
    },
  )
  patch_outcome e now st (move_failed err, d) = (
    pending_blocked (apply_failed err) true,
    block_relocation e (apply_failed err) (record { queue = st; disk = d }),
  )

  -- after the attempt mark of phase 1
  unfoldable pub apply_marked :
      OffloadModule T
      → RelocationQueueEntry
      → ℕ
      → Disk T
      → Option (Unit {0}) × Store
      → PendingResult × Place T
  apply_marked m e now d (none, st) = (pending_unmarked, record { queue = st; disk = d })
  apply_marked m e now d (some u, st) = patch_outcome e now st (apply_move m (move_of e) d)

  abbrev pub attempt_one :
      OffloadModule T
      → RelocationQueueEntry
      → Option ℕ
      → ℕ
      → ℕ
      → Place T
      → Option BlockReason
      → (PendingResult × Place T) × ℕ
  attempt_one m e budget attempted now w (some r) =
      ((pending_blocked r false, block_relocation e r w), attempted)
  attempt_one m e budget attempted now w none =
      if is_spent budget attempted then ((pending_skipped, w), attempted) else (
        apply_marked m e now w.disk (mark_relocation_attempt e.entry_id now w.queue),
        attempted + 1,
      )

  -- one entry: its result, the place after it, and the calls of Apply so far; no budget is no bound
  unfoldable pub recheck_one :
      OffloadModule T
      → RelocationQueueEntry
      → Option ℕ
      → ℕ
      → ℕ
      → Place T
      → (PendingResult × Place T) × ℕ
  recheck_one m e budget attempted now w =
      attempt_one m e budget attempted now w (recheck_gates m e w.disk)

  unfoldable pub recheck_all :
      OffloadModule T
      → List RelocationQueueEntry
      → Option ℕ
      → ℕ
      → ℕ
      → Place T
      → List PendingResult × Place T
  recheck_all m [] budget attempted now w = ([], w)
  recheck_all m (e ∷ es) budget attempted now w =
      let (r, attempted') = recheck_one m e budget attempted now w in
      let (rest, w') = recheck_all m es budget attempted' now r.1 in (r.0 ∷ rest, w')

  -- `none` is an error: a forbidden trigger, or a list that could not be read
  abbrev pub run_listed :
      OffloadModule T
      → Option ℕ
      → ℕ
      → Disk T
      → Option (List RelocationQueueEntry) × Store
      → Option (List PendingResult) × Place T
  run_listed m budget now d (none, st) = (none, record { queue = st; disk = d })
  run_listed m budget now d (some es, st) =
      let (rs, w) = recheck_all m es budget 0 now (record { queue = st; disk = d }) in (some rs, w)

  unfoldable pub run_pending :
      OffloadModule T → String → Option ℕ → ℕ → Place T → Option (List PendingResult) × Place T
  run_pending m trigger budget now w =
      if str_eq trigger "daily" || str_eq trigger "manual"
      then run_listed m budget now w.disk (list_pending_relocations w.queue)
      else (none, w)
