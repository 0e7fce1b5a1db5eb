-- ===== src/Offload/Apply.antt =====
-- internal/modules/offload/offload.go: Apply, which moves an asset and leaves a link in its place.
pub mod Kept
use noo_noo.Core.Paths.{abs_path, rel, starts_dotdot}
use noo_noo.Offload.Disk.{
  Disk, Node, eval_symlinks, exists, remove, remove_all, rename, spent, symlink,
}
use noo_noo.Common.{
  Bool, List, Option, String, [], concat_text, false, if◌then◌else◌, none, not, some, str_eq, true,
  ℕ, ◌&&◌, ◌==◌, ◌∷◌,
}
use noo_noo.Common.Int.{ℤ}

pub data Class : Type 0 where
  native_config relocate manual : Class

pub data GateKind : Type 0 where
  gate_process gate_path : GateKind

-- The fields that Apply and the queue read; `asset_path` is already expanded against the home.
pub record Playbook : Type 0 where
  pub asset_id : String
  pub asset_path : String
  pub asset_class : Class
  pub gate : GateKind
  pub stop_gate : String

pub record OffloadConfig : Type 0 where
  pub dest_root : String
  pub dest_volume_uuid : String

abbrev pub configured : OffloadConfig → Bool
configured c = not (str_eq c.dest_root "") && not (str_eq c.dest_volume_uuid "")

-- The module and its collaborators, with what they find at the time of a call.
pub record OffloadModule (T : Type 0) : Type 0 where
  pub playbooks : List Playbook
  pub offload_cfg : OffloadConfig
  pub check_dest : String → String → Bool  -- the volume guard permits
  pub running : String → Option Bool  -- `none` is an error of pgrep
  pub path_probe : String → Bool  -- something holds the path open, or may
  pub copier : String → String → Disk T → Bool × Disk T
  pub count_and_bytes : Option (Node T) → Option (ℕ × ℕ)  -- `none` is an error of the walk
  pub freed_by_delete : String → Disk T → ℤ
  pub is_dir : T → Bool  -- against a regular file
  pub leftover : Option (Node T) → Option (Node T)
  pub mkdir_parent : String → Bool

pub data Op : Type 0 where
  op_relocate op_delete : Op
  op_other : String → Op

pub record Move : Type 0 where
  pub op : Op
  pub move_target : String
  pub destination : String

-- what Apply refuses before it copies
pub data CheckError : Type 0 where
  unsupported_op delete_forbidden unknown_asset wrong_class dest_refused : CheckError
  stop_gate_refused stop_gate_unknown dest_escapes dest_exists mkdir_failed : CheckError

pub data MoveError : Type 0 where
  refused : CheckError → MoveError
  copy_failed verify_failed stale_backup swap_failed restored restore_failed : MoveError
  backup_left : MoveError

pub data MoveOutcome : Type 0 where
  moved : ℤ → MoveOutcome
  move_failed : MoveError → MoveOutcome

-- filepath.Clean of two paths is the same; the paths of assets and destinations are absolute, and a
-- relative one is found nowhere
abbrev pub same_parts : Option (List String) → Option (List String) → Bool
same_parts (some (p ∷ ps)) (some (q ∷ qs)) = str_eq p q && same_parts (some ps) (some qs)
same_parts (some []) (some []) = true
same_parts _ _ = false

unfoldable pub playbook_for_target : String → List Playbook → Option Playbook
playbook_for_target target [] = none
playbook_for_target target (pb ∷ pbs) =
    if not (str_eq pb.asset_path "")
      && same_parts (abs_path none pb.asset_path) (abs_path none target)
    then some pb
    else playbook_for_target target pbs

abbrev pub is_relocate : Class → Bool
is_relocate relocate = true
is_relocate _ = false

abbrev pub process_gate : Option Bool → Option CheckError
process_gate none = some stop_gate_unknown
process_gate (some true) = some stop_gate_refused
process_gate (some false) = none

-- !strings.HasPrefix(rel, ".."); the destination root itself is not an escape
abbrev pub stays_inside : List String → Bool
stays_inside [] = true
stays_inside (p ∷ ps) = not (starts_dotdot p)

abbrev pub within : Option (List String) → Option (List String) → Bool
within (some root) (some dest) = stays_inside (rel root dest)
within _ _ = false

abbrev pub then_check : Option CheckError → Option CheckError → Option CheckError
then_check none next = next
then_check (some err) next = some err

abbrev pub backup_of : String → String
backup_of target = concat_text target ".noo-noo-bak"

abbrev pub same_size : Option (ℕ × ℕ) → Option (ℕ × ℕ) → Bool
same_size (some (n, b)) (some (k, c)) = n == k && b == c
same_size _ _ = false

abbrev pub same_place : Option String → Option String → Bool
same_place (some p) (some q) = str_eq p q
same_place _ _ = false

module _ {T : Type 0} where
  unfoldable pub check_stop_gate : OffloadModule T → Playbook → String → Option CheckError
  check_stop_gate m pb target = elim pb.gate [
    | gate_path ↦ if m.path_probe target then some stop_gate_refused else none
    | gate_process ↦ if str_eq pb.stop_gate "" then none else process_gate (m.running pb.stop_gate)
  ]

  unfoldable pub prepare_dest : OffloadModule T → String → Disk T → Option CheckError
  prepare_dest m dest d =
      if not (within (abs_path none m.offload_cfg.dest_root) (abs_path none dest))
      then some dest_escapes
      else if exists (d.nodes dest)
      then some dest_exists
      else if m.mkdir_parent dest
      then none
      else some mkdir_failed

  abbrev pub check_asset : OffloadModule T → Move → Disk T → Option Playbook → Option CheckError
  check_asset m a d none = some unknown_asset
  check_asset m a d (some pb) =
      if not (is_relocate pb.asset_class)
      then some wrong_class
      else if not (m.check_dest m.offload_cfg.dest_root m.offload_cfg.dest_volume_uuid)
      then some dest_refused
      else then_check (check_stop_gate m pb a.move_target) (prepare_dest m a.destination d)

  -- everything that Apply asks before it copies
  unfoldable pub check_move : OffloadModule T → Move → Disk T → Option CheckError
  check_move m a d = elim a.op [
    | op_relocate ↦ check_asset m a d (playbook_for_target a.move_target m.playbooks)
    | op_delete ↦ some delete_forbidden
    | op_other name ↦ some unsupported_op
  ]

  -- after the link: the original is restored, or the backup is dropped
  abbrev pub put_back : OffloadModule T → Move → Bool × Disk T → MoveOutcome × Disk T
  put_back m a (false, d) = (move_failed restore_failed, d)
  put_back m a (true, d) = (move_failed restored, (remove_all m.leftover a.destination d).1)

  unfoldable pub restore : OffloadModule T → Move → Disk T → MoveOutcome × Disk T
  restore m a d =
      put_back m a (rename (backup_of a.move_target) a.move_target (remove a.move_target d))

  abbrev pub drop_backup : ℤ → Bool × Disk T → MoveOutcome × Disk T
  drop_backup freed (false, d) = (move_failed backup_left, d)
  drop_backup freed (true, d) = (moved freed, d)

  -- linkAndVerify, and what follows it
  unfoldable pub after_link : OffloadModule T → Move → ℤ → Bool × Disk T → MoveOutcome × Disk T
  after_link m a freed (false, d) = restore m a d
  after_link m a freed (true, d) =
      let d' = spent (spent d) in
      let back = restore m a d' in
      let done = drop_backup freed (remove_all m.leftover (backup_of a.move_target) d') in
      if same_place (eval_symlinks a.move_target d) (eval_symlinks a.destination (spent d))
      then done
      else back

  -- a failure before the swap drops the copy
  abbrev pub drop_copy : OffloadModule T → Move → MoveError → Disk T → MoveOutcome × Disk T
  drop_copy m a err d = (move_failed err, (remove_all m.leftover a.destination d).1)

  unfoldable pub after_swap : OffloadModule T → Move → ℤ → Bool × Disk T → MoveOutcome × Disk T
  after_swap m a freed (false, d) = drop_copy m a swap_failed d
  after_swap m a freed (true, d) = after_link m a freed (symlink a.destination a.move_target d)

  unfoldable pub swap : OffloadModule T → Move → Disk T → MoveOutcome × Disk T
  swap m a d =
      let freed = m.freed_by_delete a.move_target d in
      let go = after_swap m a freed (rename a.move_target (backup_of a.move_target) d) in
      if exists (d.nodes (backup_of a.move_target)) then drop_copy m a stale_backup d else go

  -- copyOrClean, and what follows it
  unfoldable pub after_copy : OffloadModule T → Move → Bool × Disk T → MoveOutcome × Disk T
  after_copy m a (false, d) = drop_copy m a copy_failed d
  after_copy m a (true, d) =
      let go = swap m a d in
      if same_size (m.count_and_bytes (d.nodes a.move_target))
        (m.count_and_bytes (d.nodes a.destination))
      then go
      else drop_copy m a verify_failed d

  unfoldable pub apply_checked :
      OffloadModule T → Move → Option CheckError → Disk T → MoveOutcome × Disk T
  apply_checked m a (some err) d = (move_failed (refused err), d)
  apply_checked m a none d = after_copy m a (m.copier a.move_target a.destination d)

  unfoldable pub apply_move : OffloadModule T → Move → Disk T → MoveOutcome × Disk T
  apply_move m a d = apply_checked m a (check_move m a d) d
