-- ===== src/Store/Tests.antt =====
-- Runs of the queue and of the storm ledger, and the theorems at concrete inputs.
use noo_noo.Store.{RelocationQueueEntry, Store, applied, cancelled, exec, fresh, queued}
use noo_noo.Store.Queue.{
  QueueCall, RelocationResolution, call, calls, enqueue, enqueue_relocation, find_pending,
  insert_relocation, mark, mark_relocation_attempt, queued_row, resolve, resolve_relocation,
  resolve_row, stamp, update_pending, update_relocation,
}
use noo_noo.Store.Queue.Lifecycle.{Evolves, calls-Evolves, row_at}
use noo_noo.Store.Queue.Unique.{IsUnique, calls-IsUnique}
use noo_noo.Common.{List, [], arith, refl, some, ◌∷◌, ◌≡◌}
use noo_noo.Common.Int.{pos}

abbrev photos : RelocationQueueEntry
photos = record {
  entry_id = 0;
  queued_at_unix = 50;
  source_path = "/Users/me/Photos";
  playbook_asset_id = "photos";
  dest_root = "/Volumes/Big";
  dest_volume_uuid = "UUID";
  gate_reason = "volume not mounted";
  status = queued;
  blocked_reason = "";
  attempts = 0;
  last_attempt_at_unix = 0;
  resolved_at_unix = 0;
  reclaimed_bytes = pos 0;
}

abbrev as_applied : RelocationResolution
as_applied = record { to_status = applied; to_reason = ""; to_freed = pos 900; to_resolved_at = 80 }

abbrev as_cancelled : RelocationResolution
as_cancelled = record {
  to_status = cancelled;
  to_reason = "changed my mind";
  to_freed = pos 0;
  to_resolved_at = 90;
}

-- Consenting twice, then an attempt, then the end, and a cancellation that comes too late.
abbrev story : List QueueCall
story =
    enqueue photos ∷ enqueue photos ∷ mark 1 70 ∷ resolve 1 as_applied ∷ resolve 1 as_cancelled ∷ []

abbrev first_row : RelocationQueueEntry
first_row = queued_row 1 photos

abbrev moved_row : RelocationQueueEntry
moved_row = resolve_row as_applied (stamp 70 first_row)

abbrev holding : RelocationQueueEntry → Store
holding e = record fresh {
  tables = record fresh.tables { relocations = e ∷ []; next_relocation = 2 };
}

story_runs : (calls story fresh).tables.relocations ≡ moved_row ∷ []
unfolding calls call enqueue_relocation find_pending exec insert_relocation mark_relocation_attempt
    update_relocation update_pending resolve_relocation
story_runs = refl

calls-Evolves_example :
    (f : RelocationQueueEntry) × (row_at 0 (calls story (holding first_row)).tables.relocations
      ≡ some f)
    × Evolves first_row f
calls-Evolves_example = calls-Evolves story (holding first_row) 0 first_row refl

calls-IsUnique_example : IsUnique (calls story (holding first_row)).tables.relocations
calls-IsUnique_example = calls-IsUnique story (holding first_row) (λ path. ground arith)
