-- ===== src/Store/Queue.antt =====
-- internal/store/reloc_queue.go: the deferred-relocation queue.
pub mod Lifecycle
pub mod Unique
use noo_noo.Common.{
  Bool, List, Option, String, [], false, if◌then◌else◌, keep_if, ltb, none, some, str_eq, suc, true,
  zero, ℕ, ◌&&◌, ◌++◌, ◌+◌, ◌==◌, ◌||◌, ◌∷◌,
}
use noo_noo.Common.Sort.{sort_by}
use noo_noo.Common.Int.{pos, ℤ}
use noo_noo.Store.{
  Db, RelocStatus, RelocationQueueEntry, Statement, Store, Tables, applied, blocked, cancelled,
  exec, queued,
}

-- status IN ('queued', 'blocked')
abbrev pub is_pending : RelocStatus → Bool
is_pending queued = true
is_pending blocked = true
is_pending _ = false

abbrev pub is_pending_row : RelocationQueueEntry → Bool
is_pending_row e = is_pending e.status

-- SELECT id … ORDER BY id LIMIT 1: rows stand in the order of their ids
unfoldable pub find_pending : String → List RelocationQueueEntry → Option ℕ
find_pending path [] = none
find_pending path (e ∷ es) =
    if str_eq e.source_path path && is_pending e.status
    then some e.entry_id
    else find_pending path es

-- the row as INSERT writes it
abbrev pub queued_row : ℕ → RelocationQueueEntry → RelocationQueueEntry
queued_row i e = record e {
  entry_id = i;
  status = queued;
  blocked_reason = "";
  attempts = 0;
  last_attempt_at_unix = 0;
  resolved_at_unix = 0;
  reclaimed_bytes = pos 0;
}

unfoldable pub insert_relocation : RelocationQueueEntry → Statement ℕ
insert_relocation e t = (
  t.next_relocation,
  record t {
    relocations = t.relocations ++ queued_row t.next_relocation e ∷ [];
    next_relocation = t.next_relocation + 1;
  },
)

-- The dedupe check and the insert are two calls, each of which may fail.
pub enqueue_checked : RelocationQueueEntry → Option (Option ℕ) → Db ℕ
enqueue_checked e none s = (none, s)
enqueue_checked e (some (some existing)) s = (some existing, s)
enqueue_checked e (some none) s = exec (insert_relocation e) s

unfoldable pub enqueue_relocation : RelocationQueueEntry → Db ℕ
unfolding enqueue_checked
enqueue_relocation e s =
    let (found, s') = exec (λ t. (find_pending e.source_path t.relocations, t)) s in
    enqueue_checked e found s'

-- ORDER BY queued_at_unix, id
abbrev pub later : RelocationQueueEntry → RelocationQueueEntry → Bool
later a b =
    ltb b.queued_at_unix a.queued_at_unix
    || (b.queued_at_unix == a.queued_at_unix && ltb b.entry_id a.entry_id)

unfoldable pub pending_rows : Tables → List RelocationQueueEntry
pending_rows t = sort_by later (keep_if is_pending_row t.relocations)

unfoldable pub list_pending_relocations : Db (List RelocationQueueEntry)
list_pending_relocations = exec (λ t. (pending_rows t, t))

-- UPDATE … WHERE id = ? AND status IN ('queued', 'blocked'), with RowsAffected
abbrev pub is_hit : ℕ → RelocationQueueEntry → Bool
is_hit i e = e.entry_id == i && is_pending e.status

unfoldable pub update_pending :
    ℕ
    → (RelocationQueueEntry → RelocationQueueEntry)
    → List RelocationQueueEntry
    → ℕ × List RelocationQueueEntry
update_pending i f [] = (0, [])
update_pending i f (e ∷ es) =
    let (n, es') = update_pending i f es in if is_hit i e then (n + 1, f e ∷ es') else (n, e ∷ es')

unfoldable pub update_relocation : ℕ → (RelocationQueueEntry → RelocationQueueEntry) → Statement ℕ
update_relocation i f t =
    let (n, rows) = update_pending i f t.relocations in (n, record t { relocations = rows })

-- a call that touched no row is ErrRelocResolved
abbrev pub affected : Option ℕ × Store → Option (Unit {0}) × Store
affected (none, s) = (none, s)
affected (some zero, s) = (none, s)
affected (some (suc n), s) = (some tt, s)

abbrev pub stamp : ℕ → RelocationQueueEntry → RelocationQueueEntry
stamp at e = record e { last_attempt_at_unix = at; attempts = e.attempts + 1 }

unfoldable pub mark_relocation_attempt : ℕ → ℕ → Db (Unit {0})
mark_relocation_attempt i at s = affected (exec (update_relocation i (stamp at)) s)

pub record RelocationResolution : Type 0 where
  pub to_status : RelocStatus
  pub to_reason : String
  pub to_freed : ℤ
  pub to_resolved_at : ℕ

-- A blocked row is not resolved; a NULL reason or time reads back as "" or 0.
abbrev pub resolved_time : RelocationResolution → ℕ
resolved_time r = elim r.to_status [ blocked ↦ 0 | _ ↦ r.to_resolved_at ]

abbrev pub resolve_row : RelocationResolution → RelocationQueueEntry → RelocationQueueEntry
resolve_row r e = record e {
  status = r.to_status;
  blocked_reason = r.to_reason;
  resolved_at_unix = resolved_time r;
  reclaimed_bytes = r.to_freed;
}

abbrev pub is_legal : RelocStatus → Bool
is_legal applied = true
is_legal blocked = true
is_legal cancelled = true
is_legal _ = false

unfoldable pub resolve_relocation : ℕ → RelocationResolution → Db (Unit {0})
resolve_relocation i r s =
    if is_legal r.to_status
    then affected (exec (update_relocation i (resolve_row r)) s)
    else (none, s)

unfoldable pub find_relocation : ℕ → List RelocationQueueEntry → Option RelocationQueueEntry
find_relocation i [] = none
find_relocation i (e ∷ es) = if e.entry_id == i then some e else find_relocation i es

-- no row is an error here
abbrev pub or_no_rows {ℓ} : {A : Type ℓ} → Option (Option A) → Option A
or_no_rows none = none
or_no_rows (some r) = r

pub get_relocation : ℕ → Db RelocationQueueEntry
get_relocation i s =
    let (found, s') = exec (λ t. (find_relocation i t.relocations, t)) s in (or_no_rows found, s')

-- The calls that change the queue, in any order and number.
pub data QueueCall : Type 0 where
  enqueue : RelocationQueueEntry → QueueCall
  mark : ℕ → ℕ → QueueCall
  resolve : ℕ → RelocationResolution → QueueCall

unfoldable pub call : QueueCall → Store → Store
call (enqueue e) s = (enqueue_relocation e s).1
call (mark i at) s = (mark_relocation_attempt i at s).1
call (resolve i r) s = (resolve_relocation i r s).1

unfoldable pub calls : List QueueCall → Store → Store
calls [] s = s
calls (c ∷ cs) s = calls cs (call c s)
