-- ===== src/Store/Events.antt =====
-- internal/store/autoclean_events.go: the statements on the audit table.
use noo_noo.Common.{
  Bool, List, Option, String, [], false, if◌then◌else◌, leb, ltb, map, none, some, true, ℕ, ◌&&◌,
  ◌++◌, ◌+◌, ◌==◌, ◌∷◌,
}
use noo_noo.Common.Int.{neg_part, pos, pos_part, two63, ℤ, ◌+ℤ◌}
use noo_noo.Store.{AutoCleanEvent, Db, Outcome, Statement, deleted, exec}

-- RecordAutoCleanEvent: the row gets the next id
unfoldable pub record_row : AutoCleanEvent → Statement ℕ
record_row e t = (
  t.next_event,
  record t {
    events = t.events ++ record e { event_id = t.next_event } ∷ [];
    next_event = t.next_event + 1;
  },
)

unfoldable pub record_auto_clean_event : AutoCleanEvent → Db ℕ
record_auto_clean_event e = exec (record_row e)

pub record AutoCleanEventUpdate : Type 0 where
  pub update_ended_at : ℕ
  pub update_outcome : Outcome
  pub update_freed : ℤ
  pub update_error : String

abbrev pub patch_event : ℕ → AutoCleanEventUpdate → AutoCleanEvent → AutoCleanEvent
patch_event i u e =
    if e.event_id == i
    then record e {
      ended_at_unix = some u.update_ended_at;
      outcome = u.update_outcome;
      freed_bytes = u.update_freed;
      error_msg = u.update_error;
    }
    else e

unfoldable pub update_row : ℕ → AutoCleanEventUpdate → Statement (Unit {0})
update_row i u t = (tt, record t { events = map (patch_event i u) t.events })

unfoldable pub update_auto_clean_event : ℕ → AutoCleanEventUpdate → Db (Unit {0})
update_auto_clean_event i u = exec (update_row i u)

abbrev pub is_deleted : Outcome → Bool
is_deleted deleted = true
is_deleted _ = false

abbrev pub counts : ℕ → AutoCleanEvent → Bool
counts since e = is_deleted e.outcome && leb since e.started_at_unix

-- SQLite's SUM is an error where it leaves int64
abbrev pub in_int64 : ℕ × ℤ → Option (ℕ × ℤ)
in_int64 (n, freed) =
    if ltb (pos_part freed) two63 && leb (neg_part freed) two63 then some (n, freed) else none

-- COUNT(*) and SUM(freed_bytes) of the deleted rows, row by row
unfoldable pub sum_rows : ℕ → List AutoCleanEvent → Option (ℕ × ℤ) → Option (ℕ × ℤ)
sum_rows since [] acc = acc
sum_rows since (e ∷ es) none = none
sum_rows since (e ∷ es) (some (n, freed)) =
    sum_rows since es
      (if counts since e then in_int64 (n + 1, freed +ℤ e.freed_bytes) else some (n, freed))

-- the answer of the query, or its error
abbrev pub queried : Option (Option (ℕ × ℤ)) → Option (ℕ × ℤ)
queried none = none
queried (some r) = r

unfoldable pub auto_clean_stats_since : ℕ → Db (ℕ × ℤ)
auto_clean_stats_since since s =
    let (r, s') = exec (λ t. (sum_rows since t.events (some (0, pos 0)), t)) s in (queried r, s')
