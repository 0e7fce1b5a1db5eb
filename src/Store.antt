-- ===== src/Store.antt =====
-- internal/store: the SQLite tables that the daemon reads and writes, as lists of rows in insertion
-- order. A call of the database may fail: `faults` says of each call to come whether it does, and a
-- call that fails changes no row. The statements themselves are in the modules below.
pub mod Suggestions
pub mod Events
pub mod Queue
pub mod Storms
mod Tests
use noo_noo.Common.{
  Bool, List, Option, String, [], false, inl, inr, none, refl, some, true, ℕ, ◌∷◌, ◌≡◌, ◌⊎◌,
}
use noo_noo.Common.Int.{ℤ}

-- internal/store/suggestions.go
pub record StoredSuggestion : Type 0 where
  pub id : ℕ
  pub ts : ℕ
  pub module_name : String
  pub target : String
  pub reason : String
  pub evidence : List (String × String)
  pub severity : String
  pub dismissed_at : Option ℕ

-- internal/store/autoclean_events.go: the outcome column
pub data Outcome : Type 0 where
  in_progress deleted skipped errored : Outcome

-- A row of auto_clean_events, with its id. `ended_at_unix` is NULL while the row is in flight.
pub record AutoCleanEvent : Type 0 where
  pub event_id : ℕ
  pub started_at_unix : ℕ
  pub ended_at_unix : Option ℕ
  pub trigger : String
  pub outcome : Outcome
  pub skip_reason : String
  pub target_path : String
  pub event_module : String
  pub target_size_bytes : ℤ
  pub freed_bytes : ℤ
  pub idle_days_at_decision : ℤ
  pub suggestion_id : ℕ
  pub error_msg : String

-- internal/store/reloc_queue.go: the status column, with any text that is none of the four
pub data RelocStatus : Type 0 where
  queued applied blocked cancelled : RelocStatus
  other : String → RelocStatus

pub record RelocationQueueEntry : Type 0 where
  pub entry_id : ℕ
  pub queued_at_unix : ℕ
  pub source_path : String
  pub playbook_asset_id : String
  pub dest_root : String
  pub dest_volume_uuid : String
  pub gate_reason : String
  pub status : RelocStatus
  pub blocked_reason : String
  pub attempts : ℕ
  pub last_attempt_at_unix : ℕ  -- 0 = never attempted
  pub resolved_at_unix : ℕ  -- 0 = still pending
  pub reclaimed_bytes : ℤ

-- internal/store/leak_storms.go
pub record StormAlert : Type 0 where
  pub signature : String
  pub fired_at : ℕ
  pub storm_count : ℕ

pub record Tables : Type 0 where
  pub suggestions : List StoredSuggestion
  pub next_suggestion : ℕ
  pub events : List AutoCleanEvent
  pub next_event : ℕ
  pub relocations : List RelocationQueueEntry
  pub next_relocation : ℕ
  pub storms : List StormAlert

pub record Store : Type 0 where
  pub tables : Tables
  pub faults : List Bool

-- the store of a fresh database, every call of which works
abbrev pub fresh : Store
fresh = record {
  tables = record {
    suggestions = [];
    next_suggestion = 1;
    events = [];
    next_event = 1;
    relocations = [];
    next_relocation = 1;
    storms = [];
  };
  faults = [];
}

-- A call of the store: `none` is an error.
abbrev pub Db : Type 0 → Type 0
Db A = Store → Option A × Store

-- one statement, on the tables
abbrev pub Statement : Type 0 → Type 0
Statement A = Tables → A × Tables

attempt : {A : Type 0} → List Bool → Statement A → Tables → Option A × Store
attempt [] op t = let (a, t') = op t in (some a, record { tables = t'; faults = [] })
attempt (true ∷ fs) op t = (none, record { tables = t; faults = fs })
attempt (false ∷ fs) op t = let (a, t') = op t in (some a, record { tables = t'; faults = fs })

-- Run a statement, unless the database fails.
unfoldable pub exec : {A : Type 0} → Statement A → Db A
unfolding attempt
exec op s = attempt s.faults op s.tables

-- A call either fails and leaves the tables, or it runs its statement.
attempt-cases :
    {A : Type 0} (fs : List Bool) (op : Statement A) (t : Tables)
    → (((attempt fs op t).0 ≡ none) × ((attempt fs op t).1.tables ≡ t))
      ⊎ (((attempt fs op t).0 ≡ some (op t).0) × ((attempt fs op t).1.tables ≡ (op t).1))
unfolding attempt
attempt-cases [] op t = inr (refl, refl)
attempt-cases (true ∷ fs) op t = inl (refl, refl)
attempt-cases (false ∷ fs) op t = inr (refl, refl)

pub exec-cases :
    {A : Type 0} (op : Statement A) (s : Store)
    → (((exec op s).0 ≡ none) × ((exec op s).1.tables ≡ s.tables))
      ⊎ (((exec op s).0 ≡ some (op s.tables).0) × ((exec op s).1.tables ≡ (op s.tables).1))
unfolding exec
exec-cases op s = attempt-cases s.faults op s.tables

-- What a statement keeps, a call of it keeps.
attempt-Keeps :
    {A : Type 0} (P : Tables → Type 0) (fs : List Bool) (op : Statement A) (t : Tables)
    → P t
    → P (op t).1
    → P (attempt fs op t).1.tables
unfolding attempt
attempt-Keeps P [] op t h k = k
attempt-Keeps P (true ∷ fs) op t h k = h
attempt-Keeps P (false ∷ fs) op t h k = k

pub exec-Keeps :
    {A : Type 0} (P : Tables → Type 0) (op : Statement A) (s : Store)
    → P s.tables
    → P (op s.tables).1
    → P (exec op s).1.tables
unfolding exec
exec-Keeps P op s h k = attempt-Keeps P s.faults op s.tables h k

-- A database that does not fail runs the statement, and does not fail afterwards.
pub exec_lem :
    {A : Type 0} (op : Statement A) (t : Tables)
    → exec op (record { tables = t; faults = [] })
      ≡ (some (op t).0, record { tables = (op t).1; faults = [] })
unfolding exec
exec_lem op t = refl
