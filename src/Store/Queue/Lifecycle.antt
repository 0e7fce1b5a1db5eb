-- ===== src/Store/Queue/Lifecycle.antt =====
-- The lifecycle of a queue row, whatever calls are made and whichever of them fail.
use noo_noo.Common.{
  All, Bool-cases, List, Option, [], ap, arith, false, inl, inr, none, refl, some, suc, true, zero,
  ℕ, ◌++◌, ◌∙◌, ◌∷◌, ◌≡◌,
}
use noo_noo.Store.{RelocationQueueEntry, Store, Tables, exec, exec-Keeps}
use noo_noo.Store.Queue.{
  QueueCall, RelocationResolution, affected, call, calls, enqueue, enqueue_checked,
  enqueue_relocation, find_pending, insert_relocation, is_hit, is_legal, is_pending, mark,
  mark_relocation_attempt, queued_row, resolve, resolve_relocation, resolve_row, stamp,
  update_pending, update_relocation,
}
use mathlib.Core.Path.{subst}

-- One change of a row: none, an attempt on a pending row, or the resolution of a pending row to one of
-- the three legal statuses.
pub data Change (e : RelocationQueueEntry) : RelocationQueueEntry → Type 0 where
  same : Change e e
  attempted : (at : ℕ) → is_pending e.status ≡ true → Change e (stamp at e)
  resolved :
      (r : RelocationResolution)
      → is_pending e.status ≡ true
      → is_legal r.to_status ≡ true
      → Change e (resolve_row r e)

-- Any number of changes.
pub data Evolves (e : RelocationQueueEntry) : RelocationQueueEntry → Type 0 where
  start : Evolves e e
  and_then : {f g : RelocationQueueEntry} → Evolves e f → Change f g → Evolves e g

-- Each old row has evolved into the row at its place, and what stands behind is queued rows.
abbrev pub IsGrown : List RelocationQueueEntry → List RelocationQueueEntry → Type 0
IsGrown [] news = All (λ e. is_pending e.status ≡ true) news
IsGrown (e ∷ es) [] = ⊥
IsGrown (e ∷ es) (f ∷ fs) = Change e f × IsGrown es fs

IsGrown-refl : (es : List RelocationQueueEntry) → IsGrown es es
IsGrown-refl [] = tt
IsGrown-refl (e ∷ es) = (same, IsGrown-refl es)

IsGrown-insert :
    (es : List RelocationQueueEntry) (f : RelocationQueueEntry)
    → is_pending f.status ≡ true
    → IsGrown es (es ++ f ∷ [])
IsGrown-insert [] f h = (h, tt)
IsGrown-insert (e ∷ es) f h = (same, IsGrown-insert es f h)

-- `update_pending` changes hit rows only, and a hit row is pending
update-IsGrown :
    (i : ℕ) (f : RelocationQueueEntry → RelocationQueueEntry) (es : List RelocationQueueEntry)
    → ((e : RelocationQueueEntry) → is_pending e.status ≡ true → Change e (f e))
    → IsGrown es (update_pending i f es).1
unfolding update_pending
update-IsGrown i f [] h = tt
update-IsGrown i f (e ∷ es) h = elim (Bool-cases (is_hit i e)) [
  | inl k ↦ rw k (h e (ground arith), update-IsGrown i f es h)
  | inr k ↦ rw k (same, update-IsGrown i f es h)
]

pub affected-tables : (r : Option ℕ × Store) → (affected r).1 ≡ r.1
affected-tables (none, s) = refl
affected-tables (some zero, s) = refl
affected-tables (some (suc n), s) = refl

update-call :
    (i : ℕ) (f : RelocationQueueEntry → RelocationQueueEntry) (s : Store)
    → ((e : RelocationQueueEntry) → is_pending e.status ≡ true → Change e (f e))
    → IsGrown s.tables.relocations (affected (exec (update_relocation i f) s)).1.tables.relocations
unfolding update_relocation
update-call i f s h = rw (affected-tables (exec (update_relocation i f) s)) (
    exec-Keeps (λ t. IsGrown s.tables.relocations t.relocations) (update_relocation i f) s
      (IsGrown-refl s.tables.relocations) (update-IsGrown i f s.tables.relocations h))

enqueue-call :
    (e : RelocationQueueEntry) (found : Option (Option ℕ)) (s : Store)
    → IsGrown s.tables.relocations (enqueue_checked e found s).1.tables.relocations
unfolding enqueue_checked insert_relocation
enqueue-call e none s = IsGrown-refl s.tables.relocations
enqueue-call e (some (some i)) s = IsGrown-refl s.tables.relocations
enqueue-call e (some none) s =
    exec-Keeps (λ t. IsGrown s.tables.relocations t.relocations) (insert_relocation e) s
      (IsGrown-refl s.tables.relocations)
      (IsGrown-insert s.tables.relocations (queued_row s.tables.next_relocation e) refl)

-- a query leaves the tables
pub query-tables :
    {A : Type 0} (f : Tables → A) (s : Store) → (exec (λ t. (f t, t)) s).1.tables ≡ s.tables
query-tables f s = exec-Keeps (λ t. t ≡ s.tables) (λ t. (f t, t)) s refl refl

-- Every call changes each row by a legal change of a pending row or not at all, in place, and adds
-- pending rows only.
pub call-IsGrown :
    (c : QueueCall) (s : Store) → IsGrown s.tables.relocations (call c s).tables.relocations
unfolding call enqueue_relocation mark_relocation_attempt resolve_relocation
call-IsGrown (enqueue e) s =
    let q = exec (λ (t : Tables). (find_pending e.source_path t.relocations, t)) s in
    subst (λ (t : Tables). IsGrown t.relocations (enqueue_checked e q.0 q.1).1.tables.relocations)
      (query-tables (λ t. find_pending e.source_path t.relocations) s) (enqueue-call e q.0 q.1)
call-IsGrown (mark i at) s = update-call i (stamp at) s (λ e p. attempted at p)
call-IsGrown (resolve i r) s = elim (Bool-cases (is_legal r.to_status)) [
  | inl l ↦ rw (l, call) (update-call i (resolve_row r) s (λ e p. resolved r p l))
  | inr l ↦ rw (l, call) (IsGrown-refl s.tables.relocations)
]

-- the row at a place
abbrev pub row_at : ℕ → List RelocationQueueEntry → Option RelocationQueueEntry
row_at n [] = none
row_at zero (e ∷ es) = some e
row_at (suc n) (e ∷ es) = row_at n es

IsGrown-row_at :
    (n : ℕ) (es fs : List RelocationQueueEntry) (e : RelocationQueueEntry)
    → IsGrown es fs
    → row_at n es ≡ some e
    → (f : RelocationQueueEntry) × (row_at n fs ≡ some f) × Change e f
IsGrown-row_at n [] fs e g h = cc
IsGrown-row_at n (x ∷ es) [] e g h = elim g [ ]
IsGrown-row_at zero (x ∷ es) (y ∷ fs) e g h = (y, refl, subst (λ z. Change z y) (cc) g.0)
IsGrown-row_at (suc n) (x ∷ es) (y ∷ fs) e g h = IsGrown-row_at n es fs e g.1 h

evolve_on :
    (cs : List QueueCall) (s : Store) (n : ℕ) (e d : RelocationQueueEntry)
    → Evolves e d
    → row_at n s.tables.relocations ≡ some d
    → (f : RelocationQueueEntry) × (row_at n (calls cs s).tables.relocations ≡ some f) × Evolves e f
unfolding calls
evolve_on [] s n e d v h = (d, h, v)
evolve_on (c ∷ cs) s n e d v h =
    let (f, k, ch) =
      IsGrown-row_at n s.tables.relocations (call c s).tables.relocations d (call-IsGrown c s) h in
    evolve_on cs (call c s) n e f (and_then v ch) k

-- Whatever queue calls are made, and whichever fail, the row at a place has evolved by legal
-- changes only: a pending row may be stamped with an attempt or resolved to applied, blocked or
-- cancelled.
pub calls-Evolves :
    (cs : List QueueCall) (s : Store) (n : ℕ) (e : RelocationQueueEntry)
    → row_at n s.tables.relocations ≡ some e
    → (f : RelocationQueueEntry) × (row_at n (calls cs s).tables.relocations ≡ some f) × Evolves e f
calls-Evolves cs s n e h = evolve_on cs s n e e start h

Change-terminal : {e f : RelocationQueueEntry} → Change e f → is_pending e.status ≡ false → f ≡ e
Change-terminal same h = refl
Change-terminal (attempted at p) h = cc
Change-terminal (resolved r p l) h = cc

-- A queue row whose status is not pending stays exactly as it is through any sequence of queue
-- calls, whichever of them fail.
pub terminal_absorbs :
    (cs : List QueueCall) (s : Store) (n : ℕ) (e : RelocationQueueEntry)
    → row_at n s.tables.relocations ≡ some e
    → is_pending e.status ≡ false
    → row_at n (calls cs s).tables.relocations ≡ some e
unfolding calls
terminal_absorbs [] s n e h p = h
terminal_absorbs (c ∷ cs) s n e h p =
    let (f, k, ch) =
      IsGrown-row_at n s.tables.relocations (call c s).tables.relocations e (call-IsGrown c s) h in
    terminal_absorbs cs (call c s) n e (k ∙ ap some (Change-terminal ch p)) p
