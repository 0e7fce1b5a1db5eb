-- ===== src/Store/Queue/Unique.antt =====
-- At most one pending row for each target, whatever calls are made and whichever of them fail.
use noo_noo.Common.{
  Bool, Bool-cases, List, Option, String, [], arith, eq_iff, if◌then◌else◌, inl, inr, none, refl,
  some, str_eq, suc, true, ℕ, ◌&&◌, ◌++◌, ◌+◌, ◌∷◌, ◌≡◌, ◌≤◌,
}
use noo_noo.Store.{RelocationQueueEntry, Store, Tables, exec, exec-Keeps, exec-cases}
use noo_noo.Store.Queue.{
  QueueCall, affected, call, calls, enqueue, enqueue_checked, enqueue_relocation, find_pending,
  insert_relocation, is_hit, is_legal, is_pending, mark, mark_relocation_attempt, queued_row,
  resolve, resolve_relocation, resolve_row, stamp, update_pending, update_relocation,
}
use noo_noo.Store.Queue.Lifecycle.{Change, affected-tables, attempted, query-tables, resolved, same}

abbrev pub is_pending_for : String → RelocationQueueEntry → Bool
is_pending_for path e = str_eq e.source_path path && is_pending e.status

abbrev pub count_pending : String → List RelocationQueueEntry → ℕ
count_pending path [] = 0
count_pending path (e ∷ es) =
    let n = count_pending path es in if is_pending_for path e then suc n else n

abbrev pub IsUnique : List RelocationQueueEntry → Type 0
IsUnique es = (path : String) → count_pending path es ≤ 1

count-none :
    (path : String) (es : List RelocationQueueEntry)
    → find_pending path es ≡ none
    → count_pending path es ≡ 0
unfolding find_pending
count-none path [] h = refl
count-none path (e ∷ es) h = ground (arith, count-none path es)

count-insert :
    (path : String) (es : List RelocationQueueEntry) (f : RelocationQueueEntry)
    → count_pending path (es ++ f ∷ [])
      ≡ count_pending path es + (if is_pending_for path f then 1 else 0)
count-insert path [] f = ground arith
count-insert path (e ∷ es) f = ground (arith, count-insert path es f)

insert-IsUnique :
    (es : List RelocationQueueEntry) (f : RelocationQueueEntry)
    → IsUnique es
    → find_pending f.source_path es ≡ none
    → IsUnique (es ++ f ∷ [])
insert-IsUnique es f u h path = ground (
  arith,
  count-insert path es f,
  u path,
  count-none f.source_path es h,
  eq_iff f.source_path path,
)

-- a change keeps the path, and makes no row pending that was not
Change-count :
    (path : String) {e f : RelocationQueueEntry}
    → Change e f
    → is_pending_for path f ≡ true
    → is_pending_for path e ≡ true
Change-count path same h = h
Change-count path (attempted at p) h = h
Change-count path (resolved r p l) h = ground arith

update-count :
    (path : String) (i : ℕ) (f : RelocationQueueEntry → RelocationQueueEntry)
    (es : List RelocationQueueEntry)
    → ((e : RelocationQueueEntry) → is_pending e.status ≡ true → Change e (f e))
    → count_pending path (update_pending i f es).1 ≤ count_pending path es
unfolding update_pending
update-count path i f [] h = omega arith
update-count path i f (e ∷ es) h = elim (Bool-cases (is_hit i e)) [
  | inr k ↦ rw k (ground (arith, update-count path i f es h))
  | inl k ↦ rw k (hit (Change-count path (h e (ground arith))) (update-count path i f es h))
]
  where
    hit :
        (is_pending_for path (f e) ≡ true → is_pending_for path e ≡ true)
        → count_pending path (update_pending i f es).1 ≤ count_pending path es
        → count_pending path (f e ∷ (update_pending i f es).1) ≤ count_pending path (e ∷ es)
    hit c l = ground arith

affected-IsUnique :
    (i : ℕ) (f : RelocationQueueEntry → RelocationQueueEntry) (s : Store)
    → ((e : RelocationQueueEntry) → is_pending e.status ≡ true → Change e (f e))
    → IsUnique s.tables.relocations
    → IsUnique (affected (exec (update_relocation i f) s)).1.tables.relocations
unfolding update_relocation
affected-IsUnique i f s h u = rw (affected-tables (exec (update_relocation i f) s)) (
    exec-Keeps (λ t. IsUnique t.relocations) (update_relocation i f) s u
      (λ path. omega (arith, u path, update-count path i f s.tables.relocations h)))

enqueue-IsUnique :
    (e : RelocationQueueEntry) (found : Option (Option ℕ)) (s : Store)
    → (found ≡ some none → find_pending e.source_path s.tables.relocations ≡ none)
    → IsUnique s.tables.relocations
    → IsUnique (enqueue_checked e found s).1.tables.relocations
unfolding enqueue_checked insert_relocation
enqueue-IsUnique e none s h u = u
enqueue-IsUnique e (some (some i)) s h u = u
enqueue-IsUnique e (some none) s h u =
    exec-Keeps (λ t. IsUnique t.relocations) (insert_relocation e) s u
      (insert-IsUnique s.tables.relocations (queued_row s.tables.next_relocation e) u (h refl))

call-IsUnique :
    (c : QueueCall) (s : Store)
    → IsUnique s.tables.relocations
    → IsUnique (call c s).tables.relocations
unfolding call enqueue_relocation mark_relocation_attempt resolve_relocation
call-IsUnique (enqueue e) s u =
    let op : Tables → Option ℕ × Tables = λ t. (find_pending e.source_path t.relocations, t) in
    enqueue-IsUnique e (exec op s).0 (exec op s).1
      (λ h. elim (exec-cases op s) [ inl (v, tb) ↦ cc | inr (v, tb) ↦ rw tb (cc) ])
      (rw (query-tables (λ t. find_pending e.source_path t.relocations) s) u)
call-IsUnique (mark i at) s u = affected-IsUnique i (stamp at) s (λ e p. attempted at p) u
call-IsUnique (resolve i r) s u = elim (Bool-cases (is_legal r.to_status)) [
  | inl l ↦ rw (l, call) (affected-IsUnique i (resolve_row r) s (λ e p. resolved r p l) u)
  | inr l ↦ rw (l, call) u
]

-- If the relocation queue holds at most one pending row for each target path, it still does after
-- any sequence of queue calls, whichever of them fail.
pub calls-IsUnique :
    (cs : List QueueCall) (s : Store)
    → IsUnique s.tables.relocations
    → IsUnique (calls cs s).tables.relocations
unfolding calls
calls-IsUnique [] s u = u
calls-IsUnique (c ∷ cs) s u = calls-IsUnique cs (call c s) (call-IsUnique c s u)
