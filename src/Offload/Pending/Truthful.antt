-- ===== src/Offload/Pending/Truthful.antt =====
-- A row of the queue is applied only where Apply has moved its asset.
use noo_noo.Offload.Pending.{
  BlockReason, Place, apply_failed, apply_marked, attempt_one, block_relocation, is_spent, move_of,
  patch_outcome, recheck_all, recheck_gates, recheck_one, run_listed, run_pending,
}
use noo_noo.Common.{
  All, All-of_members, Any, Bool-cases, List, Option, String, [], ap, arith, inl, inr, keep_if,
  none, refl, some, str_eq, true, ℕ, ◌||◌, ◌∷◌, ◌≡◌, ◌≢◌, ◌⊎◌,
}
use noo_noo.Store.Queue.{
  affected, is_hit, is_pending, is_pending_row, later, list_pending_relocations,
  mark_relocation_attempt, pending_rows, resolve_relocation, stamp, update_pending,
  update_relocation,
}
use noo_noo.Offload.Apply.{MoveOutcome, OffloadModule, apply_move, move_failed, moved}
use noo_noo.Store.{
  RelocStatus, RelocationQueueEntry, Store, Tables, applied, blocked, cancelled, exec, exec-Keeps,
  exec-cases, other, queued,
}
use noo_noo.Store.Queue.Lifecycle.{affected-tables}
use mathlib.Core.Path.{subst}
use noo_noo.Offload.Disk.{Disk}
use noo_noo.Common.Sort.{sort_by-All}

-- a pending row of the queue
abbrev pub WasPending : List RelocationQueueEntry → RelocationQueueEntry → Type 0
WasPending before e = Any (λ q. q ≡ e) before × (is_pending e.status ≡ true)

module _ {T : Type 0} where
  -- The disk that some calls of Apply have made of this one, each for an entry that passed every gate on
  -- the disk as it stood right before the call.
  pub data Reaches (m : OffloadModule T) (d : Disk T) : Disk T → Type 0 where
    at_start : Reaches m d d
    after_move :
        {d' : Disk T}
        → Reaches m d d'
        → (e : RelocationQueueEntry) → recheck_gates m e d' ≡ none
        → Reaches m d (apply_move m (move_of e) d').1

  -- A pending row of this id passed every gate in the course of the run, and Apply answered right then
  -- that it had moved the asset and freed the bytes that the row tells.
  abbrev pub HasMoved :
      OffloadModule T → List RelocationQueueEntry → Disk T → RelocationQueueEntry → Type 0
  HasMoved m before d r =
      (e : RelocationQueueEntry) × (d' : Disk T) × WasPending before e
      × (r.entry_id ≡ e.entry_id)
      × Reaches m d d'
      × (recheck_gates m e d' ≡ none)
      × ((apply_move m (move_of e) d').0 ≡ moved r.reclaimed_bytes)

  abbrev pub IsTruthful :
      OffloadModule T → List RelocationQueueEntry → Disk T → RelocationQueueEntry → Type 0
  IsTruthful m before d r = r.status ≡ applied → Any (λ q. q ≡ r) before ⊎ HasMoved m before d r

pending-applied : (s : RelocStatus) → is_pending s ≡ true → s ≢ applied
pending-applied queued p e = cc
pending-applied blocked p e = cc
pending-applied applied p e = cc
pending-applied cancelled p e = cc
pending-applied (other t) p e = cc

update-All :
    (P : RelocationQueueEntry → Type 0) (i : ℕ) (f : RelocationQueueEntry → RelocationQueueEntry)
    (es : List RelocationQueueEntry)
    → All P es
    → ((e : RelocationQueueEntry) → is_pending e.status ≡ true → e.entry_id ≡ i → P (f e))
    → All P (update_pending i f es).1
unfolding update_pending
update-All P i f [] h k = tt
update-All P i f (e ∷ es) h k = elim (Bool-cases (is_hit i e)) [
  | inl y ↦ rw y (k e (ground arith) (ground arith), update-All P i f es h.1 k)
  | inr n ↦ rw n (h.0, update-All P i f es h.1 k)
]

update_call-All :
    (P : RelocationQueueEntry → Type 0) (i : ℕ) (f : RelocationQueueEntry → RelocationQueueEntry)
    (s : Store)
    → All P s.tables.relocations
    → ((e : RelocationQueueEntry) → is_pending e.status ≡ true → e.entry_id ≡ i → P (f e))
    → All P (affected (exec (update_relocation i f) s)).1.tables.relocations
unfolding update_relocation
update_call-All P i f s h k = rw (affected-tables (exec (update_relocation i f) s)) (
    exec-Keeps (λ t. All P t.relocations) (update_relocation i f) s h
      (update-All P i f s.tables.relocations h k))

listed-WasPending : (t : Tables) → All (WasPending t.relocations) (pending_rows t)
unfolding pending_rows
listed-WasPending t =
    sort_by-All later (WasPending t.relocations) (keep_if is_pending_row t.relocations)
      (kept t.relocations (All-of_members _ t.relocations (λ q k. k)))
  where
    kept :
        (es : List RelocationQueueEntry)
        → All (λ e. Any (λ q. q ≡ e) t.relocations) es
        → All (WasPending t.relocations) (keep_if is_pending_row es)
    kept [] h = tt
    kept (e ∷ es) h = elim (Bool-cases (is_pending_row e)) [
      | inl y ↦ rw y ((h.0, y), kept es h.1)
      | inr n ↦ rw n (kept es h.1)
    ]

module _ {T : Type 0} (m : OffloadModule T) (before : List RelocationQueueEntry) (d : Disk T) where
  abbrev Holds : Place T → Type 0
  Holds w = All (IsTruthful m before d) w.queue.tables.relocations × Reaches m d w.disk

  block-Holds :
      (e : RelocationQueueEntry) (r : BlockReason) (w : Place T)
      → Holds w
      → Holds (block_relocation e r w)
  unfolding block_relocation resolve_relocation
  block-Holds e r w (h, reach) =
      (update_call-All (IsTruthful m before d) e.entry_id _ w.queue h (λ q p i s. cc), reach)

  patch-Holds :
      (e : RelocationQueueEntry) (now : ℕ) (st : Store) (d' : Disk T) (o : MoveOutcome × Disk T)
      → apply_move m (move_of e) d' ≡ o
      → WasPending before e
      → recheck_gates m e d' ≡ none
      → Reaches m d d'
      → All (IsTruthful m before d) st.tables.relocations
      → Holds (patch_outcome e now st o).1
  unfolding patch_outcome resolve_relocation
  patch-Holds e now st d' (moved freed, d2) ran was ok reach h = (
    update_call-All (IsTruthful m before d) e.entry_id _ st h
        (λ q p i s. inr (e, d', was, i, reach, ok, ap (λ r. r.0) ran)),
    subst (Reaches m d) (ap (λ r. r.1) ran) (after_move reach e ok),
  )
  patch-Holds e now st d' (move_failed err, d2) ran was ok reach h =
      block-Holds e (apply_failed err) (record { queue = st; disk = d2 })
        (h, subst (Reaches m d) (ap (λ r. r.1) ran) (after_move reach e ok))

  marked-Holds :
      (e : RelocationQueueEntry) (now : ℕ) (d' : Disk T) (r : Option (Unit {0}) × Store)
      → WasPending before e
      → recheck_gates m e d' ≡ none
      → Reaches m d d'
      → All (IsTruthful m before d) r.1.tables.relocations
      → Holds (apply_marked m e now d' r).1
  unfolding apply_marked
  marked-Holds e now d' (none, st) was ok reach h = (h, reach)
  marked-Holds e now d' (some u, st) was ok reach h =
      patch-Holds e now st d' (apply_move m (move_of e) d') refl was ok reach h

  mark-truth :
      (e : RelocationQueueEntry) (now : ℕ) (st : Store)
      → All (IsTruthful m before d) st.tables.relocations
      → All (IsTruthful m before d) (mark_relocation_attempt e.entry_id now st).1.tables.relocations
  unfolding mark_relocation_attempt
  mark-truth e now st h =
      update_call-All (IsTruthful m before d) e.entry_id (stamp now) st h
        (λ q p i s. elim (pending-applied q.status p s) [ ])

  one-Holds :
      (e : RelocationQueueEntry) (budget : Option ℕ) (tried now : ℕ) (w : Place T)
      (g : Option BlockReason)
      → recheck_gates m e w.disk ≡ g
      → WasPending before e
      → Holds w
      → Holds (attempt_one m e budget tried now w g).0.1
  one-Holds e budget tried now w (some r) ok was h = block-Holds e r w h
  one-Holds e budget tried now w none ok was h = elim (Bool-cases (is_spent budget tried)) [
    | inl s ↦ rw s h
    | inr s ↦ rw s (
        marked-Holds e now w.disk (mark_relocation_attempt e.entry_id now w.queue) was ok h.1
          (mark-truth e now w.queue h.0))
  ]

  recheck_all-Holds :
      (es : List RelocationQueueEntry) (budget : Option ℕ) (tried now : ℕ) (w : Place T)
      → All (WasPending before) es
      → Holds w
      → Holds (recheck_all m es budget tried now w).1
  unfolding recheck_all recheck_one
  recheck_all-Holds [] budget tried now w was h = h
  recheck_all-Holds (e ∷ es) budget tried now w was h =
      let r = attempt_one m e budget tried now w (recheck_gates m e w.disk) in
      recheck_all-Holds es budget r.1 now r.0.1 was.1
        (one-Holds e budget tried now w (recheck_gates m e w.disk) refl was.0 h)

  listed-Holds :
      (budget : Option ℕ) (now : ℕ) (r : Option (List RelocationQueueEntry) × Store)
      → ((es : List RelocationQueueEntry) → r.0 ≡ some es → All (WasPending before) es)
      → All (IsTruthful m before d) r.1.tables.relocations
      → Holds (run_listed m budget now d r).1
  listed-Holds budget now (none, st) was h = (h, at_start)
  listed-Holds budget now (some es, st) was h =
      recheck_all-Holds es budget 0 now (record { queue = st; disk = d }) (was es refl)
        (h, at_start)

module _ {T : Type 0} (m : OffloadModule T) where
  read_list :
      (s : Store) (es : List RelocationQueueEntry)
      → (list_pending_relocations s).0 ≡ some es
      → All (WasPending s.tables.relocations) es
  unfolding list_pending_relocations
  read_list s es h = elim (exec-cases (λ (t : Tables). (pending_rows t, t)) s) [
    | inl (f, k) ↦ cc
    | inr (f, k) ↦
        let eq : pending_rows s.tables ≡ es = cc in
        subst (All (WasPending s.tables.relocations)) eq (listed-WasPending s.tables)
  ]

  -- After a run of the queue, whichever calls of the store and of the system fail and whatever the
  -- trigger and the budget are, each applied row is one of the rows before the run, or there was a
  -- pending row of its id that passed every gate on the disk as some gated moves of the run had
  -- left it, and Apply answered on that disk that it had moved the asset and freed the bytes that
  -- the row tells.
  pub run_pending-IsTruthful :
      (trigger : String) (budget : Option ℕ) (now : ℕ) (w : Place T)
      → All
          (IsTruthful m w.queue.tables.relocations w.disk)
          (run_pending m trigger budget now w).1.queue.tables.relocations
  unfolding run_pending list_pending_relocations
  run_pending-IsTruthful trigger budget now w =
      let was = w.queue.tables.relocations in
      let old : All (IsTruthful m was w.disk) was =
        All-of_members (IsTruthful m was w.disk) was (λ q k s. inl k) in
      elim (Bool-cases (str_eq trigger "daily" || str_eq trigger "manual")) [
        | inr f ↦ rw f old
        | inl t ↦
            rw t
              (listed-Holds m was w.disk budget now (list_pending_relocations w.queue)
                (read_list w.queue)
                (exec-Keeps (λ v. All (IsTruthful m was w.disk) v.relocations)
                  (λ (v : Tables). (pending_rows v, v)) w.queue old old)).0
      ]
