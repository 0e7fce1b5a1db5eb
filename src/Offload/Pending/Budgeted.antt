-- ===== src/Offload/Pending/Budgeted.antt =====
-- A run of the queue moves at most as many assets as its budget allows.
use noo_noo.Store.{RelocationQueueEntry, Store}
use noo_noo.Offload.Disk.{Disk}
use noo_noo.Offload.Apply.{MoveOutcome, OffloadModule, apply_move, move_failed, moved}
use noo_noo.Offload.Pending.{
  BlockReason, Place, apply_marked, attempt_one, block_relocation, move_of, patch_outcome,
  recheck_all, recheck_gates, recheck_one, run_listed, run_pending,
}
use noo_noo.Common.{
  Bool-cases, List, Option, String, [], ap, arith, eq_iff, inl, inr, leb, length, none, refl, some,
  str_eq, ℕ, ◌+◌, ◌-◌, ◌<◌, ◌||◌, ◌∙◌, ◌∷◌, ◌≡◌, ◌≢◌, ◌≤◌, ◌⊎◌,
}
use noo_noo.Store.Queue.{list_pending_relocations, mark_relocation_attempt}

module _ {T : Type 0} (m : OffloadModule T) where
  -- one call of Apply for each entry
  abbrev pub moves : List RelocationQueueEntry → Disk T → Disk T
  moves [] d = d
  moves (e ∷ es) d = moves es (apply_move m (move_of e) d).1

  -- the entry passed every gate on the disk as it stood before its move
  abbrev pub AllPassed : List RelocationQueueEntry → Disk T → Type 0
  AllPassed [] d = Unit
  AllPassed (e ∷ es) d = (recheck_gates m e d ≡ none) × AllPassed es (apply_move m (move_of e) d).1

  patched-disk :
      (e : RelocationQueueEntry) (now : ℕ) (st : Store) (o : MoveOutcome × Disk T)
      → (patch_outcome e now st o).1.disk ≡ o.1
  unfolding patch_outcome block_relocation
  patched-disk e now st (moved freed, d) = refl
  patched-disk e now st (move_failed err, d) = refl

  -- the move of one entry, whatever the mark and the updates of the row answer
  marked-disk :
      (e : RelocationQueueEntry) (now : ℕ) (d : Disk T) (r : Option (Unit {0}) × Store)
      → ((apply_marked m e now d r).1.disk ≡ d)
        ⊎ ((apply_marked m e now d r).1.disk ≡ (apply_move m (move_of e) d).1)
  unfolding apply_marked
  marked-disk e now d (none, st) = inl refl
  marked-disk e now d (some u, st) = inr (patched-disk e now st (apply_move m (move_of e) d))

  one-cases :
      (e : RelocationQueueEntry) (budget attempted now : ℕ) (w : Place T) (g : Option BlockReason)
      → (((attempt_one m e (some budget) attempted now w g).0.1.disk ≡ w.disk)
          × (attempted ≤ (attempt_one m e (some budget) attempted now w g).1)
          × (attempted ≤ budget → (attempt_one m e (some budget) attempted now w g).1 ≤ budget))
        ⊎ (((attempt_one m e (some budget) attempted now w g).0.1.disk
              ≡ (apply_move m (move_of e) w.disk).1)
            × (g ≡ none)
            × ((attempt_one m e (some budget) attempted now w g).1 ≡ attempted + 1)
            × (attempted < budget))
  unfolding block_relocation
  one-cases e budget attempted now w (some r) = inl (refl, omega arith, λ h. h)
  one-cases e budget attempted now w none = elim (Bool-cases (leb budget attempted)) [
    | inl s ↦ inl (rw s (refl, omega arith, λ h. h))
    | inr s ↦
        rw s (elim (marked-disk e now w.disk (mark_relocation_attempt e.entry_id now w.queue)) [
          | inl same ↦ inl (same, omega arith, λ h. ground arith)
          | inr ran ↦ inr (ran, refl, refl, ground arith)
        ])
  ]

  -- The disk after a run over these entries is the one that some moves leave, each of an entry that
  -- passed every gate right before, and no more moves than the budget has left.
  abbrev pub IsBudgeted : ℕ → Disk T → Disk T → Type 0
  IsBudgeted left d d' =
      (es : List RelocationQueueEntry) × (d' ≡ moves es d) × AllPassed es d × (length es ≤ left)

  all-IsBudgeted :
      (es : List RelocationQueueEntry) (budget attempted now : ℕ) (w : Place T)
      → attempted ≤ budget
      → IsBudgeted
          (budget - attempted)
          w.disk
          (recheck_all m es (some budget) attempted now w).1.disk
  unfolding recheck_all recheck_one
  all-IsBudgeted [] budget attempted now w h = ([], refl, tt, omega arith)
  all-IsBudgeted (e ∷ es) budget attempted now w h =
      let g = recheck_gates m e w.disk in
      let r = attempt_one m e (some budget) attempted now w g in
      elim (one-cases e budget attempted now w g) [
        | inl (same, up, fits) ↦
            let (ms, q, p, l) = all-IsBudgeted es budget r.1 now r.0.1 (fits h) in
            (ms, q ∙ ap (moves ms) same, rw same at p, omega (arith, l, up))
        | inr (ran, ok, n, less) ↦
            let (ms, q, p, l) = all-IsBudgeted es budget r.1 now r.0.1 (omega (arith, n, less)) in
            (e ∷ ms, q ∙ ap (moves ms) ran, (ok, rw ran at p), omega (arith, l, n, less))
      ]

  listed-IsBudgeted :
      (budget now : ℕ) (d : Disk T) (r : Option (List RelocationQueueEntry) × Store)
      → IsBudgeted budget d (run_listed m (some budget) now d r).1.disk
  listed-IsBudgeted budget now d (none, st) = ([], refl, tt, omega arith)
  listed-IsBudgeted budget now d (some es, st) =
      let (ms, q, p, l) =
        all-IsBudgeted es budget 0 now (record { queue = st; disk = d }) (omega arith) in
      (ms, q, p, omega (arith, l))

  -- A run of the queue leaves the disk that some calls of Apply leave, no more of them than its
  -- budget, each for an entry that passed every gate on the disk as it stood right before the
  -- call; and on a trigger that is neither daily nor manual it leaves everything as it was.
  pub run_pending-IsBudgeted :
      (trigger : String) (budget now : ℕ) (w : Place T)
      → IsBudgeted budget w.disk (run_pending m trigger (some budget) now w).1.disk
        × (trigger ≢ "daily"
            → trigger ≢ "manual"
            → run_pending m trigger (some budget) now w ≡ (none, w))
  unfolding run_pending
  run_pending-IsBudgeted trigger budget now w =
      let run = listed-IsBudgeted budget now w.disk (list_pending_relocations w.queue) in
      elim (Bool-cases (str_eq trigger "daily" || str_eq trigger "manual")) [
        | inl t ↦ rw t (run, λ d n. ground (arith, eq_iff trigger "daily", eq_iff trigger "manual"))
        | inr f ↦ rw f (([], refl, tt, omega arith), λ d n. refl)
      ]
