-- ===== src/Offload/Apply/Kept.antt =====
-- The data law of Apply: whatever fails, the asset is somewhere known.
use noo_noo.Offload.Disk.{
  Disk, eval_symlinks, exists, link, remove, remove_all, remove_all_done, remove_all_others,
  remove_others, rename, rename_done, rename_failed, spent, symlink, symlink_done, symlink_failed,
}
use noo_noo.Offload.Apply.{
  CheckError, Move, MoveOutcome, OffloadModule, after_copy, after_link, after_swap, apply_checked,
  apply_move, backup_left, backup_of, check_move, drop_backup, move_failed, moved, restore,
  restore_failed, same_place, same_size, swap,
}
use noo_noo.Common.{
  Bool, Bool-cases, Option, String, false, if◌then◌else◌, inl, inr, none, refl, some, str_eq,
  str_eq-false, str_eq-of_eq, sym, true, ◌∙◌, ◌≡◌, ◌≢◌,
}
use noo_noo.Common.Int.{ℤ}

-- the three paths are different
pub record IsApart (a : Move) : Type 0 where
  pub target_dest : a.move_target ≢ a.destination
  pub target_backup : a.move_target ≢ backup_of a.move_target
  pub dest_backup : a.destination ≢ backup_of a.move_target

module _ {T : Type 0} where
  -- the copier writes below its destination only
  abbrev pub IsLocal : (String → String → Disk T → Bool × Disk T) → Type 0
  IsLocal copier = (p q x : String) (d : Disk T) → x ≢ q → (copier p q d).1.nodes x ≡ d.nodes x

  -- the link stands, and its destination measures as the original did
  abbrev pub IsRelocated : OffloadModule T → Move → Disk T → Disk T → Type 0
  IsRelocated m a d d' =
      (d'.nodes a.move_target ≡ some (link a.destination))
      × (same_size (m.count_and_bytes (d.nodes a.move_target))
            (m.count_and_bytes (d'.nodes a.destination))
          ≡ true)

  -- Where the asset is after each outcome.
  abbrev pub IsKept : OffloadModule T → Move → Disk T → MoveOutcome × Disk T → Type 0
  IsKept m a d (moved freed, d') =
      IsRelocated m a d d' × (d'.nodes (backup_of a.move_target) ≡ none)
  IsKept m a d (move_failed backup_left, d') = IsRelocated m a d d'
  IsKept m a d (move_failed restore_failed, d') =
      d'.nodes (backup_of a.move_target) ≡ d.nodes a.move_target
  IsKept m a d (move_failed err, d') = d'.nodes a.move_target ≡ d.nodes a.move_target

  module _ (m : OffloadModule T) (a : Move) (apart : IsApart a) where
    tb : str_eq a.move_target (backup_of a.move_target) ≡ false
    tb = str_eq-false a.move_target (backup_of a.move_target) apart.target_backup

    bt : str_eq (backup_of a.move_target) a.move_target ≡ false
    bt = str_eq-false (backup_of a.move_target) a.move_target (λ h. apart.target_backup (sym h))

    td : str_eq a.move_target a.destination ≡ false
    td = str_eq-false a.move_target a.destination apart.target_dest

    dt : str_eq a.destination a.move_target ≡ false
    dt = str_eq-false a.destination a.move_target (λ h. apart.target_dest (sym h))

    db : str_eq a.destination (backup_of a.move_target) ≡ false
    db = str_eq-false a.destination (backup_of a.move_target) apart.dest_backup

    drop-target :
        (d : Disk T)
        → (remove_all m.leftover a.destination d).1.nodes a.move_target ≡ d.nodes a.move_target
    drop-target d = remove_all_others m.leftover a.destination a.move_target d td

    -- from a disk where the original stands at the backup
    restore-IsKept :
        (d0 d : Disk T)
        → d.nodes (backup_of a.move_target) ≡ d0.nodes a.move_target
        → IsKept m a d0 (restore m a d)
    unfolding restore
    restore-IsKept d0 d h =
        let r = remove a.move_target d in
        let k : r.nodes (backup_of a.move_target) ≡ d0.nodes a.move_target =
          remove_others a.move_target (backup_of a.move_target) d bt ∙ h in
        elim (Bool-cases (rename (backup_of a.move_target) a.move_target r).0) [
          | inr f ↦ rw f (
              rename_failed (backup_of a.move_target) a.move_target (backup_of a.move_target) r f
              ∙ k)
          | inl t ↦
              let g = rename_done (backup_of a.move_target) a.move_target a.move_target r t in
              rw t (
                drop-target (rename (backup_of a.move_target) a.move_target r).1
                ∙ (rw (str_eq-of_eq a.move_target a.move_target refl) at g)
                ∙ k)
        ]

    -- from a disk where the link stands over a good copy
    drop-IsKept :
        (d0 d : Disk T) (freed : ℤ)
        → d.nodes a.move_target ≡ some (link a.destination)
        → same_size
            (m.count_and_bytes (d0.nodes a.move_target))
            (m.count_and_bytes (d.nodes a.destination))
          ≡ true
        → IsKept m a d0 (drop_backup freed (remove_all m.leftover (backup_of a.move_target) d))
    drop-IsKept d0 d freed h size =
        let b = backup_of a.move_target in
        let r = remove_all m.leftover b d in
        let l : r.1.nodes a.move_target ≡ some (link a.destination) =
          remove_all_others m.leftover b a.move_target d tb ∙ h in
        let c : r.1.nodes a.destination ≡ d.nodes a.destination =
          remove_all_others m.leftover b a.destination d db in
        elim (Bool-cases r.0) [
          | inr f ↦ rw f (l, rw c size)
          | inl t ↦ rw t ((l, rw c size), remove_all_done m.leftover b d t)
        ]

    link-IsKept :
        (d0 d : Disk T) (freed : ℤ)
        → d.nodes (backup_of a.move_target) ≡ d0.nodes a.move_target
        → same_size
            (m.count_and_bytes (d0.nodes a.move_target))
            (m.count_and_bytes (d.nodes a.destination))
          ≡ true
        → IsKept m a d0 (after_link m a freed (symlink a.destination a.move_target d))
    unfolding after_link
    link-IsKept d0 d freed h size =
        let r = symlink a.destination a.move_target d in
        elim (Bool-cases r.0) [
          | inr f ↦ rw f (
              restore-IsKept d0 r.1
                (symlink_failed a.destination a.move_target (backup_of a.move_target) d f ∙ h))
          | inl t ↦
              let on : (x : String)
                  → r.1.nodes x
                    ≡ (if str_eq x a.move_target then some (link a.destination) else d.nodes x) =
                λ x. symlink_done a.destination a.move_target x d t in
              elim (Bool-cases (
                same_place (eval_symlinks a.move_target r.1)
                  (eval_symlinks a.destination (spent r.1)))) [
                    | inr f ↦
                        rw (t, f)
                          (restore-IsKept d0 (spent (spent r.1))
                            ((rw bt at (on (backup_of a.move_target))) ∙ h))
                    | inl p ↦
                        rw (t, p)
                          (drop-IsKept d0 (spent (spent r.1)) freed
                            (rw (str_eq-of_eq a.move_target a.move_target refl) at
                              (on a.move_target))
                            (rw (on a.destination, dt) size))
                  ]
        ]

    -- a disk where the original still stands at its place, and an error that says so
    copy-dropped :
        (d0 d : Disk T)
        → d.nodes a.move_target ≡ d0.nodes a.move_target
        → (remove_all m.leftover a.destination d).1.nodes a.move_target ≡ d0.nodes a.move_target
    copy-dropped d0 d h = drop-target d ∙ h

    swap-IsKept :
        (d0 d : Disk T)
        → d.nodes a.move_target ≡ d0.nodes a.move_target
        → same_size
            (m.count_and_bytes (d0.nodes a.move_target))
            (m.count_and_bytes (d.nodes a.destination))
          ≡ true
        → IsKept m a d0 (swap m a d)
    unfolding swap after_swap
    swap-IsKept d0 d h size =
        let b = backup_of a.move_target in
        let r = rename a.move_target b d in
        elim (Bool-cases (exists (d.nodes b))) [
          | inl x ↦ rw x (copy-dropped d0 d h)
          | inr x ↦ elim (Bool-cases r.0) [
            | inr f ↦
                rw (x, f)
                  (copy-dropped d0 r.1 (rename_failed a.move_target b a.move_target d f ∙ h))
            | inl t ↦
                rw (x, t)
                  (link-IsKept d0 r.1 (m.freed_by_delete a.move_target d)
                    ((rw (str_eq-of_eq b b refl) at (rename_done a.move_target b b d t)) ∙ h)
                    (rw (rename_done a.move_target b a.destination d t, db, dt) size))
          ]
        ]

    copied-IsKept :
        (d0 : Disk T) (r : Bool × Disk T)
        → r.1.nodes a.move_target ≡ d0.nodes a.move_target
        → IsKept m a d0 (after_copy m a r)
    unfolding after_copy
    copied-IsKept d0 (false, d) h = copy-dropped d0 d h
    copied-IsKept d0 (true, d) h =
        elim (Bool-cases (
          same_size (m.count_and_bytes (d.nodes a.move_target))
            (m.count_and_bytes (d.nodes a.destination)))) [
              | inr f ↦ rw f (copy-dropped d0 d h)
              | inl t ↦ rw t (swap-IsKept d0 d h (rw h at t))
            ]

  checked-IsKept :
      (m : OffloadModule T) (a : Move) (c : Option CheckError) (d : Disk T)
      → IsApart a
      → IsLocal m.copier
      → IsKept m a d (apply_checked m a c d)
  unfolding apply_checked
  checked-IsKept m a (some err) d apart loc = refl
  checked-IsKept m a none d apart loc =
      copied-IsKept m a apart d (m.copier a.move_target a.destination d)
        (loc a.move_target a.destination a.move_target d apart.target_dest)

  -- Whichever checks refuse and whichever calls of the system fail, the asset is kept: if Apply
  -- succeeds, a link stands at the target over a copy that measures as the original did and the
  -- backup is gone; if only dropping the backup failed, the link and that copy stand; if the
  -- restore failed, the original stands at the backup; and after every other error the original
  -- stands at its place. The target, its backup and the destination are taken to be three paths,
  -- and the copier to change nothing but its destination.
  pub apply_move-IsKept :
      (m : OffloadModule T) (a : Move) (d : Disk T)
      → IsApart a
      → IsLocal m.copier
      → IsKept m a d (apply_move m a d)
  unfolding apply_move
  apply_move-IsKept m a d apart loc = checked-IsKept m a (check_move m a d) d apart loc
