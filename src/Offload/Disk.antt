-- ===== src/Offload/Disk.antt =====
-- The file system as Apply uses it: at a path stands a tree, whose content is a T, or a symbolic link.
-- A call of the system may fail: `os_faults` says of each call to come whether it does. Lstat is taken to
-- find whatever stands at its path.
use noo_noo.Common.{
  Bool, List, Option, String, [], arith, false, if◌then◌else◌, none, not, refl, some, str_eq,
  str_eq-of_eq, true, ◌||◌, ◌∷◌, ◌≡◌,
}

pub data Node (T : Type 0) : Type 0 where
  tree : T → Node T
  link : String → Node T

pub record Disk (T : Type 0) : Type 0 where
  pub nodes : String → Option (Node T)
  pub os_faults : List Bool

abbrev pub head_fault : List Bool → Bool
head_fault [] = false
head_fault (b ∷ bs) = b

abbrev pub drop_fault : List Bool → List Bool
drop_fault [] = []
drop_fault (b ∷ bs) = bs

module _ {T : Type 0} where
  abbrev pub put : String → Option (Node T) → Disk T → Disk T
  put p n d = record d { nodes = λ q. if str_eq q p then n else d.nodes q }

  abbrev pub spent : Disk T → Disk T
  spent d = record d { os_faults = drop_fault d.os_faults }

  abbrev pub exists : Option (Node T) → Bool
  exists none = false
  exists (some n) = true

  -- os.Rename, which puts a directory on nothing that exists
  unfoldable pub rename : String → String → Disk T → Bool × Disk T
  rename p q d =
      if head_fault d.os_faults || (not (exists (d.nodes p)) || exists (d.nodes q))
      then (false, spent d)
      else (true, put q (d.nodes p) (put p none (spent d)))

  -- os.Symlink
  unfoldable pub symlink : String → String → Disk T → Bool × Disk T
  symlink to p d =
      if head_fault d.os_faults || exists (d.nodes p)
      then (false, spent d)
      else (true, put p (some (link to)) (spent d))

  -- os.Remove, which fails on a tree
  abbrev pub is_link : Option (Node T) → Bool
  is_link (some (link to)) = true
  is_link _ = false

  unfoldable pub remove : String → Disk T → Disk T
  remove p d =
      if head_fault d.os_faults || not (is_link (d.nodes p)) then spent d else put p none (spent d)

  -- os.RemoveAll; a call that fails may leave a part of what stood there
  unfoldable pub remove_all : (Option (Node T) → Option (Node T)) → String → Disk T → Bool × Disk T
  remove_all leftover p d =
      if head_fault d.os_faults
      then (false, put p (leftover (d.nodes p)) (spent d))
      else (true, put p none (spent d))

  -- filepath.EvalSymlinks, where only the last component may be a link; the call spends a fault
  abbrev pub resolve_link : String → Option (Node T) → Option String
  resolve_link q (some (tree t)) = some q
  resolve_link q _ = none

  abbrev pub resolve_node : String → (String → Option (Node T)) → Option (Node T) → Option String
  resolve_node p at none = none
  resolve_node p at (some (tree t)) = some p
  resolve_node p at (some (link q)) = resolve_link q (at q)

  unfoldable pub eval_symlinks : String → Disk T → Option String
  eval_symlinks p d = if head_fault d.os_faults then none else resolve_node p d.nodes (d.nodes p)

  -- what the calls do to the nodes at a path
  pub rename_failed :
      (p q x : String) (d : Disk T)
      → (rename p q d).0 ≡ false
      → (rename p q d).1.nodes x ≡ d.nodes x
  unfolding rename
  rename_failed p q x d h = ground arith

  pub rename_done :
      (p q x : String) (d : Disk T)
      → (rename p q d).0 ≡ true
      → (rename p q d).1.nodes x
        ≡ (if str_eq x q then d.nodes p else if str_eq x p then none else d.nodes x)
  unfolding rename
  rename_done p q x d h = ground arith

  pub symlink_failed :
      (to p x : String) (d : Disk T)
      → (symlink to p d).0 ≡ false
      → (symlink to p d).1.nodes x ≡ d.nodes x
  unfolding symlink
  symlink_failed to p x d h = ground arith

  pub symlink_done :
      (to p x : String) (d : Disk T)
      → (symlink to p d).0 ≡ true
      → (symlink to p d).1.nodes x ≡ (if str_eq x p then some (link to) else d.nodes x)
  unfolding symlink
  symlink_done to p x d h = ground arith

  pub remove_others :
      (p x : String) (d : Disk T) → str_eq x p ≡ false → (remove p d).nodes x ≡ d.nodes x
  unfolding remove
  remove_others p x d h = ground arith

  pub remove_all_others :
      (l : Option (Node T) → Option (Node T)) (p x : String) (d : Disk T)
      → str_eq x p ≡ false
      → (remove_all l p d).1.nodes x ≡ d.nodes x
  unfolding remove_all
  remove_all_others l p x d h = ground arith

  pub remove_all_done :
      (l : Option (Node T) → Option (Node T)) (p : String) (d : Disk T)
      → (remove_all l p d).0 ≡ true
      → (remove_all l p d).1.nodes p ≡ none
  unfolding remove_all
  remove_all_done l p d h = ground (arith, str_eq-of_eq p p refl)
