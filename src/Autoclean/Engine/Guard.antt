-- ===== src/Autoclean/Engine/Guard.antt =====
-- What the safety guard lets through, and that nothing else is ever deleted.
use noo_noo.Common.{
  Bool-cases, List, Option, Option-cases, String, arith, eq_iff, false, inl, inr, none, refl, some,
  true, ℕ, ◌≡◌, ◌⊎◌,
}
use noo_noo.Core.Paths.{abs_path}
use noo_noo.Autoclean.{Action, is_allowed, self_proving}
use noo_noo.Autoclean.Engine.{
  Engine, Times, World, apply, apply_guarded, delete_recorded, guard_parts, has_deleter, is_trigger,
  last_checks, pre_event, root_checks, run_deleter, safety_guard, safety_says, under_any_root,
}
use noo_noo.Store.{Store}
use noo_noo.Store.Events.{record_auto_clean_event}

module _ {W : Type 0} where
  -- A guarded target resolves, its module is allowed and has a deleter, and unless the module proves
  -- its own targets, it lies under the roots and passes the Safety.
  pub record IsGuarded (e : Engine W) (a : Action) : Type 0 where
    pub parts : List String
    pub resolves : abs_path e.cwd a.target_path ≡ some parts
    pub allowed : is_allowed e.cfg a.action_module ≡ true
    pub deletable : has_deleter e a.action_module ≡ true
    pub rooted :
        self_proving a.action_module ≡ false
        → (under_any_root e.cwd parts e.roots ≡ true)
          × (safety_says e.cwd e.safety a.target_path ≡ none)

  last_checks-none :
      (e : Engine W) (a : Action) → last_checks e a ≡ none → has_deleter e a.action_module ≡ true
  last_checks-none e a h = ground arith

  root_checks-none :
      (e : Engine W) (a : Action)
      → root_checks e a ≡ none
      → (has_deleter e a.action_module ≡ true)
        × (self_proving a.action_module ≡ false → safety_says e.cwd e.safety a.target_path ≡ none)
  root_checks-none e a h = ground arith

  guard_parts-none :
      (e : Engine W) (a : Action) (parts : List String)
      → abs_path e.cwd a.target_path ≡ some parts
      → guard_parts e a parts ≡ none
      → IsGuarded e a
  guard_parts-none e a parts r h =
      let f : (is_allowed e.cfg a.action_module ≡ true)
          × (root_checks e a ≡ none)
          × (self_proving a.action_module ≡ false → under_any_root e.cwd parts e.roots ≡ true) =
        ground arith in
      let g : (has_deleter e a.action_module ≡ true)
          × (self_proving a.action_module ≡ false
              → safety_says e.cwd e.safety a.target_path ≡ none) =
        root_checks-none e a f.1 in
      record {
        parts = parts;
        resolves = r;
        allowed = f.0;
        deletable = g.0;
        rooted = λ s. (f.2 s, g.1 s);
      }

  pub safety_guard-IsGuarded : (e : Engine W) (a : Action) → safety_guard e a ≡ none → IsGuarded e a
  unfolding safety_guard
  safety_guard-IsGuarded e a h = elim (Option-cases (abs_path e.cwd a.target_path)) [
    | inl n ↦ cc (rw (n, safety_guard) at h)
    | inr (parts, s) ↦ guard_parts-none e a parts s (rw (s, safety_guard) at h)
  ]

  delete_recorded-files :
      (e : Engine W) (a : Action) (tm : Times) (row : Option ℕ) (st : Store) (w : W)
      → ((delete_recorded e a tm row st w).1.files ≡ w)
        ⊎ ((delete_recorded e a tm row st w).1.files ≡ (run_deleter e a w).1)
  unfolding delete_recorded
  delete_recorded-files e a tm none st w = inl refl
  delete_recorded-files e a tm (some row) st w = inr refl

  -- Apply leaves the file system as it was, or the trigger is daily or manual, the action is
  -- guarded (its target resolves, its module is allowed and has a deleter, and unless its module
  -- is self-proving the target is under the roots and passes CanDelete) and what happened to the
  -- files is one call of the module's deleter on the target.
  pub apply-files :
      (e : Engine W) (a : Action) (trigger : String) (tm : Times) (w : World W)
      → ((apply e a trigger tm w).1.files ≡ w.files)
        ⊎ (((trigger ≡ "daily") ⊎ (trigger ≡ "manual"))
            × IsGuarded e a
            × ((apply e a trigger tm w).1.files ≡ (run_deleter e a w.files).1))
  unfolding apply apply_guarded
  apply-files e a trigger tm w = elim (Bool-cases (is_trigger trigger)) [
    | inr f ↦ inl (rw f refl)
    | inl t ↦ elim (Option-cases (safety_guard e a)) [
      | inr (r, s) ↦ inl (rw (t, s, apply_guarded) refl)
      | inl s ↦
          rw (t, s, apply_guarded)
            (elim (delete_recorded-files e a tm
              (record_auto_clean_event (pre_event a trigger tm.started) w.store).0
              (record_auto_clean_event (pre_event a trigger tm.started) w.store).1 w.files) [
                | inl same ↦ inl same
                | inr ran ↦ inr (
                  ground (arith, eq_iff trigger "daily", eq_iff trigger "manual"),
                  safety_guard-IsGuarded e a s,
                  ran,
                )
              ])
    ]
  ]
