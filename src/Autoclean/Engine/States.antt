-- ===== src/Autoclean/Engine/States.antt =====
-- internal/autoclean/apply.go: the states that Apply passes through, one after each of its effects, and
-- those in the course of the deleter.
use noo_noo.Common.{List, Option, String, [], if◌then◌else◌, none, refl, some, ℕ, ◌∷◌, ◌≡◌}
use noo_noo.Autoclean.Engine.{
  Engine, Refusal, Times, World, apply_guarded, delete_recorded, finish, is_trigger, pre_event,
  run_deleter, safety_guard, skip_event,
}
use noo_noo.Store.{Store}
use noo_noo.Autoclean.{Action}
use noo_noo.Store.Events.{record_auto_clean_event}

module _ {W : Type 0} where
  -- the states in the course of the deleter
  abbrev pub halfway : Store → List W → List (World W) → List (World W)
  halfway st [] rest = rest
  halfway st (f ∷ fs) rest = record { store = st; files = f } ∷ halfway st fs rest

  -- the states in and after the deleter, and after the update
  abbrev pub states_of_delete :
      (String → W → List W) → Engine W → Action → Times → Option ℕ → Store → W → List (World W)
  states_of_delete midway e a tm none st w = []
  states_of_delete midway e a tm (some row) st w = halfway st (midway a.target_path w) (
      record { store = st; files = (run_deleter e a w).1 }
      ∷ (finish a tm row (run_deleter e a w) st).1
      ∷ [])

  abbrev pub states_of_guarded :
      (String → W → List W)
      → Engine W
      → Action
      → String
      → Times
      → Option Refusal
      → World W
      → List (World W)
  states_of_guarded midway e a trigger tm (some r) w =
      record w { store = (record_auto_clean_event (skip_event a trigger tm.started r) w.store).1 }
      ∷ []
  states_of_guarded midway e a trigger tm none w =
      let (row, st) = record_auto_clean_event (pre_event a trigger tm.started) w.store in
      record w { store = st } ∷ states_of_delete midway e a tm row st w.files

  -- The states that Apply passes through, in order: before, and after each effect. `midway` gives the
  -- states of the files that the deleter itself passes through.
  abbrev pub apply_states :
      (String → W → List W) → Engine W → Action → String → Times → World W → List (World W)
  apply_states midway e a trigger tm w =
      w
      ∷ (if is_trigger trigger
          then states_of_guarded midway e a trigger tm (safety_guard e a) w
          else [])

  abbrev pub last_of : World W → List (World W) → World W
  last_of w [] = w
  last_of w (x ∷ xs) = last_of x xs

  last-halfway :
      (v : World W) (st : Store) (fs : List W) (x y : World W)
      → last_of v (halfway st fs (x ∷ y ∷ [])) ≡ y
  last-halfway v st [] x y = refl
  last-halfway v st (f ∷ fs) x y = last-halfway (record { store = st; files = f }) st fs x y

  last-delete :
      (midway : String → W → List W) (e : Engine W) (a : Action) (tm : Times) (row : Option ℕ)
      (st : Store) (w : W)
      → last_of (record { store = st; files = w }) (states_of_delete midway e a tm row st w)
        ≡ (delete_recorded e a tm row st w).1
  unfolding delete_recorded
  last-delete midway e a tm none st w = refl
  last-delete midway e a tm (some row) st w =
      last-halfway (record { store = st; files = w }) st (midway a.target_path w)
        (record { store = st; files = (run_deleter e a w).1 })
        (finish a tm row (run_deleter e a w) st).1

  pub last-guarded :
      (midway : String → W → List W) (e : Engine W) (a : Action) (trigger : String) (tm : Times)
      (g : Option Refusal) (w : World W)
      → last_of w (states_of_guarded midway e a trigger tm g w)
        ≡ (apply_guarded e a trigger tm g w).1
  unfolding apply_guarded
  last-guarded midway e a trigger tm (some r) w = refl
  last-guarded midway e a trigger tm none w =
      let (row, st) = record_auto_clean_event (pre_event a trigger tm.started) w.store in
      last-delete midway e a tm row st w.files
