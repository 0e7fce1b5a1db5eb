-- ===== src/Daemon/AutoClean.antt =====
-- cmd/noo-nood/tick.go: runAutoClean, the loop that cleans what the gates let through until the budget
-- of the tick is spent.
pub mod Bounded
use noo_noo.Core.Safety.{new_safety}
use noo_noo.Store.Suggestions.{dismiss_suggestion}
use noo_noo.Heuristics.{Suggestion}
use noo_noo.Autoclean.{Action, Config, Numbers, evaluate_suggestion}
use noo_noo.Autoclean.Budget.{Budget, new_budget, take_budget}
use noo_noo.Autoclean.Engine.{
  ApplyOutcome, Deleter, Engine, Times, World, applied_ok, apply, apply_failed,
}
use noo_noo.Common.{
  Bool, List, Option, String, [], false, if◌then◌else◌, some, suc, true, ℕ, ◌+◌, ◌∷◌,
}
use noo_noo.Common.Int.{add64, pos, ℤ}

-- the clock in one round of the loop: in Apply, and at the dismissal
pub record Moment : Type 0 where
  pub times : Times
  pub dismissed_at : ℕ

-- The variables of the loop, with the world that it changes.
pub record Tally (W : Type 0) : Type 0 where
  pub freed_total : ℤ
  pub deleted_count : ℕ
  pub budget : Budget
  pub world : World W

module _ {W : Type 0} where
  -- after Apply: an error leaves the counts, a deletion counts and dismisses its row
  unfoldable pub settle : ℕ → ℕ → Tally W → ApplyOutcome × World W → Tally W
  settle i at tl (apply_failed err, w) = record tl { world = w }
  settle i at tl (applied_ok r, w) = record tl {
    freed_total = add64 tl.freed_total r.cleaned_bytes;
    deleted_count = tl.deleted_count + 1;
    world = record w { store = (dismiss_suggestion i at w.store).1 };
  }

  -- after the budget has answered; the flag says that the loop breaks
  unfoldable pub charged :
      Engine W → String → Moment → Suggestion → Action → Budget × Bool → Tally W → Tally W × Bool
  charged e trigger m s a (b, false) tl = (record tl { budget = b }, true)
  charged e trigger m s a (b, true) tl = (
    settle s.suggestion_id m.dismissed_at (record tl { budget = b })
        (apply e a trigger m.times tl.world),
    false,
  )

  unfoldable pub gated :
      Engine W → String → Moment → Suggestion → Action × Bool → Tally W → Tally W × Bool
  gated e trigger m s (a, false) tl = (tl, false)
  gated e trigger m s (a, true) tl = charged e trigger m s a (take_budget a.size_bytes tl.budget) tl

  unfoldable pub clean_step :
      Numbers → Engine W → String → Moment → Suggestion → Tally W → Tally W × Bool
  clean_step ns e trigger m s tl = gated e trigger m s (evaluate_suggestion ns s e.cfg) tl

  -- the rounds, the k-th at the k-th moment
  unfoldable pub clean_loop :
      Numbers → Engine W → String → (ℕ → Moment) → ℕ → List Suggestion → Tally W → Tally W
  clean_loop ns e trigger clock k [] tl = tl
  clean_loop ns e trigger clock k (s ∷ ss) tl =
      let (tl', halted) = clean_step ns e trigger (clock k) s tl in
      let rest = clean_loop ns e trigger clock (suc k) ss tl' in if halted then tl' else rest

-- The deleters of the leaks and the worktrees module prove their target dead again before they delete it.
pub record Deleters (W : Type 0) : Type 0 where
  pub dev_deleter : Deleter W
  pub leaks_deleter : Deleter W
  pub worktrees_deleter : Deleter W

-- the engine of a tick
abbrev pub tick_engine : {W : Type 0} → Option String → List String → Deleters W → Config → Engine W
tick_engine cwd roots ds cfg = record {
  cfg = cfg;
  roots = roots;
  safety = some (new_safety cwd roots (".git" ∷ []));
  deleters =
      ("dev", ds.dev_deleter)
      ∷ ("leaks", ds.leaks_deleter)
      ∷ ("worktrees", ds.worktrees_deleter)
      ∷ [];
  cwd = cwd;
}

abbrev pub first_tally : {W : Type 0} → Config → World W → Tally W
first_tally cfg w = record {
  freed_total = pos 0;
  deleted_count = 0;
  budget = new_budget cfg.size_cap_per_tick_gb;
  world = w;
}

unfoldable pub run_auto_clean :
    {W : Type 0} → Numbers → Engine W → String → (ℕ → Moment) → List Suggestion → World W → Tally W
run_auto_clean ns e trigger clock ss w = clean_loop ns e trigger clock 0 ss (first_tally e.cfg w)
