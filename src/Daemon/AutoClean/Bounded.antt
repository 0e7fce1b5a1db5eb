-- ===== src/Daemon/AutoClean/Bounded.antt =====
-- What a round of auto-clean may do to the files, and that it stays within the budget of its tick.
use noo_noo.Heuristics.{Suggestion}
use noo_noo.Autoclean.{Action, Numbers, action_of, evaluate_suggestion, suggestion_size}
use noo_noo.Autoclean.Gates.{Qualifies, evaluate-accepted, evaluate_iff}
use noo_noo.Autoclean.Budget.{
  Budget, IsSound, new_budget, new_budget-IsSound, new_budget_cap, take_budget, take_budget-IsSound,
}
use noo_noo.Autoclean.Engine.{
  ApplyOutcome, Engine, World, applied_ok, apply, apply_failed, run_deleter,
}
use noo_noo.Autoclean.Engine.Guard.{IsGuarded, apply-files}
use noo_noo.Daemon.AutoClean.{
  Moment, Tally, charged, clean_loop, clean_step, first_tally, gated, run_auto_clean, settle,
}
use noo_noo.Common.{
  All, All-append, Any, Bool, Bool-cases, List, String, [], ap, arith, false, if◌then◌else◌, inl,
  inr, refl, suc, sym, true, ℕ, ◌*◌, ◌++◌, ◌<◌, ◌∙◌, ◌∷◌, ◌≡◌, ◌⊎◌,
}
use noo_noo.Common.Int.{+ℤ_assoc, pos, two63, zero_+ℤ, ℤ, ≤ℤ_chain, ≤ℤ_trans, ◌+ℤ◌, ◌<ℤ◌, ◌≤ℤ◌}

abbrev pub total_size : List Action → ℤ
total_size [] = pos 0
total_size (a ∷ rest) = a.size_bytes +ℤ total_size rest

-- no size carries the sum past an int64
abbrev pub IsSmall : Numbers → ℤ → List Suggestion → Type 0
IsSmall ns cap ss = All (λ (s : Suggestion). cap +ℤ suggestion_size ns s <ℤ pos two63) ss

module _ {W : Type 0} (ns : Numbers) (e : Engine W) (trigger : String) where
  -- one call of its deleter for each action
  abbrev pub run_all : List Action → W → W
  run_all [] w = w
  run_all (a ∷ rest) w = run_all rest (run_deleter e a w).1

  -- The action of a suggestion of the list that passed the gates and the guard, on a permitted trigger.
  abbrev pub IsLicensed : List Suggestion → Action → Type 0
  IsLicensed ss a =
      Any (λ (s : Suggestion). (action_of ns s ≡ a) × Qualifies ns s e.cfg) ss
      × IsGuarded e a
      × ((trigger ≡ "daily") ⊎ (trigger ≡ "manual"))

  -- What the loop did: licensed deletions only, charged to the budget, which is not overdrawn.
  pub record IsCleaned (ss : List Suggestion) (before after : Tally W) : Type 0 where
    pub acts : List Action
    pub ran : after.world.files ≡ run_all acts before.world.files
    pub licensed : All (IsLicensed ss) acts
    pub charged_for : before.budget.used_bytes +ℤ total_size acts ≤ℤ after.budget.used_bytes
    pub sound : IsSound after.budget
    pub same_cap : after.budget.cap_bytes ≡ before.budget.cap_bytes

  nothing :
      (ss : List Suggestion) (tl after : Tally W)
      → after.world.files ≡ tl.world.files
      → tl.budget.used_bytes ≤ℤ after.budget.used_bytes
      → IsSound after.budget
      → after.budget.cap_bytes ≡ tl.budget.cap_bytes
      → IsCleaned ss tl after
  unfolding ◌+ℤ◌
  nothing ss tl after f u v c = record {
    acts = [];
    ran = f;
    licensed = tt;
    charged_for = ground arith;
    sound = v;
    same_cap = c;
  }

  settle-world :
      (i at : ℕ) (tl : Tally W) (r : ApplyOutcome × World W)
      → ((settle i at tl r).world.files ≡ r.1.files) × ((settle i at tl r).budget ≡ tl.budget)
  unfolding settle
  settle-world i at tl (apply_failed err, w) = (refl, refl)
  settle-world i at tl (applied_ok res, w) = (refl, refl)

  charged-cases :
      (m : Moment) (s : Suggestion) (tl : Tally W) (r : Budget × Bool)
      → Qualifies ns s e.cfg
      → IsSound r.0
      → r.0.cap_bytes ≡ tl.budget.cap_bytes
      → r.0.used_bytes
        ≡ (if r.1 then tl.budget.used_bytes +ℤ suggestion_size ns s else tl.budget.used_bytes)
      → pos 0 ≤ℤ suggestion_size ns s ⊎ (r.1 ≡ false)
      → IsCleaned (s ∷ []) tl (charged e trigger m s (action_of ns s) r tl).0
  unfolding charged action_of ◌+ℤ◌
  charged-cases m s tl (b, false) q v c u p =
      nothing (s ∷ []) tl (record tl { budget = b }) refl (ground arith) v c
  charged-cases m s tl (b, true) q v c u p =
      let a = action_of ns s in
      let tl' = record tl { budget = b } in
      let (f, g) =
        settle-world s.suggestion_id m.dismissed_at tl' (apply e a trigger m.times tl.world) in
      elim (apply-files e a trigger m.times tl.world) [
        | inl same ↦
            nothing (s ∷ []) tl
              (settle s.suggestion_id m.dismissed_at tl' (apply e a trigger m.times tl.world))
              (f ∙ same) (rw g (ground arith)) (rw g v) (rw g c)
        | inr (why, gd, ran) ↦ record {
          acts = a ∷ [];
          ran = f ∙ ran;
          licensed = ((inl (refl, q), gd, why), tt);
          charged_for = rw g (ground arith);
          sound = rw g v;
          same_cap = rw g c;
        }
      ]

  step-IsCleaned :
      (m : Moment) (s : Suggestion) (tl : Tally W)
      → IsSound tl.budget
      → tl.budget.cap_bytes +ℤ suggestion_size ns s <ℤ pos two63
      → IsCleaned (s ∷ []) tl (clean_step ns e trigger m s tl).0
  unfolding clean_step gated action_of
  step-IsCleaned m s tl v l = elim (Bool-cases (evaluate_suggestion ns s e.cfg).1) [
    | inr n ↦ rw n (nothing (s ∷ []) tl tl refl (omega arith) v refl)
    | inl y ↦
        let (v', c, u, iff) = take_budget-IsSound (suggestion_size ns s) tl.budget v l in
        rw (y, evaluate-accepted ns s e.cfg y)
          (charged-cases m s tl (take_budget (suggestion_size ns s) tl.budget)
            ((evaluate_iff ns s e.cfg).0 y) v' c u
            (elim (Bool-cases (take_budget (suggestion_size ns s) tl.budget).1) [
              | inl t ↦ inl (iff.0 t).0
              | inr f ↦ inr f
            ]))
  ]

  run_all-append : (xs ys : List Action) (w : W) → run_all (xs ++ ys) w ≡ run_all ys (run_all xs w)
  run_all-append [] ys w = refl
  run_all-append (a ∷ xs) ys w = run_all-append xs ys (run_deleter e a w).1

  total-append : (xs ys : List Action) → total_size (xs ++ ys) ≡ total_size xs +ℤ total_size ys
  total-append [] ys = sym (zero_+ℤ (total_size ys))
  total-append (a ∷ xs) ys =
      ap (λ n. a.size_bytes +ℤ n) (total-append xs ys)
      ∙ sym (+ℤ_assoc a.size_bytes (total_size xs) (total_size ys))

  first-IsLicensed :
      (s : Suggestion) (ss : List Suggestion) (acts : List Action)
      → All (IsLicensed (s ∷ [])) acts
      → All (IsLicensed (s ∷ ss)) acts
  first-IsLicensed s ss [] h = tt
  first-IsLicensed s ss (a ∷ acts) ((inl p, g, h), rest) =
      ((inl p, g, h), first-IsLicensed s ss acts rest)
  first-IsLicensed s ss (a ∷ acts) ((inr p, g, h), rest) = elim p [ ]

  rest-IsLicensed :
      (s : Suggestion) (ss : List Suggestion) (acts : List Action)
      → All (IsLicensed ss) acts
      → All (IsLicensed (s ∷ ss)) acts
  rest-IsLicensed s ss [] h = tt
  rest-IsLicensed s ss (a ∷ acts) ((p, g, h), rest) =
      ((inr p, g, h), rest-IsLicensed s ss acts rest)

  weaken :
      (s : Suggestion) (ss : List Suggestion) (tl after : Tally W)
      → IsCleaned (s ∷ []) tl after
      → IsCleaned (s ∷ ss) tl after
  weaken s ss tl after c = record {
    acts = c.acts;
    ran = c.ran;
    licensed = first-IsLicensed s ss c.acts c.licensed;
    charged_for = c.charged_for;
    sound = c.sound;
    same_cap = c.same_cap;
  }

  compose :
      (s : Suggestion) (ss : List Suggestion) (tl mid after : Tally W)
      → IsCleaned (s ∷ []) tl mid
      → IsCleaned ss mid after
      → IsCleaned (s ∷ ss) tl after
  compose s ss tl mid after c d = record {
    acts = c.acts ++ d.acts;
    ran = d.ran ∙ ap (run_all d.acts) c.ran ∙ sym (run_all-append c.acts d.acts tl.world.files);
    licensed =
        All-append (IsLicensed (s ∷ ss)) c.acts d.acts (first-IsLicensed s ss c.acts c.licensed)
          (rest-IsLicensed s ss d.acts d.licensed);
    charged_for = rw (total-append c.acts d.acts) (
        ≤ℤ_chain tl.budget.used_bytes mid.budget.used_bytes after.budget.used_bytes
          (total_size c.acts) (total_size d.acts) c.charged_for d.charged_for);
    sound = d.sound;
    same_cap = d.same_cap ∙ c.same_cap;
  }

  loop-IsCleaned :
      (clock : ℕ → Moment) (k : ℕ) (ss : List Suggestion) (tl : Tally W)
      → IsSound tl.budget
      → IsSmall ns tl.budget.cap_bytes ss
      → IsCleaned ss tl (clean_loop ns e trigger clock k ss tl)
  unfolding clean_loop
  loop-IsCleaned clock k [] tl v l = nothing [] tl tl refl (omega arith) v refl
  loop-IsCleaned clock k (s ∷ ss) tl v l =
      let c = step-IsCleaned (clock k) s tl v l.0 in
      let mid = (clean_step ns e trigger (clock k) s tl).0 in
      let d = loop-IsCleaned clock (suc k) ss mid c.sound (rw (c.same_cap) l.1) in
      elim (Bool-cases (clean_step ns e trigger (clock k) s tl).1) [
        | inl h ↦ rw (h, clean_loop) (weaken s ss tl mid c)
        | inr h ↦
            rw (h, clean_loop)
              (compose s ss tl mid (clean_loop ns e trigger clock (suc k) ss mid) c d)
      ]

  -- The files after a round of auto-clean are those that some deletions leave, each of them the
  -- action of a listed suggestion that passed the gates and the guard on a daily or manual
  -- trigger; and the sizes of these actions sum up to no more than the cap of the tick, if the cap
  -- is not negative and below 2^33 GiB and no size carries it past an int64.
  pub run_auto_clean-IsBounded :
      (clock : ℕ → Moment) (ss : List Suggestion) (w : World W) (gb : ℕ)
      → e.cfg.size_cap_per_tick_gb ≡ pos gb
      → gb < 8589934592
      → IsSmall ns (pos (gb * 1073741824)) ss
      → (acts : List Action) × ((run_auto_clean ns e trigger clock ss w).world.files
          ≡ run_all acts w.files)
        × All (IsLicensed ss) acts
        × (total_size acts ≤ℤ pos (gb * 1073741824))
  unfolding run_auto_clean new_budget
  run_auto_clean-IsBounded clock ss w gb h l small =
      let first = first_tally e.cfg w in
      let v = (new_budget-IsSound gb l).0 in
      let cap : first.budget.cap_bytes ≡ pos (gb * 1073741824) = rw h (new_budget_cap gb l) in
      let c = loop-IsCleaned clock 0 ss first (rw h v) (rw cap small) in
      (
        c.acts,
        c.ran,
        c.licensed,
        within c.acts first (clean_loop ns e trigger clock 0 ss first) c.charged_for c.sound
            (c.same_cap ∙ cap),
      )
    where
      within :
          (acts : List Action) (first after : Tally W)
          → pos 0 +ℤ total_size acts ≤ℤ after.budget.used_bytes
          → IsSound after.budget
          → after.budget.cap_bytes ≡ pos (gb * 1073741824)
          → total_size acts ≤ℤ pos (gb * 1073741824)
      within acts first after u v q =
          ≤ℤ_trans (total_size acts) after.budget.used_bytes (pos (gb * 1073741824))
            (rw (zero_+ℤ (total_size acts)) at u) (rw q at v.used_le_cap)
