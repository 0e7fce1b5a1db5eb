-- ===== src/Worktrees/Facts/Finished.antt =====
-- What an obvious worktree is: each wall of Classify, in the words of the package comment.
use noo_noo.Common.{
  Bool, Bool-cases, Option-cases, [], ap, arith, false, inl, inr, none, refl, some, sym, true, ◌||◌,
  ◌↔◌, ◌∙◌, ◌∷◌, ◌≡◌, ◌⊎◌,
}
use noo_noo.Common.Int.{ltb_ℤ, pos, ℤ, ◌≤ℤ◌}
use noo_noo.Worktrees.Rows.{Info}
use noo_noo.Worktrees.Facts.{
  Facts, Probes, ahead_of, class_obvious, classify_worktree, gather_facts, idle_for, is_contained,
  judge_facts, no_facts,
}
use noo_noo.Leaks.Text.{Bytes, bytes_eq}

-- Clean, on a server, not ahead of its upstream, idle long enough, and held open by nothing.
pub record IsDone (p : Probes) (wt : Info) (now min_idle : ℤ) : Type 0 where
  pub idle : min_idle ≤ℤ idle_for p wt.wt_path now
  pub clean_tree : p.status wt.wt_path ≡ some []
  pub on_remote : is_contained (p.remote_contains wt.wt_path) ≡ true
  pub not_ahead : ahead_of p wt ≤ℤ pos 0
  pub not_live : p.is_live wt.wt_path ≡ false

-- A worktree besides the primary one, not locked, that is gone already or done.
pub record IsFinished (p : Probes) (wt : Info) (now min_idle : ℤ) : Type 0 where
  pub secondary : wt.primary ≡ false
  pub unlocked : wt.locked ≡ false
  pub over : (wt.prunable ≡ true) ⊎ IsDone p wt now min_idle

bytes_eq-empty : (s : Bytes) → bytes_eq s [] ≡ true → s ≡ []
bytes_eq-empty [] h = refl
bytes_eq-empty (c ∷ s) h = cc

-- The facts of a worktree whose status could be read.
gather_facts-read :
    (p : Probes) (wt : Info) (f : Facts) (status : Bytes)
    → p.status wt.wt_path ≡ some status
    → ((gather_facts p wt f).1 ≡ true)
      × ((gather_facts p wt f).0.clean ≡ bytes_eq status [])
      × ((gather_facts p wt f).0.remote_contained ≡ is_contained (p.remote_contains wt.wt_path))
      × ((gather_facts p wt f).0.ahead_upstream ≡ ahead_of p wt)
unfolding gather_facts
gather_facts-read p wt f status h = rw (h, gather_facts) (refl, refl, refl, refl)

gather_facts-lost :
    (p : Probes) (wt : Info) (f : Facts)
    → p.status wt.wt_path ≡ none
    → (gather_facts p wt f).1 ≡ false
unfolding gather_facts
gather_facts-lost p wt f h = rw (h, gather_facts) refl

-- The last walls let a worktree through exactly if each of them does.
judge_facts-obvious :
    (p : Probes) (wt : Info) (g : Facts × Bool)
    → (judge_facts p wt g).1 ≡ class_obvious
    → (g.1 ≡ true)
      × (g.0.clean ≡ true)
      × (g.0.remote_contained ≡ true)
      × (g.0.ahead_upstream ≤ℤ pos 0)
      × (p.is_live wt.wt_path ≡ false)
unfolding judge_facts
judge_facts-obvious p wt (f, read) h = ground arith

obvious-judge_facts :
    (p : Probes) (wt : Info) (g : Facts × Bool)
    → g.1 ≡ true
    → g.0.clean ≡ true
    → g.0.remote_contained ≡ true
    → g.0.ahead_upstream ≤ℤ pos 0
    → p.is_live wt.wt_path ≡ false
    → (judge_facts p wt g).1 ≡ class_obvious
unfolding judge_facts
obvious-judge_facts p wt (f, read) a b c d e = ground arith

module _ (p : Probes) (wt : Info) (now min_idle : ℤ) where
  obvious-IsDone :
      (f : Facts)
      → min_idle ≤ℤ idle_for p wt.wt_path now
      → (judge_facts p wt (gather_facts p wt f)).1 ≡ class_obvious
      → IsDone p wt now min_idle
  obvious-IsDone f idle h =
      let (read, clean, remote, ahead, quiet) = judge_facts-obvious p wt (gather_facts p wt f) h in
      elim (Option-cases (p.status wt.wt_path)) [
        | inl lost ↦ cc (gather_facts-lost p wt f lost)
        | inr (status, got) ↦
            let (r, c, m, a) = gather_facts-read p wt f status got in
            record {
              idle = idle;
              clean_tree = rw got (ap some (bytes_eq-empty status (sym c ∙ clean)));
              on_remote = sym m ∙ remote;
              not_ahead = rw (← a) ahead;
              not_live = quiet;
            }
      ]

  IsDone-obvious :
      (f : Facts)
      → IsDone p wt now min_idle
      → (judge_facts p wt (gather_facts p wt f)).1 ≡ class_obvious
  IsDone-obvious f d =
      let (r, c, m, a) = gather_facts-read p wt f [] d.clean_tree in
      obvious-judge_facts p wt (gather_facts p wt f) r c (m ∙ d.on_remote) (rw a d.not_ahead)
        d.not_live

  obvious-IsFinished :
      (classify_worktree p wt now min_idle).1 ≡ class_obvious → IsFinished p wt now min_idle
  unfolding classify_worktree
  obvious-IsFinished h = elim (Bool-cases (wt.primary || wt.locked)) [
    | inl kept ↦ ground arith
    | inr free ↦ elim (Bool-cases wt.prunable) [
      | inl gone ↦ record { secondary = ground arith; unlocked = ground arith; over = inl gone }
      | inr stands ↦ elim (Bool-cases (ltb_ℤ (idle_for p wt.wt_path now) min_idle)) [
        | inl young ↦ ground arith
        | inr idle ↦ record {
          secondary = ground arith;
          unlocked = ground arith;
          over = inr (
              obvious-IsDone (record (no_facts wt) { idle_time = idle_for p wt.wt_path now })
                (ground arith) (ground arith));
        }
      ]
    ]
  ]

  over-obvious :
      wt.primary ≡ false
      → wt.locked ≡ false
      → (wt.prunable ≡ true) ⊎ IsDone p wt now min_idle
      → (classify_worktree p wt now min_idle).1 ≡ class_obvious
  unfolding classify_worktree
  over-obvious a b (inl gone) = ground arith
  over-obvious a b (inr d) =
      let f = record (no_facts wt) { idle_time = idle_for p wt.wt_path now } in
      ground (arith, d.idle, IsDone-obvious f d)

  -- A worktree is obvious exactly when it is neither primary nor locked, and either is prunable,
  -- or else was left alone for the minimum, has an empty status, has its HEAD on some remote, is
  -- not counted ahead of its upstream, and is held open by no process.
  pub classify_worktree_iff :
      ((classify_worktree p wt now min_idle).1 ≡ class_obvious) ↔ IsFinished p wt now min_idle
  classify_worktree_iff = (obvious-IsFinished, λ d. over-obvious d.secondary d.unlocked d.over)
