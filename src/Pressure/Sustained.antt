-- ===== src/Pressure/Sustained.antt =====
-- A trigger needs a disk that is measured and low on most of the last samples.
use noo_noo.Common.{
  Bool, List, Option, [], ap, arith, false, length, length-append, none, refl, some, suc, true,
  zero, ℕ, ◌++◌, ◌+◌, ◌<◌, ◌∷◌, ◌≡◌, ◌≤◌,
}
use noo_noo.Pressure.{
  Reading, Threshold, Watcher, buf_len, count_high, fires, idle_watcher, is_high, judge,
  push_sample, watch_step,
}

push-length :
    (n : ℕ) (high : Bool) (bs : List Bool)
    → length bs ≤ n
    → 0 < n
    → length (push_sample n high bs) ≤ n
unfolding push_sample
push-length n high [] h p = ground (arith, length-append [] (high ∷ []))
push-length n high (b ∷ bs) h p =
    ground (arith, length-append bs (high ∷ []), length-append (b ∷ bs) (high ∷ []))

-- A step of the watcher leaves no more samples in its window than the window's length, if there
-- were no more before.
pub watch_step-window :
    (th : Threshold) (now : ℕ) (r : Option Reading) (w : Watcher)
    → length w.buf ≤ buf_len th
    → length (watch_step th now r w).0.buf ≤ buf_len th
unfolding watch_step
watch_step-window th now none w h = h
watch_step-window th now (some r) w h =
    ground (arith, push-length (buf_len th) (is_high th r) w.buf h)

-- no sample of the run is a measured one at or below the threshold
abbrev pub IsCalm : Threshold → List (ℕ × Option Reading) → Type 0
IsCalm th [] = Unit
IsCalm th ((now, none) ∷ ticks) = IsCalm th ticks
IsCalm th ((now, some r) ∷ ticks) = (is_high th r ≡ false) × IsCalm th ticks

-- every sample of the run is measured and at or below the threshold
abbrev pub IsLow : Threshold → List (ℕ × Option Reading) → Type 0
IsLow th [] = Unit
IsLow th ((now, none) ∷ ticks) = ⊥
IsLow th ((now, some r) ∷ ticks) = (is_high th r ≡ true) × IsLow th ticks

abbrev pub all_high : ℕ → List Bool
all_high zero = []
all_high (suc n) = true ∷ all_high n

length-all_high : (n : ℕ) → length (all_high n) ≡ n
length-all_high zero = refl
length-all_high (suc n) = ap suc (length-all_high n)

count-all_high : (n : ℕ) → count_high (all_high n) ≡ n
count-all_high zero = refl
count-all_high (suc n) = ap suc (count-all_high n)

all_high-snoc : (n : ℕ) → all_high n ++ true ∷ [] ≡ all_high (suc n)
all_high-snoc zero = refl
all_high-snoc (suc n) = ap (λ (bs : List Bool). true ∷ bs) (all_high-snoc n)

push-high : (n k : ℕ) → k < n → push_sample n true (all_high k) ≡ all_high (suc k)
unfolding push_sample
push-high n k h = ground (arith, length-all_high k, all_high-snoc k)

judge-low :
    (th : Threshold) (now k : ℕ)
    → suc k < buf_len th
    → judge th now (all_high (suc k)) (record { buf = all_high k; last_fire = none })
      ≡ (record { buf = all_high (suc k); last_fire = none }, false)
unfolding judge
judge-low th now k l = ground (arith, length-all_high k)

judge-full :
    (th : Threshold) (now k : ℕ)
    → suc k ≡ buf_len th
    → (judge th now (all_high (suc k)) (record { buf = all_high k; last_fire = none })).1 ≡ true
unfolding judge
judge-full th now k l = ground (arith, length-all_high k, count-all_high k)

step-low :
    (th : Threshold) (now : ℕ) (r : Reading) (k : ℕ)
    → is_high th r ≡ true
    → suc k < buf_len th
    → watch_step th now (some r) (record { buf = all_high k; last_fire = none })
      ≡ (record { buf = all_high (suc k); last_fire = none }, false)
unfolding watch_step
step-low th now r k h l = rw h (rw (push-high (buf_len th) k (omega arith)) (judge-low th now k l))

step-full :
    (th : Threshold) (now : ℕ) (r : Reading) (k : ℕ)
    → is_high th r ≡ true
    → suc k ≡ buf_len th
    → (watch_step th now (some r) (record { buf = all_high k; last_fire = none })).1 ≡ true
unfolding watch_step
step-full th now r k h l =
    rw h (rw (push-high (buf_len th) k (omega arith)) (judge-full th now k l))

fires-from :
    (th : Threshold) (k : ℕ) (ticks : List (ℕ × Option Reading)) (last : ℕ) (r : Reading)
    → IsLow th ticks
    → is_high th r ≡ true
    → k + length ticks + 1 ≡ buf_len th
    → fires th (ticks ++ (last, some r) ∷ []) (record { buf = all_high k; last_fire = none })
      ≡ last ∷ []
unfolding fires
fires-from th k [] last r h g n = rw (step-full th last r k g (omega arith))
fires-from th k ((now, none) ∷ ticks) last r h g n = elim h [ ]
fires-from th k ((now, some s) ∷ ticks) last r h g n =
    rw (step-low th now s k h.0 (omega arith))
      (fires-from th (suc k) ticks last r h.1 g (omega arith))

-- A fresh watcher whose samples are as many as its window holds, all measured and at or below the
-- threshold, triggers exactly once, at the last of them.
pub fires_low :
    (th : Threshold) (ticks : List (ℕ × Option Reading)) (last : ℕ) (r : Reading)
    → IsLow th ticks
    → is_high th r ≡ true
    → length ticks + 1 ≡ buf_len th
    → fires th (ticks ++ (last, some r) ∷ []) idle_watcher ≡ last ∷ []
fires_low th ticks last r h g n = fires-from th 0 ticks last r h g (omega arith)
