-- ===== src/Daemon/Schedule.antt =====
-- cmd/noo-nood/main.go: the triggers, the time of the next daily tick, and the two lanes of the tick's
-- consumer. Times are seconds in a zone whose days are all of 24 hours.
use noo_noo.Common.{
  Bool, Bool-cases, List, String, [], ap, arith, false, if◌then◌else◌, inl, inr, length, ltb, not,
  refl, true, ℕ, ◌%◌, ◌*◌, ◌++◌, ◌+◌, ◌/◌, ◌<◌, ◌∙◌, ◌∷◌, ◌≡◌, ◌≤◌, ◌⊎◌,
}

pub data TickTrigger : Type 0 where
  trigger_daily trigger_pressure trigger_manual : TickTrigger

abbrev pub trigger_text : TickTrigger → String
trigger_text trigger_daily = "daily"
trigger_text trigger_pressure = "pressure"
trigger_text trigger_manual = "manual"

-- the hour of today, unless it is not after now; then that of tomorrow
unfoldable pub next_tick_at : ℕ → ℕ → ℕ
next_tick_at now hour =
    let candidate = now / 86400 * 86400 + hour * 3600 in
    if not (ltb now candidate) then candidate + 86400 else candidate

-- For an hour below 24, the next tick is later than now, by no more than a day, and falls on that
-- hour.
pub next_tick_at_lem :
    (now hour : ℕ)
    → hour < 24
    → (now < next_tick_at now hour)
      × (next_tick_at now hour ≤ now + 86400)
      × (next_tick_at now hour % 86400 ≡ hour * 3600)
unfolding next_tick_at
next_tick_at_lem now hour h = ground arith

-- The channels: the daily lane holds one trigger at most, the other lane four.
pub record Lanes : Type 0 where
  pub daily_waits : Bool
  pub waiting : List TickTrigger

-- a post to a full lane is dropped
unfoldable pub post_daily : Lanes → Lanes
post_daily l = record l { daily_waits = true }

unfoldable pub post_pressure : Lanes → Lanes
post_pressure l =
    if ltb (length l.waiting) 4
    then record l { waiting = l.waiting ++ trigger_pressure ∷ [] }
    else l

-- what the scheduler and the watcher do to the lanes while the consumer goes on
pub data Post : Type 0 where
  daily_post pressure_post : Post

unfoldable pub post : Post → Lanes → Lanes
post daily_post l = post_daily l
post pressure_post l = post_pressure l

unfoldable pub posts : List Post → Lanes → Lanes
posts [] l = l
posts (p ∷ ps) l = posts ps (post p l)

-- What a round of the consumer comes to: the tick it runs, or its return, or it still waits.
pub data Round : Type 0 where
  runs : TickTrigger → Round
  returned : Round
  waits : Round

-- which channel the second select takes, where it is ready
pub data Pick : Type 0 where
  pick_done pick_daily pick_other : Pick

abbrev pub take_daily : Lanes → Round × Lanes
take_daily l = (runs trigger_daily, record l { daily_waits = false })

abbrev pub take_other : Lanes → List TickTrigger → Round × Lanes
take_other l [] = (waits, l)
take_other l (t ∷ ts) = (runs t, record l { waiting = ts })

abbrev pub has_other : List TickTrigger → Bool
has_other [] = false
has_other (t ∷ ts) = true

-- The second select: ctx.Done, the daily lane and the other lane. It takes a ready one, and any ready one
-- is taken for some pick.
unfoldable pub select_from : Bool → Pick → Lanes → Round × Lanes
select_from done pick_done l =
    if done then (returned, l) else if l.daily_waits then take_daily l else take_other l l.waiting
select_from done pick_daily l =
    if l.daily_waits
    then take_daily l
    else if has_other l.waiting
    then take_other l l.waiting
    else if done
    then (returned, l)
    else (waits, l)
select_from done pick_other l =
    if has_other l.waiting
    then take_other l l.waiting
    else if l.daily_waits
    then take_daily l
    else if done
    then (returned, l)
    else (waits, l)

-- A round of the consumer: the first select looks at the daily lane only, and between it and the second
-- one there may be posts. `done` says whether the context is done at the second one.
unfoldable pub consume : List Post → Bool → Pick → Lanes → Round × Lanes
unfolding select_from
consume between done pick l =
    if l.daily_waits then take_daily l else select_from done pick (posts between l)

posts-append : (ps qs : List Post) (l : Lanes) → posts (ps ++ qs) l ≡ posts qs (posts ps l)
unfolding posts
posts-append [] qs l = refl
posts-append (p ∷ ps) qs l = posts-append ps qs (post p l)

posts-daily : (ps : List Post) (l : Lanes) → l.daily_waits ≡ true → (posts ps l).daily_waits ≡ true
unfolding posts post post_daily post_pressure
posts-daily [] l h = h
posts-daily (daily_post ∷ ps) l h = posts-daily ps (post_daily l) refl
posts-daily (pressure_post ∷ ps) l h = posts-daily ps (post_pressure l) (ground arith)

-- a daily trigger that waits is taken, or stays, or the consumer returns
select-daily :
    (done : Bool) (pick : Pick) (l : Lanes)
    → l.daily_waits ≡ true
    → ((select_from done pick l).0 ≡ runs trigger_daily)
      ⊎ (((select_from done pick l).0 ≡ returned) × (done ≡ true))
      ⊎ ((select_from done pick l).1.daily_waits ≡ true)
unfolding select_from
select-daily true pick_done l h = inr (inl (refl, refl))
select-daily false pick_done l h = inl (rw h refl)
select-daily done pick_daily l h = inl (rw h refl)
select-daily done pick_other l h = other l.waiting refl
  where
    other :
        (ts : List TickTrigger)
        → l.waiting ≡ ts
        → ((select_from done pick_other l).0 ≡ runs trigger_daily)
          ⊎ (((select_from done pick_other l).0 ≡ returned) × (done ≡ true))
          ⊎ ((select_from done pick_other l).1.daily_waits ≡ true)
    other [] e = inl (rw (e, h) refl)
    other (t ∷ ts) e = inr (inr (rw e h))

consume-daily :
    (between : List Post) (done : Bool) (pick : Pick) (l : Lanes)
    → l.daily_waits ≡ true
    → (consume between done pick l).0 ≡ runs trigger_daily
unfolding consume
consume-daily between done pick l h = rw h refl

consume-later :
    (between : List Post) (done : Bool) (pick : Pick) (l : Lanes)
    → l.daily_waits ≡ false
    → consume between done pick l ≡ select_from done pick (posts between l)
unfolding consume
consume-later between done pick l h =
    ap (λ (b : Bool). if b then take_daily l else select_from done pick (posts between l)) h

posted-daily :
    (ps qs : List Post) (l : Lanes) → (posts (ps ++ daily_post ∷ qs) l).daily_waits ≡ true
unfolding posts post post_daily
posted-daily ps qs l =
    ap (λ (m : Lanes). m.daily_waits) (posts-append ps (daily_post ∷ qs) l)
    ∙ posts-daily qs (post_daily (posts ps l)) refl

-- A daily trigger that is posted within a round of the consumer is run in that round or in the
-- next one, or the consumer returns in that round, its context being done: whatever else is posted
-- before, after and meanwhile, and whichever ready channel the second select picks.
pub daily_is_served :
    (ps qs during between : List Post) (done done' : Bool) (pick pick' : Pick) (l : Lanes)
    → ((consume (ps ++ daily_post ∷ qs) done pick l).0 ≡ runs trigger_daily)
      ⊎ (((consume (ps ++ daily_post ∷ qs) done pick l).0 ≡ returned) × (done ≡ true))
      ⊎ ((consume between done' pick'
            (posts during (consume (ps ++ daily_post ∷ qs) done pick l).1)).0
          ≡ runs trigger_daily)
daily_is_served ps qs during between done done' pick pick' l =
    let b = ps ++ daily_post ∷ qs in
    elim (Bool-cases l.daily_waits) [
      | inl y ↦ inl (consume-daily b done pick l y)
      | inr n ↦ elim (select-daily done pick (posts b l) (posted-daily ps qs l)) [
        | inl t ↦ inl (ap (λ r. r.0) (consume-later b done pick l n) ∙ t)
        | inr (inl (t, d)) ↦ inr (inl (ap (λ r. r.0) (consume-later b done pick l n) ∙ t, d))
        | inr (inr k) ↦ inr (
            inr (
              consume-daily between done' pick' (posts during (consume b done pick l).1) (
                posts-daily during (consume b done pick l).1
                  (ap (λ r. r.1.daily_waits) (consume-later b done pick l n) ∙ k))))
      ]
    ]
