-- ===== src/Daemon/Storms/Muted.antt =====
-- The storm alerts of one signature are at least the cooldown apart, on a database that works.
use noo_noo.Store.{Store, Tables, exec}
use noo_noo.Store.Storms.{
  find_storm, find_storm-upsert_storm, last_leak_storm_alert, record_leak_storm_alert, upsert_storm,
}
use noo_noo.Heuristics.Storms.{LeakStorm}
use noo_noo.Daemon.Storms.{
  Notice, Sender, is_muted, leak_storm_cooldown, notify_storm, storm_notice,
}
use noo_noo.Daemon.Persist.Idempotent.{working}
use noo_noo.Common.{
  Bool, Bool-cases, List, Option, String, [], arith, eq-of_str_eq, false, if◌then◌else◌, inl, inr,
  none, refl, some, str_eq, ℕ, ◌+◌, ◌∷◌, ◌≡◌, ◌≤◌, ◌⊎◌,
}

-- the alerts of a signature, with this one in front where it was posted and is of that signature
abbrev log_alert : String → ℕ → LeakStorm → List Notice → List ℕ → List ℕ
log_alert sig now s [] ts = ts
log_alert sig now s (n ∷ ns) ts = if str_eq s.storm_signature sig then now ∷ ts else ts

-- the storms detected over time, and the times at which those of a signature were alerted
unfoldable pub alert_times : Sender → Bool → String → List (ℕ × LeakStorm) → Store → List ℕ
alert_times send on sig [] st = []
alert_times send on sig ((now, s) ∷ rest) st =
    let r = notify_storm send on now s st in
    log_alert sig now s r.0 (alert_times send on sig rest r.1)

abbrev pub IsSpaced : Option ℕ → List ℕ → Type 0
IsSpaced last [] = Unit
IsSpaced none (t ∷ ts) = IsSpaced (some t) ts
IsSpaced (some l) (t ∷ ts) = (l + leak_storm_cooldown ≤ t) × IsSpaced (some t) ts

IsSpaced-cons :
    (last : Option ℕ) (now : ℕ) (ts : List ℕ)
    → is_muted now (some last) ≡ false
    → IsSpaced (some now) ts
    → IsSpaced last (now ∷ ts)
IsSpaced-cons none now ts m h = h
IsSpaced-cons (some l) now ts m h = (ground arith, h)

-- one round: either nothing is posted and the ledger stays, or the alert was due and is recorded
round-cases :
    (send : Sender) (on : Bool) (now : ℕ) (s : LeakStorm) (t : Tables)
    → ((notify_storm send on now s (working t)) ≡ ([], working t))
      ⊎ ((is_muted now (some (find_storm s.storm_signature t.storms)) ≡ false)
          × (notify_storm send on now s (working t) ≡ (
            storm_notice s ∷ [],
            working (record t { storms = upsert_storm s.storm_signature now s.new_count t.storms }),
          )))
unfolding notify_storm last_leak_storm_alert record_leak_storm_alert exec
round-cases send on now s t =
    elim (Bool-cases (is_muted now (some (find_storm s.storm_signature t.storms)))) [
      | inl m ↦ inl (rw m refl)
      | inr m ↦ elim (Bool-cases on) [
        | inr o ↦ inl (rw (m, o) refl)
        | inl o ↦ elim (Bool-cases (send (storm_notice s))) [
          | inr f ↦ inl (rw (m, o, f) refl)
          | inl p ↦ inr (m, rw (m, o, p) refl)
        ]
      ]
    ]

abbrev alerted : ℕ → LeakStorm → Tables → Tables
alerted now s t = record t { storms = upsert_storm s.storm_signature now s.new_count t.storms }

due :
    (sig : String) (now : ℕ) (s : LeakStorm) (t : Tables) (ts : List ℕ)
    → is_muted now (some (find_storm s.storm_signature t.storms)) ≡ false
    → IsSpaced (find_storm sig (alerted now s t).storms) ts
    → IsSpaced (find_storm sig t.storms) (if str_eq s.storm_signature sig then now ∷ ts else ts)
due sig now s t ts m h =
    let look = find_storm-upsert_storm s.storm_signature sig now s.new_count t.storms in
    elim (Bool-cases (str_eq s.storm_signature sig)) [
      | inl e ↦
          let same = eq-of_str_eq s.storm_signature sig e in
          rw e
            (IsSpaced-cons (find_storm sig t.storms) now ts (rw same at m) (rw e at (rw look at h)))
      | inr e ↦ rw e (rw e at (rw look at h))
    ]

-- Whatever storms are detected and whenever, the alerts of a signature that were posted are at
-- least six hours apart, and the first of them at least six hours after the one in the ledger, if
-- the database works.
pub alert_times-IsSpaced :
    (send : Sender) (on : Bool) (sig : String) (events : List (ℕ × LeakStorm)) (t : Tables)
    → IsSpaced (find_storm sig t.storms) (alert_times send on sig events (working t))
unfolding alert_times
alert_times-IsSpaced send on sig [] t = tt
alert_times-IsSpaced send on sig ((now, s) ∷ rest) t = elim (round-cases send on now s t) [
  | inl q ↦ rw q (alert_times-IsSpaced send on sig rest t)
  | inr (m, q) ↦
      let ts = alert_times send on sig rest (working (alerted now s t)) in
      rw q (due sig now s t ts m (alert_times-IsSpaced send on sig rest (alerted now s t)))
]
