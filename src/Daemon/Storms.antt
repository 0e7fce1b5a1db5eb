-- ===== src/Daemon/Storms.antt =====
-- cmd/noo-nood/tick.go: leakAppearedAt and notifyLeakStorms, and the notices that a tick posts. Times
-- are Unix seconds.
pub mod Muted
use noo_noo.Store.{Store}
use noo_noo.Store.Storms.{last_leak_storm_alert, record_leak_storm_alert}
use noo_noo.Heuristics.{evidence_at}
use noo_noo.Heuristics.Storms.{Item, LeakStorm, leak_storms}
use noo_noo.Common.{
  Bool, List, Option, String, [], false, if◌then◌else◌, ltb, none, not, some, ℕ, ◌++◌, ◌-◌, ◌∷◌,
}
use noo_noo.Common.Int.{ℤ}

abbrev pub leak_storm_min_count : ℕ
leak_storm_min_count = 10

abbrev pub leak_storm_window : ℕ
leak_storm_window = 3600

abbrev pub leak_storm_cooldown : ℕ
leak_storm_cooldown = 21600

-- A notice by what its text is made of.
pub data Notice : Type 0 where
  freed_notice : ℤ → ℕ → Notice
  waiting_notice : ℕ → Notice
  leak_notice : String → ℤ → ℕ → String → Notice
  storm_notice : LeakStorm → Notice

-- whether posting the notice works
abbrev pub Sender : Type 0
Sender = Notice → Bool

-- d.leakFirstSeen
abbrev pub FirstSeen : Type 0
FirstSeen = List (String × ℕ)

abbrev pub seen_or_new : String → ℕ → FirstSeen → Option ℕ → ℕ × FirstSeen
seen_or_new path now seen (some t) = (t, seen)
seen_or_new path now seen none = (now, (path, now) ∷ seen)

-- `birth` is the filesystem's creation time
unfoldable pub leak_appeared_at : (String → Option ℕ) → ℕ → String → FirstSeen → ℕ × FirstSeen
leak_appeared_at birth now path seen = elim (birth path) [
  | some t ↦ (t, seen)
  | none ↦ seen_or_new path now seen (evidence_at path seen)
]

-- a failed read of the ledger counts as no alert so far
abbrev pub is_muted : ℕ → Option (Option ℕ) → Bool
is_muted now (some (some last)) = ltb (now - last) leak_storm_cooldown
is_muted now _ = false

-- one round of the loop over the storms: what it posts, and the store
unfoldable pub notify_storm : Sender → Bool → ℕ → LeakStorm → Store → List Notice × Store
notify_storm send on now s st =
    let (last, st') = last_leak_storm_alert s.storm_signature st in
    let kept = (record_leak_storm_alert s.storm_signature now s.new_count st').1 in
    if is_muted now last
    then ([], st')
    else if not on
    then ([], st')
    else if send (storm_notice s)
    then (storm_notice s ∷ [], kept)
    else ([], st')

unfoldable pub notify_storms : Sender → Bool → ℕ → List LeakStorm → Store → List Notice × Store
notify_storms send on now [] st = ([], st)
notify_storms send on now (s ∷ ss) st =
    let (posted, st') = notify_storm send on now s st in
    let (rest, st'') = notify_storms send on now ss st' in (posted ++ rest, st'')

unfoldable pub notify_leak_storms :
    Sender
    → Bool
    → (String → Option ℕ)
    → ℕ
    → List Item
    → FirstSeen × Store
    → List Notice × FirstSeen × Store
notify_leak_storms send on birth now items (seen, st) =
    let (storms, seen') =
      leak_storms (leak_appeared_at birth now) items now leak_storm_window leak_storm_min_count
        seen in
    let (posted, st') = notify_storms send on now storms st in (posted, seen', st')
