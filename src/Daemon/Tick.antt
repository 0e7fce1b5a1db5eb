-- ===== src/Daemon/Tick.antt =====
-- cmd/noo-nood/tick.go: RunTick. The scan and the heuristics that read the disk are functions of the
-- world, and the run of the relocation queue is the seam that the source has for it.
pub mod Quiet
pub mod Deduped
use noo_noo.Heuristics.{Suggestion, Value, evidence_at, text_value}
use noo_noo.Heuristics.Storms.{Item, named}
use noo_noo.Autoclean.{Numbers}
use noo_noo.Autoclean.Engine.{Engine, World}
use noo_noo.Daemon.Persist.{Render, open_leak_suggestions, persist_new}
use noo_noo.Daemon.AutoClean.{Moment, run_auto_clean}
use noo_noo.Daemon.Storms.{
  FirstSeen, Notice, Sender, freed_notice, leak_notice, notify_leak_storms, waiting_notice,
}
use noo_noo.Daemon.Schedule.{TickTrigger, trigger_daily, trigger_pressure, trigger_text}
use noo_noo.Common.{
  Bool, List, Option, String, [], false, if◌then◌else◌, keep_if, length, ltb, map, none, not, some,
  str_eq, true, ℕ, ◌&&◌, ◌++◌, ◌+◌, ◌∷◌,
}
use noo_noo.Common.Int.{add64, pos, ℤ}

pub record TickConfig : Type 0 where
  pub idle_repos_on : Bool
  pub cache_velocity_on : Bool
  pub leaks_on : Bool
  pub notify_on : Bool
  pub auto_apply_pending : Bool
  pub offload_acknowledged_at : String

-- What a tick calls: `leak_scan` is none where the scan fails, and `scan_faults` is what the scan, which
-- writes tables of its own, leaves of the faults to come.
pub record Sources (W : Type 0) : Type 0 where
  pub scan_faults : List Bool → List Bool
  pub idle_repos : World W → List Suggestion
  pub cache_velocity : World W → List Suggestion
  pub leak_scan : World W → Option (List Item × List Suggestion)
  pub worktree_rows : World W → List Suggestion
  pub is_gone : W → String → Bool
  pub birth : String → Option ℕ
  pub render : Render
  pub numbers : Numbers
  pub send : Sender
  pub run_pending_fn : World W → List Notice × World W

-- the verdict, and its reason
unfoldable pub pending_auto_apply_allowed : TickTrigger → TickConfig → Bool × String
pending_auto_apply_allowed trigger_daily cfg =
    if not cfg.auto_apply_pending
    then (false, "auto_apply_pending_off")
    else if str_eq cfg.offload_acknowledged_at ""
    then (false, "risk_not_acknowledged")
    else (true, "")
pending_auto_apply_allowed _ cfg = (false, "trigger_not_daily")

-- the leak rows and the others, each in order
unfoldable pub split_leaks : List Suggestion → List Suggestion × List Suggestion
split_leaks [] = ([], [])
split_leaks (s ∷ ss) =
    let (leaks, others) = split_leaks ss in
    if str_eq s.module_name "leaks" then (s ∷ leaks, others) else (leaks, s ∷ others)

-- an evidence value that is a text
abbrev pub evidence_text : Option Value → String
evidence_text (some (text_value s)) = s
evidence_text _ = ""

pub record LeakAgg : Type 0 where
  pub leak_bytes : ℤ
  pub leak_count : ℕ
  pub leak_workaround : String

abbrev pub join_leak : Suggestion → LeakAgg → LeakAgg
join_leak s a =
    let w = evidence_text (evidence_at "workaround" s.evidence) in
    record {
      leak_bytes = add64 a.leak_bytes s.size_bytes;
      leak_count = a.leak_count + 1;
      leak_workaround = if str_eq w "" then a.leak_workaround else w;
    }

abbrev pub no_leak : LeakAgg
no_leak = record { leak_bytes = pos 0; leak_count = 0; leak_workaround = "" }

-- the map with its order of first appearance is one list
unfoldable pub add_leak : Suggestion → List (String × LeakAgg) → List (String × LeakAgg)
add_leak s [] =
    (named (evidence_text (evidence_at "signature" s.evidence)), join_leak s no_leak) ∷ []
add_leak s ((k, a) ∷ rest) =
    if str_eq k (named (evidence_text (evidence_at "signature" s.evidence)))
    then (k, join_leak s a) ∷ rest
    else (k, a) ∷ add_leak s rest

unfoldable pub sum_leaks : List (String × LeakAgg) → List Suggestion → List (String × LeakAgg)
sum_leaks acc [] = acc
sum_leaks acc (s ∷ ss) = sum_leaks (add_leak s acc) ss

abbrev pub notice_of : String × LeakAgg → Notice
notice_of (sig, a) = leak_notice sig a.leak_bytes a.leak_count a.leak_workaround

-- one alert for each signature
unfoldable pub leak_alerts : List Suggestion → List Notice
leak_alerts ss = map notice_of (sum_leaks [] ss)

unfoldable pub notify_leaks : Sender → Bool → List Suggestion → List Notice
notify_leaks send on ss = if on then keep_if send (leak_alerts ss) else []

unfoldable pub tick_notify : Sender → Bool → ℕ → ℤ → ℕ → List Notice
tick_notify send on count freed left =
    if not on
    then []
    else if ltb 0 count
    then keep_if send (freed_notice freed left ∷ [])
    else if ltb 0 left
    then keep_if send (waiting_notice left ∷ [])
    else []

abbrev pub is_light : TickTrigger → Bool
is_light trigger_pressure = true
is_light _ = false

abbrev pub leaks_found : Option (List Item × List Suggestion) → List Item × List Suggestion
leaks_found none = ([], [])
leaks_found (some r) = r

pub record Ticked (W : Type 0) : Type 0 where
  pub ticked_world : World W
  pub first_seen : FirstSeen
  pub posted : List Notice
  pub last_tick_new : ℕ

module _ {W : Type 0} where
  -- the suggestions of the enabled heuristics, and the leak scan's report
  unfoldable pub collect_suggestions :
      Sources W → TickConfig → Bool → World W → List Suggestion × List Item
  collect_suggestions src cfg light w =
      let heavy = not light in
      let repos = if heavy && cfg.idle_repos_on then src.idle_repos w else [] in
      let caches = if heavy && cfg.cache_velocity_on then src.cache_velocity w else [] in
      let (items, leaks) = if cfg.leaks_on then leaks_found (src.leak_scan w) else ([], []) in
      let trees = if heavy then src.worktree_rows w else [] in
      (repos ++ (caches ++ (leaks ++ trees)), items)

  abbrev pub may_clean : TickTrigger → Engine W → Bool
  may_clean trigger_pressure e = false
  may_clean _ e = e.cfg.enabled

  -- step 3
  unfoldable pub clean_branch :
      Sources W
      → Engine W
      → TickTrigger
      → (ℕ → Moment)
      → ℕ
      → List Suggestion
      → World W
      → ℕ × ℤ × World W
  clean_branch src e trigger clock now filed w =
      let (olds, st) = open_leak_suggestions (src.is_gone w.files) now filed w.store in
      let tl =
        run_auto_clean src.numbers e (trigger_text trigger) clock (filed ++ olds)
          (record w { store = st }) in
      if may_clean trigger e then (tl.deleted_count, tl.freed_total, tl.world) else (0, pos 0, w)

  -- step 3b
  unfoldable pub pending_branch :
      Sources W → TickConfig → TickTrigger → World W → List Notice × World W
  pending_branch src cfg trigger w =
      if (pending_auto_apply_allowed trigger cfg).0 then src.run_pending_fn w else ([], w)

  abbrev pub scanned : Sources W → Bool → World W → World W
  scanned src light w =
      if light
      then w
      else record w { store = record w.store { faults = src.scan_faults w.store.faults } }

  -- step 4, on what the steps before it left
  unfoldable pub notify_branch :
      Sources W
      → TickConfig
      → ℕ
      → List Suggestion
      → List Item
      → FirstSeen
      → ℕ × ℤ × World W
      → List Notice × World W
      → Ticked W
  notify_branch src cfg now filed items seen (count, freed, w0) (moved, w) =
      let (leaks, others) = split_leaks filed in
      let (storms, seen', st) =
        notify_leak_storms src.send cfg.notify_on src.birth now items (seen, w.store) in
      record {
        ticked_world = record w { store = st };
        first_seen = seen';
        posted =
            moved
            ++ (notify_leaks src.send cfg.notify_on leaks
                ++ (storms ++ tick_notify src.send cfg.notify_on count freed (length others)));
        last_tick_new = length filed;
      }

  unfoldable pub run_tick :
      Sources W
      → TickConfig
      → Engine W
      → TickTrigger
      → (ℕ → Moment)
      → ℕ
      → FirstSeen
      → World W
      → Ticked W
  run_tick src cfg e trigger clock now seen w =
      let w1 = scanned src (is_light trigger) w in
      let (found, items) = collect_suggestions src cfg (is_light trigger) w1 in
      let (filed, st) = persist_new src.render now found w1.store in
      let cleaned = clean_branch src e trigger clock now filed (record w1 { store = st }) in
      notify_branch src cfg now filed items seen cleaned (pending_branch src cfg trigger cleaned.2)
