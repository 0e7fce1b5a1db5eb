-- ===== src/Ipc/Tests.antt =====
-- Runs of the services, and the theorems at concrete inputs.
use noo_noo.Ipc.{ToggleRequest, dismiss, dismiss_listed, toggle, toggles}
use noo_noo.Ipc.Switch.{IsAcknowledged, toggles-IsAcknowledged}
use noo_noo.Ipc.Dismissal.{dismiss_once, has_open}
use noo_noo.Store.{Tables, exec, fresh}
use noo_noo.Store.Suggestions.{dismiss_row, dismiss_suggestion, list_open_suggestions, open_rows}
use noo_noo.Autoclean.{Config}
use noo_noo.Daemon.Persist.Idempotent.{working}
use noo_noo.Common.{[], false, if◌then◌else◌, none, refl, some, suc, true, ◌∷◌, ◌≡◌}
use noo_noo.Common.Int.{pos}
use noo_noo.Common.Sort.{insert_by, sort_by}

abbrev off : Config
off = record {
  enabled = false;
  modules_allowed = "dev" ∷ [];
  min_idle_days = pos 90;
  min_size_mb = pos 1024;
  size_cap_per_tick_gb = pos 10;
  risk_acknowledged_at = "";
}

abbrev bare_on : ToggleRequest
bare_on = record { asks_enabled = true; asks_acknowledged_at = "" }

abbrev full_on : ToggleRequest
full_on = record { asks_enabled = true; asks_acknowledged_at = "2026-05-03" }

abbrev turn_off : ToggleRequest
turn_off = record { asks_enabled = false; asks_acknowledged_at = "" }

-- the acknowledgement outlives the switch
keeps_acknowledgement :
    toggles (λ c. false) (bare_on ∷ full_on ∷ turn_off ∷ []) off
    ≡ record off { risk_acknowledged_at = "2026-05-03" }
unfolding toggles toggle
keeps_acknowledgement = refl

toggles-IsAcknowledged_example :
    IsAcknowledged (toggles (λ c. false) (bare_on ∷ full_on ∷ turn_off ∷ []) off)
toggles-IsAcknowledged_example =
    toggles-IsAcknowledged (λ c. false) (bare_on ∷ full_on ∷ turn_off ∷ []) off (λ h. cc)

abbrev one_row : Tables
one_row = record fresh.tables {
  suggestions =
      record {
        id = 1;
        ts = 10;
        module_name = "idle_repos";
        target = "/Users/me/src/app";
        reason = "idle";
        evidence = [];
        severity = "low";
        dismissed_at = none;
      }
      ∷ [];
  next_suggestion = 2;
}

dismisses : (dismiss (pos 1) 50 (working one_row)).0 ≡ some tt
unfolding dismiss list_open_suggestions open_rows dismiss_listed dismiss_suggestion exec sort_by
    insert_by
dismisses = refl

dismiss_once_example :
    (dismiss (pos (suc 0)) 50 (working one_row) ≡ (
      if has_open (suc 0) one_row.suggestions
      then (some tt, working (dismiss_row (suc 0) 50 one_row).1)
      else (none, working one_row)))
    × (has_open (suc 0) (dismiss_row (suc 0) 50 one_row).1.suggestions ≡ false)
dismiss_once_example = dismiss_once 0 50 one_row
