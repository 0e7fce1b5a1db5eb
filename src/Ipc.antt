-- ===== src/Ipc.antt =====
-- internal/ipc: the services that the daemon's socket offers. The switch of auto-clean and the
-- suggestions' service are here; their theorems are in the modules below.
pub mod Switch
pub mod Dismissal
mod Tests
use noo_noo.Store.{Db, StoredSuggestion}
use noo_noo.Store.Suggestions.{dismiss_suggestion, list_open_suggestions}
use noo_noo.Autoclean.{Config}
use noo_noo.Common.{
  Bool, List, Option, String, [], false, if◌then◌else◌, none, some, str_eq, suc, true, zero, ℕ,
  ◌&&◌, ◌==◌, ◌∷◌,
}
use noo_noo.Common.Int.{negsuc, pos, ℤ}

pub record ToggleRequest : Type 0 where
  pub asks_enabled : Bool
  pub asks_acknowledged_at : String

pub record ToggleResponse : Type 0 where
  pub now_enabled : Bool
  pub now_acknowledged_at : String

-- the live configuration after a permitted request
abbrev pub toggled : ToggleRequest → Config → Config
toggled req cfg = record cfg {
  enabled = req.asks_enabled;
  risk_acknowledged_at =
      if req.asks_enabled then req.asks_acknowledged_at else cfg.risk_acknowledged_at;
}

abbrev pub response_of : Config → ToggleResponse
response_of cfg = record {
  now_enabled = cfg.enabled;
  now_acknowledged_at = cfg.risk_acknowledged_at;
}

-- AutoCleanService.Toggle; `save` says whether the new configuration can be saved, and is true where there
-- is nothing to save it with. The change stays where the save fails.
unfoldable pub toggle : (Config → Bool) → ToggleRequest → Config → Option ToggleResponse × Config
toggle save req cfg =
    if req.asks_enabled && str_eq req.asks_acknowledged_at ""
    then (none, cfg)
    else if save (toggled req cfg)
    then (some (response_of (toggled req cfg)), toggled req cfg)
    else (none, toggled req cfg)

-- requests in a row
unfoldable pub toggles : (Config → Bool) → List ToggleRequest → Config → Config
toggles save [] cfg = cfg
toggles save (r ∷ rs) cfg = toggles save rs (toggle save r cfg).1

abbrev pub has_id : ℕ → List StoredSuggestion → Bool
has_id i [] = false
has_id i (r ∷ rs) = if r.id == i then true else has_id i rs

unfoldable pub dismiss_listed : ℕ → ℕ → Option (List StoredSuggestion) → Db (Unit {0})
dismiss_listed i now none st = (none, st)
dismiss_listed i now (some rows) st =
    if has_id i rows then dismiss_suggestion i now st else (none, st)

-- SuggestionsService.Dismiss
unfoldable pub dismiss : ℤ → ℕ → Db (Unit {0})
dismiss (negsuc n) now st = (none, st)
dismiss (pos zero) now st = (none, st)
dismiss (pos (suc n)) now st =
    let (rows, st') = list_open_suggestions st in dismiss_listed (suc n) now rows st'
