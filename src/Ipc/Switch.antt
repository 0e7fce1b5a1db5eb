-- ===== src/Ipc/Switch.antt =====
-- The switch of auto-clean is never on without an acknowledgement.
use noo_noo.Ipc.{ToggleRequest, toggle, toggles}
use noo_noo.Autoclean.{Config}
use noo_noo.Common.{Bool, List, [], arith, eq_iff, true, ◌∷◌, ◌≡◌, ◌≢◌}

abbrev pub IsAcknowledged : Config → Type 0
IsAcknowledged cfg = cfg.enabled ≡ true → cfg.risk_acknowledged_at ≢ ""

toggle-IsAcknowledged :
    (save : Config → Bool) (req : ToggleRequest) (cfg : Config)
    → IsAcknowledged cfg
    → IsAcknowledged (toggle save req cfg).1
unfolding toggle
toggle-IsAcknowledged save req cfg h on = ground (arith, eq_iff req.asks_acknowledged_at "")

-- If auto-clean is not switched on without an acknowledgement of the risk, it is not after any
-- requests to switch it, whether the configuration can be saved or not.
pub toggles-IsAcknowledged :
    (save : Config → Bool) (reqs : List ToggleRequest) (cfg : Config)
    → IsAcknowledged cfg
    → IsAcknowledged (toggles save reqs cfg)
unfolding toggles
toggles-IsAcknowledged save [] cfg h = h
toggles-IsAcknowledged save (r ∷ rs) cfg h =
    toggles-IsAcknowledged save rs (toggle save r cfg).1 (toggle-IsAcknowledged save r cfg h)
