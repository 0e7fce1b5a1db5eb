-- ===== src/Pressure/Cooldown.antt =====
-- Two triggers of the watcher are more than the cooldown apart.
use noo_noo.Common.{List, Option, [], none, some, ℕ, ◌+◌, ◌<◌, ◌∷◌}
use noo_noo.Pressure.{trigger_cooldown}

-- every later trigger stands more than the cooldown after the last one
abbrev pub IsApart : Option ℕ → List ℕ → Type 0
IsApart last [] = Unit
IsApart none (t ∷ ts) = IsApart (some t) ts
IsApart (some l) (t ∷ ts) = (l + trigger_cooldown < t) × IsApart (some t) ts
