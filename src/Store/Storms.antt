-- ===== src/Store/Storms.antt =====
-- internal/store/leak_storms.go: one row for each leak signature.
use noo_noo.Common.{
  List, Option, String, [], arith, eq_iff, if◌then◌else◌, none, refl, some, str_eq, ℕ, ◌∷◌, ◌≡◌,
}
use noo_noo.Store.{Db, StormAlert, exec}

unfoldable pub find_storm : String → List StormAlert → Option ℕ
find_storm sig [] = none
find_storm sig (a ∷ rest) = if str_eq a.signature sig then some a.fired_at else find_storm sig rest

unfoldable pub last_leak_storm_alert : String → Db (Option ℕ)
last_leak_storm_alert sig = exec (λ t. (find_storm sig t.storms, t))

-- INSERT … ON CONFLICT(signature) DO UPDATE
unfoldable pub upsert_storm : String → ℕ → ℕ → List StormAlert → List StormAlert
upsert_storm sig at n [] = record { signature = sig; fired_at = at; storm_count = n } ∷ []
upsert_storm sig at n (a ∷ rest) =
    if str_eq a.signature sig
    then record a { fired_at = at; storm_count = n } ∷ rest
    else a ∷ upsert_storm sig at n rest

unfoldable pub record_leak_storm_alert : String → ℕ → ℕ → Db (Unit {0})
record_leak_storm_alert sig at n =
    exec (λ t. (tt, record t { storms = upsert_storm sig at n t.storms }))

-- After the write of one signature's storm alert that signature reads the new time, and every
-- other one what it read before.
pub find_storm-upsert_storm :
    (sig other_sig : String) (at n : ℕ) (rows : List StormAlert)
    → find_storm other_sig (upsert_storm sig at n rows)
      ≡ (if str_eq sig other_sig then some at else find_storm other_sig rows)
unfolding find_storm upsert_storm
find_storm-upsert_storm sig o at n [] = refl
find_storm-upsert_storm sig o at n (a ∷ rest) = ground (
  arith,
  eq_iff a.signature sig,
  eq_iff a.signature o,
  eq_iff sig o,
  find_storm-upsert_storm sig o at n rest,
)
