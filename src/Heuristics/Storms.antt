-- ===== src/Heuristics/Storms.antt =====
-- internal/heuristics/leaks.go: LeakStorms, which counts the new instances of each leak signature.
pub mod Counted
use noo_noo.Heuristics.{evidence_at}
use noo_noo.Common.{List, String, [], if◌then◌else◌, ltb, none, some, str_eq, ℕ, ◌+◌, ◌-◌, ◌∷◌}
use noo_noo.Common.Int.{ℤ}

-- internal/modules: an entry of a scan's report, as far as the heuristics read it
pub record Item : Type 0 where
  pub path : String
  pub item_size : ℤ
  pub item_evidence : List (String × String)

pub record LeakStorm : Type 0 where
  pub storm_signature : String
  pub new_count : ℕ
  pub storm_workaround : String

pub record Agg : Type 0 where
  pub agg_count : ℕ
  pub agg_workaround : String

-- a missing key reads as the empty text
abbrev pub text_at : String → List (String × String) → String
text_at key ev = elim (evidence_at key ev) [ none ↦ "" | some v ↦ v ]

abbrev pub named : String → String
named sig = if str_eq sig "" then "unknown-leak" else sig

abbrev pub signature_of : Item → String
signature_of it = named (text_at "signature" it.item_evidence)

abbrev pub join_agg : String → Agg → Agg
join_agg w a = record {
  agg_count = a.agg_count + 1;
  agg_workaround = if str_eq w "" then a.agg_workaround else w;
}

-- the map with its order of first appearance is one list
unfoldable pub add_to : String → String → List (String × Agg) → List (String × Agg)
add_to sig w [] = (sig, record { agg_count = 1; agg_workaround = w }) ∷ []
add_to sig w ((k, a) ∷ rest) =
    if str_eq k sig then (k, join_agg w a) ∷ rest else (k, a) ∷ add_to sig w rest

-- signatures below the minimum are left out
unfoldable pub storms_of : ℕ → List (String × Agg) → List LeakStorm
storms_of least [] = []
storms_of least ((sig, a) ∷ rest) =
    let others = storms_of least rest in
    if ltb a.agg_count least
    then others
    else record {
      storm_signature = sig;
      new_count = a.agg_count;
      storm_workaround = a.agg_workaround;
    }
      ∷ others

-- `appeared` may keep a state, as the daemon's does
module _ {S : Type 0} (appeared : String → S → ℕ × S) where
  unfoldable pub tally : ℕ → List (String × Agg) → List Item → S → List (String × Agg) × S
  tally cutoff acc [] st = (acc, st)
  tally cutoff acc (it ∷ items) st =
      let (t, st') = appeared it.path st in
      let more = add_to (signature_of it) (text_at "workaround" it.item_evidence) acc in
      tally cutoff (if ltb t cutoff then acc else more) items st'

  unfoldable pub leak_storms : List Item → ℕ → ℕ → ℕ → S → List LeakStorm × S
  leak_storms items now window least st =
      let (acc, st') = tally (now - window) [] items st in (storms_of least acc, st')
