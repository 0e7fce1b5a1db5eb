-- ===== src/Heuristics/Storms/Counted.antt =====
-- What LeakStorms reports of a signature, by a count of the report's entries.
use noo_noo.Heuristics.Storms.{
  Agg, Item, LeakStorm, add_to, leak_storms, signature_of, storms_of, tally, text_at,
}
use noo_noo.Common.{
  Bool-cases, List, Option, String, [], ap, arith, eq_iff, if◌then◌else◌, inl, inr, leb, ltb, none,
  not, refl, some, str_eq, suc, ℕ, ◌&&◌, ◌+◌, ◌-◌, ◌<◌, ◌∙◌, ◌∷◌, ◌≡◌,
}

-- the count of a signature in the map, 0 where it has none
abbrev lookup : String → List (String × Agg) → ℕ
lookup sig [] = 0
lookup sig ((k, a) ∷ rest) = if str_eq k sig then a.agg_count else lookup sig rest

-- each signature has one entry, which counts something
abbrev IsKeyed : List (String × Agg) → Type 0
IsKeyed [] = Unit
IsKeyed ((k, a) ∷ rest) = (0 < a.agg_count) × (lookup k rest ≡ 0) × IsKeyed rest

add_to-lookup :
    (sig k w : String) (acc : List (String × Agg))
    → lookup sig (add_to k w acc) ≡ lookup sig acc + (if str_eq k sig then 1 else 0)
unfolding add_to
add_to-lookup sig k w [] = ground arith
add_to-lookup sig k w ((j, a) ∷ rest) =
    ground (arith, eq_iff j k, eq_iff j sig, eq_iff k sig, add_to-lookup sig k w rest)

add_to-IsKeyed : (k w : String) (acc : List (String × Agg)) → IsKeyed acc → IsKeyed (add_to k w acc)
unfolding add_to
add_to-IsKeyed k w [] h = (omega arith, refl, tt)
add_to-IsKeyed k w ((j, a) ∷ rest) (p, q, h) = elim (Bool-cases (str_eq j k)) [
  | inl e ↦ rw e (omega arith, q, h)
  | inr e ↦ rw e (
    p,
    ground (arith, add_to-lookup j k w rest, eq_iff j k, eq_iff k j),
    add_to-IsKeyed k w rest h,
  )
]

-- the count that the first storm of a signature reports
abbrev pub reported : String → List LeakStorm → Option ℕ
reported sig [] = none
reported sig (s ∷ ss) = if str_eq s.storm_signature sig then some s.new_count else reported sig ss

abbrev pub reportable : ℕ → ℕ → Option ℕ
reportable least n = if ltb 0 n && leb least n then some n else none

storms_of-reported :
    (sig : String) (least : ℕ) (acc : List (String × Agg))
    → IsKeyed acc
    → reported sig (storms_of least acc) ≡ reportable least (lookup sig acc)
unfolding storms_of
storms_of-reported sig least [] h = ground arith
storms_of-reported sig least ((k, a) ∷ rest) (p, q, h) =
    ground (arith, eq_iff k sig, storms_of-reported sig least rest h)

module _ {S : Type 0} (appeared : String → S → ℕ × S) where
  -- the entries of a signature that appeared at or after the cutoff
  abbrev pub count_new : String → ℕ → List Item → S → ℕ
  count_new sig cutoff [] st = 0
  count_new sig cutoff (it ∷ items) st =
      let (t, st') = appeared it.path st in
      let n = count_new sig cutoff items st' in
      if not (ltb t cutoff) && str_eq (signature_of it) sig then suc n else n

  tally-lookup :
      (sig : String) (cutoff : ℕ) (acc : List (String × Agg)) (items : List Item) (st : S)
      → IsKeyed acc
      → (lookup sig (tally appeared cutoff acc items st).0
          ≡ lookup sig acc + count_new sig cutoff items st)
        × IsKeyed (tally appeared cutoff acc items st).0
  unfolding tally
  tally-lookup sig cutoff acc [] st h = (omega arith, h)
  tally-lookup sig cutoff acc (it ∷ items) st h =
      let r = appeared it.path st in
      let w = text_at "workaround" it.item_evidence in
      let more = add_to (signature_of it) w acc in
      elim (Bool-cases (ltb r.0 cutoff)) [
        | inl e ↦ rw (e, tally) (tally-lookup sig cutoff acc items r.1 h)
        | inr e ↦
            let (l, k) =
              tally-lookup sig cutoff more items r.1 (add_to-IsKeyed (signature_of it) w acc h) in
            rw (e, tally) (ground (arith, l, add_to-lookup sig (signature_of it) w acc), k)
      ]

  -- LeakStorms reports a signature exactly where at least one of the entries of that signature,
  -- and at least the minimum of them, appeared within the window, and then reports how many.
  pub leak_storms-reported :
      (sig : String) (items : List Item) (now window least : ℕ) (st : S)
      → reported sig (leak_storms appeared items now window least st).0
        ≡ reportable least (count_new sig (now - window) items st)
  unfolding leak_storms
  leak_storms-reported sig items now window least st =
      let (l, k) = tally-lookup sig (now - window) [] items st tt in
      storms_of-reported sig least (tally appeared (now - window) [] items st).0 k
      ∙ ap (reportable least) (omega (arith, l))
