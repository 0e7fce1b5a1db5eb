-- ===== src/Trends/Patterns/Reported.antt =====
-- A signature is reported exactly where it was seen on two days.
use noo_noo.Common.{
  All, Any, Any-append_last, Any-append_left, Bool-cases, List, Option-cases, String, [], arith,
  eq-of_str_eq, inl, inr, length, ltb, none, refl, some, str_eq, sym, ℕ, ◌<◌, ◌↔◌, ◌∙◌, ◌∷◌, ◌≡◌,
  ◌≢◌, ◌≤◌,
}
use noo_noo.Trends.Patterns.{
  Grouped, Occurrence, Pattern, RecurrenceAgg, SignatureGroups, find_group, group_all, group_one,
  pattern_after, patterns_of, recurrences,
}
use noo_noo.Trends.Patterns.Recurring.{
  IsDistinct, OccursOn, days_at, days_from, days_from-IsDistinct, days_from-cases, days_from-has,
  group_all-days,
}
use noo_noo.Common.Sort.{Any-sort_by, sort_by-Any}

two_days :
    (ds : List ℕ)
    → IsDistinct ds
    → 2 ≤ length ds
    → (a : ℕ) × (b : ℕ) × Any (λ f. f ≡ a) ds × Any (λ f. f ≡ b) ds × (a ≢ b)
two_days [] h k = absurd (omega arith)
two_days (a ∷ []) h k = absurd (omega arith)
two_days (a ∷ b ∷ ds) h k = (a, b, inl refl, inr (inl refl), λ e. h.0.0 (sym e))

occurs :
    (sig : String) (occ : List Occurrence) (d : ℕ)
    → Any (λ f. f ≡ d) (days_from sig occ [])
    → OccursOn sig occ d
occurs sig occ d h = elim (days_from-cases sig occ [] d h) [
  | inl none_before ↦ absurd none_before
  | inr m ↦ m
]

days-two :
    (ds : List ℕ) (a b : ℕ) → Any (λ f. f ≡ a) ds → Any (λ f. f ≡ b) ds → a ≢ b → 2 ≤ length ds
days-two [] a b h k n = elim h [ ]
days-two (c ∷ []) a b (inl h) (inl k) n = absurd (n (sym h ∙ k))
days-two (c ∷ []) a b (inr h) k n = elim h [ ]
days-two (c ∷ []) a b (inl h) (inr k) n = elim k [ ]
days-two (c ∷ d ∷ ds) a b h k n = omega arith

-- Each binding has the pattern of its signature.
abbrev HasKeys : SignatureGroups → Type 0
HasKeys gs = All (λ g. g.1.pattern_so_far.pattern_signature ≡ g.0) gs

find_group-key :
    (sig : String) (gs : SignatureGroups) (a : RecurrenceAgg)
    → HasKeys gs
    → find_group sig gs ≡ some a
    → a.pattern_so_far.pattern_signature ≡ sig
find_group-key sig [] a h k = cc
find_group-key sig (g ∷ gs) a h k = elim (Bool-cases (str_eq g.0 sig)) [
  | inl same ↦ let e : g.1 ≡ a = ground arith in rw (← e) (h.0 ∙ eq-of_str_eq g.0 sig same)
  | inr other ↦ find_group-key sig gs a h.1 (rw other at k)
]

group_one-HasKeys :
    (o : Occurrence) (st : Grouped) → HasKeys st.groups → HasKeys (group_one o st).groups
unfolding group_one
group_one-HasKeys o st h = elim (Bool-cases (str_eq o.signature "")) [
  | inl empty ↦ ground arith
  | inr named ↦ elim (Option-cases (find_group o.signature st.groups)) [
    | inl new_one ↦ ground arith
    | inr (a, got) ↦ ground (arith, find_group-key o.signature st.groups a)
  ]
]

-- A signature with a group stands in the order.
abbrev IsOrdered : String → Grouped → Type 0
IsOrdered sig st =
    (a : RecurrenceAgg) → find_group sig st.groups ≡ some a → Any (λ k. k ≡ sig) st.order

group_one-IsOrdered :
    (sig : String) (o : Occurrence) (st : Grouped)
    → IsOrdered sig st
    → IsOrdered sig (group_one o st)
unfolding group_one
group_one-IsOrdered sig o st h a k = elim (Bool-cases (str_eq o.signature "")) [
  | inl empty ↦ rw (empty, group_one) (h a (rw (empty, group_one) at k))
  | inr named ↦ elim (Option-cases (find_group o.signature st.groups)) [
    | inl new_one ↦
        rw (named, group_one, new_one)
          (elim (Bool-cases (str_eq o.signature sig)) [
            | inl same ↦
                Any-append_last (λ q. q ≡ sig) st.order o.signature
                  (eq-of_str_eq o.signature sig same)
            | inr other ↦
                Any-append_left (λ q. q ≡ sig) st.order (o.signature ∷ [])
                  (h a (rw (named, group_one, new_one, other) at k))
          ])
    | inr (b, got) ↦
        rw (named, group_one, got)
          (elim (Bool-cases (str_eq o.signature sig)) [
            | inl same ↦ h b (rw (eq-of_str_eq o.signature sig same) at got)
            | inr other ↦ h a (rw (named, group_one, got, other) at k)
          ])
  ]
]

group_all-IsOrdered :
    (sig : String) (os : List Occurrence) (st : Grouped)
    → IsOrdered sig st
    → IsOrdered sig (group_all os st)
unfolding group_all
group_all-IsOrdered sig [] st h = h
group_all-IsOrdered sig (o ∷ os) st h =
    group_all-IsOrdered sig os (group_one o st) (group_one-IsOrdered sig o st h)

group_all-HasKeys :
    (os : List Occurrence) (st : Grouped) → HasKeys st.groups → HasKeys (group_all os st).groups
unfolding group_all
group_all-HasKeys [] st h = h
group_all-HasKeys (o ∷ os) st h = group_all-HasKeys os (group_one o st) (group_one-HasKeys o st h)

-- The list has a pattern of the signature.
abbrev pub IsReported : String → List Pattern → Type 0
IsReported sig out = Any (λ p. p.pattern_signature ≡ sig) out

days_at-none :
    (sig : String) (gs : SignatureGroups) → find_group sig gs ≡ none → days_at sig gs ≡ []
days_at-none sig gs h = rw (h, days_at) refl

days_at-some :
    (sig : String) (gs : SignatureGroups) (a : RecurrenceAgg)
    → find_group sig gs ≡ some a
    → days_at sig gs ≡ a.days_seen
days_at-some sig gs a h = rw (h, days_at) refl

patterns_of-cases :
    (gs : SignatureGroups) (order : List String) (sig : String)
    → HasKeys gs
    → IsReported sig (patterns_of gs order)
    → 2 ≤ length (days_at sig gs)
unfolding patterns_of
patterns_of-cases gs [] sig h k = elim k [ ]
patterns_of-cases gs (key ∷ keys) sig h k = elim (Option-cases (find_group key gs)) [
  | inl lost ↦ patterns_of-cases gs keys sig h (rw lost at k)
  | inr (a, got) ↦ elim (Bool-cases (ltb (length a.days_seen) 2)) [
    | inl burst ↦ patterns_of-cases gs keys sig h (rw (got, burst) at k)
    | inr enough ↦ elim (rw (got, enough) at k) [
      | inr m ↦ patterns_of-cases gs keys sig h m
      | inl e ↦
          let same : key ≡ sig = sym (find_group-key key gs a h got) ∙ e in
          rw (← same) (rw (days_at-some key gs a got) (ground arith))
    ]
  ]
]

few_days :
    (sig : String) (gs : SignatureGroups) (ds : List ℕ)
    → days_at sig gs ≡ ds
    → length ds < 2
    → 2 ≤ length (days_at sig gs)
    → ⊥
few_days sig gs ds e h k = let far : 2 ≤ length ds = rw e at k in omega arith

patterns_of-has :
    (gs : SignatureGroups) (order : List String) (sig : String)
    → HasKeys gs
    → Any (λ k. k ≡ sig) order
    → 2 ≤ length (days_at sig gs)
    → IsReported sig (patterns_of gs order)
unfolding patterns_of
patterns_of-has gs [] sig h m k = elim m [ ]
patterns_of-has gs (key ∷ keys) sig h (inl e) k = elim (Option-cases (find_group key gs)) [
  | inl lost ↦ absurd (few_days sig gs [] (rw e at (days_at-none key gs lost)) (omega arith) k)
  | inr (a, got) ↦ elim (Bool-cases (ltb (length a.days_seen) 2)) [
    | inl burst ↦
        absurd (few_days sig gs a.days_seen (rw e at (days_at-some key gs a got)) (ground arith) k)
    | inr enough ↦ rw (got, enough) (inl (find_group-key key gs a h got ∙ e))
  ]
]
patterns_of-has gs (key ∷ keys) sig h (inr m) k =
    let rest = patterns_of-has gs keys sig h m k in
    elim (Option-cases (find_group key gs)) [
      | inl lost ↦ rw lost rest
      | inr (a, got) ↦ elim (Bool-cases (ltb (length a.days_seen) 2)) [
        | inl burst ↦ rw (got, burst) rest
        | inr enough ↦ rw (got, enough) (inr rest)
      ]
    ]

-- the state before the loop
abbrev nothing_grouped : Grouped
nothing_grouped = record { groups = []; order = [] }

-- The signature was seen on two days.
abbrev pub IsRecurring : String → List Occurrence → Type 0
IsRecurring sig occ = (a : ℕ) × (b : ℕ) × OccursOn sig occ a × OccursOn sig occ b × (a ≢ b)

IsRecurring-of_days :
    (sig : String) (occ : List Occurrence) → 2 ≤ length (days_from sig occ []) → IsRecurring sig occ
IsRecurring-of_days sig occ h =
    let (a, b, m, n, apart) =
      two_days (days_from sig occ []) (days_from-IsDistinct sig occ [] tt) h in
    (a, b, occurs sig occ a m, occurs sig occ b n, apart)

days-of_IsRecurring :
    (sig : String) (occ : List Occurrence) → IsRecurring sig occ → 2 ≤ length (days_from sig occ [])
days-of_IsRecurring sig occ (a, b, m, n, apart) =
    days-two (days_from sig occ []) a b (days_from-has sig occ [] a m)
      (days_from-has sig occ [] b n) apart

-- A day has put the signature into the order.
ordered-of_days :
    (sig : String) (st : Grouped)
    → IsOrdered sig st
    → 2 ≤ length (days_at sig st.groups)
    → Any (λ k. k ≡ sig) st.order
ordered-of_days sig st h k = elim (Option-cases (find_group sig st.groups)) [
  | inl lost ↦ absurd (few_days sig st.groups [] (days_at-none sig st.groups lost) (omega arith) k)
  | inr (a, got) ↦ h a got
]

IsReported-IsRecurring :
    (sig : String) (occ : List Occurrence)
    → sig ≢ ""
    → IsReported sig (recurrences occ)
    → IsRecurring sig occ
unfolding recurrences
IsReported-IsRecurring sig occ named h =
    let st = group_all occ nothing_grouped in
    let raw =
      Any-sort_by pattern_after (λ p. p.pattern_signature ≡ sig) (patterns_of st.groups st.order)
        h in
    let enough =
      patterns_of-cases st.groups st.order sig (group_all-HasKeys occ nothing_grouped tt) raw in
    IsRecurring-of_days sig occ (rw (group_all-days sig occ nothing_grouped named) at enough)

IsRecurring-IsReported :
    (sig : String) (occ : List Occurrence)
    → sig ≢ ""
    → IsRecurring sig occ
    → IsReported sig (recurrences occ)
unfolding recurrences
IsRecurring-IsReported sig occ named h =
    let st = group_all occ nothing_grouped in
    let days = group_all-days sig occ nothing_grouped named in
    let enough : 2 ≤ length (days_at sig st.groups) = rw days (days-of_IsRecurring sig occ h) in
    let placed =
      ordered-of_days sig st (group_all-IsOrdered sig occ nothing_grouped (λ a k. cc k)) enough in
    sort_by-Any pattern_after (λ p. p.pattern_signature ≡ sig) (patterns_of st.groups st.order)
      (patterns_of-has st.groups st.order sig (group_all-HasKeys occ nothing_grouped tt) placed
        enough)

-- A signature that is not empty is among the recurrences exactly when it occurred on two different
-- days.
pub recurrences-IsReported :
    (sig : String) (occ : List Occurrence)
    → sig ≢ ""
    → IsReported sig (recurrences occ) ↔ IsRecurring sig occ
recurrences-IsReported sig occ named =
    (IsReported-IsRecurring sig occ named, IsRecurring-IsReported sig occ named)
