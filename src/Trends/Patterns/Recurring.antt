-- ===== src/Trends/Patterns/Recurring.antt =====
-- The days on which the groups have seen a signature are those of its occurrences.
use noo_noo.Common.{
  All, All-append, Any, Any-append_last, Any-append_left, Bool-cases, List, Option-cases, String,
  [], ap, arith, elem_of, eq-of_str_eq, eq_iff, false, if◌then◌else◌, inl, inr, none, refl, some,
  str_eq, str_eq-of_eq, sym, true, ℕ, ◌++◌, ◌∙◌, ◌∷◌, ◌≡◌, ◌≢◌, ◌⊎◌,
}
use noo_noo.Trends.Buckets.{day_of}
use noo_noo.Trends.Patterns.{
  Grouped, Occurrence, SignatureGroups, add_day, find_group, group_all, group_one, same_day,
}

abbrev pub days_at : String → SignatureGroups → List ℕ
days_at sig gs = elim (find_group sig gs) [ none ↦ [] | some g ↦ g.days_seen ]

-- The days that occurrences of a signature add to those before.
unfoldable pub days_from : String → List Occurrence → List ℕ → List ℕ
days_from sig [] ds = ds
days_from sig (o ∷ os) ds =
    days_from sig os (if str_eq o.signature sig then add_day (day_of o.occurred_at) ds else ds)

group_one-days :
    (sig : String) (o : Occurrence) (st : Grouped)
    → sig ≢ ""
    → days_at sig (group_one o st).groups ≡ (
        if str_eq o.signature sig
        then add_day (day_of o.occurred_at) (days_at sig st.groups)
        else days_at sig st.groups)
unfolding group_one
group_one-days sig o st named = elim (Bool-cases (str_eq o.signature "")) [
  | inl empty ↦ ground (arith, eq_iff o.signature "", eq_iff o.signature sig)
  | inr full ↦ elim (Option-cases (find_group o.signature st.groups)) [
    | inl new_one ↦ ground (arith, eq_iff o.signature sig, str_eq-of_eq o.signature sig)
    | inr (g, got) ↦ ground (arith, eq_iff o.signature sig, str_eq-of_eq o.signature sig)
  ]
]

pub group_all-days :
    (sig : String) (os : List Occurrence) (st : Grouped)
    → sig ≢ ""
    → days_at sig (group_all os st).groups ≡ days_from sig os (days_at sig st.groups)
unfolding group_all days_from
group_all-days sig [] st named = refl
group_all-days sig (o ∷ os) st named =
    group_all-days sig os (group_one o st) named
    ∙ ap (days_from sig os) (group_one-days sig o st named)

-- The days of a signature have one entry each.
abbrev pub IsDistinct : List ℕ → Type 0
IsDistinct [] = Unit
IsDistinct (d ∷ ds) = All (λ e. e ≢ d) ds × IsDistinct ds

not-elem : (d : ℕ) (ds : List ℕ) → elem_of same_day d ds ≡ false → All (λ e. e ≢ d) ds
not-elem d [] h = tt
not-elem d (e ∷ es) h = (ground arith, not-elem d es (ground arith))

elem-Any : (d : ℕ) (ds : List ℕ) → elem_of same_day d ds ≡ true → Any (λ e. e ≡ d) ds
elem-Any d [] h = cc
elem-Any d (e ∷ es) h = elim (Bool-cases (same_day e d)) [
  | inl same ↦ inl (ground arith)
  | inr other ↦ inr (elem-Any d es (rw other at h))
]

IsDistinct-append_last :
    (d : ℕ) (ds : List ℕ) → All (λ e. e ≢ d) ds → IsDistinct ds → IsDistinct (ds ++ d ∷ [])
IsDistinct-append_last d [] h k = (tt, tt)
IsDistinct-append_last d (e ∷ es) h k = (
  All-append (λ f. f ≢ e) es (d ∷ []) k.0 ((λ q. h.0 (sym q)), tt),
  IsDistinct-append_last d es h.1 k.1,
)

add_day-IsDistinct : (d : ℕ) (ds : List ℕ) → IsDistinct ds → IsDistinct (add_day d ds)
unfolding add_day
add_day-IsDistinct d ds h = elim (Bool-cases (elem_of same_day d ds)) [
  | inl known ↦ rw known h
  | inr fresh ↦ rw fresh (IsDistinct-append_last d ds (not-elem d ds fresh) h)
]

pub days_from-IsDistinct :
    (sig : String) (os : List Occurrence) (ds : List ℕ)
    → IsDistinct ds
    → IsDistinct (days_from sig os ds)
unfolding days_from
days_from-IsDistinct sig [] ds h = h
days_from-IsDistinct sig (o ∷ os) ds h = elim (Bool-cases (str_eq o.signature sig)) [
  | inl same ↦ rw same (
      days_from-IsDistinct sig os (add_day (day_of o.occurred_at) ds)
        (add_day-IsDistinct (day_of o.occurred_at) ds h))
  | inr other ↦ rw other (days_from-IsDistinct sig os ds h)
]

-- The signature occurs on the day.
abbrev pub OccursOn : String → List Occurrence → ℕ → Type 0
OccursOn sig os d = Any (λ o. (o.signature ≡ sig) × (day_of o.occurred_at ≡ d)) os

Any-append_cases :
    (d e : ℕ) (ds : List ℕ) → Any (λ f. f ≡ d) (ds ++ e ∷ []) → Any (λ f. f ≡ d) ds ⊎ (e ≡ d)
Any-append_cases d e [] (inl h) = inr h
Any-append_cases d e [] (inr h) = elim h [ ]
Any-append_cases d e (f ∷ fs) (inl h) = inl (inl h)
Any-append_cases d e (f ∷ fs) (inr h) = elim (Any-append_cases d e fs h) [
  | inl m ↦ inl (inr m)
  | inr q ↦ inr q
]

add_day-cases :
    (d e : ℕ) (ds : List ℕ) → Any (λ f. f ≡ d) (add_day e ds) → Any (λ f. f ≡ d) ds ⊎ (e ≡ d)
unfolding add_day
add_day-cases d e ds h = elim (Bool-cases (elem_of same_day e ds)) [
  | inl known ↦ inl (rw known at h)
  | inr fresh ↦ Any-append_cases d e ds (rw fresh at h)
]

add_day-keeps : (d e : ℕ) (ds : List ℕ) → Any (λ f. f ≡ d) ds → Any (λ f. f ≡ d) (add_day e ds)
unfolding add_day
add_day-keeps d e ds h = elim (Bool-cases (elem_of same_day e ds)) [
  | inl known ↦ rw known h
  | inr fresh ↦ rw fresh (Any-append_left (λ f. f ≡ d) ds (e ∷ []) h)
]

add_day-has : (d : ℕ) (ds : List ℕ) → Any (λ f. f ≡ d) (add_day d ds)
unfolding add_day
add_day-has d ds = elim (Bool-cases (elem_of same_day d ds)) [
  | inl known ↦ rw known (elem-Any d ds known)
  | inr fresh ↦ rw fresh (Any-append_last (λ f. f ≡ d) ds d refl)
]

pub days_from-cases :
    (sig : String) (os : List Occurrence) (ds : List ℕ) (d : ℕ)
    → Any (λ f. f ≡ d) (days_from sig os ds)
    → Any (λ f. f ≡ d) ds ⊎ OccursOn sig os d
unfolding days_from
days_from-cases sig [] ds d h = inl h
days_from-cases sig (o ∷ os) ds d h = elim (Bool-cases (str_eq o.signature sig)) [
  | inr other ↦ elim (days_from-cases sig os ds d (rw other at h)) [
    | inl m ↦ inl m
    | inr m ↦ inr (inr m)
  ]
  | inl same ↦ elim (days_from-cases sig os (add_day (day_of o.occurred_at) ds) d (rw same at h)) [
    | inr m ↦ inr (inr m)
    | inl m ↦ elim (add_day-cases d (day_of o.occurred_at) ds m) [
      | inl old ↦ inl old
      | inr new_one ↦ inr (inl (eq-of_str_eq o.signature sig same, new_one))
    ]
  ]
]

days_from-keeps :
    (sig : String) (os : List Occurrence) (ds : List ℕ) (d : ℕ)
    → Any (λ f. f ≡ d) ds
    → Any (λ f. f ≡ d) (days_from sig os ds)
unfolding days_from
days_from-keeps sig [] ds d h = h
days_from-keeps sig (o ∷ os) ds d h = elim (Bool-cases (str_eq o.signature sig)) [
  | inr other ↦ rw other (days_from-keeps sig os ds d h)
  | inl same ↦ rw same (
      days_from-keeps sig os (add_day (day_of o.occurred_at) ds) d
        (add_day-keeps d (day_of o.occurred_at) ds h))
]

pub days_from-has :
    (sig : String) (os : List Occurrence) (ds : List ℕ) (d : ℕ)
    → OccursOn sig os d
    → Any (λ f. f ≡ d) (days_from sig os ds)
unfolding days_from
days_from-has sig [] ds d h = elim h [ ]
days_from-has sig (o ∷ os) ds d (inl (same, e)) =
    rw (str_eq-of_eq o.signature sig same)
      (rw e (days_from-keeps sig os (add_day d ds) d (add_day-has d ds)))
days_from-has sig (o ∷ os) ds d (inr h) = elim (Bool-cases (str_eq o.signature sig)) [
  | inr other ↦ rw other (days_from-has sig os ds d h)
  | inl same ↦ rw same (days_from-has sig os (add_day (day_of o.occurred_at) ds) d h)
]
