-- ===== src/Trends/Buckets/Last.antt =====
-- A day's point is its last sample, and there is one point for each day.
use noo_noo.Common.{
  All, All-map, Any, Bool-cases, List, [], arith, false, inl, inr, refl, sym, ℕ, ◌∷◌, ◌≡◌, ◌≢◌, ◌≤◌,
  ◌⊎◌,
}
use noo_noo.Common.Sort.{IsSortedBy}
use noo_noo.Trends.Buckets.{Point, Sample, day_of, fill_days, later, other_day, point_of, put_day}

-- The point is made of a sample of its day, and no sample of the day is later.
abbrev pub IsLastOf : List Sample → Point → Type 0
IsLastOf ss p =
    (s : Sample) × Any (λ t. t ≡ s) ss
    × (point_of s ≡ p)
    × All (λ t. (day_of t.at ≡ p.day) → t.at ≤ s.at) ss

-- The point stood before, and the samples have none of its day.
abbrev pub IsOld : List Sample → List Point → Point → Type 0
IsOld ss ps p = Any (λ q. q ≡ p) ps × All (λ t. day_of t.at ≢ p.day) ss

-- Where a point of the map with one more sample comes from.
put_day-cases :
    (s : Sample) (ps : List Point) (p : Point)
    → Any (λ q. q ≡ p) (put_day s ps)
    → (point_of s ≡ p) ⊎ (Any (λ q. q ≡ p) ps × (p.day ≢ day_of s.at))
unfolding put_day
put_day-cases s [] p (inl h) = inl h
put_day-cases s [] p (inr h) = elim h [ ]
put_day-cases s (q ∷ qs) p h = elim (Bool-cases (other_day (day_of s.at) q)) [
  | inr same ↦ elim (put_day-cases s qs p (rw same at h)) [
    | inl e ↦ inl e
    | inr (m, o) ↦ inr (inr m, o)
  ]
  | inl other ↦ elim (rw other at h) [
    | inl e ↦ inr (inl e, rw (← e) (ground arith))
    | inr m ↦ elim (put_day-cases s qs p m) [ inl e ↦ inl e | inr (n, o) ↦ inr (inr n, o) ]
  ]
]

at-least :
    (n : ℕ) (ss : List Sample) (s : Sample)
    → All (λ t. n ≤ t.at) ss
    → Any (λ t. t ≡ s) ss
    → n ≤ s.at
at-least n [] s h m = elim m [ ]
at-least n (t ∷ ts) s h (inl e) = rw (← e) h.0
at-least n (t ∷ ts) s h (inr m) = at-least n ts s h.1 m

-- Every point of the filled map is the last of its day, or an old one.
pub fill_days-cases :
    (ss : List Sample) (ps : List Point) (p : Point)
    → IsSortedBy later ss
    → Any (λ q. q ≡ p) (fill_days ss ps)
    → IsLastOf ss p ⊎ IsOld ss ps p
unfolding fill_days
fill_days-cases [] ps p sorted h = inr (h, tt)
fill_days-cases (s ∷ ss) ps p sorted h = elim (fill_days-cases ss (put_day s ps) p sorted.1 h) [
  | inl (t, m, e, latest) ↦
      let before =
        All-map (λ u. later s u ≡ false) (λ u. s.at ≤ u.at) ss (λ u k. ground arith) sorted.0 in
      inl (t, inr m, e, (λ k. at-least s.at ss t before m, latest))
  | inr (m, free) ↦ elim (put_day-cases s ps p m) [
    | inl e ↦ inl (
      s,
      inl refl,
      e,
      (
        λ k. omega arith,
        All-map (λ u. day_of u.at ≢ p.day) (λ u. (day_of u.at ≡ p.day) → u.at ≤ s.at) ss
            (λ u no_day k. absurd (no_day k)) free,
      ),
    )
    | inr (old, other) ↦ inr (old, (λ k. other (sym k), free))
  ]
]
