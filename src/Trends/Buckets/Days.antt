-- ===== src/Trends/Buckets/Days.antt =====
-- One point for each day that has a sample, in the order of the days, each of the day's last sample.
use noo_noo.Common.{
  All, All-append, All-keep_if, All-map, All-of_members, Any, Any-append_last, Any-append_left,
  Any-keep_if, Bool, Bool-cases, List, [], arith, false, inl, inr, keep_if, keep_if-All, refl, sym,
  ◌++◌, ◌<◌, ◌==◌, ◌∷◌, ◌≡◌, ◌≢◌, ◌≤◌,
}
use noo_noo.Common.Sort.{
  All-sort_by, Any-sort_by, IsOrder, IsSortedBy, insert_by, insert_by-All, sort_by, sort_by-All,
  sort_by-Any, sort_by-IsSortedBy,
}
use noo_noo.Trends.Buckets.{
  Point, Sample, day_bucket, day_later, day_of, fill_days, later, other_day, point_of, put_day,
}
use noo_noo.Trends.Buckets.Last.{IsLastOf, fill_days-cases}

-- Every sample's day has a point.
abbrev pub HasDay : List Point → Sample → Type 0
HasDay ps s = Any (λ p. p.day ≡ day_of s.at) ps

put_day-keeps : (s t : Sample) (ps : List Point) → HasDay ps t → HasDay (put_day s ps) t
unfolding put_day
put_day-keeps s t ps h = elim (Bool-cases (day_of s.at == day_of t.at)) [
  | inl same ↦
      Any-append_last (λ p. p.day ≡ day_of t.at) (keep_if (other_day (day_of s.at)) ps) (point_of s)
        (ground arith)
  | inr other ↦
      Any-append_left (λ p. p.day ≡ day_of t.at) (keep_if (other_day (day_of s.at)) ps)
        (point_of s ∷ [])
        (Any-keep_if (λ p. p.day ≡ day_of t.at) (other_day (day_of s.at)) ps (λ p e. ground arith)
          h)
]

put_day-has : (s : Sample) (ps : List Point) → HasDay (put_day s ps) s
unfolding put_day
put_day-has s ps =
    Any-append_last (λ p. p.day ≡ day_of s.at) (keep_if (other_day (day_of s.at)) ps) (point_of s)
      refl

fill_days-keeps :
    (ss : List Sample) (ps : List Point) (t : Sample) → HasDay ps t → HasDay (fill_days ss ps) t
unfolding fill_days
fill_days-keeps [] ps t h = h
fill_days-keeps (s ∷ ss) ps t h = fill_days-keeps ss (put_day s ps) t (put_day-keeps s t ps h)

fill_days-has : (ss : List Sample) (ps : List Point) → All (HasDay (fill_days ss ps)) ss
unfolding fill_days
fill_days-has [] ps = tt
fill_days-has (s ∷ ss) ps =
    (fill_days-keeps ss (put_day s ps) s (put_day-has s ps), fill_days-has ss (put_day s ps))

-- No two points have the same day.
abbrev IsDistinct : List Point → Type 0
IsDistinct [] = Unit
IsDistinct (p ∷ ps) = All (λ q. p.day ≢ q.day) ps × IsDistinct ps

IsDistinct-keep_if :
    (test : Point → Bool) (ps : List Point) → IsDistinct ps → IsDistinct (keep_if test ps)
IsDistinct-keep_if test [] h = tt
IsDistinct-keep_if test (p ∷ ps) h = elim (Bool-cases (test p)) [
  | inl e ↦ rw e (All-keep_if (λ q. p.day ≢ q.day) test ps h.0, IsDistinct-keep_if test ps h.1)
  | inr e ↦ rw e (IsDistinct-keep_if test ps h.1)
]

IsDistinct-append_last :
    (ps : List Point) (x : Point)
    → All (λ p. p.day ≢ x.day) ps
    → IsDistinct ps
    → IsDistinct (ps ++ x ∷ [])
IsDistinct-append_last [] x h d = (tt, tt)
IsDistinct-append_last (p ∷ ps) x h d =
    (All-append (λ q. p.day ≢ q.day) ps (x ∷ []) d.0 (h.0, tt), IsDistinct-append_last ps x h.1 d.1)

fill_days-IsDistinct :
    (ss : List Sample) (ps : List Point) → IsDistinct ps → IsDistinct (fill_days ss ps)
unfolding fill_days put_day
fill_days-IsDistinct [] ps h = h
fill_days-IsDistinct (s ∷ ss) ps h =
    let kept = keep_if (other_day (day_of s.at)) ps in
    let others =
      keep_if-All (other_day (day_of s.at)) (λ p. p.day ≢ day_of s.at) ps (λ p e. ground arith) in
    fill_days-IsDistinct ss (put_day s ps) (
      IsDistinct-append_last kept (point_of s) others
        (IsDistinct-keep_if (other_day (day_of s.at)) ps h))

insert_by-IsDistinct :
    (x : Point) (ps : List Point)
    → All (λ q. x.day ≢ q.day) ps
    → IsDistinct ps
    → IsDistinct (insert_by day_later x ps)
unfolding insert_by
insert_by-IsDistinct x [] h d = (tt, tt)
insert_by-IsDistinct x (p ∷ ps) h d = elim (Bool-cases (day_later x p)) [
  | inl e ↦ rw e (
    insert_by-All day_later (λ q. p.day ≢ q.day) x ps (λ k. h.0 (sym k)) d.0,
    insert_by-IsDistinct x ps h.1 d.1,
  )
  | inr e ↦ rw e (h, d)
]

sort_by-IsDistinct : (ps : List Point) → IsDistinct ps → IsDistinct (sort_by day_later ps)
unfolding sort_by
sort_by-IsDistinct [] h = tt
sort_by-IsDistinct (p ∷ ps) h =
    insert_by-IsDistinct p (sort_by day_later ps)
      (sort_by-All day_later (λ q. p.day ≢ q.day) ps h.0) (sort_by-IsDistinct ps h.1)

-- The days go up.
abbrev pub IsIncreasing : List Point → Type 0
IsIncreasing [] = Unit
IsIncreasing (p ∷ ps) = All (λ q. p.day < q.day) ps × IsIncreasing ps

All-earlier :
    (p : Point) (ps : List Point)
    → All (λ q. p.day ≢ q.day) ps
    → All (λ q. day_later p q ≡ false) ps
    → All (λ q. p.day < q.day) ps
All-earlier p [] h k = tt
All-earlier p (q ∷ qs) h k = (ground (arith, h.0), All-earlier p qs h.1 k.1)

IsIncreasing-of_sorted :
    (ps : List Point) → IsDistinct ps → IsSortedBy day_later ps → IsIncreasing ps
IsIncreasing-of_sorted [] d s = tt
IsIncreasing-of_sorted (p ∷ ps) d s = (All-earlier p ps d.0 s.0, IsIncreasing-of_sorted ps d.1 s.1)

later-IsOrder : IsOrder later
later-IsOrder = record { asym = λ x y h. ground arith; co_trans = λ x y z h k. ground arith }

day_later-IsOrder : IsOrder day_later
day_later-IsOrder = record { asym = λ x y h. ground arith; co_trans = λ x y z h k. ground arith }

-- A point of the last sample in the sorted list is one of the last sample.
IsLastOf-sorted : (ss : List Sample) (p : Point) → IsLastOf (sort_by later ss) p → IsLastOf ss p
IsLastOf-sorted ss p (s, m, e, latest) = (
  s,
  Any-sort_by later (λ t. t ≡ s) ss m,
  e,
  All-sort_by later (λ t. (day_of t.at ≡ p.day) → t.at ≤ s.at) ss latest,
)

filled-IsLastOf : (ss : List Sample) → All (IsLastOf ss) (fill_days (sort_by later ss) [])
filled-IsLastOf ss = All-of_members (IsLastOf ss) (fill_days (sort_by later ss) []) (λ p m.
    elim (fill_days-cases (sort_by later ss) [] p (sort_by-IsSortedBy later later-IsOrder ss) m) [
      | inl last ↦ IsLastOf-sorted ss p last
      | inr old ↦ absurd old.0
    ])

-- what day buckets have to be
pub record IsBucketed (ss : List Sample) (ps : List Point) : Type 0 where
  pub last_samples : All (IsLastOf ss) ps
  pub every_day : All (HasDay ps) ss
  pub in_order : IsIncreasing ps

-- Day buckets have the days of the samples in increasing order, one point for each day that has a
-- sample, and each point is made of a sample of its day than which no sample of that day is later.
pub day_bucket-IsBucketed : (ss : List Sample) → IsBucketed ss (day_bucket ss)
unfolding day_bucket
day_bucket-IsBucketed ss =
    let filled = fill_days (sort_by later ss) [] in
    record {
      last_samples = sort_by-All day_later (IsLastOf ss) filled (filled-IsLastOf ss);
      every_day =
          All-map (HasDay filled) (HasDay (sort_by day_later filled)) ss
            (λ s h. sort_by-Any day_later (λ p. p.day ≡ day_of s.at) filled h)
            (All-sort_by later (HasDay filled) ss (fill_days-has (sort_by later ss) []));
      in_order =
          IsIncreasing-of_sorted (sort_by day_later filled)
            (sort_by-IsDistinct filled (fill_days-IsDistinct (sort_by later ss) [] tt))
            (sort_by-IsSortedBy day_later day_later-IsOrder filled);
    }
