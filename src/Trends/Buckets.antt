-- ===== src/Trends/Buckets.antt =====
-- internal/trend/trend.go: DayBucket and Batches.
pub mod Last
pub mod Days
use noo_noo.Common.{
  Bool, List, [], if◌then◌else◌, keep_if, ltb, not, ℕ, ◌++◌, ◌+◌, ◌-◌, ◌/◌, ◌==◌, ◌∷◌,
}
use noo_noo.Common.Int.{ℤ}
use noo_noo.Common.Sort.{sort_by}

pub record Sample : Type 0 where
  pub at : ℕ
  pub sample_bytes : ℤ

pub record Point : Type 0 where
  pub day : ℕ
  pub point_bytes : ℤ

-- 24 hours
abbrev pub day_length : ℕ
day_length = 86400000000000

abbrev pub day_of : ℕ → ℕ
day_of at = at / day_length

abbrev pub later : Sample → Sample → Bool
later s t = ltb t.at s.at

abbrev pub day_later : Point → Point → Bool
day_later p q = ltb q.day p.day

abbrev pub other_day : ℕ → Point → Bool
other_day d p = not (p.day == d)

abbrev pub point_of : Sample → Point
point_of s = record { day = day_of s.at; point_bytes = s.sample_bytes }

-- byDay[day] = s.Bytes; the order of the map does not matter
unfoldable pub put_day : Sample → List Point → List Point
put_day s ps = keep_if (other_day (day_of s.at)) ps ++ point_of s ∷ []

-- the loop over the sorted samples
unfoldable pub fill_days : List Sample → List Point → List Point
fill_days [] ps = ps
fill_days (s ∷ ss) ps = fill_days ss (put_day s ps)

unfoldable pub day_bucket : List Sample → List Point
day_bucket samples = sort_by day_later (fill_days (sort_by later samples) [])

-- Batches, behind the first of the sorted times
unfoldable pub count_batches : ℕ → ℕ → List ℕ → ℕ → ℕ
count_batches gap last [] batches = batches
count_batches gap last (t ∷ ts) batches =
    count_batches gap t ts (if ltb gap (t - last) then batches + 1 else batches)

abbrev pub after_time : ℕ → ℕ → Bool
after_time t u = ltb u t

abbrev pub batches_of : ℕ → List ℕ → ℕ
batches_of gap [] = 0
batches_of gap (t ∷ ts) = count_batches gap t ts 1

unfoldable pub batches : List ℕ → ℕ → ℕ
unfolding count_batches
batches times gap = batches_of gap (sort_by after_time times)
