-- ===== src/Trends/Tests.antt =====
-- Runs of the trends, and the theorems at concrete inputs.
use noo_noo.Common.{List, String, [], refl, ℕ, ◌↔◌, ◌∷◌, ◌≡◌}
use noo_noo.Common.Int.{pos}
use noo_noo.Common.Sort.{insert_by, sort_by}
use noo_noo.Trends.Buckets.{Sample, batches, day_bucket, fill_days, put_day}
use noo_noo.Trends.Buckets.Days.{IsBucketed, day_bucket-IsBucketed}
use noo_noo.Trends.Patterns.{Occurrence, add_day, group_one, recurrences}
use noo_noo.Trends.Patterns.Reported.{IsRecurring, IsReported, recurrences-IsReported}

-- three samples on two days, not in order
abbrev samples : List Sample
samples =
    record { at = 90000000000000; sample_bytes = pos 7 }
    ∷ record { at = 20; sample_bytes = pos 5 }
    ∷ record { at = 10; sample_bytes = pos 3 }
    ∷ []

buckets :
    day_bucket samples
    ≡ record { day = 0; point_bytes = pos 5 } ∷ record { day = 1; point_bytes = pos 7 } ∷ []
unfolding day_bucket sort_by insert_by fill_days put_day
buckets = refl

counts : batches (90 ∷ 10 ∷ 12 ∷ []) 5 ≡ 2
unfolding batches sort_by insert_by
counts = refl

day_bucket-IsBucketed_example : IsBucketed samples (day_bucket samples)
day_bucket-IsBucketed_example = day_bucket-IsBucketed samples

abbrev seen : String → ℕ → Occurrence
seen sig at = record { signature = sig; workaround = "quit"; occurred_on = "/t"; occurred_at = at }

-- one signature on two days, and a burst of another on one
abbrev history : List Occurrence
history = seen "chrome" 10 ∷ seen "burst" 20 ∷ seen "burst" 30 ∷ seen "chrome" 90000000000000 ∷ []

reports :
    recurrences history
    ≡ record {
      pattern_signature = "chrome";
      pattern_workaround = "quit";
      distinct_days = 2;
      occurrences = 2;
      first_seen = 10;
      last_seen = 90000000000000;
      targets = "/t" ∷ [];
    }
      ∷ []
unfolding recurrences group_one add_day sort_by insert_by
reports = refl

recurrences-IsReported_example :
    IsReported "chrome" (recurrences history) ↔ IsRecurring "chrome" history
recurrences-IsReported_example = recurrences-IsReported "chrome" history (λ e. cc e)
