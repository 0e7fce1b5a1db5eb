-- ===== src/Sizer/Tests.antt =====
-- Runs of the extent set and of the walk over a file, and the theorems at concrete inputs.
use noo_noo.Common.{List, [], arith, refl, some, ℕ, ◌∷◌, ◌≡◌, ◌≤◌}
use noo_noo.Common.Int.{add64, pos, sub64, wrap64, ◌+ℤ◌, ◌-ℤ◌}
use noo_noo.Sizer.Extents.{ExtentSet, add, total}
use noo_noo.Sizer.Extents.Interval.{count}
use noo_noo.Sizer.Extents.Total.{bytes_covered, total-bytes_covered}
use noo_noo.Sizer.Files.{FileMap, add_file_extents, no_more_data, round_up}
use noo_noo.Sizer.Files.Walk.{IsBounded, add_file_extents_total}
use noo_noo.Common.Sort.{insert_by, sort_by}
use noo_noo.Sizer.Extents.Union.{IsOn}

-- two clones that share half of their bytes, and a file on another device
abbrev clones : ExtentSet
clones =
    (pos 1, record { start = pos 40; end = pos 60 } ∷ record { start = pos 30; end = pos 50 } ∷ [])
    ∷ (pos 2, record { start = pos 30; end = pos 35 } ∷ [])
    ∷ []

adds :
    add (add (add [] (pos 1) (pos 40) (pos 20)) (pos 1) (pos 30) (pos 20)) (pos 2) (pos 30) (pos 5)
    ≡ clones
unfolding add add64 wrap64 ◌+ℤ◌
adds = refl

totals : total clones ≡ pos 35
unfolding total sort_by insert_by add64 sub64 wrap64 ◌+ℤ◌ ◌-ℤ◌
totals = refl

on : (low high : ℕ) → low ≤ high → high ≤ 64 → IsOn 64 (record { start = pos low; end = pos high })
on low high h k = record {
  low = low;
  high = high;
  start_eq = refl;
  end_eq = refl;
  proper = h;
  fits = k;
}

total-bytes_covered_example : total clones ≡ pos (bytes_covered 64 clones)
unfolding count
total-bytes_covered_example =
    total-bytes_covered 64 clones
      (
        (on 40 60 (omega arith) (omega arith), (on 30 50 (omega arith) (omega arith), tt)),
        ((on 30 35 (omega arith) (omega arith), tt), tt),
      )
      (omega arith) (omega arith)

-- a file of one extent
abbrev one_extent : FileMap
one_extent = record {
  query = λ off n. some (record { contigbytes = n; devoffset = pos 8192 });
  seek_data = λ off. no_more_data;
  block_size = 4096;
}

walks :
    add_file_extents one_extent (pos 1) (pos 5000) ([] ∷ [])
    ≡ some (((pos 1, record { start = pos 8192; end = pos 16384 } ∷ []) ∷ []) ∷ [], 0)
unfolding add_file_extents round_up add add64 sub64 wrap64 ◌+ℤ◌ ◌-ℤ◌
walks = refl

one_extent-IsBounded : IsBounded one_extent 5000
one_extent-IsBounded = record {
  within = λ off m h. ground arith;
  seeks = λ off next h. ground arith;
  has_blocks = omega arith;
  small = omega arith;
}

add_file_extents_total_example :
    (result : List ExtentSet × ℕ) × (add_file_extents one_extent (pos 1) (pos 5000) ([] ∷ [])
      ≡ some result)
add_file_extents_total_example =
    add_file_extents_total one_extent (pos 1) 5000 ([] ∷ []) one_extent-IsBounded
