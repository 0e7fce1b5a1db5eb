-- ===== src/Sizer/Extents/Total.antt =====
-- The total of an extent set, from the merging loop's result: the bytes covered on each device.
use noo_noo.Common.{All, List, [], ap, arith, refl, suc, zero, ℕ, ◌+◌, ◌<◌, ◌∙◌, ◌∷◌, ◌≡◌}
use noo_noo.Common.Int.{pos, two63}
use noo_noo.Sizer.Extents.{
  Extent, ExtentSet, merge_extents, merge_from, starts_after, total, total_from,
}
use noo_noo.Sizer.Extents.Interval.{count, count-ext}
use noo_noo.Sizer.Extents.Union.{
  IsOn, StartFrom-sorted, covered, covered-sort_by, measure, merge_from_lem, open_covers,
}
use noo_noo.Common.Sort.{IsOrder, IsSortedBy, sort_by, sort_by-All, sort_by-IsSortedBy}

starts_after-IsOrder : IsOrder starts_after
starts_after-IsOrder = record { asym = λ x y h. ground arith; co_trans = λ x y z h k. ground arith }

pub count-none : (n : ℕ) → count (covered []) n ≡ 0
unfolding count
count-none zero = refl
count-none (suc n) = count-none n

merge_extents-sorted :
    (limit s : ℕ) (es : List Extent)
    → All (IsOn limit) es
    → IsSortedBy starts_after es
    → s + measure limit es < two63
    → limit < two63
    → merge_extents (pos s) es ≡ pos (s + measure limit es)
unfolding merge_extents open_covers
merge_extents-sorted limit s [] on sorted fits small = ground (arith, count-none limit)
merge_extents-sorted limit s (e ∷ es) on sorted fits small =
    let low = on.0.low in
    let high = on.0.high in
    let same : count (open_covers low high es) limit ≡ measure limit (e ∷ es) =
      count-ext _ _ limit (λ k. ground arith) in
    let behind = StartFrom-sorted low e es on.0.start_eq sorted.0 in
    ap (λ t. merge_from (pos s) t e.end es) on.0.start_eq
    ∙ ap (λ t. merge_from (pos s) (pos low) t es) on.0.end_eq
    ∙ merge_from_lem limit s low high es on.0.proper on.0.fits on.1 behind sorted.1
        (omega (arith, same)) small
    ∙ ap (λ c. pos (s + c)) same

pub merge_extents_lem :
    (limit s : ℕ) (es : List Extent)
    → All (IsOn limit) es
    → s + measure limit es < two63
    → limit < two63
    → merge_extents (pos s) (sort_by starts_after es) ≡ pos (s + measure limit es)
merge_extents_lem limit s es on fits small =
    let same = count-ext _ _ limit (covered-sort_by es) in
    merge_extents-sorted limit s (sort_by starts_after es)
      (sort_by-All starts_after (IsOn limit) es on)
      (sort_by-IsSortedBy starts_after starts_after-IsOrder es) (omega (arith, same)) small
    ∙ ap (λ c. pos (s + c)) same

-- how many bytes the set covers, device by device
abbrev pub bytes_covered : ℕ → ExtentSet → ℕ
bytes_covered limit [] = 0
bytes_covered limit (d ∷ ds) = measure limit d.1 + bytes_covered limit ds

-- Every extent of the set is a proper interval of its device.
abbrev pub IsSoundSet : ℕ → ExtentSet → Type 0
IsSoundSet limit s = All (λ d. All (IsOn limit) d.1) s

total_from_lem :
    (limit n : ℕ) (s : ExtentSet)
    → IsSoundSet limit s
    → n + bytes_covered limit s < two63
    → limit < two63
    → total_from (pos n) s ≡ pos (n + bytes_covered limit s)
unfolding total_from
total_from_lem limit n [] on fits small = ground arith
total_from_lem limit n (d ∷ ds) on fits small =
    ap (λ t. total_from t ds) (merge_extents_lem limit n d.1 on.0 (omega arith) small)
    ∙ total_from_lem limit (n + measure limit d.1) ds on.1 (omega arith) small
    ∙ ap pos (omega arith)

-- If every extent of a set is a proper interval below a limit, and the limit and the bytes that
-- the extents cover, counted one by one on each device, fit into an int64, then the merged total
-- is the number of these bytes.
pub total-bytes_covered :
    (limit : ℕ) (s : ExtentSet)
    → IsSoundSet limit s
    → bytes_covered limit s < two63
    → limit < two63
    → total s ≡ pos (bytes_covered limit s)
unfolding total
total-bytes_covered limit s on fits small =
    total_from_lem limit 0 s on (omega arith) small ∙ ap pos (omega arith)
