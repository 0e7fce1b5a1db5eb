-- ===== src/Sizer/Extents.antt =====
-- internal/sizer/extent_darwin.go: extentSet, the physical extents seen so far, device by device.
pub mod Interval
pub mod Union
pub mod Shared
pub mod Total
use noo_noo.Common.{Bool, List, [], if◌then◌else◌, length, not, ◌&&◌, ◌++◌, ◌∷◌}
use noo_noo.Common.Int.{add64, ltb_ℤ, pos, sub64, ℤ}
use noo_noo.Common.Sort.{sort_by}

-- a half-open interval of physical addresses
pub record Extent : Type 0 where
  pub start : ℤ
  pub end : ℤ

-- the map byDev: devices with their extents, in the order of their first extent
abbrev pub ExtentSet : Type 0
ExtentSet = List (ℤ × List Extent)

abbrev pub new_extent_set : ExtentSet
new_extent_set = []

abbrev pub dev_eq : ℤ → ℤ → Bool
dev_eq a b = not (ltb_ℤ a b) && not (ltb_ℤ b a)

-- s.byDev[dev] = append(s.byDev[dev], e)
unfoldable pub append_extent : ℤ → Extent → ExtentSet → ExtentSet
append_extent dev e [] = (dev, e ∷ []) ∷ []
append_extent dev e (d ∷ ds) =
    let rest = append_extent dev e ds in
    if dev_eq d.0 dev then (d.0, d.1 ++ e ∷ []) ∷ ds else d ∷ rest

unfoldable pub add : ExtentSet → ℤ → ℤ → ℤ → ExtentSet
unfolding append_extent
add s dev start length =
    if not (ltb_ℤ (pos 0) length)
    then s
    else append_extent dev (record { start = start; end = add64 start length }) s

-- sort.Slice by the start
abbrev pub starts_after : Extent → Extent → Bool
starts_after x y = ltb_ℤ y.start x.start

-- the merging loop, with the interval that is open
unfoldable pub merge_from : ℤ → ℤ → ℤ → List Extent → ℤ
merge_from sum cur_start cur_end [] = add64 sum (sub64 cur_end cur_start)
merge_from sum cur_start cur_end (e ∷ es) =
    let within = merge_from sum cur_start (if ltb_ℤ cur_end e.end then e.end else cur_end) es in
    let apart = merge_from (add64 sum (sub64 cur_end cur_start)) e.start e.end es in
    if not (ltb_ℤ cur_end e.start) then within else apart

unfoldable pub merge_extents : ℤ → List Extent → ℤ
unfolding merge_from
merge_extents sum [] = sum
merge_extents sum (e ∷ es) = merge_from sum e.start e.end es

-- the loop over the devices
unfoldable pub total_from : ℤ → ExtentSet → ℤ
unfolding merge_extents
total_from sum [] = sum
total_from sum (d ∷ ds) = total_from (merge_extents sum (sort_by starts_after d.1)) ds

unfoldable pub total : ExtentSet → ℤ
unfolding total_from
total s = total_from (pos 0) s
