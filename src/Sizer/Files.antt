-- ===== src/Sizer/Files.antt =====
-- internal/sizer/extent_darwin.go: addFileExtents, the walk over one file's extents. F_LOG2PHYS_EXT
-- and lseek(SEEK_DATA) are the parameters.
pub mod Walk
use noo_noo.Common.{List, Option, if◌then◌else◌, map, none, not, some, suc, zero, ℕ, ◌%◌, ◌-◌, ◌==◌}
use noo_noo.Common.Int.{add64, ltb_ℤ, pos, pos_part, sub64, ℤ}
use noo_noo.Sizer.Extents.{ExtentSet, add}

-- what F_LOG2PHYS_EXT returns: Contigbytes and Devoffset
pub record Mapping : Type 0 where
  pub contigbytes : ℤ
  pub devoffset : ℤ

-- what lseek(SEEK_DATA) returns
pub data Seek : Type 0 where
  data_at : ℤ → Seek
  no_more_data : Seek
  seek_failed : Seek

pub record FileMap : Type 0 where
  pub query : ℤ → ℤ → Option Mapping
  pub seek_data : ℤ → Seek
  pub block_size : ℕ

-- the block-rounded remainder of the file
unfoldable pub round_up : ℤ → ℕ → ℤ
round_up remain bs =
    let r = pos_part remain % bs in if r == 0 then remain else add64 remain (pos (bs - r))

-- set.add on each of the sets, unless the region is a hole
unfoldable pub add_region : ℤ → Mapping → List ExtentSet → List ExtentSet
unfolding add
add_region dev m sets =
    if ltb_ℤ m.devoffset (pos 0)
    then sets
    else map (λ set. add set dev m.devoffset m.contigbytes) sets

-- how a round of the loop goes on: further at an offset, or out with a number of errors
pub data Round : Type 0 where
  further : ℤ → Round
  out : ℕ → Round

abbrev pub seek_round : ℤ → Seek → Round
seek_round off no_more_data = out 0
seek_round off seek_failed = out 1
seek_round off (data_at next) = if not (ltb_ℤ off next) then out 1 else further next

-- the query of a round that mapped something
unfoldable pub mapped : FileMap → ℤ → ℤ → Option Mapping
unfolding round_up
mapped f size off = elim (f.query off (round_up (sub64 size off) f.block_size)) [
  | none ↦ none
  | some m ↦ if ltb_ℤ (pos 0) m.contigbytes then some m else none
]

unfoldable pub walk_round : FileMap → ℤ → Option Mapping → Round
walk_round f off none = seek_round off (f.seek_data off)
walk_round f off (some m) = further (add64 off m.contigbytes)

abbrev pub sets_after : ℤ → Option Mapping → List ExtentSet → List ExtentSet
sets_after dev none sets = sets
sets_after dev (some m) sets = add_region dev m sets

-- the loop, on fuel; the sets after it, and the number of errors
unfoldable pub walk_file : ℕ → FileMap → ℤ → ℤ → ℤ → List ExtentSet → Option (List ExtentSet × ℕ)
unfolding mapped walk_round add_region
walk_file zero f dev size off sets = none
walk_file (suc n) f dev size off sets =
    let m = mapped f size off in
    let next : Option (List ExtentSet × ℕ) = elim (walk_round f off m) [
      | further off' ↦ walk_file n f dev size off' (sets_after dev m sets)
      | out errs ↦ some (sets_after dev m sets, errs)
    ] in
    if ltb_ℤ off size then next else some (sets, 0)

unfoldable pub add_file_extents : FileMap → ℤ → ℤ → List ExtentSet → Option (List ExtentSet × ℕ)
unfolding walk_file
add_file_extents f dev size sets =
    if not (ltb_ℤ (pos 0) size)
    then some (sets, 0)
    else walk_file (suc (pos_part size)) f dev size (pos 0) sets
