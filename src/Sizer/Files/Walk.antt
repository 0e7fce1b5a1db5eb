-- ===== src/Sizer/Files/Walk.antt =====
-- The walk over a file's extents ends, however often the file's map answers with holes or errors.
use noo_noo.Common.{
  Bool-cases, List, Option, Option-cases, ap, arith, inl, inr, ltb, refl, some, suc, zero, ℕ, ◌%◌,
  ◌+◌, ◌-◌, ◌<◌, ◌∙◌, ◌≡◌, ◌⊎◌,
}
use noo_noo.Common.Int.{
  add64, add64-pos, ltb_ℤ, neg_part, pos, pos-pos_part, pos_part, sub64, sub64-pos, two63, ℤ,
  ≤ℤ_trans, ◌<ℤ◌, ◌≤ℤ◌,
}
use noo_noo.Sizer.Files.{
  FileMap, Mapping, Seek, add_file_extents, add_region, data_at, further, mapped, no_more_data, out,
  round_up, seek_failed, seek_round, walk_file, walk_round,
}
use noo_noo.Sizer.Extents.{ExtentSet}

-- A mapping is no longer than was asked for, and SEEK_DATA answers within the file.
pub record IsBounded (f : FileMap) (size : ℕ) : Type 0 where
  pub within :
      (off : ℕ) (m : Mapping)
      → f.query (pos off) (round_up (sub64 (pos size) (pos off)) f.block_size) ≡ some m
      → m.contigbytes ≤ℤ round_up (sub64 (pos size) (pos off)) f.block_size
  pub seeks : (off : ℕ) (next : ℤ) → f.seek_data (pos off) ≡ data_at next → next ≤ℤ pos size
  pub has_blocks : 0 < f.block_size
  pub small : size + f.block_size < two63

round_up_lem :
    (remain bs : ℕ) → 0 < bs → remain + bs < two63 → round_up (pos remain) bs ≤ℤ pos (remain + bs)
unfolding round_up
round_up_lem remain bs h k = ground (arith, add64-pos remain (bs - remain % bs))

mapped-some :
    (f : FileMap) (size off : ℤ) (m : Mapping)
    → mapped f size off ≡ some m
    → (f.query off (round_up (sub64 size off) f.block_size) ≡ some m) × (pos 0 <ℤ m.contigbytes)
unfolding mapped
mapped-some f size off m h = ground arith

-- A mapping brings the walk to a later offset.
map-later :
    (f : FileMap) (size off : ℕ) (m : Mapping)
    → IsBounded f size
    → off < size
    → mapped f (pos size) (pos off) ≡ some m
    → (o : ℕ) × (walk_round f (pos off) (some m) ≡ further (pos o)) × (off < o)
unfolding walk_round
map-later f size off m b h k =
    let (asked, long) = mapped-some f (pos size) (pos off) m k in
    let c = pos_part m.contigbytes in
    let exact : m.contigbytes ≡ pos c = pos-pos_part m.contigbytes (omega arith) in
    let remain = sub64-pos size off (omega arith) (omega (arith, b.small)) in
    let bound = rw remain at (b.within off m asked) in
    let rounded = round_up_lem (size - off) f.block_size b.has_blocks (omega (arith, b.small)) in
    let room : off + c < two63 = omega (
      arith,
      b.small,
      ap neg_part exact,
      ≤ℤ_trans m.contigbytes (round_up (pos (size - off)) f.block_size)
          (pos (size - off + f.block_size)) bound rounded,
    ) in
    (off + c, ap further (ap (add64 (pos off)) exact ∙ add64-pos off c room), omega arith)

-- So does a jump over a hole, or else the walk is over.
seek-later :
    (f : FileMap) (size off : ℕ) (s : Seek)
    → ((next : ℤ) → s ≡ data_at next → next ≤ℤ pos size)
    → ((errs : ℕ) × (seek_round (pos off) s ≡ out errs))
      ⊎ ((o : ℕ) × (seek_round (pos off) s ≡ further (pos o)) × (off < o))
seek-later f size off no_more_data b = inl (0, refl)
seek-later f size off seek_failed b = inl (1, refl)
seek-later f size off (data_at next) b = elim (Bool-cases (ltb_ℤ (pos off) next)) [
  | inl later ↦ inr (pos_part next, ground (arith, pos-pos_part next), ground arith)
  | inr back ↦ inl (1, ground arith)
]

abbrev Returns : Option (List ExtentSet × ℕ) → Type 0
Returns o = (result : List ExtentSet × ℕ) × (o ≡ some result)

-- Enough fuel for the bytes that are left is enough for the loop.
walk_file_total :
    (f : FileMap) (dev : ℤ) (size off n : ℕ) (sets : List ExtentSet)
    → IsBounded f size
    → size < off + n
    → 0 < n
    → Returns (walk_file n f dev (pos size) (pos off) sets)
unfolding walk_file
walk_file_total f dev size off zero sets b h k = elim k [ ]
walk_file_total f dev size off (suc n) sets b h k = elim (Bool-cases (ltb off size)) [
  | inr past ↦ ((sets, 0), ground arith)
  | inl early ↦ elim (Option-cases (mapped f (pos size) (pos off))) [
    | inr (m, got) ↦
        let (o, next, later) = map-later f size off m b (ground arith) got in
        let deeper =
          walk_file_total f dev size o n (add_region dev m sets) b (omega (arith)) (ground arith) in
        (deeper.0, ground (arith, deeper.1, next, got))
    | inl lost ↦ elim (seek-later f size off (f.seek_data (pos off)) (b.seeks off)) [
      | inl (errs, stops) ↦ ((sets, errs), ground arith)
      | inr (o, next, later) ↦
          let deeper = walk_file_total f dev size o n sets b (omega (arith)) (ground arith) in
          (deeper.0, ground (arith, deeper.1, next))
    ]
  ]
]

-- The walk over a file's extents ends with as much fuel as the file has bytes and one more, if the
-- file and a block fit into an int64, no mapping is longer than what was asked for, and SEEK_DATA
-- answers no place behind the file.
pub add_file_extents_total :
    (f : FileMap) (dev : ℤ) (size : ℕ) (sets : List ExtentSet)
    → IsBounded f size
    → (result : List ExtentSet × ℕ) × (add_file_extents f dev (pos size) sets ≡ some result)
unfolding add_file_extents
add_file_extents_total f dev size sets b = elim (Bool-cases (ltb 0 size)) [
  | inr empty ↦ ((sets, 0), ground arith)
  | inl more ↦
      let walked = walk_file_total f dev size 0 (suc size) sets b (omega arith) (omega arith) in
      (walked.0, ground (arith, walked.1))
]
