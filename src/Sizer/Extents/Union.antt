-- ===== src/Sizer/Extents/Union.antt =====
-- The merged total of an extent set is the number of bytes that its extents cover.
use noo_noo.Common.{
  All, Bool, Bool-cases, List, [], ap, arith, false, if◌then◌else◌, inl, inr, ltb, refl, sym, ℕ,
  ◌+◌, ◌-◌, ◌<◌, ◌||◌, ◌∙◌, ◌∷◌, ◌≡◌, ◌≤◌,
}
use noo_noo.Common.Int.{add64, add64-pos, pos, pos_part, sub64, sub64-pos, two63, ℤ, ◌≤ℤ◌}
use noo_noo.Sizer.Extents.{Extent, merge_from, starts_after}
use noo_noo.Sizer.Extents.Interval.{between, count, count-between, count-disjoint, count-ext}
use noo_noo.Common.Sort.{IsSortedBy, insert_by, sort_by}

abbrev pub covers : Extent → ℕ → Bool
covers e k = between (pos_part e.start) (pos_part e.end) k

-- Some extent of the list has the byte.
abbrev pub covered : List Extent → ℕ → Bool
covered [] k = false
covered (e ∷ es) k = covers e k || covered es k

-- A proper interval of addresses below a limit.
pub record IsOn (limit : ℕ) (e : Extent) : Type 0 where
  pub low : ℕ
  pub high : ℕ
  pub start_eq : e.start ≡ pos low
  pub end_eq : e.end ≡ pos high
  pub proper : low ≤ high
  pub fits : high ≤ limit

-- The open interval, and what is behind it.
unfoldable pub open_covers : ℕ → ℕ → List Extent → ℕ → Bool
open_covers lo hi es k = between lo hi k || covered es k

-- All intervals of the list start at or behind an address.
abbrev pub StartFrom : ℕ → List Extent → Type 0
StartFrom lo es = All (λ e. pos lo ≤ℤ e.start) es

count-open_nil :
    (lo hi limit : ℕ) → lo ≤ hi → hi ≤ limit → count (open_covers lo hi []) limit ≡ hi - lo
unfolding open_covers
count-open_nil lo hi limit h k =
    count-ext _ (between lo hi) limit (λ j. ground arith) ∙ count-between lo hi limit h k

covered-below : (lo k : ℕ) (es : List Extent) → StartFrom lo es → k < lo → covered es k ≡ false
covered-below lo k [] h below = refl
covered-below lo k (e ∷ es) h below = ground (arith, covered-below lo k es h.1 below)

-- An extent that starts within the open interval, or at its end, widens it.
count-within :
    (lo hi limit : ℕ) (e : Extent) (es : List Extent)
    → (on : IsOn limit e) → lo ≤ on.low
    → on.low ≤ hi
    → count (open_covers lo hi (e ∷ es)) limit
      ≡ count (open_covers lo (if ltb hi on.high then on.high else hi) es) limit
unfolding open_covers
count-within lo hi limit e es on h k = count-ext _ _ limit (λ j. ground arith)

-- One that starts behind it leaves its bytes to be counted apart.
count-apart :
    (lo hi limit : ℕ) (e : Extent) (es : List Extent)
    → (on : IsOn limit e) → lo ≤ hi
    → hi ≤ limit
    → hi < on.low
    → StartFrom on.low es
    → count (open_covers lo hi (e ∷ es)) limit
      ≡ hi - lo + count (open_covers on.low on.high es) limit
unfolding open_covers
count-apart lo hi limit e es on h k gap from =
    let same =
      count-ext (open_covers lo hi (e ∷ es))
        (λ j. between lo hi j || open_covers on.low on.high es j) limit (λ j. ground arith) in
    let split =
      count-disjoint (between lo hi) (open_covers on.low on.high es) limit
        (λ j h. ground (arith, covered-below on.low j es from)) in
    omega (arith, same, split, count-between lo hi limit h k)

-- The two branches of a round of the merging loop.
merge_from-apart :
    (limit lo hi : ℕ) (sum : ℤ) (e : Extent) (es : List Extent) (on : IsOn limit e)
    → hi < on.low
    → merge_from sum (pos lo) (pos hi) (e ∷ es)
      ≡ merge_from (add64 sum (sub64 (pos hi) (pos lo))) (pos on.low) (pos on.high) es
unfolding merge_from
merge_from-apart limit lo hi sum e es on gap = ground arith

merge_from-within :
    (limit lo hi : ℕ) (sum : ℤ) (e : Extent) (es : List Extent) (on : IsOn limit e)
    → on.low ≤ hi
    → merge_from sum (pos lo) (pos hi) (e ∷ es)
      ≡ merge_from sum (pos lo) (pos (if ltb hi on.high then on.high else hi)) es
unfolding merge_from
merge_from-within limit lo hi sum e es on meets = ground arith

-- What stands behind an extent in the sorted list starts no earlier.
pub StartFrom-sorted :
    (a : ℕ) (e : Extent) (es : List Extent)
    → e.start ≡ pos a
    → All (λ y. starts_after e y ≡ false) es
    → StartFrom a es
StartFrom-sorted a e [] h k = tt
StartFrom-sorted a e (y ∷ ys) h k = (ground arith, StartFrom-sorted a e ys h k.1)

-- The merging loop adds the bytes that the open interval and the rest cover.
pub merge_from_lem :
    (limit s lo hi : ℕ) (es : List Extent)
    → lo ≤ hi
    → hi ≤ limit
    → All (IsOn limit) es
    → StartFrom lo es
    → IsSortedBy starts_after es
    → s + count (open_covers lo hi es) limit < two63
    → limit < two63
    → merge_from (pos s) (pos lo) (pos hi) es ≡ pos (s + count (open_covers lo hi es) limit)
unfolding merge_from
merge_from_lem limit s lo hi [] h k on from sorted fits small =
    ground (arith, count-open_nil lo hi limit h k, sub64-pos hi lo h, add64-pos s (hi - lo))
merge_from_lem limit s lo hi (e ∷ es) h k on from sorted fits small =
    elim (Bool-cases (ltb hi on.0.low)) [
      | inl gap ↦
          let behind = StartFrom-sorted on.0.low e es on.0.start_eq sorted.0 in
          let same = count-apart lo hi limit e es on.0 h k (ground arith) behind in
          let closed : add64 (pos s) (sub64 (pos hi) (pos lo)) ≡ pos (s + (hi - lo)) =
            rw (sub64-pos hi lo h (omega arith)) (add64-pos s (hi - lo) (omega (arith, same))) in
          merge_from-apart limit lo hi (pos s) e es on.0 (ground arith)
          ∙ ap (λ t. merge_from t (pos on.0.low) (pos on.0.high) es) closed
          ∙ merge_from_lem limit (s + (hi - lo)) on.0.low on.0.high es on.0.proper on.0.fits on.1
              behind sorted.1 (omega (arith, same)) small
          ∙ ap pos (omega (arith, same))
      | inr meets ↦
          let next = if ltb hi on.0.high then on.0.high else hi in
          let same = count-within lo hi limit e es on.0 (ground arith) (ground arith) in
          merge_from-within limit lo hi (pos s) e es on.0 (ground arith)
          ∙ merge_from_lem limit s lo next es (ground arith) (ground arith) on.1 from.1 sorted.1
              (omega (arith, same)) small
          ∙ ap (λ c. pos (s + c)) (sym same)
    ]

-- The order of a list does not matter to what it covers.
covered-insert_by :
    (e : Extent) (es : List Extent) (k : ℕ)
    → covered (insert_by starts_after e es) k ≡ covered (e ∷ es) k
unfolding insert_by
covered-insert_by e [] k = refl
covered-insert_by e (y ∷ ys) k = ground (arith, covered-insert_by e ys k)

pub covered-sort_by :
    (es : List Extent) (k : ℕ) → covered (sort_by starts_after es) k ≡ covered es k
unfolding sort_by
covered-sort_by [] k = refl
covered-sort_by (e ∷ es) k =
    covered-insert_by e (sort_by starts_after es) k
    ∙ ap (λ b. covers e k || b) (covered-sort_by es k)

-- how many bytes below the limit the extents of a list cover
abbrev pub measure : ℕ → List Extent → ℕ
measure limit es = count (covered es) limit
