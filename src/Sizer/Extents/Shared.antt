-- ===== src/Sizer/Extents/Shared.antt =====
-- What one more extent does to the bytes that a set covers.
use noo_noo.Common.{
  All-append, Bool, Bool-cases, List, [], ap, arith, false, if◌then◌else◌, inl, inr, ltb, refl, sym,
  true, ℕ, ◌++◌, ◌+◌, ◌<◌, ◌||◌, ◌∙◌, ◌∷◌, ◌≡◌, ◌≤◌,
}
use noo_noo.Common.Int.{add64, add64-pos, pos, two63, ℤ}
use noo_noo.Sizer.Extents.{Extent, ExtentSet, add, append_extent, dev_eq, total}
use noo_noo.Sizer.Extents.Union.{IsOn, covered, covers}
use noo_noo.Sizer.Extents.Total.{IsSoundSet, bytes_covered, count-none, total-bytes_covered}
use noo_noo.Sizer.Extents.Interval.{between, count-ext}

-- The set has the byte on the device.
abbrev pub has_byte : ExtentSet → ℤ → ℕ → Bool
has_byte [] dev k = false
has_byte (d ∷ ds) dev k = if dev_eq d.0 dev then covered d.1 k else has_byte ds dev k

covered-append :
    (es fs : List Extent) (k : ℕ) → covered (es ++ fs) k ≡ (covered es k || covered fs k)
covered-append [] fs k = refl
covered-append (e ∷ es) fs k = ground (arith, covered-append es fs k)

-- An extent whose bytes the device has already adds none to the count.
append_extent-covered :
    (limit : ℕ) (dev : ℤ) (e : Extent) (s : ExtentSet)
    → ((k : ℕ) → covers e k ≡ true → has_byte s dev k ≡ true)
    → bytes_covered limit (append_extent dev e s) ≡ bytes_covered limit s
unfolding append_extent
append_extent-covered limit dev e [] h =
    let none_new = count-ext (covered (e ∷ [])) (covered []) limit (λ k. ground (arith, h k)) in
    ground (arith, none_new, count-none limit)
append_extent-covered limit dev e (d ∷ ds) h = elim (Bool-cases (dev_eq d.0 dev)) [
  | inl same ↦
      let none_new =
        count-ext (covered (d.1 ++ e ∷ [])) (covered d.1) limit
          (λ k. ground (arith, h k, covered-append d.1 (e ∷ []) k)) in
      rw same (omega (arith, none_new))
  | inr other ↦
      let deeper = append_extent-covered limit dev e ds (λ k. ground (arith, h k)) in
      rw other (omega (arith, deeper))
]

append_extent-IsSoundSet :
    (limit : ℕ) (dev : ℤ) (e : Extent) (s : ExtentSet)
    → IsOn limit e
    → IsSoundSet limit s
    → IsSoundSet limit (append_extent dev e s)
unfolding append_extent
append_extent-IsSoundSet limit dev e [] on h = ((on, tt), tt)
append_extent-IsSoundSet limit dev e (d ∷ ds) on h = elim (Bool-cases (dev_eq d.0 dev)) [
  | inl same ↦ rw same (All-append (IsOn limit) d.1 (e ∷ []) h.0 (on, tt), h.1)
  | inr other ↦ rw other (h.0, append_extent-IsSoundSet limit dev e ds on h.1)
]

total-append_extent :
    (limit : ℕ) (s : ExtentSet) (dev : ℤ) (e : Extent)
    → IsOn limit e
    → IsSoundSet limit s
    → bytes_covered limit s < two63
    → limit < two63
    → ((k : ℕ) → covers e k ≡ true → has_byte s dev k ≡ true)
    → total (append_extent dev e s) ≡ total s
total-append_extent limit s dev e on fits small room shared =
    let same = append_extent-covered limit dev e s shared in
    total-bytes_covered limit (append_extent dev e s)
      (append_extent-IsSoundSet limit dev e s on fits) (omega (arith, same)) room
    ∙ ap pos same
    ∙ sym (total-bytes_covered limit s fits small room)

interval : ℕ → ℕ → Extent
interval first len = record { start = pos first; end = add64 (pos first) (pos len) }

interval-IsOn :
    (limit first len : ℕ) → first + len ≤ limit → limit < two63 → IsOn limit (interval first len)
unfolding interval
interval-IsOn limit first len h k = record {
  low = first;
  high = first + len;
  start_eq = refl;
  end_eq = add64-pos first len (omega arith);
  proper = omega arith;
  fits = h;
}

covers-interval :
    (first len k : ℕ)
    → first + len < two63
    → covers (interval first len) k ≡ between first (first + len) k
unfolding interval
covers-interval first len k h = rw (add64-pos first len h) refl

-- t
pub total-add_shared :
    (limit : ℕ) (s : ExtentSet) (dev : ℤ) (first len : ℕ)
    → IsSoundSet limit s
    → bytes_covered limit s < two63
    → limit < two63
    → first + len ≤ limit
    → ((k : ℕ) → first ≤ k → k < first + len → has_byte s dev k ≡ true)
    → total (add s dev (pos first) (pos len)) ≡ total s
unfolding add interval
total-add_shared limit s dev first len fits small room h shared = elim (Bool-cases (ltb 0 len)) [
  | inl some_bytes ↦ ground (
    arith,
    total-append_extent limit s dev (interval first len) (interval-IsOn limit first len h room) fits
        small room (λ k. ground (arith, shared k, covers-interval first len k)),
  )
  | inr no_bytes ↦ ground arith
]
