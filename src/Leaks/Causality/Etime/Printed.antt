-- ===== src/Leaks/Causality/Etime/Printed.antt =====
-- What ps prints is read back as the time that it stands for.
use noo_noo.Common.{
  List, [], ap, arith, none, refl, some, ℕ, ◌%◌, ◌*◌, ◌++◌, ◌+◌, ◌-◌, ◌/◌, ◌<◌, ◌∙◌, ◌∷◌, ◌≡◌,
}
use noo_noo.Common.Int.{add64, add64-pos, mul64, mul64-pos, pos, two63, ℤ}
use noo_noo.Leaks.Text.{Bytes, cut_at, parse_int, scan_digits, split_on, unsigned}
use noo_noo.Leaks.Causality.Etime.{parse_clock, parse_etime, total_of, total_parts, with_days}

-- an elapsed time, in the three forms of ps; the days are a text of digits
pub data Elapsed : Type 0 where
  short : ℕ → ℕ → Elapsed
  long : ℕ → ℕ → ℕ → Elapsed
  days : Bytes → ℕ → ℕ → ℕ → Elapsed

abbrev pub two_digits : ℕ → Bytes
two_digits n = (b'0' + n / 10) ∷ (b'0' + n % 10) ∷ []

abbrev pub print_elapsed : Elapsed → Bytes
print_elapsed (short m s) = two_digits m ++ b':' ∷ two_digits s
print_elapsed (long h m s) = two_digits h ++ b':' ∷ (two_digits m ++ b':' ∷ two_digits s)
print_elapsed (days ds h m s) =
    ds ++ b'-' ∷ (two_digits h ++ b':' ∷ (two_digits m ++ b':' ∷ two_digits s))

-- its seconds, where the days have a value
abbrev pub seconds_of : ℕ → Elapsed → ℕ
seconds_of d (short m s) = m * 60 + s
seconds_of d (long h m s) = (h * 60 + m) * 60 + s
seconds_of d (days ds h m s) = ((d * 24 + h) * 60 + m) * 60 + s

-- The fields have two digits, and the days the value d.
abbrev pub IsPrinted : ℕ → Elapsed → Type 0
IsPrinted d (short m s) = (m < 100) × (s < 100)
IsPrinted d (long h m s) = (h < 100) × (m < 100) × (s < 100)
IsPrinted d (days ds h m s) = (unsigned ds ≡ some d) × (h < 100) × (m < 100) × (s < 100)

parse_int-two_digits : (n : ℕ) → n < 100 → parse_int (two_digits n) ≡ some (pos n)
unfolding parse_int
parse_int-two_digits n h = ground arith

split_on-two_digits :
    (n : ℕ) (rest : Bytes)
    → n < 100
    → split_on b':' (two_digits n ++ b':' ∷ rest) ≡ two_digits n ∷ split_on b':' rest
unfolding split_on
split_on-two_digits n rest h = ground arith

split_on-two_digits_end : (n : ℕ) → n < 100 → split_on b':' (two_digits n) ≡ two_digits n ∷ []
unfolding split_on
split_on-two_digits_end n h = ground arith

cut_at-digits :
    (s rest : Bytes) (n d : ℕ)
    → scan_digits n s ≡ some d
    → cut_at b'-' (s ++ b'-' ∷ rest) ≡ some (s, rest)
unfolding cut_at scan_digits
cut_at-digits [] rest n d h = refl
cut_at-digits (c ∷ s) rest n d h = ground (arith, cut_at-digits s rest (n * 10 + (c - b'0')) d)

cut_at-unsigned :
    (s rest : Bytes) (d : ℕ) → unsigned s ≡ some d → cut_at b'-' (s ++ b'-' ∷ rest) ≡ some (s, rest)
unfolding unsigned
cut_at-unsigned [] rest d h = cc
cut_at-unsigned (c ∷ s) rest d h = cut_at-digits (c ∷ s) rest 0 d h

parse_int-unsigned :
    (s : Bytes) (d : ℕ) → unsigned s ≡ some d → d < two63 → parse_int s ≡ some (pos d)
unfolding parse_int unsigned scan_digits
parse_int-unsigned [] d h k = cc
parse_int-unsigned (c ∷ s) d h k = ground arith

total_of_part :
    (t n : ℤ) (p : Bytes) (ps : List Bytes)
    → parse_int p ≡ some n
    → total_of t (p ∷ ps) ≡ total_of (add64 (mul64 t (pos 60)) n) ps
unfolding total_of
total_of_part t n p ps h = rw (h, total_of) refl

total_of_step :
    (t n : ℕ) (ps : List Bytes)
    → t < 10000000
    → n < 100
    → total_of (pos t) (two_digits n ∷ ps) ≡ total_of (pos (t * 60 + n)) ps
unfolding total_of
total_of_step t n ps h k =
    total_of_part (pos t) (pos n) (two_digits n) ps (parse_int-two_digits n k)
    ∙ ap (λ a. total_of (add64 a (pos n)) ps) (mul64-pos t 60 (omega arith))
    ∙ ap (λ a. total_of a ps) (add64-pos (t * 60) n (omega arith))

total_two :
    (m s : ℕ)
    → m < 100
    → s < 100
    → total_parts (two_digits m ∷ two_digits s ∷ []) ≡ some (pos (m * 60 + s))
unfolding total_of
total_two m s h k =
    total_of_step 0 m (two_digits s ∷ []) (omega arith) h
    ∙ total_of_step (0 * 60 + m) s [] (omega arith) k
    ∙ ap (λ n. some (pos n)) (omega arith)

total_three :
    (h m s : ℕ)
    → h < 100
    → m < 100
    → s < 100
    → total_parts (two_digits h ∷ two_digits m ∷ two_digits s ∷ [])
      ≡ some (pos ((h * 60 + m) * 60 + s))
unfolding total_of
total_three h m s a b c =
    total_of_step 0 h (two_digits m ∷ two_digits s ∷ []) (omega arith) a
    ∙ total_of_step (0 * 60 + h) m (two_digits s ∷ []) (omega arith) b
    ∙ total_of_step ((0 * 60 + h) * 60 + m) s [] (omega arith) c
    ∙ ap (λ n. some (pos n)) (omega arith)

with_days_lem :
    (d t : ℕ)
    → d < 100000
    → t < 1000000
    → with_days (pos d) (some (pos t)) ≡ some (pos ((d * 86400 + t) * 1000000000))
with_days_lem d t h k = rw (mul64-pos t 1000000000 (omega arith)) (
    rw (mul64-pos d 24 (omega arith)) (
      rw (mul64-pos (d * 24) 3600000000000 (omega arith)) (
        ap some (
          add64-pos (t * 1000000000) (d * 24 * 3600000000000) (omega arith)
          ∙ ap pos (omega arith)))))

cut_at-two_digits :
    (n : ℕ) (rest : Bytes)
    → n < 100
    → cut_at b'-' rest ≡ none
    → cut_at b'-' (two_digits n ++ b':' ∷ rest) ≡ none
unfolding cut_at
cut_at-two_digits n rest h k = ground arith

cut_at-two_digits_end : (n : ℕ) → n < 100 → cut_at b'-' (two_digits n) ≡ none
unfolding cut_at
cut_at-two_digits_end n h = ground arith

-- the clock without days
parse_clock-two :
    (d m s : ℕ)
    → d < 100000
    → m < 100
    → s < 100
    → parse_clock (pos d) (two_digits m ++ b':' ∷ two_digits s)
      ≡ some (pos ((d * 86400 + (m * 60 + s)) * 1000000000))
parse_clock-two d m s h a b = rw (split_on-two_digits m (two_digits s) a) (
    rw (split_on-two_digits_end s b)
      (rw (total_two m s a b) (with_days_lem d (m * 60 + s) h (omega arith))))

parse_clock-three :
    (d h m s : ℕ)
    → d < 100000
    → h < 100
    → m < 100
    → s < 100
    → parse_clock (pos d) (two_digits h ++ b':' ∷ (two_digits m ++ b':' ∷ two_digits s))
      ≡ some (pos ((d * 86400 + ((h * 60 + m) * 60 + s)) * 1000000000))
parse_clock-three d h m s k a b c =
    rw (split_on-two_digits h (two_digits m ++ b':' ∷ two_digits s) a) (
      rw (split_on-two_digits m (two_digits s) b) (
        rw (split_on-two_digits_end s c)
          (rw (total_three h m s a b c) (with_days_lem d ((h * 60 + m) * 60 + s) k (omega arith)))))

parse_etime-clock :
    (c : ℕ) (s : Bytes)
    → cut_at b'-' (c ∷ s) ≡ none
    → parse_etime (c ∷ s) ≡ parse_clock (pos 0) (c ∷ s)
unfolding parse_etime
parse_etime-clock c s h = rw (h, parse_etime) refl

parse_etime-days :
    (text a b : Bytes) (n : ℤ)
    → cut_at b'-' text ≡ some (a, b)
    → parse_int a ≡ some n
    → parse_etime text ≡ parse_clock n b
unfolding parse_etime cut_at
parse_etime-days [] a b n h k = cc
parse_etime-days (c ∷ s) a b n h k = rw (h, parse_etime, k) refl

no_dash : (m s : ℕ) → m < 100 → s < 100 → cut_at b'-' (two_digits m ++ b':' ∷ two_digits s) ≡ none
no_dash m s a b = cut_at-two_digits m (two_digits s) a (cut_at-two_digits_end s b)

-- An elapsed time that is printed in one of the three forms of ps, with two digits to a field and
-- days whose value is below 100000, is read back as its number of nanoseconds.
pub parse_etime-print_elapsed :
    (e : Elapsed) (d : ℕ)
    → IsPrinted d e
    → d < 100000
    → parse_etime (print_elapsed e) ≡ some (pos (seconds_of d e * 1000000000))
parse_etime-print_elapsed (short m s) d (a, b) k =
    parse_etime-clock _ _ (no_dash m s a b)
    ∙ parse_clock-two 0 m s (omega arith) a b
    ∙ ap (λ n. some (pos n)) (omega arith)
parse_etime-print_elapsed (long h m s) d (a, b, c) k =
    parse_etime-clock _ _
      (cut_at-two_digits h (two_digits m ++ b':' ∷ two_digits s) a (no_dash m s b c))
    ∙ parse_clock-three 0 h m s (omega arith) a b c
    ∙ ap (λ n. some (pos n)) (omega arith)
parse_etime-print_elapsed (days ds h m s) d (v, a, b, c) k =
    parse_etime-days (print_elapsed (days ds h m s)) ds
      (two_digits h ++ b':' ∷ (two_digits m ++ b':' ∷ two_digits s)) (pos d)
      (cut_at-unsigned ds _ d v) (parse_int-unsigned ds d v (omega arith))
    ∙ parse_clock-three d h m s k a b c
    ∙ ap (λ n. some (pos n)) (omega arith)
