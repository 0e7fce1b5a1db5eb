-- ===== src/Sizer/Extents/Interval.antt =====
-- The bytes that intervals cover, counted one by one: what a merged total has to come to.
use noo_noo.Common.{
  Bool, arith, false, if◌then◌else◌, leb, ltb, refl, suc, true, zero, ℕ, ◌&&◌, ◌+◌, ◌-◌, ◌||◌, ◌≡◌,
  ◌≤◌,
}

-- how many numbers below a bound pass a test
unfoldable pub count : (ℕ → Bool) → ℕ → ℕ
count p zero = 0
count p (suc n) = let rest = count p n in if p n then suc rest else rest

pub count-le : (p : ℕ → Bool) (n : ℕ) → count p n ≤ n
unfolding count
count-le p zero = omega arith
count-le p (suc n) = ground (arith, count-le p n)

pub count-ext : (p q : ℕ → Bool) (n : ℕ) → ((k : ℕ) → p k ≡ q k) → count p n ≡ count q n
unfolding count
count-ext p q zero h = refl
count-ext p q (suc n) h = rw (h n, count-ext p q n h) refl

-- Tests that never both hold count apart.
pub count-disjoint :
    (p q : ℕ → Bool) (n : ℕ)
    → ((k : ℕ) → p k ≡ true → q k ≡ false)
    → count (λ k. p k || q k) n ≡ count p n + count q n
unfolding count
count-disjoint p q zero h = omega arith
count-disjoint p q (suc n) h = ground (arith, count-disjoint p q n h, h n)

-- lo ≤ k < hi
abbrev pub between : ℕ → ℕ → ℕ → Bool
between lo hi k = leb lo k && ltb k hi

count-between_lem :
    (lo hi n : ℕ) → lo ≤ hi → count (between lo hi) n ≡ (if leb hi n then hi else n) - lo
unfolding count
count-between_lem lo hi zero h = ground arith
count-between_lem lo hi (suc n) h = ground (arith, count-between_lem lo hi n h)

-- An interval below the bound covers as many bytes as it is long.
pub count-between : (lo hi n : ℕ) → lo ≤ hi → hi ≤ n → count (between lo hi) n ≡ hi - lo
count-between lo hi n h k = ground (arith, count-between_lem lo hi n h)
