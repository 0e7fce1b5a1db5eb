-- ===== src/Common/Int.antt =====
-- Signed integers, and Go's int64: a value is an integer, and each operation wraps modulo 2^64.
use Prim.Native.Nat.{ℕ, suc, ◌+◌, ◌-◌, ◌*◌, ◌%◌, ◌≤◌, ◌<◌}
use mathlib.Core.Path.{◌≡◌}
use mathlib.Core.Bool.{Bool}
use native.Mathlib.Omega.{arith}
use noo_noo.Common.Tests.{if◌then◌else◌, leb, ltb}
use noo_noo.Common.{ap, ◌∙◌}

-- `negsuc n` is -(n + 1).
pub data ℤ : Type 0 where
  pos : ℕ → ℤ
  negsuc : ℕ → ℤ

abbrev pub pos_part : ℤ → ℕ
pos_part (pos n) = n
pos_part (negsuc n) = 0

abbrev pub neg_part : ℤ → ℕ
neg_part (pos n) = 0
neg_part (negsuc n) = suc n

-- a - b, as an integer.
abbrev pub sub_ℕ : ℕ → ℕ → ℤ
sub_ℕ a b = if leb b a then pos (a - b) else negsuc (b - a - 1)

infixl 65 ◌+ℤ◌ ◌-ℤ◌
infixl 70 ◌*ℤ◌
infix 50 ◌≤ℤ◌ ◌<ℤ◌
unfoldable pub ◌+ℤ◌ : ℤ → ℤ → ℤ
a +ℤ b = sub_ℕ (pos_part a + pos_part b) (neg_part a + neg_part b)

unfoldable pub ◌-ℤ◌ : ℤ → ℤ → ℤ
a -ℤ b = sub_ℕ (pos_part a + neg_part b) (neg_part a + pos_part b)

unfoldable pub ◌*ℤ◌ : ℤ → ℤ → ℤ
a *ℤ b =
    sub_ℕ (pos_part a * pos_part b + neg_part a * neg_part b)
      (pos_part a * neg_part b + neg_part a * pos_part b)

abbrev pub ◌≤ℤ◌ : ℤ → ℤ → Type 0
a ≤ℤ b = pos_part a + neg_part b ≤ pos_part b + neg_part a

abbrev pub ◌<ℤ◌ : ℤ → ℤ → Type 0
a <ℤ b = pos_part a + neg_part b < pos_part b + neg_part a

abbrev pub ltb_ℤ : ℤ → ℤ → Bool
ltb_ℤ a b = ltb (pos_part a + neg_part b) (pos_part b + neg_part a)

abbrev pub two63 : ℕ
two63 = 9223372036854775808

abbrev pub two64 : ℕ
two64 = 18446744073709551616

-- the bit pattern of an integer modulo 2^64
abbrev pub to_u64 : ℤ → ℕ
to_u64 (pos n) = n % two64
to_u64 (negsuc n) = two64 - 1 - n % two64

-- the int64 that has a bit pattern
abbrev pub from_u64 : ℕ → ℤ
from_u64 u = if ltb u two63 then pos u else negsuc (two64 - 1 - u)

unfoldable pub wrap64 : ℤ → ℤ
wrap64 a = from_u64 (to_u64 a)

unfoldable pub add64 : ℤ → ℤ → ℤ
add64 a b = wrap64 (a +ℤ b)

unfoldable pub sub64 : ℤ → ℤ → ℤ
sub64 a b = wrap64 (a -ℤ b)

unfoldable pub mul64 : ℤ → ℤ → ℤ
mul64 a b = wrap64 (a *ℤ b)

-- the value is an int64
abbrev pub IsInt64 : ℤ → Type 0
IsInt64 (pos n) = n < two63
IsInt64 (negsuc n) = n < two63

pub wrap64_lem : (a : ℤ) → IsInt64 a → wrap64 a ≡ a
unfolding wrap64
wrap64_lem (pos n) h = ground arith
wrap64_lem (negsuc n) h = ground arith

pub +ℤ_assoc : (a b c : ℤ) → (a +ℤ b) +ℤ c ≡ a +ℤ (b +ℤ c)
unfolding ◌+ℤ◌
+ℤ_assoc a b c = ground arith

pub zero_+ℤ : (a : ℤ) → pos 0 +ℤ a ≡ a
unfolding ◌+ℤ◌
zero_+ℤ (pos n) = ground arith
zero_+ℤ (negsuc n) = ground arith

-- two charges in a row
pub ≤ℤ_chain : (a b c x y : ℤ) → a +ℤ x ≤ℤ b → b +ℤ y ≤ℤ c → a +ℤ (x +ℤ y) ≤ℤ c
unfolding ◌+ℤ◌
≤ℤ_chain a b c x y h k = ground arith

pub ≤ℤ_trans : (a b c : ℤ) → a ≤ℤ b → b ≤ℤ c → a ≤ℤ c
≤ℤ_trans a b c h k = omega arith

-- Sums and differences that fit are the true ones.
pub add64-pos : (a b : ℕ) → a + b < two63 → add64 (pos a) (pos b) ≡ pos (a + b)
unfolding add64 ◌+ℤ◌
add64-pos a b h =
    let exact : sub_ℕ (a + b) 0 ≡ pos (a + b) = ground arith in
    ground (arith, wrap64_lem (pos (a + b)))

pub sub64-pos : (a b : ℕ) → b ≤ a → a < two63 → sub64 (pos a) (pos b) ≡ pos (a - b)
unfolding sub64 ◌-ℤ◌
sub64-pos a b h k = ground (arith, wrap64_lem (pos (a - b)))

pub pos-pos_part : (a : ℤ) → pos 0 ≤ℤ a → a ≡ pos (pos_part a)
pos-pos_part (pos n) h = cc
pos-pos_part (negsuc n) h = absurd (omega arith)

pub mul64-pos : (a b : ℕ) → a * b < two63 → mul64 (pos a) (pos b) ≡ pos (a * b)
unfolding mul64 ◌*ℤ◌
mul64-pos a b h =
    let exact : sub_ℕ (a * b + 0 * 0) (a * 0 + 0 * b) ≡ pos (a * b) = ground arith in
    ap wrap64 exact ∙ wrap64_lem (pos (a * b)) h
