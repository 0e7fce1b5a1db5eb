-- ===== src/Common/Lists.antt =====
-- Lists measured by the native numbers, association lists, and predicates by recursion.
use Prim.Native.Nat.{ℕ, suc, ◌+◌}
use mathlib.Core.Path.{◌≡◌, refl}
use mathlib.Core.Logic.{◌⊎◌, inl, inr}
use mathlib.Core.Bool.{Bool, true, false}
use mathlib.Core.List.{List, [], ◌∷◌, ◌++◌}
use noo_noo.Common.Tests.{Bool-cases, if◌then◌else◌}
use native.Mathlib.Omega.{arith}

module _ {ℓ} {A : Type ℓ} where
  abbrev pub length : List A → ℕ
  length [] = 0
  length (x ∷ xs) = suc (length xs)

  pub length-append : (xs ys : List A) → length (xs ++ ys) ≡ length xs + length ys
  length-append [] ys = omega arith
  length-append (x ∷ xs) ys = omega (arith, length-append xs ys)

module _ {ℓ} {A : Type ℓ} (P : A → Type 0) where
  -- every entry satisfies P
  abbrev pub All : List A → Type 0
  All [] = Unit
  All (x ∷ xs) = P x × All xs

  -- some entry satisfies P
  abbrev pub Any : List A → Type 0
  Any [] = ⊥
  Any (x ∷ xs) = P x ⊎ Any xs

  pub All-append : (xs ys : List A) → All xs → All ys → All (xs ++ ys)
  All-append [] ys h k = k
  All-append (x ∷ xs) ys h k = (h.0, All-append xs ys h.1 k)

  pub Any-append_left : (xs ys : List A) → Any xs → Any (xs ++ ys)
  Any-append_left [] ys h = elim h [ ]
  Any-append_left (x ∷ xs) ys (inl h) = inl h
  Any-append_left (x ∷ xs) ys (inr h) = inr (Any-append_left xs ys h)

  pub Any-append_last : (xs : List A) (y : A) → P y → Any (xs ++ y ∷ [])
  Any-append_last [] y h = inl h
  Any-append_last (x ∷ xs) y h = inr (Any-append_last xs y h)

module _ {ℓ} {A : Type ℓ} where
  -- the entries that pass a test, in order
  abbrev pub keep_if : (A → Bool) → List A → List A
  keep_if p [] = []
  keep_if p (x ∷ xs) = let rest = keep_if p xs in if p x then x ∷ rest else rest

  pub keep_if-All :
      (p : A → Bool) (P : A → Type 0) (xs : List A)
      → ((x : A) → p x ≡ true → P x)
      → All P (keep_if p xs)
  keep_if-All p P [] h = tt
  keep_if-All p P (x ∷ xs) h = elim (Bool-cases (p x)) [
    | inl e ↦ rw e (h x e, keep_if-All p P xs h)
    | inr e ↦ rw e (keep_if-All p P xs h)
  ]

  abbrev pub elem_of : (A → A → Bool) → A → List A → Bool
  elem_of same a [] = false
  elem_of same a (x ∷ xs) = if same x a then true else elem_of same a xs

pub All-map {ℓ} :
    {A : Type ℓ} (P Q : A → Type 0) (xs : List A) → ((x : A) → P x → Q x) → All P xs → All Q xs
All-map P Q [] f h = tt
All-map P Q (x ∷ xs) f h = (f x h.0, All-map P Q xs f h.1)

pub All-of_members :
    {A : Type 0} (P : A → Type 0) (xs : List A) → ((x : A) → Any (λ y. y ≡ x) xs → P x) → All P xs
All-of_members P [] f = tt
All-of_members P (x ∷ xs) f = (f x (inl refl), All-of_members P xs (λ y m. f y (inr m)))

pub All-keep_if {ℓ} :
    {A : Type ℓ} (P : A → Type 0) (test : A → Bool) (xs : List A)
    → All P xs
    → All P (keep_if test xs)
All-keep_if P test [] h = tt
All-keep_if P test (x ∷ xs) h = elim (Bool-cases (test x)) [
  | inl e ↦ rw e (h.0, All-keep_if P test xs h.1)
  | inr e ↦ rw e (All-keep_if P test xs h.1)
]

pub Any-keep_if {ℓ} :
    {A : Type ℓ} (P : A → Type 0) (test : A → Bool) (xs : List A)
    → ((x : A) → P x → test x ≡ true)
    → Any P xs
    → Any P (keep_if test xs)
Any-keep_if P test [] f h = elim h [ ]
Any-keep_if P test (x ∷ xs) f (inl h) = rw (f x h) (inl h)
Any-keep_if P test (x ∷ xs) f (inr h) = elim (Bool-cases (test x)) [
  | inl e ↦ rw e (inr (Any-keep_if P test xs f h))
  | inr e ↦ rw e (Any-keep_if P test xs f h)
]
