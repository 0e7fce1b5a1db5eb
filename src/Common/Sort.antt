-- ===== src/Common/Sort.antt =====
-- A stable insertion sort, which stands for ORDER BY and for sort.Slice, and what it keeps.
use mathlib.Core.Path.{◌≡◌}
use mathlib.Core.Bool.{Bool, true, false}
use mathlib.Core.Logic.{◌⊎◌, inl, inr}
use mathlib.Core.List.{List, [], ◌∷◌, Perm}
use mathlib.Core.List.Perm
use noo_noo.Common.Tests.{Bool-cases, if◌then◌else◌}
use noo_noo.Common.Lists.{All, Any}

module _ {ℓ} {A : Type ℓ} (after : A → A → Bool) where
  -- put x before the first entry that does not come strictly before it
  unfoldable pub insert_by : A → List A → List A
  insert_by x [] = x ∷ []
  insert_by x (y ∷ ys) = if after x y then y ∷ insert_by x ys else x ∷ y ∷ ys

  unfoldable pub sort_by : List A → List A
  sort_by [] = []
  sort_by (x ∷ xs) = insert_by x (sort_by xs)

  -- The sort of a list holds the same entries as often.
  pub insert_by-perm : (x : A) (xs : List A) → Perm (insert_by x xs) (x ∷ xs)
  unfolding insert_by
  insert_by-perm x [] = Perm.refl (x ∷ [])
  insert_by-perm x (y ∷ ys) = elim (Bool-cases (after x y)) [
    | inl h ↦ rw h (Perm.trans (Perm.cons y (insert_by-perm x ys)) (Perm.swap x y ys))
    | inr h ↦ rw h (Perm.refl (x ∷ y ∷ ys))
  ]

  pub sort_by-perm : (xs : List A) → Perm (sort_by xs) xs
  unfolding sort_by
  sort_by-perm [] = Perm.refl []
  sort_by-perm (x ∷ xs) = Perm.trans (insert_by-perm x (sort_by xs)) (Perm.cons x (sort_by-perm xs))

module _ {ℓ} {A : Type ℓ} (after : A → A → Bool) (P : A → Type 0) where
  pub insert_by-All : (x : A) (xs : List A) → P x → All P xs → All P (insert_by after x xs)
  unfolding insert_by
  insert_by-All x [] p h = (p, tt)
  insert_by-All x (y ∷ ys) p h = elim (Bool-cases (after x y)) [
    | inl e ↦ rw e (h.0, insert_by-All x ys p h.1)
    | inr e ↦ rw e (p, h)
  ]

  pub sort_by-All : (xs : List A) → All P xs → All P (sort_by after xs)
  unfolding sort_by
  sort_by-All [] h = tt
  sort_by-All (x ∷ xs) h = insert_by-All x (sort_by after xs) h.0 (sort_by-All xs h.1)

  pub insert_by-Any_self : (x : A) (xs : List A) → P x → Any P (insert_by after x xs)
  unfolding insert_by
  insert_by-Any_self x [] p = inl p
  insert_by-Any_self x (y ∷ ys) p = elim (Bool-cases (after x y)) [
    | inl e ↦ rw e (inr (insert_by-Any_self x ys p))
    | inr e ↦ rw e (inl p)
  ]

  pub insert_by-Any : (x : A) (xs : List A) → Any P xs → Any P (insert_by after x xs)
  unfolding insert_by
  insert_by-Any x [] h = elim h [ ]
  insert_by-Any x (y ∷ ys) h = elim (Bool-cases (after x y)) [
    | inl e ↦ rw e (elim h [ inl p ↦ inl p | inr q ↦ inr (insert_by-Any x ys q) ])
    | inr e ↦ rw e (inr h)
  ]

  pub sort_by-Any : (xs : List A) → Any P xs → Any P (sort_by after xs)
  unfolding sort_by
  sort_by-Any [] h = h
  sort_by-Any (x ∷ xs) (inl p) = insert_by-Any_self x (sort_by after xs) p
  sort_by-Any (x ∷ xs) (inr h) = insert_by-Any x (sort_by after xs) (sort_by-Any xs h)

-- The sort loses nothing and adds nothing.
pub All-insert_by {ℓ} :
    {A : Type ℓ} (after : A → A → Bool) (P : A → Type 0) (x : A) (ys : List A)
    → All P (insert_by after x ys)
    → P x × All P ys
unfolding insert_by
All-insert_by after P x [] h = (h.0, tt)
All-insert_by after P x (y ∷ ys) h = elim (Bool-cases (after x y)) [
  | inl e ↦
      let k = rw e at h in let (px, rest) = All-insert_by after P x ys k.1 in (px, (k.0, rest))
  | inr e ↦ let k = rw e at h in (k.0, k.1)
]

pub All-sort_by {ℓ} :
    {A : Type ℓ} (after : A → A → Bool) (P : A → Type 0) (xs : List A)
    → All P (sort_by after xs)
    → All P xs
unfolding sort_by
All-sort_by after P [] h = tt
All-sort_by after P (x ∷ xs) h =
    let (px, rest) = All-insert_by after P x (sort_by after xs) h in
    (px, All-sort_by after P xs rest)

pub Any-insert_by {ℓ} :
    {A : Type ℓ} (after : A → A → Bool) (P : A → Type 0) (x : A) (ys : List A)
    → Any P (insert_by after x ys)
    → P x ⊎ Any P ys
unfolding insert_by
Any-insert_by after P x [] h = h
Any-insert_by after P x (y ∷ ys) h = elim (Bool-cases (after x y)) [
  | inl e ↦ elim (rw e at h) [
    | inl py ↦ inr (inl py)
    | inr m ↦ elim (Any-insert_by after P x ys m) [ inl px ↦ inl px | inr n ↦ inr (inr n) ]
  ]
  | inr e ↦ rw e at h
]

pub Any-sort_by {ℓ} :
    {A : Type ℓ} (after : A → A → Bool) (P : A → Type 0) (xs : List A)
    → Any P (sort_by after xs)
    → Any P xs
unfolding sort_by
Any-sort_by after P [] h = h
Any-sort_by after P (x ∷ xs) h = elim (Any-insert_by after P x (sort_by after xs) h) [
  | inl px ↦ inl px
  | inr m ↦ inr (Any-sort_by after P xs m)
]

module _ {ℓ} {A : Type ℓ} (after : A → A → Bool) where
  -- No entry comes after one that stands behind it.
  abbrev pub IsSortedBy : List A → Type 0
  IsSortedBy [] = Unit
  IsSortedBy (x ∷ xs) = All (λ y. after x y ≡ false) xs × IsSortedBy xs

-- `after` is a strict order whose complement is transitive
pub record IsOrder {ℓ} {A : Type ℓ} (after : A → A → Bool) : Type ℓ where
  pub asym : (x y : A) → after x y ≡ true → after y x ≡ false
  pub co_trans : (x y z : A) → after x y ≡ false → after y z ≡ false → after x z ≡ false

module _ {ℓ} {A : Type ℓ} (after : A → A → Bool) (o : IsOrder after) where
  All-after :
      (x y : A) (zs : List A)
      → after x y ≡ false
      → All (λ z. after y z ≡ false) zs
      → All (λ z. after x z ≡ false) zs
  All-after x y [] h k = tt
  All-after x y (z ∷ zs) h k = (o.co_trans x y z h k.0, All-after x y zs h k.1)

  insert_by-IsSortedBy :
      (x : A) (xs : List A) → IsSortedBy after xs → IsSortedBy after (insert_by after x xs)
  unfolding insert_by
  insert_by-IsSortedBy x [] h = (tt, tt)
  insert_by-IsSortedBy x (y ∷ ys) h = elim (Bool-cases (after x y)) [
    | inl e ↦ rw e (
      insert_by-All after (λ z. after y z ≡ false) x ys (o.asym x y e) h.0,
      insert_by-IsSortedBy x ys h.1,
    )
    | inr e ↦ rw e ((e, All-after x y ys e h.0), h)
  ]

  pub sort_by-IsSortedBy : (xs : List A) → IsSortedBy after (sort_by after xs)
  unfolding sort_by
  sort_by-IsSortedBy [] = tt
  sort_by-IsSortedBy (x ∷ xs) = insert_by-IsSortedBy x (sort_by after xs) (sort_by-IsSortedBy xs)
