-- ===== src/Leaks/Family/Handle.antt =====
-- A family's handle is read back as the family's key.
use mathlib.Core.List.{append-nil}
use noo_noo.Common.{
  Bool, Bool-cases, Option, Option-cases, [], ap, arith, false, inl, inr, none, not, refl, some,
  true, ℕ, ◌&&◌, ◌++◌, ◌∙◌, ◌∷◌, ◌≡◌, ◌⊎◌,
}
use noo_noo.Leaks.Text.{Bytes, is_digit}
use noo_noo.Leaks.Family.{
  FamilyKey, digits_key, family_key_of, handle_base, is_empty, is_random, is_sep, keep_first,
  matches_digits, no_sep, parse_handle_base, put_front, random_key, split_last, split_tail,
  starred_key, stem_key,
}

split_last-append : (s : Bytes) (c : ℕ) → split_last (s ++ c ∷ []) ≡ some (s, c)
unfolding split_last
split_last-append [] c = refl
split_last-append (d ∷ s) c = ap (keep_first d) (split_last-append s c)

-- What the last byte of a longer text is.
keep_first-some :
    (d : ℕ) (o : Option (Bytes × ℕ)) (init : Bytes) (c : ℕ)
    → keep_first d o ≡ some (init, c)
    → ((o ≡ none) × (init ≡ []) × (c ≡ d)) ⊎ ((i : Bytes) × (o ≡ some (i, c)) × (init ≡ d ∷ i))
keep_first-some d none init c h = inl (refl, ground arith, ground arith)
keep_first-some d (some (i, last)) init c h = inr (i, ground arith, ground arith)

split_last-none : (s : Bytes) → split_last s ≡ none → s ≡ []
unfolding split_last
split_last-none [] h = refl
split_last-none (d ∷ s) h = elim (Option-cases (split_last s)) [
  | inl e ↦ cc (rw e at h)
  | inr (p, e) ↦ cc (rw e at h)
]

append-split_last : (s init : Bytes) (c : ℕ) → split_last s ≡ some (init, c) → s ≡ init ++ c ∷ []
unfolding split_last
append-split_last [] init c h = cc
append-split_last (d ∷ s) init c h = elim (keep_first-some d (split_last s) init c h) [
  | inl (none_left, first, same) ↦ rw (first, same, split_last-none s none_left) refl
  | inr (i, more, longer) ↦ rw longer (ap (λ t. d ∷ t) (append-split_last s i c more))
]

put_front-last :
    (p : ℕ → Bool) (d : ℕ) (q : Bytes × Bytes) (init : Bytes) (c : ℕ)
    → ((i : Bytes) → split_last q.0 ≡ some (i, c) → p c ≡ false)
    → split_last (put_front p d q).0 ≡ some (init, c)
    → p c ≡ false
unfolding split_last
put_front-last p d ([], tail) init c ih h = ground arith
put_front-last p d (x ∷ front, tail) init c ih h =
    elim (keep_first-some d (split_last (x ∷ front)) init c h) [
      | inl (none_left, first, same) ↦ absurd (cc (split_last-none (x ∷ front) none_left))
      | inr (i, more, longer) ↦ ih i more
    ]

split_tail-last :
    (p : ℕ → Bool) (s init : Bytes) (c : ℕ)
    → split_last (split_tail p s).0 ≡ some (init, c)
    → p c ≡ false
unfolding split_tail split_last
split_tail-last p [] init c h = cc
split_tail-last p (d ∷ s) init c h =
    put_front-last p d (split_tail p s) init c (λ i. split_tail-last p s i c) h

abbrev pub lone_prefix : Bytes → Bool
lone_prefix (c ∷ []) = is_sep c
lone_prefix _ = false

-- The prefix is a single separator, and no separator was split off.
abbrev pub is_lone : FamilyKey → Bool
is_lone key = is_empty key.sep && lone_prefix key.prefix

-- A key that a handle shows: its separator is one of the three, or it has none and its prefix ends
-- in another byte.
abbrev IsShown : FamilyKey → Type 0
IsShown key =
    ((key.sep ≡ [])
      × ((init : Bytes) × (d : ℕ) × (key.prefix ≡ init ++ d ∷ []) × (is_sep d ≡ false)))
    ⊎ ((d : ℕ) × (key.sep ≡ d ∷ []) × (is_sep d ≡ true) × (is_empty key.prefix ≡ false))

parse_handle_base-stem :
    (key : FamilyKey) (stem : Bytes)
    → key.prefix ++ key.sep ≡ stem
    → parse_handle_base (handle_base key) ≡ stem_key stem (split_last stem)
unfolding parse_handle_base handle_base
parse_handle_base-stem key stem h = rw h (ap starred_key (split_last-append stem b'*'))

parse_handle_base-shown :
    (key : FamilyKey) → IsShown key → parse_handle_base (handle_base key) ≡ some key
parse_handle_base-shown key (inl (bare, (init, d, ends, other))) =
    let whole : key.prefix ++ key.sep ≡ init ++ d ∷ [] =
      rw (bare, ends) (append-nil (init ++ d ∷ [])) in
    parse_handle_base-stem key (init ++ d ∷ []) whole
    ∙ rw (split_last-append init d, other) (ground arith)
parse_handle_base-shown key (inr (d, one, is, full)) =
    let whole : key.prefix ++ key.sep ≡ key.prefix ++ d ∷ [] = rw one refl in
    parse_handle_base-stem key (key.prefix ++ d ∷ []) whole
    ∙ rw (split_last-append key.prefix d, is, full) (ground arith)

-- The key of a prefix with digits is shown, unless the prefix is a separator alone.
digits_key-IsShown :
    (front init : Bytes) (c : ℕ)
    → front ≡ init ++ c ∷ []
    → is_lone (digits_key front (some (init, c))) ≡ false
    → IsShown (digits_key front (some (init, c)))
digits_key-IsShown front (d ∷ init) c h lone = elim (Bool-cases (is_sep c)) [
  | inl is ↦ rw is (inr (c, refl, is, refl))
  | inr other ↦ rw other (inl (refl, (d ∷ init, c, h, other)))
]
digits_key-IsShown front [] c h lone = inl (refl, ([], c, h, rw h at lone))

random_key-IsShown :
    (name init : Bytes) (c : ℕ) (tail : Bytes) (key : FamilyKey)
    → split_last (split_tail no_sep name).0 ≡ some (init, c)
    → random_key (some (init, c)) tail ≡ some key
    → IsShown key
random_key-IsShown name init c tail key last h =
    let is : is_sep c ≡ true = ground (arith, split_tail-last no_sep name init c last) in
    elim (Bool-cases (not (is_empty init) && is_random tail)) [
      | inr named ↦ cc (rw named at h)
      | inl drawn ↦
          let made : some (record { prefix = init; sep = c ∷ [] }) ≡ some key = rw drawn at h in
          inr (c, ground arith, is, ground arith)
    ]

-- Every key of a name is shown, unless it is a separator alone.
family_key_of-IsShown :
    (name : Bytes) (key : FamilyKey)
    → family_key_of name ≡ some key
    → is_lone key ≡ false
    → IsShown key
unfolding family_key_of
family_key_of-IsShown name key h lone =
    let front = (split_tail is_digit name).0 in
    let digits = (split_tail is_digit name).1 in
    elim (Bool-cases (matches_digits (split_last front) digits)) [
      | inl found ↦ elim (Option-cases (split_last front)) [
        | inl bare ↦ ground arith
        | inr ((init, c), ends) ↦
            let same : digits_key front (some (init, c)) ≡ key = ground arith in
            rw (← same) (
              digits_key-IsShown front init c (append-split_last front init c ends)
                (rw (← same) at lone))
      ]
      | inr missed ↦ elim (Option-cases (split_last (split_tail no_sep name).0)) [
        | inl bare ↦ ground arith
        | inr ((init, c), ends) ↦
            random_key-IsShown name init c (split_tail no_sep name).1 key ends (ground arith)
      ]
    ]

-- The last element of a family's handle is read back as the key of the family, if the key is that
-- of a name and is not a separator alone.
pub parse-handle_base :
    (name : Bytes) (key : FamilyKey)
    → family_key_of name ≡ some key
    → is_lone key ≡ false
    → parse_handle_base (handle_base key) ≡ some key
parse-handle_base name key h lone =
    parse_handle_base-shown key (family_key_of-IsShown name key h lone)
