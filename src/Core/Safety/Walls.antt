-- ===== src/Core/Safety/Walls.antt =====
-- What a permitted deletion has passed: the walls of CanDelete, said of the path's components.
use noo_noo.Common.{
  Any, Bool-cases, List, Option, Option-cases, String, [], arith, eq-of_str_eq, false, inl, inr,
  none, refl, some, str_eq, str_eq-of_eq, true, ◌++◌, ◌↔◌, ◌∷◌, ◌≡◌,
}
use noo_noo.Core.Paths.{abs_path, is_inside, rel, starts_dotdot}
use noo_noo.Core.Safety.{
  Safety, can_delete, check_parts, has_blocked_part, in_system_area, is_under,
}

-- The target lies strictly below the root, by a first step that does not begin with "..".
abbrev pub Below : List String → List String → Type 0
Below root target =
    (p : String) × (ps : List String) × (target ≡ root ++ p ∷ ps) × (starts_dotdot p ≡ false)

rel_below :
    (root : List String) (p : String) (ps : List String) → rel root (root ++ p ∷ ps) ≡ p ∷ ps
unfolding rel
rel_below [] p ps = refl
rel_below (b ∷ bs) p ps = rw (str_eq-of_eq b b refl) (rel_below bs p ps)

Below-of_inside :
    (root target : List String) → is_inside (rel root target) ≡ true → Below root target
unfolding rel
Below-of_inside [] [] h = cc
Below-of_inside [] (p ∷ ps) h = (p, ps, refl, ground arith)
Below-of_inside (b ∷ bs) [] h = cc
Below-of_inside (b ∷ bs) (t ∷ ts) h = elim (Bool-cases (str_eq b t)) [
  | inl e ↦
      let (p, ps, q, d) = Below-of_inside bs ts (rw e at h) in
      (p, ps, cc (eq-of_str_eq b t e, q), d)
  | inr e ↦ cc (rw e at h)
]

inside-of_Below :
    (root target : List String) → Below root target → is_inside (rel root target) ≡ true
inside-of_Below root target (p, ps, q, d) = rw (q, rel_below root p ps) (ground arith)

-- Rel stays inside exactly where the target lies below the root.
pub inside_iff :
    (root target : List String) → (is_inside (rel root target) ≡ true) ↔ Below root target
inside_iff root target = (Below-of_inside root target, inside-of_Below root target)

pub is_under-Any :
    (roots : List (List String)) (parts : List String)
    → is_under roots parts ≡ true
    → Any (λ r. Below r parts) roots
is_under-Any [] parts h = cc
is_under-Any (r ∷ rs) parts h = elim (Bool-cases (is_inside (rel r parts))) [
  | inl e ↦ inl (Below-of_inside r parts e)
  | inr e ↦ inr (is_under-Any rs parts (rw e at h))
]

Any-is_under :
    (roots : List (List String)) (parts : List String)
    → Any (λ r. Below r parts) roots
    → is_under roots parts ≡ true
Any-is_under [] parts h = elim h [ ]
Any-is_under (r ∷ rs) parts (inl b) = rw (inside-of_Below r parts b)
Any-is_under (r ∷ rs) parts (inr b) = ground (arith, Any-is_under rs parts b)

-- The path resolves, is in no system area, has no blocked component, and lies below a root.
pub record IsDeletable (cwd : Option String) (s : Safety) (path : String) : Type 0 where
  pub parts : List String
  pub resolves : abs_path cwd path ≡ some parts
  pub no_system : in_system_area parts ≡ false
  pub no_blocked : has_blocked_part s.blocked_names parts ≡ false
  pub below : Any (λ r. Below r parts) s.roots

check_parts-none :
    (s : Safety) (parts : List String)
    → check_parts s parts ≡ none
    → (in_system_area parts ≡ false)
      × (has_blocked_part s.blocked_names parts ≡ false)
      × (is_under s.roots parts ≡ true)
check_parts-none s parts h = elim (Bool-cases (in_system_area parts)) [
  | inl e ↦ cc (rw e at h)
  | inr e ↦ elim (Bool-cases (has_blocked_part s.blocked_names parts)) [
    | inl b ↦ cc (rw (e, b) at h)
    | inr b ↦ elim (Bool-cases (is_under s.roots parts)) [
      | inl u ↦ (e, b, u)
      | inr u ↦ cc (rw (e, b, u) at h)
    ]
  ]
]

can_delete-cases :
    (cwd : Option String) (s : Safety) (path : String)
    → can_delete cwd s path ≡ none
    → IsDeletable cwd s path
unfolding can_delete
can_delete-cases cwd s path h = elim (Option-cases (abs_path cwd path)) [
  | inl e ↦ cc (rw (e, can_delete) at h)
  | inr (parts, e) ↦
      let (a, b, u) = check_parts-none s parts (rw (e, can_delete) at h) in
      record {
        parts = parts;
        resolves = e;
        no_system = a;
        no_blocked = b;
        below = is_under-Any s.roots parts u;
      }
]

IsDeletable-can_delete :
    (cwd : Option String) (s : Safety) (path : String)
    → IsDeletable cwd s path
    → can_delete cwd s path ≡ none
unfolding can_delete
IsDeletable-can_delete cwd s path d =
    rw (d.resolves, can_delete, d.no_system, d.no_blocked, Any-is_under s.roots d.parts d.below)
      refl

-- CanDelete permits a path exactly when it resolves to a path in no system area and with no
-- blocked component that lies strictly below one of the roots, by a step that does not begin with
-- two dots.
pub can_delete_iff :
    (cwd : Option String) (s : Safety) (path : String)
    → (can_delete cwd s path ≡ none) ↔ IsDeletable cwd s path
can_delete_iff cwd s path = (can_delete-cases cwd s path, IsDeletable-can_delete cwd s path)
