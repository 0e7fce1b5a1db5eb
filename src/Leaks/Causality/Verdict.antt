-- ===== src/Leaks/Causality/Verdict.antt =====
-- A tree is found stale exactly when every match is accounted for by a process of another birth.
use noo_noo.Common.{
  All, Bool-cases, List, Option, Option-cases, [], arith, elem_of, false, inl, inr, map, refl, some,
  true, ◌↔◌, ◌∷◌, ◌≡◌, ◌≢◌, ◌⊎◌,
}
use noo_noo.Common.Int.{pos, ℤ, ◌-ℤ◌, ◌≤ℤ◌}
use noo_noo.Leaks.Text.{Bytes, bytes_eq}
use noo_noo.Leaks.Causality.{
  LsofRow, Starts, any_born, born_with, causal_margin, causal_verdict, collect_starts, txt,
}

eq-of_bytes_eq : (a b : Bytes) → bytes_eq a b ≡ true → a ≡ b
eq-of_bytes_eq [] [] h = refl
eq-of_bytes_eq [] (d ∷ t) h = cc
eq-of_bytes_eq (c ∷ s) [] h = cc
eq-of_bytes_eq (c ∷ s) (d ∷ t) h = ground (arith, eq-of_bytes_eq s t)

bytes_eq_refl : (a : Bytes) → bytes_eq a a ≡ true
bytes_eq_refl [] = refl
bytes_eq_refl (c ∷ s) = ground (arith, bytes_eq_refl s)

module _ (start : Bytes → Option ℤ) (birth : ℤ) where
  -- The row is a text mapping of a named process that started outside the margin.
  abbrev pub IsAccounted : LsofRow → Type 0
  IsAccounted r =
      (r.pid ≢ []) × (r.fd ≡ txt) × ((t : ℤ) × (start r.pid ≡ some t) × (born_with birth t ≡ false))

  -- The map holds start times that the oracle gave.
  abbrev IsOfOracle : Starts → Type 0
  IsOfOracle starts = All (λ p. start p.0 ≡ some p.1) starts

  known_start :
      (pid : Bytes) (starts : Starts)
      → IsOfOracle starts
      → elem_of bytes_eq pid (map (λ p. p.0) starts) ≡ true
      → any_born birth starts ≡ false
      → (t : ℤ) × (start pid ≡ some t) × (born_with birth t ≡ false)
  known_start pid [] o h k = cc
  known_start pid (p ∷ ps) o h k = elim (Bool-cases (bytes_eq p.0 pid)) [
    | inl e ↦ (p.1, rw (← eq-of_bytes_eq p.0 pid e) o.0, ground arith)
    | inr e ↦ known_start pid ps o.1 (ground arith) (ground arith)
  ]

  collect_starts_sound :
      (rs : List LsofRow) (starts out : Starts)
      → IsOfOracle starts
      → collect_starts start rs starts ≡ some out
      → any_born birth out ≡ false
      → All IsAccounted rs × (any_born birth starts ≡ false)
  unfolding collect_starts
  collect_starts_sound [] starts out o h k = ground arith
  collect_starts_sound (r ∷ rs) starts out o h k = elim (Bool-cases (bytes_eq r.pid [])) [
    | inl empty ↦ ground arith
    | inr named ↦ elim (Bool-cases (bytes_eq r.fd txt)) [
      | inr other ↦ ground arith
      | inl text ↦
          let is_named : r.pid ≢ [] = λ e. ground (arith, bytes_eq_refl r.pid) in
          let is_text = eq-of_bytes_eq r.fd txt text in
          elim (Bool-cases (elem_of bytes_eq r.pid (map (λ p. p.0) starts))) [
            | inl known ↦
                let (rest, below) = collect_starts_sound rs starts out o (ground arith) k in
                (((is_named, is_text, known_start r.pid starts o known below), rest), below)
            | inr fresh ↦ elim (Option-cases (start r.pid)) [
              | inl lost ↦ ground arith
              | inr (t, got) ↦
                  let (rest, below) =
                    collect_starts_sound rs ((r.pid, t) ∷ starts) out (got, o) (ground arith) k in
                  (((is_named, is_text, (t, got, ground arith)), rest), ground arith)
            ]
          ]
    ]
  ]

  collect_starts_complete :
      (rs : List LsofRow) (starts : Starts)
      → IsOfOracle starts
      → All IsAccounted rs
      → any_born birth starts ≡ false
      → (out : Starts) × (collect_starts start rs starts ≡ some out) × (any_born birth out ≡ false)
  unfolding collect_starts
  collect_starts_complete [] starts o h k = (starts, refl, k)
  collect_starts_complete (r ∷ rs) starts o h k =
      let named : bytes_eq r.pid [] ≡ false = ground (arith, eq-of_bytes_eq r.pid []) in
      let text : bytes_eq r.fd txt ≡ true = rw h.0.1 (bytes_eq_refl txt) in
      elim (Bool-cases (elem_of bytes_eq r.pid (map (λ p. p.0) starts))) [
        | inl known ↦ rw (named, text, known) (collect_starts_complete rs starts o h.1 k)
        | inr fresh ↦
            let (t, got, apart) = h.0.2 in
            rw (named, text, fresh, got)
              (collect_starts_complete rs ((r.pid, t) ∷ starts) (got, o) h.1 (ground arith))
      ]

-- The rows leave no process that the tree may belong to.
abbrev pub AreAliases : List LsofRow → (Bytes → Option ℤ) → ℤ → ℤ → Type 0
AreAliases rows start birth now =
    (rows ≡ []) ⊎ ((pos causal_margin ≤ℤ now -ℤ birth) × All (IsAccounted start birth) rows)

stale-AreAliases :
    (rows : List LsofRow) (start : Bytes → Option ℤ) (birth now : ℤ)
    → causal_verdict rows start birth now ≡ true
    → AreAliases rows start birth now
unfolding causal_verdict
stale-AreAliases [] start birth now h = inl refl
stale-AreAliases (r ∷ rs) start birth now h =
    elim (Option-cases (collect_starts start (r ∷ rs) [])) [
      | inl lost ↦ ground arith
      | inr (out, got) ↦
          inr (
            ground arith,
            (collect_starts_sound start birth (r ∷ rs) [] out tt got (ground arith)).0,
          )
    ]

AreAliases-stale :
    (rows : List LsofRow) (start : Bytes → Option ℤ) (birth now : ℤ)
    → AreAliases rows start birth now
    → causal_verdict rows start birth now ≡ true
unfolding causal_verdict
AreAliases-stale [] start birth now h = refl
AreAliases-stale (r ∷ rs) start birth now (inl h) = cc
AreAliases-stale (r ∷ rs) start birth now (inr (old, h)) =
    let (out, got, none_born) = collect_starts_complete start birth (r ∷ rs) [] tt h refl in
    ground arith

-- The causality verdict is stale exactly when there is no row, or the tree is at least as old as
-- the margin and every row is a text mapping of a named process whose start is known and lies
-- outside the margin around the tree's birth.
pub causal_verdict_iff :
    (rows : List LsofRow) (start : Bytes → Option ℤ) (birth now : ℤ)
    → (causal_verdict rows start birth now ≡ true) ↔ AreAliases rows start birth now
causal_verdict_iff rows start birth now =
    (stale-AreAliases rows start birth now, AreAliases-stale rows start birth now)
