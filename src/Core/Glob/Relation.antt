-- ===== src/Core/Glob/Relation.antt =====
-- What a pattern means, without an order of search, and that the matcher decides it.
use Prim.Native.Char.{code, Char}
use noo_noo.Common.{Bool-cases, String, arith, inl, inr, refl, true, ◌==◌, ◌↔◌, ◌≡◌, ◌≢◌}
use noo_noo.Core.Glob.{glob_match}

-- A star stands for any text without a slash, a question mark for one character but the slash,
-- and each other character for itself.
pub data Matches : String → String → Type 0 where
  empty : Matches String.[] String.[]
  star_none : (c : Char) (p s : String) → code c ≡ b'*' → Matches p s → Matches (String.◌∷◌ c p) s
  star_more :
      (c d : Char) (p s : String)
      → code c ≡ b'*'
      → code d ≢ b'/'
      → Matches (String.◌∷◌ c p) s
      → Matches (String.◌∷◌ c p) (String.◌∷◌ d s)
  any_one :
      (c d : Char) (p s : String)
      → code c ≡ b'?'
      → code d ≢ b'/'
      → Matches p s
      → Matches (String.◌∷◌ c p) (String.◌∷◌ d s)
  plain :
      (c d : Char) (p s : String)
      → code c ≢ b'*'
      → code c ≢ b'?'
      → code c ≡ code d
      → Matches p s
      → Matches (String.◌∷◌ c p) (String.◌∷◌ d s)

glob_match_complete : (p s : String) → Matches p s → glob_match p s ≡ true
unfolding glob_match
glob_match_complete _ _ empty = refl
glob_match_complete _ _ (star_none c p String.[] h m) =
    ground (arith, glob_match_complete p String.[] m)
glob_match_complete _ _ (star_none c p (String.◌∷◌ d s) h m) =
    ground (arith, glob_match_complete p (String.◌∷◌ d s) m)
glob_match_complete _ _ (star_more c d p s h k m) =
    ground (arith, glob_match_complete (String.◌∷◌ c p) s m)
glob_match_complete _ _ (any_one c d p s h k m) = ground (arith, glob_match_complete p s m)
glob_match_complete _ _ (plain c d p s h k e m) = ground (arith, glob_match_complete p s m)

glob_match_sound : (p s : String) → glob_match p s ≡ true → Matches p s
unfolding glob_match
glob_match_sound String.[] String.[] h = empty
glob_match_sound String.[] (String.◌∷◌ d s) h = cc
glob_match_sound (String.◌∷◌ c p) String.[] h = elim (Bool-cases (code c == b'*')) [
  | inl star ↦ star_none c p String.[] (ground arith) (glob_match_sound p String.[] (ground arith))
  | inr other ↦ ground arith
]
glob_match_sound (String.◌∷◌ c p) (String.◌∷◌ d s) h = elim (Bool-cases (code c == b'*')) [
  | inl star ↦ elim (Bool-cases (glob_match p (String.◌∷◌ d s))) [
    | inl skip ↦
        star_none c p (String.◌∷◌ d s) (ground arith) (glob_match_sound p (String.◌∷◌ d s) skip)
    | inr take ↦
        star_more c d p s (ground arith) (ground arith)
          (glob_match_sound (String.◌∷◌ c p) s (ground arith))
  ]
  | inr other ↦ elim (Bool-cases (code c == b'?')) [
    | inl any ↦ any_one c d p s (ground arith) (ground arith) (glob_match_sound p s (ground arith))
    | inr same ↦
        plain c d p s (ground arith) (ground arith) (ground arith)
          (glob_match_sound p s (ground arith))
  ]
]

-- The matcher accepts a name for a pattern exactly when the pattern's meaning holds of it, in
-- which a star stands for any text without a slash, a question mark for one character but the
-- slash, and each other character for itself.
pub glob_match_iff : (p s : String) → (glob_match p s ≡ true) ↔ Matches p s
glob_match_iff p s = (glob_match_sound p s, glob_match_complete p s)
