-- ===== src/Core/Glob/Depth.antt =====
-- A name that a pattern matches lies as deep as the pattern is written.
use Prim.Native.Char.{code}
use noo_noo.Common.{String, arith, if◌then◌else◌, refl, suc, ℕ, ◌==◌, ◌≡◌}
use noo_noo.Core.Glob.Relation.{Matches, any_one, empty, plain, star_more, star_none}

-- how many slashes a text has
abbrev pub slashes : String → ℕ
slashes String.[] = 0
slashes (String.◌∷◌ c s) = if code c == b'/' then suc (slashes s) else slashes s

pub Matches-slashes : (p s : String) → Matches p s → slashes p ≡ slashes s
Matches-slashes _ _ empty = refl
Matches-slashes _ _ (star_none c p s h m) = ground (arith, Matches-slashes p s m)
Matches-slashes _ _ (star_more c d p s h k m) = ground (arith, Matches-slashes (String.◌∷◌ c p) s m)
Matches-slashes _ _ (any_one c d p s h k m) = ground (arith, Matches-slashes p s m)
Matches-slashes _ _ (plain c d p s h k e m) = ground (arith, Matches-slashes p s m)
