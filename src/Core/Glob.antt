-- ===== src/Core/Glob.antt =====
-- path/filepath: Match, for patterns of the wildcards `*` and `?` and of plain characters, as the
-- signatures and the safety predicate use it. A class in brackets and an escape are not read.
pub mod Relation
pub mod Depth
use Prim.Native.Char.{code}
use noo_noo.Common.{Bool, List, String, [], false, if◌then◌else◌, true, ◌==◌, ◌∷◌}

-- A wildcard takes no slash. The first character of a name that a star takes is tried after the
-- empty text.
unfoldable pub glob_match : String → String → Bool
glob_match String.[] String.[] = true
glob_match String.[] (String.◌∷◌ d s) = false
glob_match (String.◌∷◌ c p) String.[] =
    let rest = glob_match p String.[] in if code c == b'*' then rest else false
glob_match (String.◌∷◌ c p) (String.◌∷◌ d s) =
    let skip = glob_match p (String.◌∷◌ d s) in
    let take = glob_match (String.◌∷◌ c p) s in
    let one = glob_match p s in
    if code c == b'*'
    then (if skip then true else if code d == b'/' then false else take)
    else if code c == b'?'
    then (if code d == b'/' then false else one)
    else if code c == code d
    then one
    else false

-- one of the patterns matches
abbrev pub any_match : List String → String → Bool
any_match [] name = false
any_match (g ∷ gs) name = let rest = any_match gs name in if glob_match g name then true else rest
