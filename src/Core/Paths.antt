-- ===== src/Core/Paths.antt =====
-- path/filepath on a Unix: Abs, Clean and Rel, as far as internal/core and internal/autoclean use
-- them. A rooted clean path is the list of its components, so "/" is the empty list.
use Prim.Native.Char.{code}
use noo_noo.Common.{
  Bool, List, Option, String, [], concat_text, false, if◌then◌else◌, none, not, some, str_eq, ◌&&◌,
  ◌++◌, ◌==◌, ◌||◌, ◌∷◌,
}

-- the parts of a text between its slashes; the accumulator is the part that is being read, reversed
abbrev pub rev_text : String → String → String
rev_text String.[] acc = acc
rev_text (String.◌∷◌ c s) acc = rev_text s (String.◌∷◌ c acc)

split_from : String → String → List String
split_from String.[] acc = rev_text acc String.[] ∷ []
split_from (String.◌∷◌ c s) acc =
    let here = rev_text acc String.[] ∷ split_from s String.[] in
    let further = split_from s (String.◌∷◌ c acc) in if code c == b'/' then here else further

unfoldable pub split : String → List String
unfolding split_from
split s = split_from s String.[]

abbrev pub is_rooted : String → Bool
is_rooted String.[] = false
is_rooted (String.◌∷◌ c s) = code c == b'/'

-- Clean of a rooted path: "." and empty parts go, ".." takes the part before it, if there is one
abbrev pub drop_head : List String → List String
drop_head [] = []
drop_head (x ∷ xs) = xs

abbrev pub push_part : String → List String → List String
push_part p done =
    if str_eq p "" || str_eq p "." then done else if str_eq p ".." then drop_head done else p ∷ done

-- `done` holds the parts so far, the last one first
unfoldable pub clean_from : List String → List String → List String
clean_from done [] = done
clean_from done (p ∷ ps) = clean_from (push_part p done) ps

abbrev pub rev_parts : List String → List String → List String
rev_parts [] acc = acc
rev_parts (x ∷ xs) acc = rev_parts xs (x ∷ acc)

unfoldable pub clean_parts : List String → List String
unfolding clean_from
clean_parts ps = rev_parts (clean_from [] ps) []

-- Abs of a path, given the working directory, which is only asked for where the path is relative
unfoldable pub abs_path : Option String → String → Option (List String)
unfolding split clean_parts
abs_path cwd p =
    if is_rooted p
    then some (clean_parts (split p))
    else elim cwd [ none ↦ none | some d ↦ some (clean_parts (split d ++ split p)) ]

-- Rel between rooted clean paths: what the base has more becomes "..". "." is the empty list.
abbrev pub ups : List String → List String → List String
ups [] rest = rest
ups (b ∷ bs) rest = ".." ∷ ups bs rest

unfoldable pub rel : List String → List String → List String
rel [] target = target
rel (b ∷ bs) [] = ups (b ∷ bs) []
rel (b ∷ bs) (t ∷ ts) =
    let deeper = rel bs ts in if str_eq b t then deeper else ups (b ∷ bs) (t ∷ ts)

-- strings.HasPrefix(part, "..")
abbrev pub starts_dotdot : String → Bool
starts_dotdot (String.◌∷◌ c (String.◌∷◌ d s)) = code c == b'.' && code d == b'.'
starts_dotdot _ = false

-- !strings.HasPrefix(rel, "..") && rel != "."
abbrev pub is_inside : List String → Bool
is_inside [] = false
is_inside (p ∷ ps) = not (starts_dotdot p)

-- the text of a clean rooted path
abbrev pub join_parts : List String → String
join_parts [] = ""
join_parts (p ∷ ps) = concat_text "/" (concat_text p (join_parts ps))

abbrev pub path_text : Option (List String) → String
path_text none = ""
path_text (some []) = "/"
path_text (some (p ∷ ps)) = join_parts (p ∷ ps)
