-- ===== src/Core/Tests.antt =====
-- Runs of the path functions and of CanDelete, and the theorem at a concrete input.
use noo_noo.Core.Paths.{abs_path, is_inside, path_text, rel}
use noo_noo.Core.Safety.{Safety, blocked_part, can_delete, outside_roots, system_area}
use noo_noo.Core.Safety.Walls.{Below, IsDeletable, can_delete_iff, inside_iff}
use noo_noo.Core.Glob.Depth.{slashes}
use noo_noo.Core.Glob.{glob_match}
use noo_noo.Core.LeakTarget.{can_delete_leak_target, leak_system_area, no_glob}
use noo_noo.Core.LeakTarget.Permitted.{
  IsLeakLeaf, can_delete_leak_target-slashes, can_delete_leak_target_iff,
}
use noo_noo.Common.{Any, List, String, [], false, none, refl, some, true, ◌↔◌, ◌∷◌, ◌≡◌}

abbrev walls : Safety
walls = record { roots = ("Users" ∷ "me" ∷ []) ∷ []; blocked_names = ".git" ∷ [] }

cleans : abs_path none "/Users/me/./src//../src/app/" ≡ some ("Users" ∷ "me" ∷ "src" ∷ "app" ∷ [])
unfolding abs_path
cleans = refl

relates : rel ("Users" ∷ "me" ∷ []) ("Users" ∷ "you" ∷ "x" ∷ []) ≡ ".." ∷ "you" ∷ "x" ∷ []
unfolding rel
relates = refl

permits : can_delete none walls "/Users/me/src/node_modules" ≡ none
unfolding can_delete abs_path rel
permits = refl

-- the root itself, a system area, a blocked part and a way out are refused
refuses_root : can_delete none walls "/Users/me" ≡ some outside_roots
unfolding can_delete abs_path rel
refuses_root = refl

refuses_system : can_delete none walls "/Users/../private/tmp" ≡ some system_area
unfolding can_delete abs_path rel
refuses_system = refl

refuses_git : can_delete none walls "/Users/me/src/.git/objects" ≡ some blocked_part
unfolding can_delete abs_path rel
refuses_git = refl

-- a child of a root whose name begins with two dots is refused as well
refuses_dots : can_delete none walls "/Users/me/..cache" ≡ some outside_roots
unfolding can_delete abs_path rel
refuses_dots = refl

can_delete_iff_example :
    (can_delete none walls "/Users/me/src/node_modules" ≡ none)
    ↔ IsDeletable none walls "/Users/me/src/node_modules"
can_delete_iff_example = can_delete_iff none walls "/Users/me/src/node_modules"

inside_iff_example :
    (is_inside (rel ("Users" ∷ []) ("Users" ∷ "me" ∷ [])) ≡ true)
    ↔ Below ("Users" ∷ []) ("Users" ∷ "me" ∷ [])
inside_iff_example = inside_iff ("Users" ∷ []) ("Users" ∷ "me" ∷ [])

-- the leaf of the Chrome signature, and what is above it
abbrev clone_glob : String
clone_glob = "/private/var/folders/*/*/X/*.code_sign_clone/code_sign_clone.??????"

abbrev clone_path : String
clone_path = "/private/var/folders/ab/cd/X/com.google.Chrome.code_sign_clone/code_sign_clone.a1B2c3"

matches_leaf : glob_match clone_glob clone_path ≡ true
unfolding glob_match
matches_leaf = refl

matches_no_parent : glob_match clone_glob "/private/var/folders/ab/cd/X" ≡ false
unfolding glob_match
matches_no_parent = refl

permits_leaf : can_delete_leak_target none (λ ps. some ps) walls clone_path (clone_glob ∷ []) ≡ none
unfolding can_delete_leak_target abs_path glob_match
permits_leaf = refl

-- a link that leads out of the leaves is refused, and so is a system area in small letters
refuses_link :
    can_delete_leak_target none
      (λ ps. some ("Users" ∷ "me" ∷ []))
      walls
      clone_path
      (clone_glob ∷ [])
    ≡ some no_glob
unfolding can_delete_leak_target abs_path glob_match
refuses_link = refl

refuses_small :
    can_delete_leak_target none (λ ps. some ps) walls "/library/x" ("/library/*" ∷ [])
    ≡ some leak_system_area
unfolding can_delete_leak_target abs_path
refuses_small = refl

can_delete_leak_target_iff_example :
    (can_delete_leak_target none (λ ps. some ps) walls clone_path (clone_glob ∷ []) ≡ none)
    ↔ IsLeakLeaf none (λ ps. some ps) walls clone_path (clone_glob ∷ [])
can_delete_leak_target_iff_example =
    can_delete_leak_target_iff none (λ ps. some ps) walls clone_path (clone_glob ∷ [])

abbrev clone_parts : List String
clone_parts =
    "private" ∷ "var" ∷ "folders" ∷ "ab" ∷ "cd" ∷ "X" ∷ "com.google.Chrome.code_sign_clone"
    ∷ "code_sign_clone.a1B2c3" ∷ []

clone_resolves : abs_path none clone_path ≡ some clone_parts
unfolding abs_path
clone_resolves = refl

can_delete_leak_target-slashes_example :
    Any (λ g. slashes g ≡ slashes (path_text (some clone_parts))) (clone_glob ∷ [])
can_delete_leak_target-slashes_example =
    can_delete_leak_target-slashes none (λ ps. some ps) walls clone_path (clone_glob ∷ [])
      permits_leaf clone_parts clone_parts clone_resolves refl
