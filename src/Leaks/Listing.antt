-- ===== src/Leaks/Listing.antt =====
-- internal/leaks/family.go: listFamilies and familyForHandle, the families among a directory's
-- children.
use noo_noo.Common.{
  Bool, List, Option, String, [], concat_text, false, if◌then◌else◌, ltb, map, none, not, some,
  str_eq, true, ◌&&◌, ◌++◌, ◌==◌, ◌∷◌,
}
use noo_noo.Common.Int.{ltb_ℤ, ℤ}
use noo_noo.Core.Paths.{clean_parts, path_text, split}
use noo_noo.Leaks.Text.{Bytes, bytes_eq, codes}
use noo_noo.Leaks.Signature.{FamilyRule}
use noo_noo.Leaks.Classify.{Entry, base_name}
use noo_noo.Leaks.Family.{FamilyKey, family_key_of, handle_base, parse_handle_base}
use noo_noo.Common.Sort.{sort_by}

-- what ReadDir and Lstat find of a child; a socket is neither a directory nor regular
pub record Child : Type 0 where
  pub child_name : String
  pub child_entry : Option Entry
  pub plain : Bool

pub record Family : Type 0 where
  pub family_root : String
  pub family_key : FamilyKey
  pub members : List String

abbrev pub starts_with : Bytes → Bytes → Bool
starts_with [] s = true
starts_with (p ∷ ps) [] = false
starts_with (p ∷ ps) (c ∷ s) = if p == c then starts_with ps s else false

-- excludedName
abbrev pub excluded_name : List Bytes → Bytes → Bool
excluded_name [] name = false
excluded_name (ex ∷ exs) name =
    let rest = excluded_name exs name in if starts_with ex name then true else rest

abbrev pub same_key : FamilyKey → FamilyKey → Bool
same_key k l = bytes_eq k.prefix l.prefix && bytes_eq k.sep l.sep

-- filepath.Join of a clean directory and a name
abbrev pub join_path : String → String → String
join_path root name =
    if str_eq root "/" then concat_text "/" name else concat_text root (concat_text "/" name)

-- the entry is of a kind and an owner that a member may have
abbrev pub is_candidate : ℤ → Bool → Option Entry → Bool
is_candidate uid plain none = false
is_candidate uid plain (some e) =
    not e.is_symlink && plain && not (ltb_ℤ e.owner uid) && not (ltb_ℤ uid e.owner)

-- the family that a child joins
unfoldable pub joins : ℤ → FamilyRule → (String → Bool) → String → Child → Option FamilyKey
joins uid rule skip root c =
    if excluded_name rule.exclude_prefixes (codes c.child_name)
    then none
    else elim (family_key_of (codes c.child_name)) [
      | none ↦ none
      | some key ↦
          if skip (join_path root c.child_name)
          then none
          else if is_candidate uid c.plain c.child_entry
          then some key
          else none
    ]

abbrev pub Groups : Type 0
Groups = List (FamilyKey × List String)

-- f.members = append(f.members, p)
abbrev pub add_member : FamilyKey → String → Groups → Groups
add_member key path [] = (key, path ∷ []) ∷ []
add_member key path (g ∷ gs) =
    let rest = add_member key path gs in
    if same_key g.0 key then (g.0, g.1 ++ path ∷ []) ∷ gs else g ∷ rest

unfoldable pub group_children :
    ℤ → FamilyRule → (String → Bool) → String → List Child → Groups → Groups
unfolding joins
group_children uid rule skip root [] gs = gs
group_children uid rule skip root (c ∷ cs) gs = elim (joins uid rule skip root c) [
  | none ↦ group_children uid rule skip root cs gs
  | some key ↦
      group_children uid rule skip root cs (add_member key (join_path root c.child_name) gs)
]

-- the order of texts
abbrev pub bytes_after : Bytes → Bytes → Bool
bytes_after [] t = false
bytes_after (c ∷ s) [] = true
bytes_after (c ∷ s) (d ∷ t) = if c == d then bytes_after s t else ltb d c

abbrev pub family_of : String → FamilyKey × List String → Family
family_of root g = record {
  family_root = root;
  family_key = g.0;
  members = sort_by (λ s t. bytes_after (codes s) (codes t)) g.1;
}

abbrev pub handle_after : Family → Family → Bool
handle_after f g = bytes_after (handle_base f.family_key) (handle_base g.family_key)

-- `none` from ReadDir is no family
unfoldable pub list_families :
    ℤ → FamilyRule → (String → Bool) → String → Option (List Child) → List Family
unfolding group_children sort_by
list_families uid rule skip root none = []
list_families uid rule skip root (some cs) =
    sort_by handle_after (map (family_of root) (group_children uid rule skip root cs []))

-- filepath.Dir of an absolute path with a clean directory, as every handle of a scan has
abbrev pub dir_parts : List String → List String
dir_parts [] = []
dir_parts (p ∷ []) = []
dir_parts (p ∷ q ∷ ps) = p ∷ dir_parts (q ∷ ps)

unfoldable pub dir_name : String → String
unfolding split clean_parts
dir_name path = path_text (some (clean_parts (dir_parts (split path))))

abbrev pub find_family : FamilyKey → List Family → Option Family
find_family key [] = none
find_family key (f ∷ fs) =
    let rest = find_family key fs in if same_key f.family_key key then some f else rest

-- familyForHandle, where `read_dir` is ReadDir and Lstat of its entries
unfoldable pub family_for_handle :
    ℤ → FamilyRule → (String → Option (List Child)) → String → Option Family
unfolding list_families parse_handle_base
family_for_handle uid rule read_dir handle = elim (parse_handle_base (codes (base_name handle))) [
  | none ↦ none
  | some key ↦
      let root = dir_name handle in
      find_family key (list_families uid rule (λ p. false) root (read_dir root))
]
