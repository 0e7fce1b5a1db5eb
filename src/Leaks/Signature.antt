-- ===== src/Leaks/Signature.antt =====
-- internal/leaks/leaks.go: what a leak signature is, and which paths are its leaves. A duration is
-- a number of nanoseconds.
use noo_noo.Common.{
  Bool, List, Option, String, [], concat_text, false, if◌then◌else◌, leb, length, none, some,
  str_eq, true, ℕ, ◌&&◌, ◌++◌, ◌==◌, ◌||◌, ◌∷◌,
}
use noo_noo.Common.Int.{ℤ}
use noo_noo.Core.Glob.{any_match}
use noo_noo.Core.Paths.{abs_path, path_text}
use noo_noo.Leaks.Text.{Bytes, all_bytes, codes, is_digit, split_on}

pub data Staleness : Type 0 where
  when_lsof_empty when_aged when_family_aged when_session_dead : Staleness

pub data AliasRule : Type 0 where
  alias_none alias_launch_causality : AliasRule

pub data ModuleRisk : Type 0 where
  risk_low risk_medium risk_high : ModuleRisk

pub record FamilyRule : Type 0 where
  pub roots : List String
  pub min_members : ℕ
  pub exclude_prefixes : List Bytes

pub record SessionRule : Type 0 where
  pub scratch_dir : String
  pub dead_after : ℤ
  pub entry_idle : ℤ
  pub transcript_window : ℤ

pub record Signature : Type 0 where
  pub sig_id : String
  pub globs : List String
  pub staleness : Staleness
  pub min_age : ℤ
  pub alias_rule : AliasRule
  pub risk : ModuleRisk
  pub family_rule : Option FamilyRule
  pub session_rule : Option SessionRule

-- scratchGlobs
abbrev pub scratch_globs_of : String → List String → List String
scratch_globs_of dir [] = []
scratch_globs_of dir (g ∷ gs) =
    concat_text g (concat_text "/" (concat_text dir "/*")) ∷ scratch_globs_of dir gs

abbrev pub globs_of_rule : Option SessionRule → List String → List String
globs_of_rule none gs = []
globs_of_rule (some r) gs =
    if str_eq r.scratch_dir "" then [] else scratch_globs_of r.scratch_dir gs

unfoldable pub scratch_globs : Signature → List String
scratch_globs sig = globs_of_rule sig.session_rule sig.globs

unfoldable pub all_globs : Signature → List String
unfolding scratch_globs
all_globs sig = sig.globs ++ scratch_globs sig

-- isScratchEntry
unfoldable pub is_scratch_entry : Signature → String → Bool
unfolding scratch_globs
is_scratch_entry sig path = any_match (scratch_globs sig) path

-- signatureFor: the first signature that has a glob for the path
abbrev pub first_match : List Signature → String → Option Signature
first_match [] name = none
first_match (sig ∷ sigs) name =
    let rest = first_match sigs name in if any_match (all_globs sig) name then some sig else rest

unfoldable pub signature_for : Option String → List Signature → String → Option Signature
signature_for cwd sigs path = elim (abs_path cwd path) [
  | none ↦ none
  | some parts ↦ first_match sigs (path_text (some parts))
]

-- isSessionUUID: groups of hexadecimal digits, of these lengths, with dashes between them
abbrev pub is_hex : ℕ → Bool
is_hex c = is_digit c || (leb b'a' c && leb c b'f') || (leb b'A' c && leb c b'F')

abbrev pub hex_groups : List ℕ → List Bytes → Bool
hex_groups [] [] = true
hex_groups (n ∷ ns) (g ∷ gs) = (length g == n) && all_bytes is_hex g && hex_groups ns gs
hex_groups _ _ = false

unfoldable pub is_session_uuid : String → Bool
unfolding split_on
is_session_uuid s = hex_groups (8 ∷ 4 ∷ 4 ∷ 4 ∷ 12 ∷ []) (split_on b'-' (codes s))
