-- ===== src/Worktrees/Rows.antt =====
-- internal/worktrees/worktrees.go: ParseWorktreeList, the rows of `git worktree list --porcelain`.
use noo_noo.Common.{
  Bool, List, Option, [], false, if◌then◌else◌, none, some, true, ℕ, ◌++◌, ◌==◌, ◌||◌, ◌∷◌,
}
use noo_noo.Leaks.Text.{Bytes, bytes_eq, codes, split_on}

pub record Info : Type 0 where
  pub wt_path : Bytes
  pub head : Bytes
  pub branch : Bytes
  pub detached : Bool
  pub locked : Bool
  pub prunable : Bool
  pub primary : Bool

-- strings.CutPrefix: what stands behind the prefix
unfoldable pub cut_prefix : Bytes → Bytes → Option Bytes
cut_prefix [] s = some s
cut_prefix (p ∷ ps) [] = none
cut_prefix (p ∷ ps) (c ∷ s) = let rest = cut_prefix ps s in if p == c then rest else none

abbrev pub is_some {ℓ} : {A : Type ℓ} → Option A → Bool
is_some none = false
is_some (some a) = true

-- strings.TrimPrefix
abbrev pub trim_prefix : Bytes → Bytes → Bytes
trim_prefix p s = elim (cut_prefix p s) [ none ↦ s | some rest ↦ rest ]

-- strings.TrimRight(line, "\r")
abbrev pub put_trimmed : ℕ → Bytes → Bytes
put_trimmed c [] = if c == 13 then [] else c ∷ []
put_trimmed c (d ∷ s) = c ∷ d ∷ s

unfoldable pub trim_cr : Bytes → Bytes
trim_cr [] = []
trim_cr (c ∷ s) = put_trimmed c (trim_cr s)

-- the line is the word, or begins with it and a blank
abbrev pub is_flag : Bytes → Bytes → Bool
is_flag word line = bytes_eq line word || is_some (cut_prefix (word ++ b' ' ∷ []) line)

-- a line of the row that is open
unfoldable pub read_line : Bytes → Info → Info
unfolding cut_prefix
read_line line cur = elim (cut_prefix (codes "HEAD ") line) [
  | some sha ↦ record cur { head = sha }
  | none ↦ elim (cut_prefix (codes "branch ") line) [
    | some ref ↦ record cur { branch = trim_prefix (codes "refs/heads/") ref }
    | none ↦
        if bytes_eq line (codes "detached")
        then record cur { detached = true }
        else if is_flag (codes "locked") line
        then record cur { locked = true }
        else if is_flag (codes "prunable") line
        then record cur { prunable = true }
        else cur
  ]
]

abbrev pub new_row : Bytes → Bool → Info
new_row path first = record {
  wt_path = path;
  head = [];
  branch = [];
  detached = false;
  locked = false;
  prunable = false;
  primary = first;
}

-- flush
abbrev pub flush : List Info → Option Info → List Info
flush list none = list
flush list (some cur) = list ++ cur ∷ []

abbrev pub is_nil : List Info → Bool
is_nil [] = true
is_nil (i ∷ is) = false

abbrev pub read_open : Bytes → Option Info → Option Info
read_open line none = none
read_open line (some cur) = some (read_line line cur)

-- the loop over the lines
unfoldable pub parse_lines : List Bytes → List Info → Option Info → List Info
unfolding read_line trim_cr
parse_lines [] list cur = flush list cur
parse_lines (raw ∷ lines) list cur =
    let line = trim_cr raw in
    elim (cut_prefix (codes "worktree ") line) [
      | some path ↦
          let list' = flush list cur in parse_lines lines list' (some (new_row path (is_nil list')))
      | none ↦ parse_lines lines list (read_open line cur)
    ]

unfoldable pub parse_worktree_list : Bytes → List Info
unfolding parse_lines split_on
parse_worktree_list out = parse_lines (split_on 10 out) [] none
