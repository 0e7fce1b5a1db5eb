-- ===== src/Worktrees/Facts.antt =====
-- internal/worktrees/worktrees.go: Classify, gatherFacts and idleFor. git, lsof and the file system
-- are parameters; a time is a number of nanoseconds.
pub mod Finished
use noo_noo.Common.{
  Bool, Option, [], false, if◌then◌else◌, none, not, some, true, ℕ, ◌&&◌, ◌++◌, ◌||◌, ◌∷◌,
}
use noo_noo.Common.Int.{ltb_ℤ, negsuc, pos, ℤ, ◌-ℤ◌}
use noo_noo.Leaks.Text.{Bytes, bytes_eq, codes, is_space, parse_int}
use noo_noo.Worktrees.Rows.{Info, cut_prefix}

pub data WorktreeClass : Type 0 where
  class_active class_obvious class_judgment : WorktreeClass

-- What the calls for one worktree find; `none` is an error. Output of git comes trimmed.
pub record Probes : Type 0 where
  pub status : Bytes → Option Bytes
  pub last_log : Bytes → Option Bytes
  pub remote_contains : Bytes → Option Bytes
  pub count_ahead : Bytes → Option Bytes
  pub mtime : Bytes → Option ℤ
  pub read_file : Bytes → Option Bytes
  pub is_live : Bytes → Bool

-- "N dirty path(s)", made of the status that it keeps, or "status unreadable"
pub data DirtySummary : Type 0 where
  no_summary unreadable : DirtySummary
  dirty_paths : Bytes → DirtySummary

pub record Facts : Type 0 where
  pub info : Info
  pub clean : Bool
  pub dirty_summary : DirtySummary
  pub remote_contained : Bool
  pub ahead_upstream : ℤ
  pub idle_time : ℤ
  pub last_commit : Bytes

-- strings.TrimSpace
unfoldable pub trim_left : Bytes → Bytes
trim_left [] = []
trim_left (c ∷ s) = if is_space c then trim_left s else c ∷ s

abbrev pub put_unless_blank : ℕ → Bytes → Bytes
put_unless_blank c [] = if is_space c then [] else c ∷ []
put_unless_blank c (d ∷ s) = c ∷ d ∷ s

unfoldable pub trim_right : Bytes → Bytes
trim_right [] = []
trim_right (c ∷ s) = put_unless_blank c (trim_right s)

unfoldable pub trim_space : Bytes → Bytes
unfolding trim_left trim_right
trim_space s = trim_right (trim_left s)

-- the newest of the times that could be read; `none` is the zero time
abbrev pub consider : Option ℤ → Option ℤ → Option ℤ
consider newest none = newest
consider none (some t) = some t
consider (some n) (some t) = some (if ltb_ℤ n t then t else n)

abbrev pub join_name : Bytes → Bytes → Bytes
join_name dir name = dir ++ b'/' ∷ name

-- the index that the .git link file points to
abbrev pub index_time : Probes → Option Bytes → Option ℤ
index_time p none = none
index_time p (some text) = elim (cut_prefix (codes "gitdir: ") (trim_space text)) [
  | none ↦ none
  | some dir ↦ p.mtime (join_name dir (codes "index"))
]

abbrev pub since : ℤ → Option ℤ → ℤ
since now none = pos 0
since now (some t) = now -ℤ t

unfoldable pub idle_for : Probes → Bytes → ℤ → ℤ
unfolding trim_space cut_prefix
idle_for p path now =
    let git = join_name path (codes ".git") in
    since now (
      consider (consider (consider none (p.mtime path)) (p.mtime git))
        (index_time p (p.read_file git)))

abbrev pub no_facts : Info → Facts
no_facts wt = record {
  info = wt;
  clean = false;
  dirty_summary = no_summary;
  remote_contained = false;
  ahead_upstream = negsuc 0;
  idle_time = pos 0;
  last_commit = [];
}

abbrev pub text_or_empty : Option Bytes → Bytes
text_or_empty none = []
text_or_empty (some s) = s

abbrev pub is_contained : Option Bytes → Bool
is_contained none = false
is_contained (some out) = not (bytes_eq (trim_space out) [])

abbrev pub read_count : Option Bytes → ℤ
read_count none = negsuc 0
read_count (some out) = elim (parse_int (trim_space out)) [ none ↦ negsuc 0 | some n ↦ n ]

-- the count against the upstream, where a branch is checked out
abbrev pub ahead_of : Probes → Info → ℤ
ahead_of p wt =
    if not wt.detached && not (bytes_eq wt.branch [])
    then read_count (p.count_ahead wt.wt_path)
    else negsuc 0

-- gatherFacts
unfoldable pub gather_facts : Probes → Info → Facts → Facts × Bool
unfolding trim_space parse_int
gather_facts p wt f = elim (p.status wt.wt_path) [
  | none ↦ (record f { dirty_summary = unreadable }, false)
  | some status ↦ (
    record f {
      clean = bytes_eq status [];
      dirty_summary = if bytes_eq status [] then no_summary else dirty_paths status;
      last_commit = text_or_empty (p.last_log wt.wt_path);
      remote_contained = is_contained (p.remote_contains wt.wt_path);
      ahead_upstream = ahead_of p wt;
    },
    true,
  )
]

-- the last walls of Classify
unfoldable pub judge_facts : Probes → Info → Facts × Bool → Facts × WorktreeClass
judge_facts p wt (f, read) =
    if not read
    then (f, class_judgment)
    else if not f.clean || not f.remote_contained || ltb_ℤ (pos 0) f.ahead_upstream
    then (f, class_judgment)
    else if p.is_live wt.wt_path
    then (f, class_active)
    else (f, class_obvious)

unfoldable pub classify_worktree : Probes → Info → ℤ → ℤ → Facts × WorktreeClass
classify_worktree p wt now min_idle =
    let idle = idle_for p wt.wt_path now in
    let f = record (no_facts wt) { idle_time = idle } in
    if wt.primary || wt.locked
    then (no_facts wt, class_active)
    else if wt.prunable
    then (record (no_facts wt) { clean = true; remote_contained = true }, class_obvious)
    else if ltb_ℤ idle min_idle
    then (f, class_active)
    else judge_facts p wt (gather_facts p wt f)
