-- ===== src/Leaks/Tests.antt =====
-- Runs of the leaks module, and the theorems at concrete inputs.
use noo_noo.Common.{
  All, Bool, List, Option, String, [], arith, false, inl, inr, none, refl, some, true, ◌*◌, ◌↔◌,
  ◌∷◌, ◌≡◌,
}
use noo_noo.Common.Int.{mul64, pos, sub64, wrap64, ℤ, ◌*ℤ◌, ◌-ℤ◌}
use noo_noo.Leaks.Text.{Bytes, codes, fields_of, parse_int, unsigned}
use noo_noo.Leaks.Signature.{
  Signature, alias_none, all_globs, is_scratch_entry, is_session_uuid, risk_low, signature_for,
  when_session_dead,
}
use noo_noo.Leaks.Causality.{LsofRow, born_with, causal_verdict, parse_lsof_rows}
use noo_noo.Leaks.Causality.Verdict.{AreAliases, causal_verdict_iff}
use noo_noo.Leaks.Causality.Etime.{parse_etime}
use noo_noo.Leaks.Causality.Etime.Printed.{
  Elapsed, days, parse_etime-print_elapsed, print_elapsed, seconds_of,
}
use noo_noo.Leaks.Classify.{Machine, base_name, classify, inspect}
use noo_noo.Leaks.Classify.Stale.{IsStale, classify_iff}
use noo_noo.Leaks.Family.{family_key_of, handle_base, parse_handle_base}
use noo_noo.Leaks.Family.Handle.{parse-handle_base}
use noo_noo.Leaks.Apply.{LeakAction, LeaksModule, apply_leak, op_delete, went_live}
use noo_noo.Leaks.Apply.Proven.{IsWarranted, apply_leak-IsWarranted}
use noo_noo.Leaks.Apply.Untouched.{apply_leak-untouched}
use noo_noo.Core.Paths.{abs_path}
use noo_noo.Core.Glob.{glob_match}
use noo_noo.Core.LeakTarget.{can_delete_leak_target}

-- causality: a text mapping of a process from an hour before the tree's birth
abbrev rows : List LsofRow
rows = record { pid = codes "81"; fd = codes "txt" } ∷ []

abbrev starts_at_zero : Bytes → Option ℤ
starts_at_zero pid = some (pos 0)

abbrev one_hour : ℤ
one_hour = pos 3600000000000

parses_row : parse_lsof_rows (codes "Chrome  81 me txt REG" ∷ []) ≡ rows
unfolding parse_lsof_rows fields_of parse_int
parses_row = refl

finds_alias : causal_verdict rows starts_at_zero one_hour (pos 7200000000000) ≡ true
unfolding causal_verdict born_with ◌-ℤ◌
finds_alias = refl

finds_creator : causal_verdict rows starts_at_zero (pos 1000) (pos 7200000000000) ≡ false
unfolding causal_verdict born_with ◌-ℤ◌
finds_creator = refl

causal_verdict_iff_example :
    (causal_verdict rows starts_at_zero one_hour (pos 7200000000000) ≡ true)
    ↔ AreAliases rows starts_at_zero one_hour (pos 7200000000000)
causal_verdict_iff_example = causal_verdict_iff rows starts_at_zero one_hour (pos 7200000000000)

-- two days, three hours, four minutes and five seconds
abbrev elapsed : Elapsed
elapsed = days (codes "2") 3 4 5

prints : print_elapsed elapsed ≡ codes "2-03:04:05"
prints = refl

parse_etime-print_elapsed_example :
    parse_etime (print_elapsed elapsed) ≡ some (pos (seconds_of 2 elapsed * 1000000000))
unfolding unsigned
parse_etime-print_elapsed_example =
    parse_etime-print_elapsed elapsed 2 (refl, omega arith, omega arith, omega arith) (omega arith)

-- the signatures of agent sessions and of temporary families
abbrev session_sig : Signature
session_sig = record {
  sig_id = "private-tmp-agent-scratch";
  globs = "/private/tmp/claude-*/*/*" ∷ [];
  staleness = when_session_dead;
  min_age = pos 604800;
  alias_rule = alias_none;
  risk = risk_low;
  family_rule = none;
  session_rule = some record {
    scratch_dir = "scratchpad";
    dead_after = pos 3600;
    entry_idle = pos 86400;
    transcript_window = pos 1800;
  };
}

abbrev session_path : String
session_path = "/private/tmp/claude-501/x/01234567-89ab-cdef-0123-456789abcdef"

abbrev machine_with : Bool → Machine
machine_with alive = record {
  lstat = λ p. some record { is_symlink = false; owner = pos 501 };
  newest_mtime = λ p. some (pos 1000);
  session_alive = λ u w. alive;
  probe_live = λ p. false;
  causal_stale = λ p. false;
  unique_allocated = λ p. some (pos 4096);
  blocks = λ p. some (pos 8192);
  uid = pos 501;
  now = pos 10000;
}

dead_is_stale : classify (machine_with false) session_sig session_path ≡ (true, some false)
unfolding classify is_scratch_entry glob_match is_session_uuid base_name ◌-ℤ◌
dead_is_stale = refl

alive_is_live : classify (machine_with true) session_sig session_path ≡ (false, some true)
unfolding classify is_scratch_entry glob_match is_session_uuid base_name
alive_is_live = refl

classify_iff_example :
    ((classify (machine_with false) session_sig session_path).0 ≡ true)
    ↔ IsStale (machine_with false) session_sig session_path
classify_iff_example = classify_iff (machine_with false) session_sig session_path

-- family keys
go_build_key :
    family_key_of (codes "go-build123456") ≡ some record { prefix = codes "go-build"; sep = [] }
unfolding family_key_of
go_build_key = refl

named_dir : family_key_of (codes "bd-migration-restore") ≡ none
unfolding family_key_of
named_dir = refl

-- a separator alone before the digits gives a handle that is not read back
lone_key : family_key_of (codes "-123456") ≡ some record { prefix = codes "-"; sep = [] }
unfolding family_key_of
lone_key = refl

lone_handle : parse_handle_base (handle_base (record { prefix = codes "-"; sep = [] })) ≡ none
unfolding parse_handle_base handle_base
lone_handle = refl

parse-handle_base_example :
    parse_handle_base (handle_base (record { prefix = codes "go-build"; sep = [] }))
    ≡ some record { prefix = codes "go-build"; sep = [] }
parse-handle_base_example =
    parse-handle_base (codes "go-build123456") (record { prefix = codes "go-build"; sep = [] })
      go_build_key refl

-- a module with the session signature, whose machine may change between the calls
abbrev module_with : Bool → LeaksModule
module_with alive = record {
  signatures = session_sig ∷ [];
  cwd = none;
  eval_symlinks = λ ps. some ps;
  safety = record { roots = []; blocked_names = ".git" ∷ [] };
  trees_at = λ n. record {
    machine = machine_with alive;
    tree_facts = λ p. some record { newest = pos 1000; special = false };
    read_dir = λ p. none;
  };
  cancelled = λ n. false;
  remove_all = λ p. true;
  statfs_before = some record { bavail = pos 10; bsize = pos 4096 };
  statfs_after = some record { bavail = pos 12; bsize = pos 4096 };
}

abbrev deletion : LeakAction
deletion = record { op = op_delete; target = session_path; size = pos 4096; action_risk = risk_low }

removes_dead :
    apply_leak (module_with false) deletion
    ≡ record { result = inr (pos 8192); removed = session_path ∷ [] }
unfolding apply_leak signature_for all_globs abs_path glob_match inspect is_scratch_entry
    is_session_uuid base_name can_delete_leak_target mul64 sub64 wrap64 ◌*ℤ◌ ◌-ℤ◌
removes_dead = refl

apply_leak-IsWarranted_example :
    All (IsWarranted (module_with false) deletion) (apply_leak (module_with false) deletion).removed
apply_leak-IsWarranted_example = apply_leak-IsWarranted (module_with false) deletion

refuses_live : (apply_leak (module_with true) deletion).result ≡ inl went_live
unfolding apply_leak signature_for all_globs abs_path glob_match inspect is_scratch_entry
    is_session_uuid base_name
refuses_live = refl

apply_leak-untouched_example : (apply_leak (module_with true) deletion).removed ≡ []
apply_leak-untouched_example =
    apply_leak-untouched (module_with true) deletion went_live refuses_live refl
