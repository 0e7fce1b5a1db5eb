-- ===== src/Lib.antt =====
-- noo-noo reclaims disk space on a Mac. Heuristics (internal/heuristics, internal/leaks,
-- internal/worktrees) suggest what may go; the daemon (cmd/noo-nood) runs them in ticks, files the
-- suggestions in a database (internal/store) and, where its user has switched that on, cleans what
-- the gates of internal/autoclean let through, with an audit row written before each deletion and
-- patched after it. A watcher (internal/pressure) posts further ticks while the disk is low, which
-- never clean. internal/modules/offload moves assets to an external volume, at once or from a queue.
--
-- The files, and the code each is about:
--   Common        shared names; tests on numbers and texts, lists, integers with Go's int64
--                 arithmetic, a stable sort.
--   Store         internal/store: four tables as lists of rows in insertion order. Suggestions, Events,
--                 Queue and Storms hold the statements of suggestions.go, autoclean_events.go,
--                 reloc_queue.go and leak_storms.go; Queue/Lifecycle and Queue/Unique reason about any
--                 sequence of queue calls.
--   Core          internal/core/safety.go: Paths has filepath's Abs, Clean, Rel and Join on a Unix,
--                 Glob its Match; Safety has NewSafety and CanDelete, and LeakTarget has
--                 CanDeleteLeakTarget, each with what it permits below it.
--   Heuristics    internal/heuristics: the suggestion type, and LeakStorms in Storms.
--   Autoclean     internal/autoclean: config.go (EvaluateSuggestion) here and in Gates, budget.go in
--                 Budget, apply.go in Engine, with what it deletes (Guard), the states it passes through
--                 (States), what a crash in one of them leaves (Crash), and what the audit table then
--                 says (Ledger).
--   Pressure      internal/pressure: the combined sampler and the loop of the watcher, one step for a
--                 tick of its timer.
--   Offload       internal/modules/offload: Disk is the file system with calls that fail, Apply is
--                 offload.go's Apply, Pending is pending.go.
--   Sizer         internal/sizer: Extents is extentSet, Files is addFileExtents.
--   Leaks         internal/leaks: Signature is leaks.go's registry types with the globs; Causality is
--                 causality.go, with parseEtime in Etime; Classify is module.go's classify and
--                 inspect; Family has family.go's keys and handles, Listing its listFamilies; Apply is
--                 Plan, Apply and applyFamily. Text is what these use of strings and strconv, on the
--                 bytes of a text.
--   Worktrees     internal/worktrees: Rows is ParseWorktreeList, Facts is Classify with gatherFacts
--                 and idleFor, Removal is DiscoverRepos, locate, Apply, Grave and ForceRemove, whose run
--                 is the list of the git commands that it starts.
--   Trends        internal/trend/trend.go: Buckets has DayBucket and Batches, Patterns has Recurrences.
--   Daemon        cmd/noo-nood: Schedule is main.go's lanes and nextTickAt; Persist, AutoClean, Storms
--                 and Tick are tick.go's persistNew and openLeakSuggestions, runAutoClean,
--                 notifyLeakStorms, and RunTick.
--   Ipc           internal/ipc: AutoCleanService.Toggle in Switch, SuggestionsService.Dismiss in
--                 Dismissal.
--
-- How state and operations correspond. A method that changes the database is a function from a store
-- to a result and a store. Each call of the database may fail: the store carries a list that says of
-- the calls to come whether they do, so that a statement about every store is about every pattern of
-- failures; a failed call changes no row. Rows have numbers for their times and ids, in seconds. A
-- file system that is only deleted from is a type parameter, and a deleter is a function on it; the
-- disk of Offload maps a path to a tree or a link. The loops of the source are recursions over the
-- list that they range over, so that no fuel is needed, but for two: the walk over a file's extents
-- takes one round more than the file has bytes, since each round goes at least one byte on, and the
-- search for repositories takes the levels that its caller allows. Go's int64 sums and products wrap around as
-- written in Common/Int; the sizes in an SQL sum do not, and SQLite's error for a partial sum beyond
-- int64 is an error here.
--
-- What is a parameter: the parsing of numbers (strconv), the rendering of evidence (encoding/json),
-- the clock, lsof, pgrep and the volume guard, ditto and the walk that measures a tree, the posting of
-- notifications, and in Daemon/Tick the scan, the heuristics that read the disk and the run of the
-- relocation queue, for which the source has seams of its own. Floats are integers in a small unit,
-- and a day has 24 hours.
-- So are git, F_LOG2PHYS_EXT and lseek, ps, the liveness of a session, EvalSymlinks and the walks that
-- find the newest time of a tree; the leaks' machine and the answers of git are functions that a call
-- reads, those of a family anew for each member. A time of these parts is a number of nanoseconds.
--
-- Not modelled: opening and migrating the database, the history tables, the scans of leaks and
-- worktrees, the judge, the walks over trees that measure them, the scanners, the fit of a trend, the other IPC
-- services and the socket, the command line, the menu bar and the desktop app, and the wording of log
-- lines and notices. The handle of a family is taken to be absolute, the bytes that a failed batch
-- tells beside its error are left out, and Lstat is taken not to fail on what stands at its path.
pub mod Common
pub mod Store
pub mod Core
pub mod Heuristics
pub mod Autoclean
pub mod Pressure
pub mod Daemon
pub mod Offload
pub mod Ipc
pub mod Sizer
pub mod Leaks
pub mod Worktrees
pub mod Trends
