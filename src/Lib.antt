-- ===== src/Lib.antt =====
-- Verification of atum, a command line tool that keeps a deployment repository up to date.
--
-- The update engine (cli/update) edits many files of the project at once. cli/update/transaction.go
-- makes such an edit all or nothing: it stages candidates and backups in a directory of their own,
-- publishes a journal, replaces the files one by one, publishes a second journal and removes the
-- directory. The next command recovers what an interrupted run has left. Managed paths go through
-- cli/fssecure/path.go.
--
-- Base holds the shared names: native numbers, lists over them, texts as lists of byte codes, Boolean
-- tests with their laws.
--
-- Fssecure models `Relative` and `ValidName` of cli/fssecure/path.go, with `filepath.Clean`,
-- `strings.Split` and `strings.Join` of the standard library written out. `Root`, `Resolve` and
-- `EnsureDirectory` only walk the file system; a use of them is a call of it.
--
-- Update models cli/update/transaction.go.
-- Update.Disk is the state: the managed files, and the one entry of .atum/state/update-transactions
-- with its candidates, backups and journal. A world adds a script, which says of each file system
-- call to come whether it succeeds, fails or the process dies before it, and the order in which
-- `os.RemoveAll` unlinks. A call that succeeds does its work whole. Code is a function from a world
-- to a result and a world: `ok`, `err` or `died`; `try` catches an error, and nothing catches a
-- crash. What is written is taken to be durable once its call has returned.
-- Update.Version has `snapshotManagedFile`, `regularFileVersion`, `sameManagedVersion` and
-- `validHexSHA256` (cli/update/chart.go). Update.Journal has `writeTransactionJournal`,
-- `readTransactionJournal`, `validJournalMaterial`, `removeTransactionDirectory` and
-- `ensureManagedParent`. Update.Encode is what JSON makes of the strings of a journal: they come back
-- with U+FFFD for each byte that is not valid UTF-8. A journal.json that does not decode counts as a
-- failed call, and its length is taken to be that of the journal that is read from it, which differs only
-- where U+FFFD stands as the six characters of its escape. Update.Recover has `recoverPreparedTransaction`,
-- `verifyCommittedTransaction`, `rollbackTransaction` and `recoverTransactions`. Update.Transaction
-- has the builder: `Add`, `AddMode`, `Delete`, `GuardDirectory`, `Changed`. Update.Commit has `Verify`
-- and `Commit`, with its deferred removal of the directory. Each has child modules for its lemmas; Update.Commit.Written says
-- for which transactions the journal is read back as it was meant.
-- Update.Ends has the rules by which all of them are reasoned about: what holds after success, after
-- an error and after a crash.
--
-- Tui models parts of cli/tui, the text interface. Tui.Tail is the ring of cli/tui/tail.go, with its
-- array as a function of the index and its counters on 64 bits. Tui.Observer is `lineObserver` of
-- cli/tui/parser.go, and Tui.Resources and Tui.Parser are `outputParser`: a state with the sets of
-- resources and nodes and the list of the events reported (cli/progress). The three regular
-- expressions are written out as functions. Go maps are association lists, Go sets are lists without
-- repetitions. `observe` is `none` where the code panics. Parameters are `ansi.Strip`, the runes of a
-- string, the Unicode tables of package strings, and the decoder of the JSON events, whose numbers are
-- taken not to be negative. The mutexes make each operation a step of its own.
--
-- Tui.Session is the part of cli/tui/session.go that decides what becomes of a reported event:
-- `reportUnlocked`, `compactChanged`, `boundedDetail` and `sendPendingEvents`. A printed line stands as
-- the event it shows; the order in which Go ranges over a map is an argument. Tui.Model is the model of
-- cli/tui/model.go: `newModel`, `apply` and `Update`. A pointer to a phase is its index, and to read a
-- nil item is `none`; `displayName` (cli/tui/spec.go) reads the Unicode tables and is a parameter.
--
-- Ladder models the release ladder of cli/config/config.go: `validateClusterReleases` and
-- `validateGitSource`, which report problems in a list. Semantic versions are the record `Semver`, the
-- calls of github.com/Masterminds/semver, with `IsSemver` for what that library documents of them.
-- Ladder.Build is how cli/update/service.go extends the ladder and retires its completed steps
-- (`buildReleaseLadder`, `retireCompletedReleaseSteps`), with minor numbers that
-- wrap at 64 bits. Ladder.Canonical is `canonicalSemanticVersions` of
-- cli/update/version.go, with one step of fuel for each item.
--
-- Orchestration models the upgrade of the cluster, cli/orchestration. Orchestration.Position,
-- Orchestration.Plan and Orchestration.Admit have `liveReleasePosition`, `upgradePlan` and
-- `ValidatePlan` of upgrade.go; Orchestration.Equal writes `reflect.DeepEqual` out;
-- Orchestration.Constraints has the constraints of cluster.go. Orchestration.Health is `waitHealthy` of
-- health.go on the replies of its polls. Orchestration.Prepare is `prepareReleases` of service.go, with
-- the error of each preparation; Orchestration.Prepare.Commits has what belongs to one commit.
-- Orchestration.Outside is what the code asks: a state of any type that answers each call, a log of
-- the calls that matter for the order of an upgrade, and a trace of all answers; `runKubespray`,
-- `orchestrationInputSHA256`, `prepareRelease` and `waitForInstallConnections` are calls of it, since they
-- start processes and read files.
-- Orchestration.Converge is `Plan` and `ConvergePlanned`, which use all of these; a step of a plan is
-- an index into the ladder that Ladder has admitted. Reports of progress are left out.
--
-- All loops run over lists, so there is no fuel but that of `decimal`, which has one step for each
-- digit and more, that of `canonical_from`, which has one for each item, and that of Ladder.Build, where
-- `extend` has one for each minor number on the way and `missing` one for each candidate, of which each
-- has one number only.
-- SHA-256, the length of the journal's JSON and the
-- digest of a directory are parameters (`Env`). Not modelled: several entries in the transaction
-- root (a process holds the project lock, and recovery empties the root before a commit), a symbolic
-- link that is swapped during a run, and a caller that changes managed files at the same time. A
-- partial write of a candidate or a backup counts as a failed call that leaves nothing.
pub mod Base
pub mod Fssecure
pub mod Ladder
pub mod Orchestration
pub mod Tui
pub mod Update
