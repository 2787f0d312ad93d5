-- ===== src/Lib.antt =====
-- Verification of parts of codeintel, a code-intelligence service in Go: the planning of
-- index work, the rows and tasks that carry it to the workers, and the status that its
-- readers see.
--
-- The program indexes repositories. A user-visible index job is planned into subjobs, one
-- per layer (Zoekt, AST, SCIP, graph merge, activate); each subjob is a row of a table and
-- a task on the queue of a worker class. A delta plan decides which files of a repository
-- are indexed again. What was indexed is recorded in the repository's row, from which the
-- status package computes the badge of a repository, of its branches and of its code-graph
-- snapshots.
--
-- The files, and the code that they model:
--   * Base: Boolean tests and integers on the native numbers, byte strings with the
--     functions of package strings, stable sorting, sets of strings, results with an error.
--   * Status (pkg/repoindexstatus/summary.go and branches.go): the index policy,
--     BuildRepoIndexSummary as build_repo_index_summary, BuildBranchIndexStatus,
--     BuildKnownBranchIndexStatuses.
--   * CodeGraph (pkg/repoindexstatus/codegraph.go): the comparator of snapshots, the choice
--     of the current one, the projection.
--   * Scip (pkg/repoindexstatus/scip.go): the projection of SCIP index rows.
--   * Delta (internal/backend/repoindexmanager/delta_plan.go): buildManifestDeltaPlan,
--     forceSemanticRepairPlan, validate and their helpers. A Go map from paths to rows is
--     an association list; maps are only read through sorted keys or look-ups, so their
--     order is not observed.
--   * Workers (internal/backend/workerclasses/workerclasses.go, pkg/asynqueues/queues.go):
--     the registry of worker classes and the queue names.
--   * Paths (NormalizeProjectRoot in internal/backend/indexplanner/planner.go,
--     safeProjectRoot in internal/backend/indexsubjobs/store.go): project roots, with
--     path.Clean written out segment by segment.
--   * Subjobs (internal/backend/indexsubjobs/store.go: the upserts;
--     internal/backend/indexsubjobtask/payload.go): the tests of a row, the effect of the
--     upsert statement on a table with its primary key and unique index, the task's
--     payload.
--   * Planner (internal/backend/indexplanner/planner.go): Build, PlanAndPersist, the
--     identity and the digests of subjobs.
--   * Dispatch (internal/backend/indexsubjobs/dispatcher.go): DispatchReady with its
--     counts, enqueue and enqueueRescue, and RequeueExpiredAndDispatch with its lock;
--     dispatchStore and taskEnqueuer are functions on a state, with the error that each may
--     return.
--   * Leases (the other methods of Store in internal/backend/indexsubjobs/store.go):
--     ClaimScoped, Heartbeat, MarkArtifactWritten, MarkSucceeded (Claims), MarkFailed,
--     MarkRetryableInfrastructureFailure and failParentIfTerminalFailure (Failures),
--     RequeueExpiredLeases and RequeueLeasesForOwnerPrefixes (Requeues),
--     ReconcileTerminalFailures (Reconcile), validateLiveSubjobLease of
--     internal/backend/zoektartifact, astartifact and scipartifact/store.go (Validation),
--     ListDispatchable (Listing), the dispatch lock (Locking). A table is a list of rows
--     and a statement an update of it. Steps has what a statement may do to a row, as a
--     relation; Calls has histories of the calls that update rows, which are lists, without
--     the upserts, which may add a row but change no other column of one than updatedAt;
--     Tasks and Dispatching join the store with the dispatcher and the worker's
--     toClaimScope.
--   * Schedule (internal/backend/scheduler/scheduler.go, pkg/repoindex/payload.go, the
--     payload of pkg/connectionsync/payload.go): ScheduleRepoIndex (Index) and
--     ScheduleConnectionSync (Sync) on their tables and the queue, the codec of repo-index
--     tasks (RepoIndex).
--   * Policy (internal/retrievalpolicy/policy.go): OTLPFlowPattern, PreferredPathFragments,
--     MandatorySourceHints and their helpers (Queries).
--   * Retry (internal/backend/connectionmanager/retry.go): IsRetryable and WithRetry, with
--     the closure, the context, the timer and the random numbers as functions on a state.
--
-- Parts meet by use: the planner takes classes from Workers and roots from Paths, makes
-- rows of Subjobs, and its store is a parameter (the subjobWriter interface) that the
-- theorems instantiate with upsert_queued on the table; the dispatcher's store (the
-- dispatchStore interface) is a parameter that Leases instantiates; the dispatcher makes
-- the payloads of Subjobs from rows.
--
-- A Go string is the list of its bytes, a nil pointer is none, a nil slice and an empty one
-- are the same list. The attempt of a task is int32 and the durations of a retry are int64,
-- and both wrap; the other integers are only copied and compared, or count and are added up
-- without a bound. Times are nanoseconds; the columns keep them to the millisecond, and the
-- end of a lease that is passed to a call of the subjob store or of its lock is the value
-- that the column keeps. All loops are over lists; the only fuel is that of decimal
-- notation, one more than the number, which is more than it has digits. sort.SliceStable
-- and sort.Strings are a stable insertion sort.
--
-- Parameters without a definition: encoding/json, the glob compiler, SHA-256 and
-- strings.ToLower, which works on Unicode tables. The only hypothesis about one of them is
-- that decoding undoes encoding, where a theorem needs it.
--
-- Calls of the subjob store are atomic, as their statements are; what is not determined by
-- the tables is an argument: the time, the rows that other transactions lock, which of two
-- updates of one row wins, and whether a statement runs, does not, or runs and its answer
-- is lost. MarkFailed is two statements, with an answer each. So it is for the scheduler;
-- what the snapshot of its INSERT shows of the index jobs is an argument as well, since the
-- statement takes its advisory lock only after its snapshot.
--
-- Not modelled: the scheduler's HTTP handlers and rate limits; the HTTP API, the MCP
-- server, database access, graph storage, search and artifacts, which are input and output
-- around services; the generated code, the Rust indexer and the copy of Zoekt.
pub mod Base
pub mod Status
pub mod CodeGraph
pub mod Scip
pub mod Delta
pub mod Workers
pub mod Paths
pub mod Subjobs
pub mod Leases
pub mod Schedule
pub mod Policy
pub mod Planner
pub mod Dispatch
pub mod Retry
