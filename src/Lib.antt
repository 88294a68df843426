-- ===== src/Lib.antt =====
-- CycleWarden: a verification library beside the code of the packages forge-domain,
-- forge-application, evolution-core and security.
--
-- The program. Forge runs coding tasks in workspaces. A task is created, a run of it is started,
-- executed by a coding agent in a sandbox, validated, reviewed and published; commands come from
-- users, are authorized per workspace, and most carry an idempotency key. All state is in one
-- store. Evolution moves a cycle of self-improvement through fixed stages, and a policy says which
-- actions it may take. Events of live providers are normalized and cleaned of secrets before they
-- are stored. A rate limiter guards the requests.
--
-- Which file models what. Paths begin with packages/.
--   Domain/Contracts, Domain/Schemas: forge-domain/src/contracts/index.ts, its types and what its
--     schemas accept (`parse_task` for `taskSchema.parse`, `run_schema` for `runSchema`, and so
--     on).
--   Domain/RunLifecycle: forge-domain/src/run/run-state-machine.ts. Its children prove what the
--     diagram promises, and when a run may be iterated.
--   Domain/Approval: forge-domain/src/approval/approval-policy.ts.
--   Domain/CompletionGate: forge-domain/src/review/completion-gate.ts.
--   Domain/Errors: the exceptions, as values.
--   Forge/Store, Forge/Queries, Forge/Methods: forge-application/src/store/in-memory-store.ts. The
--     record `Store` has the maps of `InMemoryForgeStore`, and the other two one function for each
--     method, under its name: Queries those that only read. Forge/Serialize is its
--     `stableSerialize`.
--   Forge/Exec: computations on the store that may throw. What was written before a throw stays.
--   Forge/Commands: one module for each command of forge-application/src (tasks, runs, approvals,
--     reviews, publications). Forge/Service serves a list of commands one after the other.
--   Forge/Steps: an abstract specification, the steps that a workspace may do to the store, each
--     with the workspace's right to it.
--     Forge/Refinement shows that the commands keep to it, Forge/Invariant what the steps preserve.
--   Forge/Idempotency: the contract of `executeIdempotent`. Forge/Ensures: rules for what a
--     computation leaves when it returns and when it throws. Forge/Publishing: runs that are being
--     published, and requests meanwhile. Forge/Approving: an approval and the publication that
--     follows it.
--   Forge/Execution: forge-application/src/runs/execute-run.ts. Frame has its local variables, and
--     notes beside them which sandboxes the provider has created and which it was asked to destroy.
--     Providers and Requests have what it asks and records, Attempt its `try` block, Body the
--     function itself; its other children prove how it ends, that it cleans up, and what it
--     overwrites.
--   Events/Redaction: forge-domain/src/security/redaction.ts. Its child Patterns has
--     `STRING_PATTERNS` and `redactString`, and Regex what they use of ECMAScript's regular
--     expressions. Events/Provider, Json, Normalizer:
--     forge-application/src/events/live-provider-event-normalizer.ts.
--   Evolution/Types, Policy, Research, Stages, Cycle: evolution-core/src/types.ts, policy.ts,
--     research-records.ts and state-machine.ts, of which Stages has the tables. Evolution/Errors
--     has its exceptions, as values.
--   Evolution/Scorecard: evolution-core/src/scorecard.ts. Inputs has what it reads of a snapshot
--     and of a report, Coverage and Sections its six dimensions, Card `createProjectScorecard`.
--   Evolution/ResearchReview: evolution-core/src/research-review.ts, `evaluatePreparedResearch` and
--     `assertResearchReviewPassed`.
--   Evolution/Delivery: evolution-core/src/delivery-operation.ts. Operation and Record have the
--     record and its file, Inspection `inspectDeliveryOperation`, Lease `withDeliveryOperation` in
--     the parts that happen at once (before the lock, from the link to the rename, each heartbeat,
--     each report of a child process, the end), Recovery `reconcileDeliveryOperation`, Racing its writing by itself; Processes
--     lets several processes of one machine take these steps and die, and the other children prove
--     what follows.
--   Security/RateLimit: security/src/rate-limit.ts, `InMemoryRateLimiter`.
--   Prelude: shared tests, lists, texts, dictionaries and JSON values. Examples: concrete inputs.
--
-- How the code is read. Identifiers and timestamps are texts. Random identifiers and clock readings
-- are streams of `Host`, of which the store counts how many have been taken. SHA-256,
-- `localeCompare`, zod's string formats, `Date.parse`, `URL`, the digest of a JSON value, signals
-- to processes, the authorizer, the task normalizer and the source provider are parameters.
-- Asynchronous commands are atomic: nothing else happens while one waits, except in an execution of
-- a run, where what happens at each wait is a parameter, and in Forge/Publishing/Undisturbed, where
-- requests are served while a publication waits for the provider. An agent's stream of events is
-- finite.
-- Integers are exact, and the normalizer's safe-integer test is written out. All recursion is
-- structural; the only fuel is that of `decimal`, the number itself, where each step divides by
-- ten.
--
-- What is not modelled: the PostgreSQL and Redis adapters, the adapters of services, telemetry,
-- command lines, the web application, and the research and delivery adapters of evolution-core
-- other than the lease; the deterministic task normalizer. Of a delivery's lease, the candidate
-- files, the heartbeat's timer, and file errors other than an unreadable record are left out, and a
-- reconciliation's second inspection and its writing are one step, where the code lets other
-- processes act in between. The amounts of a review are whole minutes and cents.
pub mod Prelude
pub mod Domain
pub mod Forge
pub mod Events
pub mod Evolution
pub mod Security
pub mod Examples
