-- ===== src/Lib.antt =====
-- Moventra TMS: the durable jobs, the transactional outbox, idempotent requests and feature flags.
--
-- The program keeps its work in PostgreSQL. A scheduler inserts jobs; any number of workers claim
-- them in batches under a lease, run their handlers, and complete them, schedule them again or end
-- them. One handler publishes the outbox: it claims events, hands each to the message broker, and
-- marks those that the broker confirms. Jobs and outbox share the way of claiming: a common table
-- expression chooses rows in an order, passes over locked ones, and the UPDATE leases them. A request with an
-- idempotency key claims the key's record, runs its operation and stores the response, all in one
-- transaction; a later request under the key is answered from the record. A permission is looked up
-- with the organizational scope that it is asked for. A feature flag is evaluated for a tenant by the
-- most specific of the tenant's rules; rules are changed under optimistic versions, and each version
-- is kept in a history. A configuration is resolved by the narrowest override that its definition
-- allows; overrides have versions and a history, too.
--
-- Base holds what the parts share: tests and lists over the native numbers, results of code that
-- throws, JSON values and texts as code units, the statements SELECT by key and UPDATE … RETURNING on
-- a table that is a list (Base/Sql, Base/Members), the claim of a batch with its laws (Base/Batch,
-- Base/Batch/Laws), versioned rows with their history (Base/History), partial unique indexes
-- (Base/Singletons), and ids, versions and reasons as callers give them (Base/Inputs).
--
-- Jobs:
--   Jobs/Row          the columns and CHECK constraints of db/migrations/0016_jobs.sql
--   Jobs/Repository   src/infrastructure/jobs/postgres-job-repository.js: a method is a function from
--                     the time and the table to the new table and its result (enqueue,
--                     reap_expired_exhausted, claim_batch, heartbeat, complete_success,
--                     complete_failure, cancel). The children are about the constraints (Constraints),
--                     claims (Claims), leases (Leases), singleton keys (Schedules, Enqueued), and all
--                     interleavings of the methods (Runs)
--   Jobs/Types        normalizeJobType of src/modules/jobs/job-contract.js, and the CHECK
--                     constraints on types
--   Jobs/Backoff      src/modules/jobs/job-backoff.js
--   Jobs/Registry     src/modules/jobs/job-handler-registry.js
--   Jobs/Worker       src/modules/jobs/job-worker.js: executeJob in Worker, its ends in Laws, the
--                     constructor in Settings, runOnce and the idle delays in Runs
-- Outbox:
--   Outbox            src/modules/outbox/outbox-repository.js on the table of
--                     db/migrations/0015_outbox.sql, with its laws in Outbox/Claims, and
--                     the constraints that its statements keep in Outbox/Constraints
--   Outbox/Service    claimBatch and markPublished of src/modules/outbox/outbox-service.js
--   Outbox/Dispatcher src/modules/jobs/outbox-dispatcher-job.js; one event's turn in Marks, the whole
--                     handler in Laws
-- Idempotency:
--   Idempotency           src/modules/idempotency/idempotency-repository.js on the table of
--                         db/migrations/0014_idempotency.sql
--   Idempotency/Service   execute of src/modules/idempotency/idempotency-service.js
--   Idempotency/Replay    what a second request under a key gets
--   Idempotency/Histories how often a key's operation runs
-- FeatureFlags:
--   FeatureFlags/Domain      normalisation in src/modules/feature-flags/feature-flag-domain.js
--   FeatureFlags/Rollout     its buckets and rollout decisions
--   FeatureFlags/Store       the tables of db/migrations/0013_feature_flags.sql and the queries of
--                            src/modules/feature-flags/feature-flag-repository.js
--   FeatureFlags/Writes      its putRule, transitionRuleStatus and restoreRuleVersion
--   FeatureFlags/Evaluation  its evaluate; the children are about the rule that governs (Governing,
--                            Queries), the decision (Laws) and the rows of other tenants (Isolation)
--   FeatureFlags/Targets     normalised targets
--   FeatureFlags/Histories, Reach, Versions, Restore
--                            what one write and sequences of writes keep, and what a version is for
-- Configuration:
--   Configuration/Domain  keys, scopes, versions and reasons in
--                         src/modules/configuration/configuration-domain.js
--   Configuration/Values  its normalizeConfigurationValue
--   Configuration/Laws    normalising again what was normalised
--   Configuration/Store, Statements, Repository
--                         src/modules/configuration/configuration-repository.js on the tables of
--                         db/migrations/0012_configuration.sql: the queries, the statements that
--                         write, and the methods
--   Configuration/Resolution
--                         its resolveEffective
--   Configuration/Histories, Reach
--                         what one write and sequences of writes keep
-- Organization            the companies and branches that flags and configuration ask for
-- Security:
--   Security/Scope        src/modules/security/scope/organizational-scope-domain.js and the query of
--                         hasScopedPermission of organizational-scope-repository.js
--   Security/Scope/Laws   coverage as inclusion of places
--   Security/Scope/Grants, Decision
--                         what a granted permission rests on, row by row
--
-- Time is a number of milliseconds that is read once for a statement. UUIDs are opaque numbers, and
-- those that the database or `randomUUID` makes are arguments. The rows that other transactions lock
-- are a test that is given to the claim, and so is every table that the other users of a job table
-- leave behind while a handler runs. Doubles (the jitter of a retry delay) are a record of operations,
-- and what the bounds of the delay need of IEEE arithmetic is a hypothesis of theirs. No definition needs fuel: each loop runs over a list.
--
-- Not modelled: metrics, traces and logs; the connection to PostgreSQL and its row-level security; the
-- broker's library, whose replies are arguments; other users of outbox.events while the dispatcher's
-- handler runs (those of a job table are modelled); tests for functions, arrays and strings that the
-- types of a definition's arguments make always hold (a handler is a value, a scope one of three);
-- handlers of one batch are settled one after the
-- other. The hash of an idempotency key, the fingerprint of a request and its checked response
-- contract are arguments, and so are the SHA-256 digest of a flag's bucket, the spelling of a UUID, and what the values of a
-- configuration ask of the JavaScript runtime. The other components of the repository (identity, organization, the other
-- access control, messaging, dead letters, HTTP) are not part of this
-- library.
pub mod Base
pub mod Organization
pub mod Jobs
pub mod Outbox
pub mod Idempotency
pub mod Security
pub mod FeatureFlags
pub mod Configuration
