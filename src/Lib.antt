-- ===== src/Lib.antt =====
-- Sama's backend (backend/internal): people of a workspace operate servers of cloud providers through
-- reviewed, durable operations.
--
-- A member prepares a review of an action on a resource, confirms it with an idempotency key, and a worker
-- submits it to the provider at most once; what the provider answers, or later observations, move the
-- operation on. Everything durable is in PostgreSQL. The model is the database as a record of tables (Db) and
-- each transaction as a function from the database and its arguments to an error, with nothing changed, or to
-- a result and a new database. What happens between two transactions of one call (the answer of an adapter,
-- the database that the second transaction meets) is an argument.
--
-- Files:
-- - Prelude: Boolean tests, lists, results and transactions, tables (find, update, delete, count).
-- - Database, Database/Rows: the tables of backend/migrations and the SELECTs that several packages send.
-- - External: the functions of third-party packages (uuid, sha256, JSON, unicode) as parameters, and
--   identifier.Parse of backend/internal/identifier/uuid.go.
-- - Audit: backend/internal/audit/append.go.
-- - Identity: backend/internal/identity. Recent is the recency window, Sessions the tables and operations of
--   sessions.go and logout.go and RotateRecent, with Created, Life and Rotation for what they prove; Challenges is
--   challenges.go, with Use for Start and Consume and Budget for the relation of all calls.
-- - Workspace: backend/internal/workspace. Role and Members are roles, ChangeMember and Transfer, Members/Owners
--   counts owners, Members/Transferred is what Transfer hands over; Grants is grants.go and Grants/Delegation what it delegates; Invitations is invitations.go
--   and redeem_invitation.go, with Issue and Redemption.
-- - Inventory: backend/internal/inventory. Enqueue is enqueue.go, Authority is scanAuthority, guard and stage of
--   scan.go, Scan its loop over pages, Publish is Complete of publish.go; Enqueue/Requests, Publish/Live,
--   Publish/Ended, Publish/Outcome and Scan/Staging prove. Runs is the relation of all transactions that write
--   sync_runs, with Runs/Rows and Runs/Scans for its lemmas.
-- - Connections: backend/internal/connection. Lifecycle is disable.go, rotate.go and save.go, Validation is
--   permit of validation.go, Preview the rest of it with the checks of credential.go; Disabled, Rotated and Validation/Rate prove.
-- - Operation: backend/internal/operation. Machine is state.go; Intent is intent.go, snapshot.go, policy.go and
--   ValidKey; Records is store.go, reservation.go, advance and finishJob of dispatch.go and executionAudit of
--   receipt.go; Access is load, check and authority; Review is Prepare; Accept is Confirm; Dispatch is the
--   worker; Control is Cancel, Recheck and ReleaseUnknown; Expiry is Expire and the recovery gate. Invariant
--   says what the tables keep, Soundness how transactions are composed without losing it, Handlers, Controls,
--   Admission, Fresh, Reads and Upkeep apply that to the handlers, System is the relation of all steps, Submission counts
--   what reaches a provider, Replay is what Resolve finds after Confirm, Expired is where Expire leaves an
--   operation, and Finality follows finished operations over the steps of System.
-- - Job: the scheduler of backend/internal/job/lease.go and PruneTerminal. Job/Fencing is about one claim,
--   Job/Order about which job is claimed, Job/Displaced about the relation of all steps after a claim.
-- - Outbound: the call budget, Retry-After and the dialing of backend/internal/platform/outbound.
--   Outbound/Admission is the relation of the budget's critical sections.
-- - Examples: one concrete installation and the witnesses of the theorems.
--
-- Numbers are natural numbers: a time is in nanoseconds and a uuid is a number, 0 being uuid.Nil; versions and
-- sequence numbers do not reach 2^63 and are not cut. A time that is stored keeps its nanoseconds, where a
-- timestamptz column keeps the microseconds. The policy version, which the code does cut, has its `%`.
-- Loops are structural recursion on lists; the loop of a scan over pages is recursion on the number of pages
-- left, which is the 100 of the source, and ends with its error when none is left.
--
-- Transactions that lock the workspace row run one after the other, so that a run is a sequence of committed
-- transactions; a database error outside the conditions that the code tests for is `begin_ok` or `commit_ok`.
--
-- A connection disabled between two observations of an operation loses the queued job of that operation, and a
-- sync run whose job was never finished stays unfinished; the theorems on Disable and on refreshes say so.
--
-- Not modelled: the HTTP API, the provider adapters, the encryption of credentials, configuration, migrations, OIDC,
-- the timeout and the lease renewal around a scan, the reads and the pruning of the inventory, the
-- goroutines that renew a lease (runRenewing) and the worker pool of backend/internal/job/runner.go.
mod Prelude
pub mod Database
pub mod External
pub mod Audit
pub mod Identity
pub mod Workspace
pub mod Operation
pub mod Job
pub mod Inventory
pub mod Connections
pub mod Outbound
mod Examples
