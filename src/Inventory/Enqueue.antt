-- ===== src/Inventory/Enqueue.antt =====
-- Requests to refresh: backend/internal/inventory/enqueue.go.
pub mod Requests
use sama.Prelude.{
  ℕ, ◌+◌, ◌*◌, Bool, true, false, ◌&&◌, ◌||◌, not, Option, none, some, List, [], ◌∷◌, String, ltb,
  ◌==◌, ◌is◌, if◌then◌else◌, contains, is_some, ok, err, pure, gets, row, modify, guard, ◌>>=◌,
  ◌>>◌, find, any, count,
}
use sama.Database.{
  Db, Env, Job, JobState, connection_refresh, SyncRun, Workspace, minute, open_workspace,
  active_membership, connection_of, live_credential,
}
use sama.Operation.Records.{is_job_state}
use sama.Workspace.Errors.{not_found, denied, invalid, store}
use sama.Workspace.Role.{within_ceiling}
use sama.Workspace.Members.{lock_authority}
use sama.Workspace.Grants.{granted}
use sama.Inventory.Errors.{Error, of_workspace, quota, InvTx, in_tx, from_workspace}

abbrev pub is_unfinished : SyncRun → Bool
is_unfinished s = (s.status is "pending") || (s.status is "running")

abbrev pub is_run_of : ℕ → ℕ → String → String → SyncRun → Bool
is_run_of workspace connection kind scope s =
    s.workspace == workspace && s.connection == connection && (s.kind is kind) && (s.scope is scope)

-- The row of sync_runs_pending_scope.
abbrev pub is_pending_of : ℕ → ℕ → String → SyncRun → Bool
is_pending_of workspace connection kind s =
    is_run_of workspace connection kind "global" s && is_unfinished s

abbrev is_active_job : ℕ → Job → Bool
is_active_job scope j =
    j.workspace == scope
    && (is_job_state j.state JobState.queued || is_job_state j.state JobState.running)

unfoldable pub active_jobs : ℕ → Db → ℕ
active_jobs scope db = count (is_active_job scope) db.jobs

module _ (env : Env) where
  -- The row of sync_runs.
  abbrev pub pending_run : ℕ → ℕ → ℕ → String → ℕ → SyncRun
  pending_run actor scope connection kind number = record {
    workspace = scope;
    connection = connection;
    scope = "global";
    kind = kind;
    generation = env.new_sync;
    status = "pending";
    id = env.new_sync;
    number = number;
    actor = some actor;
    credential = none;
    page_count = 0;
    complete = false;
    started = none;
    failure = none;
    completed = none;
  }

  -- Its job.
  abbrev pub refresh_job : ℕ → ℕ → Job
  refresh_job scope connection = record {
    id = env.new_job;
    workspace = scope;
    connection = connection;
    kind = connection_refresh;
    payload_version = 2;
    operation = none;
    sync = some env.new_sync;
    state = JobState.queued;
    next_run = env.clock;
    lease_owner = none;
    lease_token = none;
    lease_expires = none;
    attempts = 0;
    deadline = env.now + 30 * minute;
    completed = none;
  }

  -- The two INSERTs, against the primary keys.
  unfoldable pub insert_run : ℕ → ℕ → ℕ → String → InvTx Unit
  insert_run actor scope connection kind db =
      if any (λ s. s.id == env.new_sync) db.sync_runs || any (λ j. j.id == env.new_job) db.jobs
      then err (of_workspace store)
      else ok (
        tt,
        record db {
          generations = db.generations + 1;
          sync_runs = pending_run actor scope connection kind (db.generations + 1) ∷ db.sync_runs;
          jobs = refresh_job scope connection ∷ db.jobs;
        },
      )

  -- enqueueLockedType where no run is unfinished.
  unfoldable pub new_run : ℕ → ℕ → ℕ → String → InvTx ℕ
  unfolding insert_run active_jobs
  new_run actor scope connection kind = do
    owner ← gets (λ (db : Db). find (λ w. w.id == scope) db.workspaces)
    w ← row (of_workspace store) owner
    active ← gets (active_jobs scope)
    guard (ltb active w.queue_limit) quota
    guard env.random_ok (of_workspace store)
    insert_run actor scope connection kind
    pure env.new_sync

  unfoldable pub enqueue_locked : ℕ → ℕ → ℕ → String → InvTx ℕ
  enqueue_locked actor scope connection kind db =
      elim (find (is_pending_of scope connection kind) db.sync_runs) [
        | some s ↦ ok (s.id, db)
        | none ↦ new_run actor scope connection kind db
      ]

  unfoldable pub enqueue : ℕ → ℕ → ℕ → String → InvTx ℕ
  unfolding enqueue_locked granted
  enqueue actor scope connection kind db =
      (do
        guard ((kind is "compute.server") || (kind is "storage.snapshot")) (of_workspace invalid)
        row (of_workspace not_found) (open_workspace scope db)
        m ← row (of_workspace not_found) (active_membership scope actor db)
        c ← row (of_workspace not_found) (connection_of scope connection db)
        guard (contains (granted scope connection actor db) "read") (of_workspace not_found)
        guard
            (contains (granted scope connection actor db) "refresh"
              && within_ceiling m.role "refresh"
              && (c.status is "active")
              && is_some (live_credential scope connection c.credential db))
            (of_workspace denied)
        enqueue_locked actor scope connection kind)
        db

  unfoldable pub refresh : ℕ → ℕ → ℕ → String → InvTx ℕ
  refresh actor scope connection kind =
      in_tx env (of_workspace store) (enqueue actor scope connection kind)

  -- Initial, in the transaction of the caller.
  unfoldable pub initial : ℕ → ℕ → ℕ → InvTx ℕ
  unfolding enqueue_locked
  initial actor scope connection = do
    from_workspace (lock_authority actor scope)
    found ← gets (connection_of scope connection)
    c ← row (of_workspace store) found
    guard (c.status is "active") (of_workspace denied)
    enqueue_locked actor scope connection "compute.server"
