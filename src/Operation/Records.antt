-- ===== src/Operation/Records.antt =====
-- The statements on operations, events, reservations and jobs that the handlers share:
-- AppendEvent of backend/internal/operation/store.go, Target, Reserve and ReleaseTerminal of
-- reservation.go, advance and finishJob of dispatch.go, executionAudit of receipt.go.
pub mod Laws
use Prim.Native.String.{len}
use sama.Prelude.{
  ℕ, suc, ◌+◌, ◌<◌, Bool, true, false, ◌&&◌, ◌||◌, not, Option, none, some, List, [], ◌∷◌, String,
  ltb, leb, ◌==◌, ◌is◌, if◌then◌else◌, is_some, Result, ok, err, pure, raise, gets, row, modify,
  guard, ◌>>=◌, ◌>>◌, find, any, count, update, delete, lookup, update_at,
}
use sama.Database.{
  Db, Env, State, queued, dispatching, waiting_provider, reconciling, unknown, succeeded, failed,
  cancelled, Operation, Job, JobState, Lock, Event, system_actor,
}
use sama.External.{External}
use sama.Audit
use sama.Audit.{Value, append_audit}
use sama.Operation.Machine.{allowed, is_state, is_terminal}
use sama.Operation.Errors.{Error, invalid, store, bad_state, busy, lease, OpTx}

abbrev pub operation_id : Operation → ℕ
operation_id o = o.id

abbrev pub within : ℕ → Option Operation → Option Operation
within workspace none = none
within workspace (some o) = if o.workspace == workspace then some o else none

-- SELECT … FROM operations WHERE workspace_id=$1 AND id=$2; `id` is the primary key.
unfoldable pub operation_of : ℕ → ℕ → Db → Option Operation
operation_of workspace id db = within workspace (lookup operation_id id db.operations)

abbrev pub is_lock_of : ℕ → ℕ → Lock → Bool
is_lock_of workspace id l = l.workspace == workspace && l.operation == id

unfoldable pub locked : ℕ → ℕ → Db → Bool
locked workspace id db = any (is_lock_of workspace id) db.locks

abbrev pub is_event_of : ℕ → ℕ → Event → Bool
is_event_of workspace id e = e.workspace == workspace && e.operation == id

unfoldable pub append_event : Env → ℕ → ℕ → ℕ → Option State → State → OpTx Unit
append_event env workspace id sequence before after db =
    if not env.random_ok
      || sequence == 0
      || any (λ e. is_event_of workspace id e && e.sequence == sequence) db.events
    then err store
    else ok (
      tt,
      record db {
        events =
            record {
              workspace = workspace;
              operation = id;
              sequence = sequence;
              before = before;
              after = after;
            }
            ∷ db.events;
      },
    )

unfoldable pub release_terminal : ℕ → ℕ → OpTx Unit
release_terminal workspace id db = elim (operation_of workspace id db) [
  | none ↦ err store
  | some o ↦
      if is_terminal o.state
      then ok (tt, record db { locks = delete (is_lock_of workspace id) db.locks })
      else err bad_state
]

-- UPDATE operations SET state, version+1, event_sequence+1, updated_at
unfoldable pub set_state : Env → ℕ → State → Db → Db
set_state env id to db = record db {
  operations =
      update_at operation_id id
        (λ o. record o {
          state = to;
          version = o.version + 1;
          sequence = o.sequence + 1;
          updated = env.clock;
        })
        db.operations;
}

-- UPDATE operations SET provider_reference
unfoldable pub set_reference : ℕ → Option String → Db → Db
set_reference id reference db = record db {
  operations = update_at operation_id id (λ o. record o { reference = reference }) db.operations;
}

-- advance; `from` is the state of the plan.
unfoldable pub advance : Env → ℕ → ℕ → State → State → OpTx Unit
unfolding set_state
advance env workspace id from to db = elim (operation_of workspace id db) [
  | none ↦ err bad_state
  | some o ↦
      if allowed from to && is_state o.state from
      then (do
        modify (set_state env id to)
        append_event env workspace id (o.sequence + 1) (some from) to
        if is_terminal to then release_terminal workspace id else pure tt)
          db
      else err bad_state
]

pub record Target : Type 0 where
  pub kind : String
  pub scope : String
  pub native : String

unfoldable pub valid_target : Target → Bool
valid_target t =
    ((t.kind is "resource") || (t.kind is "creation"))
    && not (len t.scope == 0)
    && leb (len t.scope) 128
    && not (len t.native == 0)
    && leb (len t.native) 512

-- The primary key of resource_locks.
unfoldable pub is_lock_on : ℕ → ℕ → Target → String → Lock → Bool
is_lock_on workspace connection t kind l =
    l.workspace == workspace
    && l.connection == connection
    && (l.target_kind is t.kind)
    && (l.kind is kind)
    && (l.scope is t.scope)
    && (l.native is t.native)

-- INSERT … ON CONFLICT DO NOTHING, then the SELECT of a lock that the operation already holds. The
-- second unique key of the table, (workspace_id, operation_id), conflicts too.
unfoldable pub take_lock : ℕ → ℕ → ℕ → Target → String → OpTx ℕ
take_lock workspace connection id t kind db =
    if any (is_lock_on workspace connection t kind) db.locks
      || any (is_lock_of workspace id) db.locks
    then elim (find (λ l. is_lock_on workspace connection t kind l && l.operation == id) db.locks) [
      | none ↦ err busy
      | some l ↦ ok (l.fence, db)
    ]
    else ok (
      db.fence,
      record db {
        fence = db.fence + 1;
        locks =
            record {
              workspace = workspace;
              connection = connection;
              target_kind = t.kind;
              kind = kind;
              scope = t.scope;
              native = t.native;
              operation = id;
              fence = db.fence;
            }
            ∷ db.locks;
      },
    )

unfoldable pub reserve : ℕ → ℕ → ℕ → List Target → OpTx ℕ
unfolding valid_target
reserve workspace connection id (t ∷ []) db =
    if not (valid_target t) then err invalid else elim (operation_of workspace id db) [
      | none ↦ err store
      | some o ↦
          elim (find
            (λ r. r.workspace == workspace && r.connection == connection && r.id == o.target)
            db.resources) [
              | none ↦ err store
              | some r ↦
                  if not (o.connection == connection)
                  then err store
                  else if is_state o.state queued
                      && (not (t.kind is "resource")
                          || (r.scope is t.scope) && (r.native is t.native))
                  then take_lock workspace connection id t r.kind db
                  else err invalid
            ]
    ]
reserve workspace connection id targets db = err invalid

-- job.Lease; the id of its operation is not loaded.
pub record Lease : Type 0 where
  pub id : ℕ
  pub workspace : ℕ
  pub connection : ℕ
  pub owner : ℕ
  pub token : ℕ
  pub deadline : ℕ

abbrev pub equals : Option ℕ → ℕ → Bool
equals none n = false
equals (some m) n = m == n

abbrev pub later_than : Option ℕ → ℕ → Bool
later_than none n = false
later_than (some m) n = ltb n m

abbrev pub is_job_state : JobState → JobState → Bool
is_job_state JobState.queued JobState.queued = true
is_job_state JobState.running JobState.running = true
is_job_state JobState.succeeded JobState.succeeded = true
is_job_state JobState.failed JobState.failed = true
is_job_state JobState.cancelled JobState.cancelled = true
is_job_state _ _ = false

-- j.state='running', the lease's owner and token, and neither the lease nor the deadline past.
unfoldable pub holds_lease : ℕ → Lease → Job → Bool
holds_lease clock l j =
    j.id == l.id
    && is_job_state j.state JobState.running
    && equals j.lease_owner l.owner
    && equals j.lease_token l.token
    && later_than j.lease_expires clock
    && ltb clock j.deadline

abbrev pub is_requeue : JobState → Bool
is_requeue JobState.queued = true
is_requeue _ = false

unfoldable pub end_lease : Env → JobState → ℕ → Job → Job
end_lease env state next j = record j {
  state = state;
  next_run = if is_requeue state then next else j.next_run;
  completed = if is_requeue state then none else some env.clock;
  lease_owner = none;
  lease_token = none;
  lease_expires = none;
}

unfoldable pub finish_job : Env → Lease → JobState → ℕ → OpTx Unit
finish_job env l state next db =
    if any (holds_lease env.clock l) db.jobs
    then ok (
      tt,
      record db { jobs = update (holds_lease env.clock l) (end_lease env state next) db.jobs },
    )
    else err lease

abbrev pub state_name : State → String
state_name queued = "queued"
state_name dispatching = "dispatching"
state_name waiting_provider = "waiting_provider"
state_name reconciling = "reconciling"
state_name unknown = "unknown"
state_name succeeded = "succeeded"
state_name failed = "failed"
state_name cancelled = "cancelled"

unfoldable pub execution_kind : State → String
execution_kind failed = "operation.failed"
execution_kind succeeded = "operation.completed"
execution_kind _ = "operation.reconciled"

abbrev pub is_completed : State → Bool
is_completed succeeded = true
is_completed _ = false

unfoldable pub execution_audit : External → Env → ℕ → ℕ → ℕ → State → OpTx Unit
unfolding execution_kind
execution_audit ext env workspace id target outcome db =
    if not env.random_ok
    then err store
    else elim (append_audit ext env.clock
        (record {
          id = env.new_audit;
          workspace = workspace;
          actor_kind = system_actor;
          actor = none;
          kind = execution_kind outcome;
          request = "operation-worker";
          metadata =
              ("operation_id", Value.uuid id)
              ∷ ("resource_id", Value.uuid target)
              ∷ (if is_completed outcome
                  then []
                  else ("reason_code", Value.text (state_name outcome)) ∷ []);
        })
        db) [ none ↦ err store | some db' ↦ ok (tt, db') ]
