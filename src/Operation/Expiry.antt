-- ===== src/Operation/Expiry.antt =====
-- Exhausted jobs, the installation gate and the pruning of reviews:
-- backend/internal/operation/expire.go (Expire), recovery_gate.go (Recovery, SetRecovery), prune.go.
use sama.Prelude.{
  ℕ, ◌+◌, Bool, true, false, ◌&&◌, ◌||◌, not, Option, none, some, List, [], ◌∷◌, leb, ◌==◌,
  if◌then◌else◌, Result, ok, err, pure, modify, ◌>>◌, find, any, count, update,
}
use sama.Database.{
  Db, Env, State, queued, dispatching, waiting_provider, reconciling, unknown, succeeded, failed,
  cancelled, Operation, Job, JobState,
}
use sama.External.{External}
use sama.Operation.Machine.{is_state}
use sama.Operation.Errors.{Error, store, stale, recovery, OpTx, in_tx}
use sama.Operation.Records.{operation_of, advance, execution_audit, is_job_state, later_than}

-- The SELECT of Expire without its LIMIT: dispatch jobs at their deadline or with 100 attempts
-- whose lease, if any, has ended.
unfoldable pub is_exhausted : ℕ → Job → Bool
is_exhausted clock j =
    (is_job_state j.state JobState.queued || is_job_state j.state JobState.running)
    && (leb j.deadline clock || leb 100 j.attempts)
    && not (later_than j.lease_expires clock)

abbrev pub fail_job : Env → Job → Job
fail_job env j = record j {
  state = JobState.failed;
  completed = some env.clock;
  lease_owner = none;
  lease_token = none;
  lease_expires = none;
}

-- The operation of an exhausted job, found by the job's id.
unfoldable pub exhausted_operation : Env → ℕ → Db → Option Operation
unfolding is_exhausted
exhausted_operation env id db = elim (find (λ j. j.id == id && is_exhausted env.clock j) db.jobs) [
  | none ↦ none
  | some j ↦ elim j.operation [
    | none ↦ none
    | some o ↦ elim (operation_of j.workspace o db) [
      | none ↦ none
      | some found ↦ if found.connection == j.connection then some found else none
    ]
  ]
]

-- Where Expire leaves an operation: unsent work failed, submitted work unknown.
unfoldable pub expired_state : State → State
expired_state queued = failed
expired_state dispatching = unknown
expired_state waiting_provider = unknown
expired_state reconciling = unknown
expired_state s = s

abbrev pub is_settled : State → Bool
is_settled unknown = true
is_settled succeeded = true
is_settled failed = true
is_settled cancelled = true
is_settled _ = false

abbrev pub is_in_flight : State → Bool
is_in_flight dispatching = true
is_in_flight waiting_provider = true
is_in_flight _ = false

-- Any error of the step is reported as ErrStore.
abbrev pub or_store : {A : Type 0} → OpTx A → OpTx A
or_store m db = elim (m db) [ err e ↦ err store | ok r ↦ ok r ]

module _ (ext : External) (env : Env) where
  -- The moves of one operation in Expire.
  unfoldable pub expire_operation : ℕ → ℕ → ℕ → State → OpTx Unit
  expire_operation workspace id target from = do
    if is_in_flight from then advance env workspace id from reconciling else pure tt
    if is_settled from then pure tt else do
      or_store (
          advance env workspace id (if is_in_flight from then reconciling else from)
            (if is_state from queued then failed else unknown))
      execution_audit ext env workspace id target (if is_state from queued then failed else unknown)

  -- The body of the loop, for the job `id`; `ok` with nothing changed where the job no longer
  -- qualifies.
  unfoldable pub expire_body : ℕ → OpTx Unit
  unfolding expire_operation
  expire_body id db = elim (exhausted_operation env id db) [
    | none ↦ ok (tt, db)
    | some o ↦
        (do
          expire_operation o.workspace o.id o.target o.state
          modify (λ db. record db { jobs = update (λ j. j.id == id) (fail_job env) db.jobs }))
          db
  ]

  unfoldable pub expire_one : ℕ → OpTx Unit
  expire_one id = in_tx env (expire_body id)

  -- The loop over the selected jobs stops at the first error, with what is committed.
  unfoldable pub expire : List ℕ → Db → Result Error Unit × Db
  expire [] db = (ok tt, db)
  expire (id ∷ ids) db = elim (expire_one id db) [ err e ↦ (err e, db) | ok r ↦ expire ids r.1 ]

-- Operations that were submitted and are not settled; an `unknown` one counts while reserved.
unfoldable pub is_unresolved : Db → Operation → Bool
is_unresolved db o =
    is_state o.state dispatching
    || is_state o.state waiting_provider
    || is_state o.state reconciling
    || is_state o.state unknown && any (λ l. l.operation == o.id) db.locks

pub record RecoveryStatus : Type 0 where
  pub is_open : Bool
  pub version : ℕ
  pub unresolved : ℕ

unfoldable pub recovery_status : Db → RecoveryStatus
recovery_status db = record {
  is_open = db.gate.is_open;
  version = db.gate.version;
  unresolved = count (is_unresolved db) db.operations;
}

unfoldable pub set_recovery_body : Bool → ℕ → OpTx Unit
set_recovery_body open_it version db =
    if open_it && not (version == db.gate.version)
    then err stale
    else if open_it && not (count (is_unresolved db) db.operations == 0)
    then err recovery
    else ok (tt, record db { gate = record { is_open = open_it; version = db.gate.version + 1 } })

unfoldable pub set_recovery : Env → Bool → ℕ → OpTx Unit
set_recovery env open_it version = in_tx env (set_recovery_body open_it version)
