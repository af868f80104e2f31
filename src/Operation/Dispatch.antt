-- ===== src/Operation/Dispatch.antt =====
-- The worker of one operation: backend/internal/operation/dispatch.go (Work, rejectUnsent),
-- dispatch_authority.go (inspectDispatch), receipt.go (Dispatcher.receipt), observe.go (observe) and
-- recovery_gate.go (checkRecoveryGate).
use sama.Prelude.{
  ℕ, ◌+◌, ◌*◌, Bool, true, false, ◌&&◌, ◌||◌, Option, none, some, String, ltb, ◌==◌, ◌is◌,
  if◌then◌else◌, is_some, Result, ok, err, pure, raise, modify, guard, ◌>>=◌, ◌>>◌,
}
use sama.Database.{
  Db, Env, State, queued, dispatching, waiting_provider, reconciling, unknown, succeeded, failed,
  JobState, second,
}
use sama.External.{External}
use sama.Operation.Machine.{is_state}
use sama.Operation.Errors.{Error, stale, denied, bad_state, unsupported, recovery, OpTx, in_tx}
use sama.Operation.Records.{set_reference, Lease, advance, finish_job, execution_audit}
use sama.Operation.Access.{Service, Authority, Plan, dispatch_load, dispatch_check}
use sama.Operation.Review.{Preconditions, inspect}
use sama.Operation.Accept.{is_same_bool}
use sama.Operation.Receipt.{Receipt, classify_action_receipt}

-- provider.ActionObservation.
pub record Observation : Type 0 where
  pub outcome : String
  pub native_evidence : Bool

unfoldable pub check_gate : OpTx Unit
check_gate db = if db.gate.is_open then ok (tt, db) else err recovery

-- What inspectDispatch hands on.
pub record Inspected : Type 0 where
  pub plan : Plan
  pub authority : Authority
  pub preconditions : Preconditions

-- The earlier of the two times.
abbrev pub earlier : ℕ → ℕ → ℕ
earlier next deadline = if ltb deadline next then deadline else next

abbrev pub receipt_job_state : State → JobState
receipt_job_state failed = JobState.failed
receipt_job_state _ = JobState.queued

abbrev pub observed_job_state : State → JobState
observed_job_state succeeded = JobState.succeeded
observed_job_state failed = JobState.succeeded
observed_job_state unknown = JobState.succeeded
observed_job_state _ = JobState.queued

-- The switch of `observe`; `none` is an error of the observation.
unfoldable pub observed_state : Option Observation → Option String → State
observed_state none reference = reconciling
observed_state (some o) reference =
    if o.outcome is "pending"
    then if is_some reference then waiting_provider else reconciling
    else if o.outcome is "succeeded"
    then if o.native_evidence then succeeded else reconciling
    else if o.outcome is "failed"
    then if o.native_evidence then failed else reconciling
    else if o.outcome is "unknown"
    then unknown
    else reconciling

abbrev pub is_submitted : State → Bool
is_submitted dispatching = true
is_submitted waiting_provider = true
is_submitted reconciling = true
is_submitted _ = false

-- Unknown is reached only through reconciling.
unfoldable pub steps_through : State → State → Bool
steps_through from to =
    (is_state from dispatching || is_state from waiting_provider) && is_state to unknown

-- Evidence that no call is allowed; any other error leaves the work queued.
abbrev pub is_definite : Error → Bool
is_definite denied = true
is_definite stale = true
is_definite unsupported = true
is_definite _ = false

module _ (ext : External) (svc : Service) (env : Env) where
  -- The transaction of inspectDispatch, the provider's answer and the comparison with the review.
  unfoldable pub inspect_dispatch : Lease → Option Preconditions → Db → Result Error Inspected
  inspect_dispatch l answer db = elim (dispatch_load ext env l db) [
    | err e ↦ err e
    | ok p ↦ elim (dispatch_check ext svc l p.0 db) [
      | err e ↦ err e
      | ok a ↦ elim (inspect ext svc a.0 p.0.review.intent.action answer) [
        | err e ↦ err e
        | ok pre ↦
            if pre.fingerprint == p.0.review.row.preconditions
              && is_same_bool pre.high p.0.review.row.high
              && (pre.name is p.0.review.row.name)
            then ok (record { plan = p.0; authority = a.0; preconditions = pre })
            else err stale
      ]
    ]
  ]

  -- The marker transaction of Work.
  unfoldable pub mark_body : Lease → Preconditions → OpTx Plan
  unfolding check_gate
  mark_body l pre = do
    p ← dispatch_load ext env l
    dispatch_check ext svc l p
    check_gate
    guard (pre.fingerprint == p.review.row.preconditions) stale
    advance env l.workspace p.id p.state dispatching
    pure p

  unfoldable pub mark : Lease → Preconditions → OpTx Plan
  mark l pre = in_tx env (mark_body l pre)

  -- `submitted` is false where the submission returned an error.
  unfoldable pub receipt_body : Lease → Receipt → Bool → OpTx Unit
  receipt_body l r submitted = do
    p ← dispatch_load ext env l
    guard (is_state p.state dispatching) bad_state
    let c = classify_action_receipt p.review.intent.action r submitted
    modify (set_reference p.id c.1)
    advance env l.workspace p.id p.state c.0
    execution_audit ext env l.workspace p.id p.target c.0
    finish_job env l (receipt_job_state c.0) (earlier (env.now + 2 * second) l.deadline)

  unfoldable pub receive : Lease → Receipt → Bool → OpTx Unit
  receive l r submitted = in_tx env (receipt_body l r submitted)

  unfoldable pub reject_body : Lease → OpTx Unit
  reject_body l = do
    p ← dispatch_load ext env l
    guard (is_state p.state queued) bad_state
    advance env l.workspace p.id p.state failed
    execution_audit ext env l.workspace p.id p.target failed
    finish_job env l JobState.failed 0

  unfoldable pub reject_unsent : Lease → Error → OpTx Unit
  reject_unsent l cause = if is_definite cause then in_tx env (reject_body l) else raise cause

  -- observe's second transaction. `refresh` is inventory.Enqueue in the same transaction: it may
  -- change the database, and its error is `some true` where observe passes over it.
  unfoldable pub observe_body : Lease → State → ℕ → State → (Db → Result Error Db) → ℕ → OpTx Unit
  unfolding steps_through
  observe_body l from target to refresh delay = do
    p ← dispatch_load ext env l
    guard (is_state p.state from) bad_state
    if steps_through from to then advance env l.workspace p.id p.state reconciling else pure tt
    advance env l.workspace p.id (if steps_through from to then reconciling else p.state) to
    execution_audit ext env l.workspace p.id target to
    if is_state to succeeded
        then (λ db. elim (refresh db) [ ok db' ↦ ok (tt, db') | err e ↦ err e ])
        else pure tt
    finish_job env l (observed_job_state to) (earlier (env.now + delay) l.deadline)
