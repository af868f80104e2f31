-- ===== src/Operation/Control.antt =====
-- The owner-facing controls of an operation: backend/internal/operation/control.go (Cancel),
-- recheck.go (Recheck), resolution.go (ReleaseUnknown).
use sama.Prelude.{
  ℕ, ◌+◌, ◌*◌, Bool, false, ◌&&◌, ◌||◌, not, Option, none, some, [], ◌∷◌, String, ltb, ◌==◌, ◌is◌,
  if◌then◌else◌, contains, ok, err, pure, gets, modify, guard, ◌>>=◌, ◌>>◌, find, any, update,
  delete,
}
use sama.Database.{
  Db, Env, State, queued, reconciling, unknown, cancelled, Role, Grant, Operation, Job, JobState,
  open_workspace, active_membership, grant_of, minute, user_actor,
}
use sama.External.{External}
use sama.Audit.{Value, append_audit}
use sama.Identity.Recent.{Principal, is_recent}
use sama.Workspace.Role.{within_ceiling, is_owner}
use sama.Operation.Machine.{is_state}
use sama.Operation.Errors.{
  Error, invalid, store, denied, bad_state, not_found, recent_required, OpTx, in_tx, pass,
}
use sama.Operation.Records.{operation_of, locked, is_lock_of, advance, is_job_state, equals}
use sama.Operation.Access.{Service, is_dispatch}

-- dispatchPlan of controlLoad, with the role of the caller.
pub record Controlled : Type 0 where
  pub operation : Operation
  pub role : Role

unfoldable pub control_class : Bool → String
control_class high = if high then "high_impact" else "operate"

unfoldable pub control_load : ℕ → ℕ → ℕ → OpTx Controlled
unfolding control_class
control_load actor scope id db = elim (open_workspace scope db) [
  | none ↦ err not_found
  | some w ↦ elim (operation_of scope id db) [
    | none ↦ err not_found
    | some o ↦
        elim (find (λ r. r.workspace == scope && r.connection == o.connection && r.id == o.review)
          db.reviews) [
            | none ↦ err not_found
            | some r ↦ elim (active_membership scope actor db) [
              | none ↦ err not_found
              | some m ↦ elim (grant_of scope o.connection actor db) [
                | none ↦ err not_found
                | some g ↦
                    if not (contains g.actions "read")
                    then err not_found
                    else if within_ceiling m.role (control_class r.high)
                        && contains g.actions (control_class r.high)
                    then ok (record { operation = o; role = m.role }, db)
                    else err denied
              ]
            ]
          ]
  ]
]

unfoldable pub control_kind : String → String
control_kind reason =
    if reason is "reservation_released_residual_risk"
    then "operation.reservation_released"
    else if reason is "cancelled_before_dispatch"
    then "operation.cancelled"
    else "operation.reconciled"

abbrev pub has_high : Option Grant → Bool
has_high none = false
has_high (some g) = contains g.actions "high_impact"

-- The jobs of an operation that are not finished.
abbrev pub is_open_job : ℕ → ℕ → Job → Bool
is_open_job scope id j =
    j.workspace == scope
    && equals j.operation id
    && (is_job_state j.state JobState.queued || is_job_state j.state JobState.running)

abbrev pub stop_job : Env → Job → Job
stop_job env j = record j {
  state = JobState.cancelled;
  completed = some env.clock;
  lease_owner = none;
  lease_token = none;
  lease_expires = none;
}

abbrev pub is_job_of : ℕ → ℕ → Job → Bool
is_job_of scope id j = j.workspace == scope && equals j.operation id

-- UPDATE jobs of Recheck.
abbrev pub requeue : Env → Job → Job
requeue env j = record j {
  state = JobState.queued;
  deadline = env.clock + 5 * minute;
  next_run = env.clock;
  attempts = 0;
  completed = none;
  lease_owner = none;
  lease_token = none;
  lease_expires = none;
}

abbrev pub is_dispatch_of : ℕ → ℕ → Job → Bool
is_dispatch_of scope id j =
    j.workspace == scope && equals j.operation id && is_dispatch j.kind && j.payload_version == 3

module _ (ext : External) (env : Env) where
  unfoldable pub control_audit : ℕ → ℕ → ℕ → ℕ → String → String → OpTx Unit
  unfolding control_kind
  control_audit actor scope id target request reason db =
      if not env.random_ok
      then err store
      else elim (append_audit ext env.clock
          (record {
            id = env.new_audit;
            workspace = scope;
            actor_kind = user_actor;
            actor = some actor;
            kind = control_kind reason;
            request = request;
            metadata =
                ("operation_id", Value.uuid id)
                ∷ ("resource_id", Value.uuid target)
                ∷ ("reason_code", Value.text reason)
                ∷ [];
          })
          db) [ none ↦ err store | some db' ↦ ok (tt, db') ]

module _ (ext : External) (svc : Service) (env : Env) where
  unfoldable pub cancel_body : Principal → ℕ → ℕ → String → OpTx State
  cancel_body p scope id request = do
    c ← control_load p.user scope id
    guard (is_state c.operation.state queued) bad_state
    advance env scope id c.operation.state cancelled
    modify (λ db. record db { jobs = update (is_open_job scope id) (stop_job env) db.jobs })
    control_audit ext env p.user scope id c.operation.target request "cancelled_before_dispatch"
    pure cancelled

  -- The result is the state of Accepted; its id is the argument.
  unfoldable pub cancel : Principal → ℕ → ℕ → String → OpTx State
  cancel p scope id request = do guard svc.ready store; in_tx env (cancel_body p scope id request)

  abbrev pub is_pending : ℕ → ℕ → Job → Bool
  is_pending scope id j = is_open_job scope id j && ltb env.clock j.deadline

  -- Recheck of an `unknown` operation that is still reserved.
  unfoldable pub reopen : Principal → ℕ → ℕ → ℕ → String → OpTx State
  reopen p scope id target request = do
    reserved ← gets (locked scope id)
    guard reserved bad_state
    control_audit ext env p.user scope id target request "user_requested_recheck"
    advance env scope id unknown reconciling
    present ← gets (λ db. any (is_dispatch_of scope id) db.jobs)
    guard present store
    modify (λ db. record db { jobs = update (is_dispatch_of scope id) (requeue env) db.jobs })
    pure reconciling

  unfoldable pub recheck_body : Principal → ℕ → ℕ → String → OpTx State
  unfolding reopen
  recheck_body p scope id request = do
    c ← control_load p.user scope id
    pending ← gets (λ db. any (is_pending scope id) db.jobs)
    if is_state c.operation.state reconciling && pending then pure reconciling else do
      guard (is_state c.operation.state unknown) bad_state
      reopen p scope id c.operation.target request

  -- The transaction of the first branch, which changes nothing, is not committed; its end is not
  -- told apart from a commit.
  unfoldable pub recheck : Principal → ℕ → ℕ → String → OpTx State
  recheck p scope id request = do guard svc.ready store; in_tx env (recheck_body p scope id request)

  -- The INSERT, the DELETE and the UPDATE of ReleaseUnknown.
  unfoldable pub resolve_risk : Principal → ℕ → ℕ → OpTx State
  resolve_risk p scope id db =
      if any (λ x. x.workspace == scope && x.operation == id) db.resolutions
        || not (locked scope id db)
      then err bad_state
      else ok (
        unknown,
        record db {
          resolutions =
              record { workspace = scope; operation = id; actor = p.user } ∷ db.resolutions;
          locks = delete (is_lock_of scope id) db.locks;
          jobs = update (is_job_of scope id) (stop_job env) db.jobs;
        },
      )

  -- The tests of ReleaseUnknown on the stored operation; `none` is no error.
  unfoldable pub release_refusal : Principal → ℕ → Controlled → String → Db → Option Error
  release_refusal p scope c typed db =
      if not (is_owner c.role)
      then some denied
      else if not (is_state c.operation.state unknown)
      then some bad_state
      else if not (has_high (grant_of scope c.operation.connection p.user db))
      then some denied
      else if any (λ r. r.id == c.operation.review && (r.name is typed)) db.reviews
      then none
      else some invalid

  unfoldable pub release_body : Principal → ℕ → ℕ → String → String → OpTx State
  unfolding resolve_risk release_refusal
  release_body p scope id typed request = do
    c ← control_load p.user scope id
    refusal ← gets (release_refusal p scope c typed)
    pass refusal
    control_audit ext env p.user scope id c.operation.target request
        "reservation_released_residual_risk"
    guard env.random_ok store
    resolve_risk p scope id

  unfoldable pub release_unknown : Principal → ℕ → ℕ → Bool → String → String → OpTx State
  release_unknown p scope id acknowledged typed request = do
    guard svc.ready store
    guard acknowledged invalid
    guard (svc.sessions && is_recent p env.now) recent_required
    in_tx env (release_body p scope id typed request)
