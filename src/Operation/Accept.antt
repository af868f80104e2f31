-- ===== src/Operation/Accept.antt =====
-- Accepting a reviewed action: Confirm of backend/internal/operation/accept.go, Resolve of
-- idempotency.go and InsertOperation of backend/internal/job/store.go.
use sama.Prelude.{
  ℕ, ◌+◌, ◌*◌, Bool, true, false, ◌&&◌, ◌||◌, not, Option, none, some, [], ◌∷◌, String, ltb, ◌==◌,
  ◌is◌, if◌then◌else◌, is_some, contains, Result, ok, err, pure, gets, modify, guard, ◌>>=◌, ◌>>◌,
  find, any, count, update,
}
use sama.Database.{
  Db, Env, State, queued, Workspace, Grant, Review, Operation, Job, JobState, operation_dispatch,
  open_workspace, active_membership, grant_of, minute, user_actor,
}
use sama.External.{External}
use sama.Audit.{Value, append_audit}
use sama.Identity.Recent.{Principal}
use sama.Operation.Intent.{valid_key, digest}
use sama.Operation.Errors.{
  Error, invalid, store, conflict, stale, quota, unsupported, not_found, OpTx, in_tx, pass,
}
use sama.Operation.Records.{append_event, reserve, Target, is_job_state, equals}
use sama.Operation.Access.{Service, Authority, Stored, authority, load, check}
use sama.Operation.Review.{Preconditions, inspect}

pub record Confirmation : Type 0 where
  pub review : ℕ
  pub confirmed : Bool
  pub typed : String

pub record Accepted : Type 0 where
  pub id : ℕ
  pub state : State

abbrev pub has_key : ℕ → ℕ → String → Operation → Bool
has_key scope actor key o = o.workspace == scope && o.actor == actor && (o.key is key)

abbrev pub reads : Option Grant → Bool
reads none = false
reads (some g) = contains g.actions "read"

-- Resolve: `ok none` where no operation that the actor may read has the key.
unfoldable pub resolve : ℕ → ℕ → String → ℕ → Db → Result Error (Option Accepted)
resolve scope actor key hash db =
    if not (valid_key key)
    then err invalid
    else elim (find (has_key scope actor key) db.operations) [
      | none ↦ ok none
      | some o ↦
          if not (
            is_some (active_membership scope actor db)
            && is_some (open_workspace scope db)
            && reads (grant_of scope o.connection actor db))
          then ok none
          else if o.hash == hash
          then ok (some (record { id = o.id; state = o.state }))
          else err conflict
    ]

-- The unique keys of operations: the id, (workspace, actor, key) and (workspace, review).
abbrev pub clashes : Operation → Operation → Bool
clashes o p =
    p.id == o.id
    || has_key o.workspace o.actor o.key p
    || p.workspace == o.workspace && p.review == o.review

unfoldable pub insert_operation : Operation → OpTx Unit
insert_operation o db =
    if any (clashes o) db.operations
    then err store
    else ok (tt, record db { operations = o ∷ db.operations })

-- The ids of jobs are unique, and a dispatch job is the only one of its operation.
abbrev pub job_clashes : ℕ → ℕ → Job → Bool
job_clashes id operation j = j.id == id || equals j.operation operation

abbrev pub is_same_bool : Bool → Bool → Bool
is_same_bool true b = b
is_same_bool false b = not b

module _ (ext : External) (svc : Service) (env : Env) where
  unfoldable pub insert_job : ℕ → ℕ → ℕ → ℕ → OpTx Unit
  insert_job scope connection operation deadline db =
      if not (
          ext.uuid_version env.new_job == 7
          && ext.uuid_version scope == 7
          && ext.uuid_version connection == 7
          && ext.uuid_version operation == 7)
        || any (job_clashes env.new_job operation) db.jobs
      then err store
      else ok (
        tt,
        record db {
          jobs =
              record {
                id = env.new_job;
                workspace = scope;
                connection = connection;
                kind = operation_dispatch;
                payload_version = 3;
                operation = some operation;
                sync = none;
                state = JobState.queued;
                next_run = env.clock;
                lease_owner = none;
                lease_token = none;
                lease_expires = none;
                attempts = 0;
                deadline = deadline;
                completed = none;
              }
              ∷ db.jobs;
        },
      )

  -- The operation that Confirm inserts.
  unfoldable pub new_operation : Principal → ℕ → String → Stored → ℕ → Operation
  new_operation p scope key r hash = record {
    id = env.new_operation;
    workspace = scope;
    actor = p.user;
    connection = r.row.connection;
    target = r.row.target;
    action = r.intent.action;
    hash = hash;
    key = key;
    review = r.row.id;
    credential = r.row.credential;
    policy = r.row.policy;
    state = queued;
    version = 1;
    sequence = 1;
    reference = none;
    deadline = env.now + 30 * minute;
    updated = env.clock;
  }

  -- The jobs that count against the queue limit.
  abbrev pub is_queued_job : ℕ → Job → Bool
  is_queued_job scope j =
      j.workspace == scope
      && (is_job_state j.state JobState.queued || is_job_state j.state JobState.running)

  abbrev pub queue_limit : Option Workspace → ℕ
  queue_limit none = 0
  queue_limit (some w) = w.queue_limit

  abbrev pub consume : ℕ → Review → Review
  consume id r = record r { consumed = some id }

  unfoldable pub accept_audit : Principal → ℕ → ℕ → String → OpTx Unit
  accept_audit p scope target request db =
      if not env.random_ok
      then err store
      else elim (append_audit ext env.clock
          (record {
            id = env.new_audit;
            workspace = scope;
            actor_kind = user_actor;
            actor = some p.user;
            kind = "operation.accepted";
            request = request;
            metadata =
                ("operation_id", Value.uuid env.new_operation)
                ∷ ("resource_id", Value.uuid target)
                ∷ [];
          })
          db) [ none ↦ err store | some db' ↦ ok (tt, db') ]

  abbrev pub accepted_target : Authority → Target
  accepted_target current = record {
    kind = "resource";
    scope = current.scope;
    native = current.native;
  }

  abbrev pub consume_review : ℕ → Db → Db
  consume_review review db = record db {
    reviews = update (λ x. x.id == review) (consume env.new_operation) db.reviews;
  }

  -- The statements of Confirm that write: operation, reservation, job, review, event, audit.
  unfoldable pub write_operation :
      Principal → ℕ → String → ℕ → Stored → Authority → String → OpTx Accepted
  unfolding new_operation insert_operation insert_job accept_audit
  write_operation p scope key hash r current request = do
    insert_operation (new_operation p scope key r hash)
    reserve scope r.row.connection env.new_operation (accepted_target current ∷ [])
    insert_job scope r.row.connection env.new_operation (env.now + 30 * minute)
    modify (consume_review r.row.id)
    append_event env scope env.new_operation 1 none queued
    accept_audit p scope r.row.target request
    pure (record { id = env.new_operation; state = queued })

  -- Confirm from the quota to the audit event.
  unfoldable pub admit : Principal → ℕ → String → ℕ → Stored → Authority → String → OpTx Accepted
  admit p scope key hash r current request = do
    limit ← gets (λ db. queue_limit (open_workspace scope db))
    queued_jobs ← gets (λ db. count (is_queued_job scope) db.jobs)
    guard (ltb queued_jobs limit) quota
    guard env.random_ok store
    write_operation p scope key hash r current request

  -- The second transaction of Confirm, where Resolve finds nothing.
  unfoldable pub confirm_fresh :
      Principal → ℕ → String → Confirmation → String → ℕ → Preconditions → OpTx Accepted
  confirm_fresh p scope key c request hash pre = do
    r ← load ext p.user scope c.review
    current ← authority ext svc p.user scope r.row.target
    pass (check svc env p current r c.typed)
    guard (hash == r.row.hash && pre.fingerprint == r.row.preconditions) stale
    admit p scope key hash r current request

  -- The second transaction of Confirm.
  unfoldable pub confirm_body :
      Principal → ℕ → String → Confirmation → String → ℕ → Preconditions → OpTx Accepted
  confirm_body p scope key c request hash pre db = elim (open_workspace scope db) [
    | none ↦ err not_found
    | some w ↦ elim (resolve scope p.user key hash db) [
      | err e ↦ err e
      | ok (some found) ↦ ok (found, db)
      | ok none ↦ confirm_fresh p scope key c request hash pre db
    ]
  ]

  -- Confirm after the first Resolve found nothing.
  unfoldable pub confirm_inspected :
      Principal
      → ℕ
      → String
      → Confirmation
      → String
      → Db
      → Option Preconditions
      → ℕ
      → Stored
      → OpTx Accepted
  unfolding confirm_body
  confirm_inspected p scope key c request before answer hash r db =
      elim (authority ext svc p.user scope r.row.target before) [
        | err e ↦ err e
        | ok a ↦ elim (check svc env p a.0 r c.typed) [
          | some e ↦ err e
          | none ↦ elim (inspect ext svc a.0 r.intent.action answer) [
            | err e ↦ err e
            | ok pre ↦
                if pre.fingerprint == r.row.preconditions
                  && is_same_bool pre.high r.row.high
                  && (pre.name is r.row.name)
                then in_tx env (confirm_body p scope key c request hash pre) db
                else err stale
          ]
        ]
      ]

  -- Confirm: the first transaction reads the database `before` and is rolled back, the adapter
  -- answers outside any transaction, and the second one runs on the database that it then meets.
  unfoldable pub confirm :
      Principal → ℕ → String → Confirmation → String → Db → Option Preconditions → OpTx Accepted
  unfolding confirm_inspected
  confirm p scope key c request before answer db =
      if not svc.ready
      then err unsupported
      else if not (valid_key key) || not (ext.uuid_version c.review == 7) || not c.confirmed
      then err invalid
      else if not env.begin_ok
      then err store
      else if not (is_some (open_workspace scope before))
      then err not_found
      else elim (load ext p.user scope c.review before) [
        | err e ↦ err e
        | ok l ↦
            elim (digest ext l.0.intent scope p.user l.0.row.connection l.0.row.target c.review) [
              | none ↦ err stale
              | some hash ↦
                  if not (hash == l.0.row.hash)
                  then err stale
                  else elim (resolve scope p.user key hash before) [
                    | err e ↦ err e
                    | ok (some found) ↦ ok (found, db)
                    | ok none ↦ confirm_inspected p scope key c request before answer hash l.0 db
                  ]
            ]
      ]
