-- ===== src/Job.antt =====
-- The job scheduler: backend/internal/job/lease.go (Claim, Renew, Finish) and prune.go. A statement
-- of one UPDATE is one step; `now` is Scheduler.Now.
pub mod Fencing
pub mod Order
pub mod Displaced
use sama.Prelude.{
  ℕ, ◌+◌, ◌*◌, Bool, true, false, ◌&&◌, ◌||◌, not, Option, none, some, List, [], ◌∷◌, ltb, leb,
  ◌==◌, is_some, if◌then◌else◌, Result, ok, err, Tx, find, any, update, delete, ◌≡◌, refl,
}
use sama.Database.{
  Db, Job, JobState, JobKind, connection_refresh, operation_dispatch, minute, second, hour,
}
use sama.Operation.Records.{Lease, holds_lease, later_than, is_job_state, operation_of}
use sama.Operation.Machine.{is_terminal}

pub data Error : Type 0 where
  no_job unavailable maintenance : Error

-- Scheduler; `maintained` is none without a Maintenance function, else whether it succeeds.
pub record Scheduler : Type 0 where
  pub operations : Bool
  pub maintained : Option Bool

abbrev pub is_claimed_kind : Scheduler → Job → Bool
is_claimed_kind s j = elim j.kind [
  | connection_refresh ↦ true
  | operation_dispatch ↦ s.operations && j.payload_version == 3
]

-- lease_expires_at<=now
abbrev pub has_lapsed : Option ℕ → ℕ → Bool
has_lapsed none now = false
has_lapsed (some t) now = leb t now

-- The WHERE of the candidate.
unfoldable pub is_due : Scheduler → ℕ → Job → Bool
is_due s now j =
    is_claimed_kind s j
    && ltb now j.deadline
    && ltb j.attempts 100
    && (is_job_state j.state JobState.queued && leb j.next_run now
        || is_job_state j.state JobState.running && has_lapsed j.lease_expires now)

-- ORDER BY next_run_at, id
abbrev pub comes_first : Job → Job → Bool
comes_first a b = ltb a.next_run b.next_run || a.next_run == b.next_run && leb a.id b.id

-- The first due job in that order. A row that another transaction has locked is skipped:
-- `is_skipped` tells which.
unfoldable pub candidate : Scheduler → ℕ → (ℕ → Bool) → List Job → Option Job
candidate s now is_skipped [] = none
candidate s now is_skipped (j ∷ js) =
    let rest = candidate s now is_skipped js in
    if is_due s now j && not (is_skipped j.id)
    then elim rest [ none ↦ some j | some k ↦ if comes_first j k then some j else some k ]
    else rest

-- LEAST(now + 60 seconds, deadline)
abbrev pub lease_end : ℕ → Job → ℕ
lease_end now j = if ltb j.deadline (now + 60 * second) then j.deadline else now + 60 * second

unfoldable pub start_lease : ℕ → ℕ → ℕ → Job → Job
start_lease now owner token j = record j {
  state = JobState.running;
  lease_owner = some owner;
  lease_token = some token;
  lease_expires = some (lease_end now j);
  attempts = j.attempts + 1;
}

-- Claim; `token` is the one that uuid.NewRandom returned, `commits` whether the transaction opened
-- and committed.
unfoldable pub claim : Scheduler → ℕ → ℕ → Option ℕ → Bool → (ℕ → Bool) → Tx (List Job) Error Lease
claim s now owner token commits is_skipped jobs =
    if owner == 0 then err unavailable else elim s.maintained [
      | some false ↦ err maintenance
      | _ ↦ elim token [
        | none ↦ err unavailable
        | some t ↦ elim (candidate s now is_skipped jobs) [
          | none ↦ if commits then err no_job else err unavailable
          | some j ↦
              if commits
              then ok (
                record {
                  id = j.id;
                  workspace = j.workspace;
                  connection = j.connection;
                  owner = owner;
                  token = t;
                  deadline = j.deadline;
                },
                update (λ x. x.id == j.id) (start_lease now owner t) jobs,
              )
              else err unavailable
        ]
      ]
    ]

unfoldable pub extend : ℕ → Job → Job
extend now j = record j { lease_expires = some (lease_end now j) }

-- Renew; the answer is whether the lease still stands.
unfoldable pub renew : ℕ → Lease → Tx (List Job) Error Unit
renew now l jobs =
    if any (holds_lease now l) jobs
    then ok (tt, update (holds_lease now l) (extend now) jobs)
    else err unavailable

abbrev pub complete : JobState → ℕ → Job → Job
complete state clock j = record j {
  state = state;
  completed = some clock;
  lease_owner = none;
  lease_token = none;
  lease_expires = none;
}

abbrev pub is_outcome : JobState → Bool
is_outcome JobState.succeeded = true
is_outcome JobState.failed = true
is_outcome _ = false

-- Finish; `clock` is clock_timestamp().
unfoldable pub finish : ℕ → ℕ → Lease → JobState → Tx (List Job) Error Unit
finish now clock l state jobs =
    if not (is_outcome state)
    then err unavailable
    else if any (holds_lease now l) jobs
    then ok (tt, update (holds_lease now l) (complete state clock) jobs)
    else err unavailable

abbrev pub is_ended : JobState → Bool
is_ended JobState.succeeded = true
is_ended JobState.failed = true
is_ended JobState.cancelled = true
is_ended _ = false

-- completed_at < clock - 7 days
abbrev pub is_before : Option ℕ → ℕ → Bool
is_before none t = false
is_before (some c) t = ltb (c + 7 * (24 * hour)) t

-- The rows that PruneTerminal may delete, without its LIMIT.
unfoldable pub is_prunable : ℕ → Db → Job → Bool
is_prunable clock db j = is_ended j.state && is_before j.completed clock && elim j.operation [
  | none ↦ true
  | some o ↦ elim (operation_of j.workspace o db) [
    | none ↦ false
    | some found ↦ is_terminal found.state
  ]
]

-- `is_chosen` tells which of the rows the LIMIT and the locks leave.
unfoldable pub prune_terminal : ℕ → (ℕ → Bool) → Db → Db
unfolding is_prunable
prune_terminal clock is_chosen db = record db {
  jobs = delete (λ j. is_chosen j.id && is_prunable clock db j) db.jobs;
}
