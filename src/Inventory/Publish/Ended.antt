-- ===== src/Inventory/Publish/Ended.antt =====
-- How Complete of backend/internal/inventory/publish.go ends a run and its job.
use sama.Prelude.{
  ℕ, true, false, ◌&&◌, not, Option, none, some, List, [], ◌∷◌, String, ◌==◌, ◌≡◌, refl, arith,
  find, any, update, Bool-cases, inl, inr,
}
use sama.Database.{Db, Env, Job, JobState, Resource, SyncRun}
use sama.Operation.Records.{Lease, holds_lease, is_job_state}
use sama.Inventory.Enqueue.{is_unfinished}
use sama.Inventory.Authority.{has_id}
use sama.Inventory.Publish.{end_run}

-- How a run and its job ended: every row of the run has the status, the failure and a time of
-- completion, every row of the job has the state and no lease, and whoever looks at the run or claims
-- with the lease finds it over.
pub record IsEnded (env : Env) (l : Lease) (run : SyncRun) (status : String)
    (failure : Option String) (state : JobState) (a b : Db) : Type 0 where
  pub run_ended :
      (s : SyncRun)
      → find (has_id run.id) b.sync_runs ≡ some s
      → (s.status ≡ status) × (s.failure ≡ failure) × (s.completed ≡ some env.clock)
  pub no_pending : any (λ s. has_id run.id s && is_unfinished s) b.sync_runs ≡ false
  pub job_ended : any (λ j. j.id == l.id && not (is_job_state j.state state)) b.jobs ≡ false
  pub released : (t : ℕ) → any (holds_lease t l) b.jobs ≡ false
  pub others :
      (k : ℕ) → (k == run.id) ≡ false → find (has_id k) b.sync_runs ≡ find (has_id k) a.sync_runs
  pub other_jobs :
      (k : ℕ) → (k == l.id) ≡ false → find (λ j. j.id == k) b.jobs ≡ find (λ j. j.id == k) a.jobs
  pub runs :
      b.sync_runs
      ≡ update
          (has_id run.id)
          (λ s. record s { status = status; failure = failure; completed = some env.clock })
          a.sync_runs
  pub frame : b ≡ record a { sync_runs = b.sync_runs; jobs = b.jobs; resources = b.resources }

is_job_state_refl : (s : JobState) → is_job_state s s ≡ true
is_job_state_refl JobState.queued = refl
is_job_state_refl JobState.running = refl
is_job_state_refl JobState.succeeded = refl
is_job_state_refl JobState.failed = refl
is_job_state_refl JobState.cancelled = refl

module _ (env : Env) (l : Lease) (run : SyncRun) (status : String) (code : Option String)
    (state : JobState) where
  run-ended :
      (runs : List SyncRun) (s : SyncRun)
      → find (has_id run.id) (
          update
            (has_id run.id)
            (λ s. record s { status = status; failure = code; completed = some env.clock })
            runs)
        ≡ some s
      → (s.status ≡ status) × (s.failure ≡ code) × (s.completed ≡ some env.clock)
  unfolding find update
  run-ended [] s h = absurd (ground (arith, h))
  run-ended (x ∷ xs) s h = elim (Bool-cases (has_id run.id x)) [
    | inl e ↦ ground (arith, e, h)
    | inr e ↦ run-ended xs s (ground (arith, e, h))
  ]

  runs-others :
      (k : ℕ) (runs : List SyncRun)
      → (k == run.id) ≡ false
      → find (has_id k) (
          update
            (has_id run.id)
            (λ s. record s { status = status; failure = code; completed = some env.clock })
            runs)
        ≡ find (has_id k) runs
  unfolding find update
  runs-others k [] ne = refl
  runs-others k (x ∷ xs) ne = ground (arith, runs-others k xs ne, ne)

  runs-finished :
      (runs : List SyncRun)
      → is_unfinished (record run { status = status }) ≡ false
      → any
          (λ s. has_id run.id s && is_unfinished s)
          (update
            (has_id run.id)
            (λ s. record s { status = status; failure = code; completed = some env.clock })
            runs)
        ≡ false
  unfolding any update
  runs-finished [] over = refl
  runs-finished (x ∷ xs) over = ground (arith, runs-finished xs over, over)

  jobs-others :
      (k : ℕ) (jobs : List Job)
      → (k == l.id) ≡ false
      → find
          (λ j. j.id == k)
          (update
            (λ j. j.id == l.id)
            (λ j. record j {
              state = state;
              completed = some env.clock;
              lease_owner = none;
              lease_token = none;
              lease_expires = none;
            })
            jobs)
        ≡ find (λ j. j.id == k) jobs
  unfolding find update
  jobs-others k [] ne = refl
  jobs-others k (x ∷ xs) ne = ground (arith, jobs-others k xs ne, ne)

  jobs-ended :
      (jobs : List Job)
      → any
          (λ j. j.id == l.id && not (is_job_state j.state state))
          (update
            (λ j. j.id == l.id)
            (λ j. record j {
              state = state;
              completed = some env.clock;
              lease_owner = none;
              lease_token = none;
              lease_expires = none;
            })
            jobs)
        ≡ false
  unfolding any update
  jobs-ended [] = refl
  jobs-ended (x ∷ xs) = ground (arith, jobs-ended xs, is_job_state_refl state)

  jobs-released :
      (t : ℕ) (jobs : List Job)
      → any (holds_lease t l) (
          update
            (λ j. j.id == l.id)
            (λ j. record j {
              state = state;
              completed = some env.clock;
              lease_owner = none;
              lease_token = none;
              lease_expires = none;
            })
            jobs)
        ≡ false
  unfolding any update holds_lease
  jobs-released t [] = refl
  jobs-released t (x ∷ xs) = ground (arith, jobs-released t xs)

  pub end_run-IsEnded :
      (a b : Db) (rows : List Resource)
      → is_unfinished (record run { status = status }) ≡ false
      → b ≡ end_run env run.id status code l.id state (record a { resources = rows })
      → IsEnded env l run status code state a b
  unfolding end_run
  end_run-IsEnded a b rows over e = rw e (record {
    run_ended = run-ended a.sync_runs;
    no_pending = runs-finished a.sync_runs over;
    job_ended = jobs-ended a.jobs;
    released = λ t. jobs-released t a.jobs;
    others = λ k ne. runs-others k a.sync_runs ne;
    other_jobs = λ k ne. jobs-others k a.jobs ne;
    runs = refl;
    frame = refl;
  })

pub end_run-resources :
    (env : Env) (run : ℕ) (status : String) (code : Option String) (job : ℕ) (state : JobState)
    (db : Db)
    → (end_run env run status code job state db).resources ≡ db.resources
unfolding end_run
end_run-resources env run status code job state db = refl
