-- ===== src/Inventory/Enqueue/Requests.antt =====
-- What a refresh request leaves behind: backend/internal/inventory/enqueue.go.
use sama.Prelude.{
  ℕ, ◌+◌, ◌*◌, ◌≤◌, ◌<◌, true, false, ◌&&◌, some, none, ◌∷◌, String, ◌≡◌, refl, ap, ◌∙◌, sym, arith,
  ok, ◌==◌, bind-ok, guard-ok, row-ok, pure-ok, row, ltb, find, any, count, Option-cases, is_iff,
  ◌⊎◌, inl, inr, any-false_mono,
}
use sama.Database.{Db, Env, Job, SyncRun, Workspace, minute}
use sama.Operation.Records.{equals}
use sama.Job.{Scheduler, is_due}
use sama.Workspace.Errors.{store}
use sama.Inventory.Errors.{of_workspace, quota, in_tx-ok}
use sama.Inventory.Enqueue.{
  pending_run, refresh_job, is_pending_of, active_jobs, insert_run, new_run, enqueue_locked,
  enqueue, refresh,
}

-- What a request that starts a run adds: the run, unfinished, and its job, within the queue limit.
pub record IsQueued (env : Env) (scope connection : ℕ) (kind : String) (a b : Db) : Type 0 where
  pub run : SyncRun
  pub job : Job
  pub pending : is_pending_of scope connection kind run ≡ true
  pub run_id : run.id ≡ env.new_sync
  pub fresh : any (λ s. s.id == run.id) a.sync_runs ≡ false
  pub runs : b.sync_runs ≡ run ∷ a.sync_runs
  pub jobs : b.jobs ≡ job ∷ a.jobs
  pub job_of : job.sync ≡ some run.id
  pub claimable :
      (s : Scheduler) (now : ℕ)
      → env.clock ≤ now
      → now < env.now + 30 * minute
      → is_due s now job ≡ true
  pub limit :
      (w : Workspace)
      → find (λ w. w.id == scope) a.workspaces ≡ some w
      → active_jobs scope b ≤ w.queue_limit

-- A request that succeeds, by what it found.
abbrev pub Answer : Env → ℕ → ℕ → String → Db → ℕ → Db → Type 0
Answer env scope connection kind a id b =
    ((s : SyncRun) × (find (is_pending_of scope connection kind) a.sync_runs ≡ some s)
      × (id ≡ s.id)
      × (b ≡ a))
    ⊎ ((find (is_pending_of scope connection kind) a.sync_runs ≡ none)
        × (id ≡ env.new_sync)
        × IsQueued env scope connection kind a b)

IsQueued-between :
    {env : Env} {scope connection : ℕ} {kind : String} {a a' b b' : Db}
    → a ≡ a'
    → b ≡ b'
    → IsQueued env scope connection kind a b
    → IsQueued env scope connection kind a' b'
IsQueued-between p q i = rw (sym p, sym q) i

module _ (env : Env) (actor scope connection : ℕ) (kind : String) where
  insert_run-IsQueued :
      (db : Db) (w : Workspace) {db' : Db}
      → ltb (active_jobs scope db) w.queue_limit ≡ true
      → find (λ w. w.id == scope) db.workspaces ≡ some w
      → insert_run env actor scope connection kind db ≡ ok (tt, db')
      → IsQueued env scope connection kind db db'
  unfolding insert_run active_jobs is_due count
  insert_run-IsQueued db w {db' = db'} few found h = record {
    run = pending_run env actor scope connection kind (db.generations + 1);
    job = refresh_job env scope connection;
    pending = ground (arith, (is_iff kind kind).1 refl);
    run_id = refl;
    fresh = ground (arith, h);
    runs = ground (arith, h);
    jobs = ground (arith, h);
    job_of = refl;
    claimable = λ s now p q. ground (arith, p, q);
    limit = λ v e.
        let same : w ≡ v = ground (arith, found, e) in
        let more : active_jobs scope db' ≤ active_jobs scope db + 1 = ground (arith, h) in
        rw (sym same) (ground (arith, more, few));
  }

  new_run-IsQueued :
      (db : Db) {id : ℕ} {db' : Db}
      → new_run env actor scope connection kind db ≡ ok (id, db')
      → (id ≡ env.new_sync) × IsQueued env scope connection kind db db'
  unfolding new_run
  new_run-IsQueued db {id = id} {db' = db'} h =
      let (w, d1, p1, h1) =
        bind-ok (row (of_workspace store) (find (λ w. w.id == scope) db.workspaces)) _ db h in
      let (q1, e1) = row-ok (of_workspace store) (find (λ w. w.id == scope) db.workspaces) db p1 in
      let (few, h2) = guard-ok (ltb (active_jobs scope d1) w.queue_limit) quota _ d1 h1 in
      let (_, h3) = guard-ok env.random_ok (of_workspace store) _ d1 h2 in
      let (_, d2, p2, h4) = bind-ok (insert_run env actor scope connection kind) _ d1 h3 in
      let (f, g) = pure-ok env.new_sync id d2 db' h4 in
      (
        sym f,
        IsQueued-between e1 g (
            insert_run-IsQueued d1 w few
              (ap (λ (d : Db). find (λ w. w.id == scope) d.workspaces) e1 ∙ q1) p2),
      )

  -- The two ways in which a request succeeds.
  pub enqueue_locked-ways :
      (db : Db) {id : ℕ} {db' : Db}
      → enqueue_locked env actor scope connection kind db ≡ ok (id, db')
      → Answer env scope connection kind db id db'
  unfolding enqueue_locked
  enqueue_locked-ways db {id = id} {db' = db'} h =
      elim (Option-cases (find (is_pending_of scope connection kind) db.sync_runs)) [
        | inl n ↦
            let (e, q) = new_run-IsQueued db {id = id} {db' = db'} (ground (arith, n, h)) in
            inr (n, e, q)
        | inr (s, e) ↦ inl (s, e, ground (arith, e, h), ground (arith, e, h))
      ]

  enqueue-locked :
      (db : Db) {id : ℕ} {db' : Db}
      → enqueue env actor scope connection kind db ≡ ok (id, db')
      → enqueue_locked env actor scope connection kind db ≡ ok (id, db')
  unfolding enqueue
  enqueue-locked db h = ground (arith, h)

  -- A refresh that succeeds either finds a run of the same connection and type that is unfinished,
  -- returns it and changes nothing, or finds none and starts one: an unfinished run and a queued job
  -- of it, which every scheduler may claim until its deadline after 30 minutes, while the workspace
  -- stays within its queue limit.
  pub refresh-ways :
      (db : Db) {id : ℕ} {db' : Db}
      → refresh env actor scope connection kind db ≡ ok (id, db')
      → Answer env scope connection kind db id db'
  unfolding refresh
  refresh-ways db h = enqueue_locked-ways db (
      enqueue-locked db
        (in_tx-ok env (of_workspace store) (enqueue env actor scope connection kind) db h))

module _ (env : Env) (actor scope connection : ℕ) (kind : String) where
  -- A run whose jobs are all past their deadline blocks its connection and type: every refresh that
  -- succeeds returns that run again, and afterwards still no scheduler can claim a job of it.
  pub refresh-blocked :
      (later : ℕ) (s : SyncRun) (scheduler : Scheduler) (db : Db) {id : ℕ} {db' : Db}
      → find (is_pending_of scope connection kind) db.sync_runs ≡ some s
      → any (λ j. equals j.sync s.id && ltb later j.deadline) db.jobs ≡ false
      → refresh env actor scope connection kind db ≡ ok (id, db')
      → (id ≡ s.id) × (any (λ j. equals j.sync s.id && is_due scheduler later j) db'.jobs ≡ false)
  unfolding is_due
  refresh-blocked later s scheduler db {id} {db'} e past h =
      elim (refresh-ways env actor scope connection kind db h) [
        | inl (t, f, i, same) ↦
            let st : t ≡ s = ground (arith, e, f) in
            (
              i ∙ ap (λ (x : SyncRun). x.id) st,
              ap (λ (d : Db). any (λ j. equals j.sync s.id && is_due scheduler later j) d.jobs) same
                  ∙ any-false_mono (λ j. equals j.sync s.id && ltb later j.deadline)
                      (λ j. equals j.sync s.id && is_due scheduler later j) db.jobs
                      (λ j d. ground (arith, d)) past,
            )
        | inr (n, _, _) ↦ absurd (ground (arith, e, n))
      ]
