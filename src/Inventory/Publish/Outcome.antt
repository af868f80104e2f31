-- ===== src/Inventory/Publish/Outcome.antt =====
-- What Complete of backend/internal/inventory/publish.go commits.
use sama.Prelude.{
  ℕ, ◌==◌, true, false, ◌&&◌, Option, some, none, String, ◌≡◌, refl, ap, ◌∙◌, sym, arith, ok,
  bind-ok, guard-ok, row-ok, row, any, Bool-cases, Option-cases, inl, inr,
}
use sama.Database.{Db, Env, Resource, SyncRun, JobState, Connection, connection_of}
use sama.External.{External}
use sama.Operation.Records.{Lease}
use sama.Inventory.Errors.{Error, scan, lease, failure_code, in_tx-ok}
use sama.Inventory.Authority.{runs_for, Binding, scan_authority}
use sama.Inventory.Publish.{
  has_key, is_staged, is_missing, is_old, published, end_run, has_newer, settle, complete_scanned,
  complete_body, complete, publish_run,
}
use sama.Inventory.Publish.Ended.{IsEnded, end_run-IsEnded, end_run-resources}
use sama.Inventory.Publish.Live.{is_kept, published-is_kept, published-is_missing}

-- The three ends of a run: a failure, a newer run that won, and a publication under the family of the
-- connection.
pub data IsCompleted (ext : External) (env : Env) (l : Lease) (run : SyncRun) (a b : Db)
    : Option Error → Type 0 where
  failed :
      (e : Error)
      → IsEnded env l run "failed" (some (failure_code e)) JobState.failed a b
      → b.resources ≡ a.resources
      → IsCompleted ext env l run a b (some e)
  overtaken :
      has_newer l.workspace l.connection run a ≡ true
      → IsEnded env l run "cancelled" none JobState.cancelled a b
      → b.resources ≡ a.resources
      → IsCompleted ext env l run a b none
  succeeded :
      (c : Connection) (actor version : ℕ) (bound : Binding)
      → run.complete ≡ true
      → has_newer l.workspace l.connection run a ≡ false
      → run.actor ≡ some actor
      → run.credential ≡ some version
      → scan_authority ext env l run.id actor version a ≡ ok (bound, a)
      → connection_of l.workspace l.connection a ≡ some c
      → IsEnded env l run "succeeded" none JobState.succeeded a b
      → (any
            (is_missing l.workspace l.connection c.family run
              (is_old run.number a.sync_runs)
              a.staging)
            b.resources
          ≡ false)
      → ((k : Resource)
          → any (λ j. is_staged l.workspace l.connection run.generation j && has_key k j) a.staging
            ≡ true
          → any (is_kept run.generation (is_old run.number a.sync_runs) k) b.resources ≡ true)
      → IsCompleted ext env l run a b none

pub scan_authority-db :
    (ext : External) (env : Env) (l : Lease) (run actor version : ℕ) (db : Db) {b : Binding}
    {db' : Db}
    → scan_authority ext env l run actor version db ≡ ok (b, db')
    → db' ≡ db
unfolding scan_authority
scan_authority-db ext env l run actor version db {b} {db'} h = ground (arith, h)

-- The authority of a scan is for the family of the connection as it is stored.
scan_authority-family :
    (ext : External) (env : Env) (l : Lease) (run actor version : ℕ) (db : Db) {b : Binding}
    {db' : Db}
    → scan_authority ext env l run actor version db ≡ ok (b, db')
    → (c : Connection) × (connection_of l.workspace l.connection db ≡ some c)
      × (b.family ≡ c.family)
unfolding scan_authority
scan_authority-family ext env l run actor version db {b} {db'} h =
    elim (Option-cases (connection_of l.workspace l.connection db)) [
      | inl e ↦ absurd (ground (arith, e, h))
      | inr (c, e) ↦ (c, e, ground (arith, e, h))
    ]

start-IsCompleted :
    {ext : External} {env : Env} {l : Lease} {run : SyncRun} {a a' b : Db} {o : Option Error}
    → a ≡ a'
    → IsCompleted ext env l run a b o
    → IsCompleted ext env l run a' b o
start-IsCompleted p i = rw (sym p) i

module _ (ext : External) (env : Env) (l : Lease) (run : SyncRun) where
  publish_run-overtaken :
      (family : String) (db : Db) {db' : Db}
      → has_newer l.workspace l.connection run db ≡ true
      → publish_run ext env l run family db ≡ ok (tt, db')
      → IsCompleted ext env l run db db' none
  unfolding publish_run
  publish_run-overtaken family db {db' = db'} n h =
      let e : db' ≡ end_run env run.id "cancelled" none l.id JobState.cancelled db =
        ground (arith, n, h) in
      overtaken n
        (end_run-IsEnded env l run "cancelled" none JobState.cancelled db db' db.resources refl e)
        (ap (λ (d : Db). d.resources) e
          ∙ end_run-resources env run.id "cancelled" none l.id JobState.cancelled db)

  publish_run-succeeded :
      (c : Connection) (actor version : ℕ) (bound : Binding) (db : Db) {db' : Db}
      → run.complete ≡ true
      → has_newer l.workspace l.connection run db ≡ false
      → run.actor ≡ some actor
      → run.credential ≡ some version
      → scan_authority ext env l run.id actor version db ≡ ok (bound, db)
      → connection_of l.workspace l.connection db ≡ some c
      → publish_run ext env l run c.family db ≡ ok (tt, db')
      → IsCompleted ext env l run db db' none
  unfolding publish_run
  publish_run-succeeded c actor version bound db {db' = db'} whole n p q r k h =
      let older = is_old run.number db.sync_runs in
      let after : Db = record db {
        resources = published l.workspace l.connection c.family run db;
      } in
      let e : db' ≡ end_run env run.id "succeeded" none l.id JobState.succeeded after =
        ground (arith, n, h) in
      let rows : db'.resources ≡ published l.workspace l.connection c.family run db =
        ap (λ (d : Db). d.resources) e
        ∙ end_run-resources env run.id "succeeded" none l.id JobState.succeeded after in
      succeeded c actor version bound whole n p q r k
        (end_run-IsEnded env l run "succeeded" none JobState.succeeded db db' after.resources refl
          e)
        (ap (any (is_missing l.workspace l.connection c.family run older db.staging)) rows
          ∙ published-is_missing l.workspace l.connection c.family run db)
        (λ key staged.
          ap (any (is_kept run.generation older key)) rows
          ∙ published-is_kept l.workspace l.connection c.family run db key staged)

  complete_scanned-IsCompleted :
      (db : Db) {db' : Db}
      → complete_scanned ext env l run db ≡ ok (tt, db')
      → IsCompleted ext env l run db db' none
  unfolding complete_scanned
  complete_scanned-IsCompleted db {db' = db'} h =
      let (actor, d1, p1, h1) = bind-ok (row scan run.actor) _ db h in
      let (q1, e1) = row-ok scan run.actor db p1 in
      let (version, d2, p2, h2) = bind-ok (row scan run.credential) _ d1 h1 in
      let (q2, e2) = row-ok scan run.credential d1 p2 in
      let (whole, h3) = guard-ok run.complete scan _ d2 h2 in
      let (b, d3, p3, h4) = bind-ok (scan_authority ext env l run.id actor version) _ d2 h3 in
      let before : d2 ≡ db = e2 ∙ e1 in
      let same : d3 ≡ d2 = scan_authority-db ext env l run.id actor version d2 p3 in
      let (c, k, family) = scan_authority-family ext env l run.id actor version d2 p3 in
      let ran : publish_run ext env l run c.family d2 ≡ ok (tt, db') =
        ap (λ d. publish_run ext env l run c.family d) (sym same)
        ∙ ap (λ f. publish_run ext env l run f d3) (sym family)
        ∙ h4 in
      let held : scan_authority ext env l run.id actor version d2 ≡ ok (b, d2) =
        p3 ∙ ap (λ (d : Db). ok (b, d)) same in
      start-IsCompleted before (elim (Bool-cases (has_newer l.workspace l.connection run d2)) [
        | inl n ↦ publish_run-overtaken c.family d2 n ran
        | inr n ↦ publish_run-succeeded c actor version b d2 whole n q1 q2 held k ran
      ])

  end-IsCompleted :
      (scanned : Option Error) (db : Db) {db' : Db}
      → settle ext env l scanned run db ≡ ok (tt, db')
      → IsCompleted ext env l run db db' scanned
  unfolding settle
  end-IsCompleted none db h = complete_scanned-IsCompleted db h
  end-IsCompleted (some e) db {db' = db'} h =
      let code = some (failure_code e) in
      let q : db' ≡ end_run env run.id "failed" code l.id JobState.failed db = ground (arith, h) in
      failed e (end_run-IsEnded env l run "failed" code JobState.failed db db' db.resources refl q)
        (ap (λ (d : Db). d.resources) q
          ∙ end_run-resources env run.id "failed" code l.id JobState.failed db)

module _ (ext : External) (env : Env) (l : Lease) where
  -- Complete that succeeds holds the lease of a running job whose deadline is ahead, with an
  -- unfinished run. It ends that run and that job and releases the lease for good; other runs and
  -- jobs, and all tables but the resources, stay as they are. A scan that failed ends as failed with
  -- the code of its error, and a whole scan that a newer run of the scope overtook as cancelled, both
  -- with the resources as they were. Otherwise the scan was whole and its actor may still scan with
  -- the credential of the run, and it ends as succeeded: afterwards no live resource of the run's
  -- scope and of the connection's family is missing from what the run staged, and every key that it
  -- staged has a live resource with the generation of the run, resources that were observed under a
  -- newer run apart.
  pub complete-IsCompleted :
      (scanned : Option Error) (db : Db) {db' : Db}
      → complete ext env l scanned db ≡ ok (tt, db')
      → (run : SyncRun) × (runs_for env l (λ s. true) db ≡ some run)
        × IsCompleted ext env l run db db' scanned
  unfolding complete complete_body
  complete-IsCompleted scanned db {db' = db'} h =
      let k : complete_body ext env l scanned db ≡ ok (tt, db') =
        in_tx-ok env scan (complete_body ext env l scanned) db h in
      let (_, h1) = guard-ok (any (λ w. w.id == l.workspace) db.workspaces) scan _ db k in
      let (run, d1, p1, h2) = bind-ok (row lease (runs_for env l (λ s. true) db)) _ db h1 in
      let (q, e) = row-ok lease (runs_for env l (λ s. true) db) db p1 in
      (run, q, start-IsCompleted e (end-IsCompleted ext env l run scanned d1 h2))
