-- ===== src/Inventory/Runs/Scans.antt =====
-- What guard and stage of backend/internal/inventory/scan.go do to the unfinished runs.
use sama.Prelude.{
  ℕ, Bool, false, ◌&&◌, ◌||◌, not, some, List, [], ◌∷◌, String, ◌≡◌, refl, ap, ◌∙◌, sym, arith, ok,
  ◌==◌, ◌is◌, is_some, bind-ok, guard-ok, pure-ok, find, any, update, Option-cases, Bool-cases, inl,
  inr, if◌then◌else◌,
}
use sama.Database.{Db, Env, SyncRun}
use sama.External.{External}
use sama.Operation.Records.{Lease, holds_lease, equals}
use sama.Inventory.Errors.{scan, in_tx-ok, failure}
use sama.Inventory.Enqueue.{is_unfinished}
use sama.Inventory.Authority.{
  Binding, has_id, runs_for, scan_authority, guard_scan, restart, stage_one, stage_all, stage,
  Observed, Page,
}
use sama.Inventory.Publish.Outcome.{scan_authority-db}
use sama.Inventory.Runs.Rows.{
  HasOnePending, reopens, update-HasOnePending, found-unfinished, Orderly,
}

runs_for-unfinished :
    (env : Env) (l : Lease) (run actor : ℕ) (f : SyncRun → SyncRun) (db : Db) {s : SyncRun}
    → HasOnePending db.sync_runs
    → runs_for env l (λ s. has_id run s && equals s.actor actor) db ≡ some s
    → any (reopens run f) db.sync_runs ≡ false
unfolding runs_for
runs_for-unfinished env l run actor f db {s} one h =
    elim (Option-cases (
      find
        (λ j.
          holds_lease env.clock l j && j.workspace == l.workspace && j.connection == l.connection)
        db.jobs)) [
          | inl e ↦ absurd (ground (arith, e, h))
          | inr (j, e) ↦
              found-unfinished run
                (λ s.
                  s.workspace == l.workspace
                  && s.connection == l.connection
                  && equals j.sync s.id
                  && is_unfinished s
                  && has_id run s
                  && equals s.actor actor)
                f db.sync_runs {s = s} (λ x k. ground (arith, k)) (one.ids run)
                (ground (arith, e, h))
        ]

-- The run of a scan is unfinished, so that no update of it opens a finished run again.
authority-unfinished :
    (ext : External) (env : Env) (l : Lease) (run actor version : ℕ) (f : SyncRun → SyncRun)
    (db : Db) {b : Binding} {db' : Db}
    → HasOnePending db.sync_runs
    → scan_authority ext env l run actor version db ≡ ok (b, db')
    → any (reopens run f) db.sync_runs ≡ false
unfolding scan_authority runs_for
authority-unfinished ext env l run actor version f db {b} {db'} one h =
    elim (Option-cases (runs_for env l (λ s. has_id run s && equals s.actor actor) db)) [
      | inl e ↦ absurd (ground (arith, e, h))
      | inr (s, e) ↦ runs_for-unfinished env l run actor f db {s = s} one e
    ]

abbrev restarted : Env → ℕ → SyncRun → SyncRun
restarted env version s = record s {
  generation = if is_some s.started then env.new_sync else s.generation;
  status = "running";
  page_count = 0;
  complete = false;
  started = some env.clock;
  credential = some version;
}

restart-Orderly :
    (ext : External) (env : Env) (l : Lease) (run version : ℕ) (db : Db)
    → ((f : SyncRun → SyncRun) → any (reopens run f) db.sync_runs ≡ false)
    → Orderly db (restart ext env l run version db)
unfolding restart
restart-Orderly ext env l run version db none_opened one =
    update-HasOnePending run (restarted env version) db.sync_runs
      (record {
        id = λ s. refl;
        workspace = λ s. refl;
        connection = λ s. refl;
        kind = λ s. refl;
        scope = λ s. refl;
      })
      (none_opened (restarted env version)) one

pub guard_scan-Orderly :
    (ext : External) (env : Env) (l : Lease) (run actor version : ℕ) (starts : Bool) (db : Db)
    {b : Binding} {db' : Db}
    → guard_scan ext env l run actor version starts db ≡ ok (b, db')
    → Orderly db db'
unfolding guard_scan
guard_scan-Orderly ext env l run actor version starts db {b} {db'} h one =
    let k = in_tx-ok env scan _ db h in
    let (b₁, d₁, p₁, h₁) = bind-ok (scan_authority ext env l run actor version) _ db k in
    let (_, h₂) = guard-ok (not starts || env.random_ok) scan _ d₁ h₁ in
    let e₁ : d₁ ≡ db = scan_authority-db ext env l run actor version db p₁ in
    let (_, g) = pure-ok b₁ b (if starts then restart ext env l run b₁.version d₁ else d₁) db' h₂ in
    let start : Orderly db (restart ext env l run b₁.version db) =
      restart-Orderly ext env l run b₁.version db
        (λ f. authority-unfinished ext env l run actor version f db one p₁) in
    rw (sym g, e₁) (elim (Bool-cases starts) [ inl y ↦ rw y (start one) | inr n ↦ rw n one ])

stage_one-SameRuns :
    (workspace connection : ℕ) (family : String) (run : ℕ) (o : Observed) (db : Db) {db' : Db}
    → stage_one workspace connection family run o db ≡ ok (tt, db')
    → db'.sync_runs ≡ db.sync_runs
unfolding stage_one
stage_one-SameRuns workspace connection family run o db h =
    elim (Option-cases (find (λ s. s.id == run) db.sync_runs)) [
      | inl n ↦ ground (arith, n, h)
      | inr (s, e) ↦ ground (arith, e, h)
    ]

stage_all-SameRuns :
    (random_ok : Bool) (workspace connection : ℕ) (family : String) (run : ℕ) (os : List Observed)
    (db : Db) {db' : Db}
    → stage_all random_ok workspace connection family run os db ≡ ok (tt, db')
    → db'.sync_runs ≡ db.sync_runs
unfolding stage_all
stage_all-SameRuns random_ok w c family run [] db h = ground (arith, h)
stage_all-SameRuns random_ok w c family run (o ∷ os) db h =
    let (_, h₁) = guard-ok (not (o.at == 0)) (failure "provider_response_invalid") _ db h in
    let (_, h₂) = guard-ok random_ok scan _ db h₁ in
    let (_, d, p, h₃) = bind-ok (stage_one w c family run o) _ db h₂ in
    stage_all-SameRuns random_ok w c family run os d h₃ ∙ stage_one-SameRuns w c family run o db p

abbrev paged : ℕ → Bool → SyncRun → SyncRun
paged number whole s = record s { page_count = number; complete = whole }

paged-reopens :
    (run number : ℕ) (whole : Bool) (xs : List SyncRun)
    → any (reopens run (paged number whole)) xs ≡ false
unfolding any
paged-reopens run number whole [] = refl
paged-reopens run number whole (x ∷ xs) = ground (arith, paged-reopens run number whole xs)

pub stage-Orderly :
    (ext : External) (env : Env) (l : Lease) (run actor : ℕ) (b : Binding) (page : Page)
    (number : ℕ) (db : Db) {db' : Db}
    → stage ext env l run actor b page number db ≡ ok (tt, db')
    → Orderly db db'
unfolding stage
stage-Orderly ext env l run actor b page number db {db'} h one =
    let k = in_tx-ok env scan _ db h in
    let (_, d₁, p₁, h₁) = bind-ok (scan_authority ext env l run actor b.version) _ db k in
    let e₁ : d₁.sync_runs ≡ db.sync_runs =
      ap (λ (d : Db). d.sync_runs) (scan_authority-db ext env l run actor b.version db p₁) in
    let (_, d₂, p₂, h₂) =
      bind-ok (stage_all env.random_ok l.workspace l.connection b.family run page.rows) _ d₁ h₁ in
    let e₂ : d₂.sync_runs ≡ db.sync_runs =
      stage_all-SameRuns env.random_ok l.workspace l.connection b.family run page.rows d₁ p₂ ∙ e₁ in
    let e₃ : db'.sync_runs ≡ update (has_id run) (paged number (page.next is "")) d₂.sync_runs =
      ground (arith, h₂) in
    rw (e₃, e₂)
      (update-HasOnePending run (paged number (page.next is "")) db.sync_runs
        (record {
          id = λ s. refl;
          workspace = λ s. refl;
          connection = λ s. refl;
          kind = λ s. refl;
          scope = λ s. refl;
        })
        (paged-reopens run number (page.next is "") db.sync_runs) one)
