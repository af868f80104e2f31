-- ===== src/Inventory/Publish.antt =====
-- Publication of a scan: Complete of backend/internal/inventory/publish.go.
pub mod Live
pub mod Outcome
pub mod Ended
use sama.Prelude.{
  ℕ, ◌+◌, Bool, true, false, ◌&&◌, ◌||◌, not, Option, none, some, List, [], ◌∷◌, String, ltb, leb,
  ◌==◌, ◌is◌, if◌then◌else◌, ok, err, pure, gets, row, modify, guard, ◌>>=◌, ◌>>◌, find, any,
  update, select,
}
use sama.Database.{Db, Env, Job, JobState, SyncRun, Resource}
use sama.External.{External}
use sama.Operation.Records.{Lease}
use sama.Inventory.Errors.{Error, scan, lease, InvTx, in_tx, failure_code}
use sama.Inventory.Enqueue.{is_run_of}
use sama.Inventory.Authority.{Binding, runs_for, scan_authority, has_id, is_staged_of}

-- The run under which a resource was last observed is not newer than `number`.
unfoldable pub is_old : ℕ → List SyncRun → Resource → Bool
is_old number runs r =
    any
      (λ s.
        is_run_of r.workspace r.connection r.kind r.scope s
        && s.generation == r.generation
        && leb s.number number)
      runs

-- The unique key of resources.
abbrev pub has_key : Resource → Resource → Bool
has_key a b =
    a.workspace == b.workspace
    && a.connection == b.connection
    && (a.family is b.family)
    && (a.kind is b.kind)
    && (a.scope is b.scope)
    && (a.native is b.native)

-- The SET of the ON CONFLICT clause.
abbrev pub observe_again : Resource → Resource → Resource
observe_again new r = record r {
  native_status = new.native_status;
  status = new.status;
  name = new.name;
  details = new.details;
  observed = new.observed;
  generation = new.generation;
  tombstoned = false;
  version = r.version + 1;
}

-- INSERT INTO resources of one staged row, whose id is new.
unfoldable pub put_resource : (Resource → Bool) → Resource → List Resource → List Resource
put_resource is_older new rs =
    if any (has_key new) rs
    then update (λ r. has_key new r && is_older r) (observe_again new) rs
    else record new { tombstoned = false; version = 1 } ∷ rs

-- The staged rows one by one; `is_older` reads the runs, which do not change.
unfoldable pub put_all : (Resource → Bool) → List Resource → List Resource → List Resource
unfolding put_resource
put_all is_older [] rs = rs
put_all is_older (new ∷ news) rs = put_resource is_older new (put_all is_older news rs)

abbrev pub is_staged : ℕ → ℕ → ℕ → Resource → Bool
is_staged workspace connection generation r =
    r.workspace == workspace && r.connection == connection && r.generation == generation

-- The resources of a run's scope.
abbrev pub in_scope : ℕ → ℕ → String → SyncRun → Resource → Bool
in_scope workspace connection family run r =
    r.workspace == workspace
    && r.connection == connection
    && (r.family is family)
    && (r.kind is run.kind)
    && (r.scope is run.scope)

-- The staged row of the generation for the same native id.
abbrev pub is_named : ℕ → Resource → List Resource → Bool
is_named generation r staging =
    any (is_staged_of r.workspace r.connection generation r.native) staging

-- The rows that the second UPDATE tombstones.
abbrev pub is_missing :
    ℕ → ℕ → String → SyncRun → (Resource → Bool) → List Resource → Resource → Bool
is_missing workspace connection family run is_older staging r =
    in_scope workspace connection family run r
    && not r.tombstoned
    && is_older r
    && not (is_named run.generation r staging)

abbrev pub bury : Resource → Resource
bury r = record r { tombstoned = true; version = r.version + 1 }

unfoldable pub published : ℕ → ℕ → String → SyncRun → Db → List Resource
unfolding put_all is_old
published workspace connection family run db =
    let is_older = is_old run.number db.sync_runs in
    update (is_missing workspace connection family run is_older db.staging) bury (
      put_all is_older (select (is_staged workspace connection run.generation) db.staging)
        db.resources)

unfoldable pub end_run : Env → ℕ → String → Option String → ℕ → JobState → Db → Db
end_run env run status code job state db = record db {
  sync_runs =
      update (has_id run)
        (λ s. record s { status = status; failure = code; completed = some env.clock })
        db.sync_runs;
  jobs =
      update (λ j. j.id == job)
        (λ j. record j {
          state = state;
          completed = some env.clock;
          lease_owner = none;
          lease_token = none;
          lease_expires = none;
        })
        db.jobs;
}

-- A run of the same scope that succeeded with a later number.
unfoldable pub has_newer : ℕ → ℕ → SyncRun → Db → Bool
has_newer workspace connection run db =
    any
      (λ s.
        is_run_of workspace connection run.kind run.scope s
        && (s.status is "succeeded")
        && ltb run.number s.number)
      db.sync_runs

module _ (ext : External) (env : Env) (l : Lease) where
  -- Complete once the authority is checked.
  unfoldable pub publish_run : SyncRun → String → InvTx Unit
  unfolding end_run published has_newer
  publish_run run family = do
    newer ← gets (has_newer l.workspace l.connection run)
    if newer then modify (end_run env run.id "cancelled" none l.id JobState.cancelled) else (do
      modify (λ db. record db { resources = published l.workspace l.connection family run db })
      modify (end_run env run.id "succeeded" none l.id JobState.succeeded))

  -- Complete for a scan without an error.
  unfoldable pub complete_scanned : SyncRun → InvTx Unit
  unfolding publish_run
  complete_scanned run = do
    actor ← row scan run.actor
    version ← row scan run.credential
    guard run.complete scan
    b ← scan_authority ext env l run.id actor version
    publish_run run b.family

  -- What Complete does with the run that it found.
  unfoldable pub settle : Option Error → SyncRun → InvTx Unit
  unfolding end_run complete_scanned
  settle none run = complete_scanned run
  settle (some e) run =
      modify (end_run env run.id "failed" (some (failure_code e)) l.id JobState.failed)

  -- The transaction of Complete.
  unfoldable pub complete_body : Option Error → InvTx Unit
  unfolding runs_for settle
  complete_body scanned = do
    known ← gets (λ (db : Db). any (λ w. w.id == l.workspace) db.workspaces)
    guard known scan
    found ← gets (runs_for env l (λ s. true))
    run ← row lease found
    settle scanned run

  unfoldable pub complete : Option Error → InvTx Unit
  complete scanned = in_tx env scan (complete_body scanned)
