-- ===== src/Inventory/Runs.antt =====
-- The unfinished runs of an installation: every transaction of backend/internal/inventory that writes
-- sync_runs, in any order.
pub mod Rows
pub mod Scans
use sama.Prelude.{
  ℕ, ◌≤◌, Bool, true, ◌&&◌, ◌||◌, not, some, String, ◌≡◌, ok, ◌==◌, is_some, pure-ok, find, update,
  Option-cases, Bool-cases, is_iff, if◌then◌else◌, Option,
}
use sama.Database.{Db, Env, SyncRun}
use sama.External.{External}
use sama.Operation.Records.{Lease, holds_lease, equals}
use sama.Inventory.Errors.{scan, in_tx-ok, Error, failure}
use sama.Inventory.Enqueue.{initial, refresh}
use sama.Inventory.Authority.{
  Binding, has_id, runs_for, scan_authority, guard_scan, restart, stage_one, stage_all, stage,
  Observed, Page,
}
use sama.Inventory.Publish.{complete}
use sama.Inventory.Publish.Outcome.{scan_authority-db}
use sama.Inventory.Runs.Rows.{KeepsPlace}

abbrev ended : Env → String → Option String → SyncRun → SyncRun
ended env status code s = record s { status = status; failure = code; completed = some env.clock }

module _ (ext : External) where
  -- The transactions of the package that write sync_runs, and anything that does not.
  pub data Step (a : Db) : Db → Type 0 where
    refreshes :
        (env : Env) (actor scope connection : ℕ) (kind : String) {id : ℕ} (b : Db)
        → refresh env actor scope connection kind a ≡ ok (id, b)
        → Step a b
    initials :
        (env : Env) (actor scope connection : ℕ) {id : ℕ} (b : Db)
        → initial env actor scope connection a ≡ ok (id, b)
        → Step a b
    guards :
        (env : Env) (l : Lease) (run actor version : ℕ) (starts : Bool) {bound : Binding} (b : Db)
        → guard_scan ext env l run actor version starts a ≡ ok (bound, b)
        → Step a b
    stages :
        (env : Env) (l : Lease) (run actor : ℕ) (bound : Binding) (page : Page) (number : ℕ)
        (b : Db)
        → stage ext env l run actor bound page number a ≡ ok (tt, b)
        → Step a b
    completes :
        (env : Env) (l : Lease) (scanned : Option Error) (b : Db)
        → complete ext env l scanned a ≡ ok (tt, b)
        → Step a b
    outside : (b : Db) → b.sync_runs ≡ a.sync_runs → Step a b

  pub data Steps (a : Db) : Db → Type 0 where
    start : Steps a a
    andthen : {b c : Db} → Steps a b → Step b c → Steps a c
