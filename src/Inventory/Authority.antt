-- ===== src/Inventory/Authority.antt =====
-- The authority of a scan: scanAuthority, guard and stage of backend/internal/inventory/scan.go.
use sama.Prelude.{
  ℕ, Bool, false, ◌&&◌, ◌||◌, not, Option, none, some, List, [], ◌∷◌, String, ◌==◌, ◌is◌,
  if◌then◌else◌, contains, is_some, ok, err, pure, row, modify, guard, ◌>>=◌, ◌>>◌, find, any,
  update, delete,
}
use sama.Database.{
  Db, Env, SyncRun, Credential, Resource, open_workspace, active_membership, connection_of,
  grant_of,
}
use sama.External.{External}
use sama.Operation.Access.{valid_binding}
use sama.Operation.Records.{Lease, holds_lease, equals}
use sama.Workspace.Role.{within_ceiling}
use sama.Inventory.Errors.{scan, lease, binding, failure, InvTx, in_tx}
use sama.Inventory.Enqueue.{is_unfinished}

-- provider.Binding, without the workspace and the connection of the lease.
pub record Binding : Type 0 where
  pub family : String
  pub version : ℕ

abbrev pub has_id : ℕ → SyncRun → Bool
has_id run s = s.id == run

abbrev pub is_version : ℕ → ℕ → ℕ → Credential → Bool
is_version scope connection version v =
    v.workspace == scope && v.connection == connection && v.version == version

-- The job holds the lease and is that of an unfinished run.
unfoldable pub runs_for : Env → Lease → (SyncRun → Bool) → Db → Option SyncRun
runs_for env l p db =
    elim (find
      (λ j. holds_lease env.clock l j && j.workspace == l.workspace && j.connection == l.connection)
      db.jobs) [
        | none ↦ none
        | some j ↦
            find
              (λ s.
                s.workspace == l.workspace
                && s.connection == l.connection
                && equals j.sync s.id
                && is_unfinished s
                && p s)
              db.sync_runs
      ]

module _ (ext : External) (env : Env) (l : Lease) where
  unfoldable pub scan_authority : ℕ → ℕ → ℕ → InvTx Binding
  unfolding runs_for
  scan_authority run actor version db =
      (do
        row scan (open_workspace l.workspace db)
        c ← row (failure "permission_denied") (connection_of l.workspace l.connection db)
        m ← row (failure "permission_denied") (active_membership l.workspace actor db)
        g ← row (failure "permission_denied") (grant_of l.workspace l.connection actor db)
        v ←
            row (failure "permission_denied")
              (find (is_version l.workspace l.connection c.credential) db.credentials)
        guard
            ((c.status is "active")
              && not v.revoked
              && contains g.actions "read"
              && contains g.actions "refresh"
              && within_ceiling m.role "refresh"
              && (version == 0 || version == c.credential))
            (failure "permission_denied")
        row lease (runs_for env l (λ s. has_id run s && equals s.actor actor) db)
        guard (valid_binding ext l.workspace l.connection c.family c.credential) binding
        pure (record { family = c.family; version = c.credential }))
        db

  -- The statements of guard at the start of a scan: the staging of the run is emptied, and a run
  -- that has started before gets a new generation.
  unfoldable pub restart : ℕ → ℕ → Db → Db
  restart run version db = record db {
    staging =
        delete
          (λ r.
            r.workspace == l.workspace
            && r.connection == l.connection
            && any (λ s. has_id run s && s.generation == r.generation) db.sync_runs)
          db.staging;
    sync_runs =
        update (has_id run)
          (λ s. record s {
            generation = if is_some s.started then env.new_sync else s.generation;
            status = "running";
            page_count = 0;
            complete = false;
            started = some env.clock;
            credential = some version;
          })
          db.sync_runs;
  }

  -- guard; `starts` is its last argument.
  unfoldable pub guard_scan : ℕ → ℕ → ℕ → Bool → InvTx Binding
  unfolding restart
  guard_scan run actor version starts = in_tx env scan do
    b ← scan_authority run actor version
    guard (not starts || env.random_ok) scan
    modify (λ db. if starts then restart run b.version db else db)
    pure b

-- scanObservation, with the id that uuid.NewV7 returned for it and its details as JSON; `checked`
-- says whether the CHECK constraints of inventory_staging accept it.
pub record Observed : Type 0 where
  pub id : ℕ
  pub native : String
  pub native_status : String
  pub status : String
  pub name : String
  pub at : ℕ
  pub details : String
  pub checked : Bool

pub record Page : Type 0 where
  pub rows : List Observed  -- Data
  pub next : String

abbrev pub is_staged_of : ℕ → ℕ → ℕ → String → Resource → Bool
is_staged_of workspace connection generation native r =
    r.workspace == workspace
    && r.connection == connection
    && r.generation == generation
    && (r.native is native)

-- The INSERT of stage, against the primary key; without the run it inserts no row.
unfoldable pub stage_one : ℕ → ℕ → String → ℕ → Observed → InvTx Unit
stage_one workspace connection family run o db = elim (find (has_id run) db.sync_runs) [
  | none ↦ ok (tt, db)
  | some s ↦
      if any (is_staged_of workspace connection s.generation o.native) db.staging || not o.checked
      then err (failure "provider_response_invalid")
      else ok (
        tt,
        record db {
          staging =
              record {
                workspace = workspace;
                connection = connection;
                id = o.id;
                scope = s.scope;
                native = o.native;
                name = o.name;
                kind = s.kind;
                generation = s.generation;
                tombstoned = false;
                family = family;
                native_status = o.native_status;
                status = o.status;
                details = o.details;
                observed = o.at;
                version = 1;
              }
              ∷ db.staging;
        },
      )
]

unfoldable pub stage_all : Bool → ℕ → ℕ → String → ℕ → List Observed → InvTx Unit
unfolding stage_one
stage_all random_ok workspace connection family run [] = pure tt
stage_all random_ok workspace connection family run (o ∷ os) = do
  guard (not (o.at == 0)) (failure "provider_response_invalid")
  guard random_ok scan
  stage_one workspace connection family run o
  stage_all random_ok workspace connection family run os

unfoldable pub stage : External → Env → Lease → ℕ → ℕ → Binding → Page → ℕ → InvTx Unit
unfolding stage_all
stage ext env l run actor b page number = in_tx env scan do
  scan_authority ext env l run actor b.version
  stage_all env.random_ok l.workspace l.connection b.family run page.rows
  modify (λ db. record db {
    sync_runs =
        update (has_id run) (λ s. record s { page_count = number; complete = page.next is "" })
          db.sync_runs;
  })
