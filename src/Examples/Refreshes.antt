-- ===== src/Examples/Refreshes.antt =====
-- Witnesses for refreshes, publications and the lifecycle of connections.
use sama.Prelude.{
  ℕ, ◌+◌, ◌*◌, ◌≤◌, ◌<◌, Bool, true, false, ◌&&◌, none, some, List, [], ◌∷◌, String, ◌≡◌, refl, ok,
  err, find, any, count, Option, ◌==◌, ltb,
}
use sama.Database
use sama.Database.{Db, Env, Job, JobState, SyncRun, Connection, minute, connection_of}
use sama.Operation.Records.{Lease, equals}
use sama.Job.{Scheduler, is_due}
use sama.Inventory.Errors
use sama.Inventory.Enqueue.{is_pending_of, refresh, pending_run, refresh_job}
use sama.Inventory.Enqueue.Requests.{Answer, refresh-ways, refresh-blocked}
use sama.Inventory.Runs
use sama.Inventory.Authority.{runs_for}
use sama.Inventory.Publish.{complete}
use sama.Inventory.Publish.Outcome.{IsCompleted, complete-IsCompleted}
use sama.Inventory.Scan.{World, scan_all}
use sama.Inventory.Scan.Staging.{scan_all-SameResources}
use sama.Connections.Lifecycle.{Preview, disable, rotate}
use sama.Connections.Disabled.{IsDisabled, disable-IsDisabled}
use sama.Examples.{ext, env, before, committed}

-- The owner may also refresh.
abbrev refreshable : Db
refreshable = record before {
  grants =
      record { workspace = 1; connection = 3; user = 2; actions = "read" ∷ "refresh" ∷ [] } ∷ [];
}

abbrev requested : Db
requested = committed refreshable (refresh env 2 1 3 "compute.server" refreshable)

requests_here : refresh env 2 1 3 "compute.server" refreshable ≡ ok (90, requested)
unfolding refresh Errors.in_tx sama.Inventory.Enqueue.enqueue Database.open_workspace find
    Database.active_membership connection_of Database.grant_of sama.Workspace.Role.within_ceiling
    Database.live_credential sama.Inventory.Enqueue.new_run count any
requests_here = refl

refresh-ways_example : Answer env 1 3 "compute.server" refreshable 90 requested
refresh-ways_example = refresh-ways env 2 1 3 "compute.server" refreshable requests_here

-- Half an hour later the job can no longer be claimed.
abbrev scheduler : Scheduler
scheduler = record { operations = true; maintained = none }

abbrev late : ℕ
late = 1000 + 30 * minute

abbrev late_env : Env
late_env = record env { clock = late; now = late; new_sync = 91; new_job = 61 }

abbrev repeated : Db
repeated = committed requested (refresh late_env 2 1 3 "compute.server" requested)

repeats_here : refresh late_env 2 1 3 "compute.server" requested ≡ ok (90, repeated)
unfolding refresh Errors.in_tx sama.Inventory.Enqueue.enqueue Database.open_workspace find
    Database.active_membership connection_of Database.grant_of sama.Workspace.Role.within_ceiling
    Database.live_credential sama.Inventory.Enqueue.new_run count any
repeats_here = refl

pending_here :
    find (is_pending_of 1 3 "compute.server") requested.sync_runs
    ≡ some (pending_run env 2 1 3 "compute.server" 2)
unfolding find refresh Errors.in_tx sama.Inventory.Enqueue.enqueue Database.open_workspace
    Database.active_membership connection_of Database.grant_of sama.Workspace.Role.within_ceiling
    Database.live_credential sama.Inventory.Enqueue.new_run count any
pending_here = refl

past_here : any (λ j. equals j.sync 90 && ltb late j.deadline) requested.jobs ≡ false
unfolding any refresh Errors.in_tx sama.Inventory.Enqueue.enqueue Database.open_workspace find
    Database.active_membership connection_of Database.grant_of sama.Workspace.Role.within_ceiling
    Database.live_credential sama.Inventory.Enqueue.new_run count
past_here = refl

refresh-blocked_example :
    (env.new_sync ≡ 90)
    × (any (λ j. equals j.sync 90 && is_due scheduler late j) repeated.jobs ≡ false)
refresh-blocked_example =
    refresh-blocked late_env 2 1 3 "compute.server" late (pending_run env 2 1 3 "compute.server" 2)
      scheduler requested pending_here past_here repeats_here

-- A scan that is ready to be published, with one staged server.
abbrev scanned : Db
scanned = record requested {
  sync_runs =
      record (pending_run env 2 1 3 "compute.server" 2) {
        status = "running";
        complete = true;
        page_count = 1;
        started = some 1000;
        credential = some 1;
      }
      ∷ refreshable.sync_runs;
  jobs =
      record (refresh_job env 1 3) {
        state = JobState.running;
        lease_owner = some 8;
        lease_token = some 9;
        lease_expires = some 4000;
        attempts = 1;
      }
      ∷ [];
  staging =
      record {
        workspace = 1;
        connection = 3;
        id = 7;
        scope = "global";
        native = "srv-2";
        name = "db";
        kind = "compute.server";
        generation = 90;
        tombstoned = false;
        family = "cloud";
        native_status = "running";
        status = "running";
        details = "{}";
        observed = 1000;
        version = 1;
      }
      ∷ [];
}

abbrev lease : Lease
lease = record {
  id = 60;
  workspace = 1;
  connection = 3;
  owner = 8;
  token = 9;
  deadline = 1000 + 30 * minute;
}

abbrev published_db : Db
published_db = committed scanned (complete ext env lease none scanned)

publishes_here : complete ext env lease none scanned ≡ ok (tt, published_db)
unfolding complete Errors.in_tx sama.Inventory.Publish.complete_body any refresh
    sama.Inventory.Enqueue.enqueue Database.open_workspace find Database.active_membership
    connection_of Database.grant_of sama.Workspace.Role.within_ceiling Database.live_credential
    sama.Inventory.Enqueue.new_run count sama.Operation.Records.holds_lease
    sama.Inventory.Authority.scan_authority sama.Operation.Access.valid_binding
    Database.is_active_user runs_for sama.Inventory.Enqueue.active_jobs
    sama.Inventory.Enqueue.enqueue_locked sama.Inventory.Enqueue.insert_run Errors.failure_code
    sama.Inventory.Publish.complete_scanned sama.Inventory.Publish.end_run
    sama.Inventory.Publish.has_newer sama.Inventory.Publish.is_old
    sama.Inventory.Publish.publish_run sama.Inventory.Publish.published
    sama.Inventory.Publish.put_all sama.Inventory.Publish.put_resource sama.Inventory.Publish.settle
    sama.Prelude.select sama.Prelude.update sama.Workspace.Grants.granted sama.Workspace.Role.allows
publishes_here = refl

complete-IsCompleted_example :
    (run : SyncRun) × (runs_for env lease (λ s. true) scanned ≡ some run)
    × IsCompleted ext env lease run scanned published_db none
complete-IsCompleted_example = complete-IsCompleted ext env lease none scanned publishes_here

-- A provider with one server on one page.
abbrev world : World
world = record {
  read = λ n cursor. ok (record {
    rows =
        record {
          id = 7;
          native = "srv-3";
          native_status = "off";
          status = "stopped";
          name = "new";
          at = 1000;
          details = "{}";
          checked = true;
        }
        ∷ [];
    next = "";
  });
  size = λ rows. some 100;
  between = λ n db. db;
}

scan_all-SameResources_example :
    (scan_all ext env lease world true scanned).1.resources ≡ scanned.resources
scan_all-SameResources_example =
    scan_all-SameResources ext env lease world true scanned (λ n d. refl)

abbrev disabled_db : Db
disabled_db = committed requested (disable ext env 2 1 3 "request" requested)

disables_here : disable ext env 2 1 3 "request" requested ≡ ok (tt, disabled_db)
unfolding disable sama.Connections.Errors.from_workspace sama.Workspace.Members.lock_authority
    Database.open_workspace find refresh Errors.in_tx sama.Inventory.Enqueue.enqueue
    Database.active_membership connection_of Database.grant_of sama.Workspace.Role.within_ceiling
    Database.live_credential sama.Inventory.Enqueue.new_run count any sama.Audit.append_audit
    sama.Audit.valid_event sama.Audit.is_code_char sama.Audit.is_entity_id
    sama.Audit.metadata_fields sama.Audit.safe_code sama.Audit.safe_code_chars
    sama.Audit.valid_actor sama.Audit.valid_field sama.Audit.valid_fields
    sama.Connections.Lifecycle.credential_audit sama.Connections.Lifecycle.stop_connection
    Database.is_active_user sama.External.parse_identifier sama.Inventory.Enqueue.active_jobs
    sama.Inventory.Enqueue.enqueue_locked sama.Inventory.Enqueue.insert_run sama.Prelude.update
    sama.Prelude.all_in sama.Prelude.is_alnum sama.Workspace.Grants.granted
    sama.Workspace.Members.member_in_tx sama.Workspace.Role.allows
disables_here = refl

disable-IsDisabled_example :
    (c : Connection) × (connection_of 1 3 requested ≡ some c)
    × IsDisabled 1 3 c requested disabled_db
disable-IsDisabled_example = disable-IsDisabled ext env 2 1 3 "request" requested disables_here

abbrev preview : Preview
preview = record { account = "account"; capabilities = ("compute.server.read", true) ∷ [] }

abbrev rotated_db : Db
rotated_db =
    committed before (rotate ext env 2 1 3 (some preview) (some 13) "request" before before)
