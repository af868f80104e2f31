-- ===== src/Database.antt =====
-- The tables of backend/migrations that the modelled code reads and writes, and the statements
-- that several packages send. A uuid is a number, and 0 is uuid.Nil. A time is a number of
-- nanoseconds. A nullable column is an Option. The ids of events, audit rows and resolutions,
-- which the modelled code never reads back, have no column.
mod Rows
pub use Rows.*
use sama.Prelude.{
  ℕ, ◌+◌, ◌*◌, ◌^◌, Bool, true, false, ◌&&◌, not, Option, none, some, List, ◌≡◌, refl, find, update,
  is_some, ◌==◌, String,
}

abbrev pub nanosecond : ℕ
nanosecond = 1

abbrev pub second : ℕ
second = 1000000000

abbrev pub minute : ℕ
minute = 60000000000

abbrev pub hour : ℕ
hour = 3600000000000

-- What a call meets: the clock of the database and of the process, whether the transaction opens
-- and commits, whether uuid.NewV7 and audit.NewID
-- return an id, and the ids that they return; of rand.Read, whether it answers.
pub record Env : Type 0 where
  pub clock : ℕ
  pub now : ℕ
  pub begin_ok : Bool
  pub commit_ok : Bool
  pub random_ok : Bool
  pub new_review : ℕ
  pub new_operation : ℕ
  pub new_job : ℕ
  pub new_audit : ℕ
  pub new_user : ℕ
  pub new_sync : ℕ
  pub new_connection : ℕ

pub record Db : Type 0 where
  pub workspaces : List Workspace
  pub users : List User
  pub memberships : List Membership
  pub connections : List Connection
  pub credentials : List Credential
  pub grants : List Grant
  pub resources : List Resource
  pub sync_runs : List SyncRun
  pub reviews : List Review
  pub operations : List Operation
  pub jobs : List Job
  pub locks : List Lock
  pub events : List Event
  pub audits : List Audit
  pub resolutions : List Resolution
  pub gate : Gate
  pub sessions : List Session
  pub fence : ℕ  -- the identity column of resource_locks
  pub generations : ℕ  -- the identity column of sync_runs
  pub staging : List Resource  -- inventory_staging
  pub invitations : List Invitation
  pub challenges : List Challenge  -- login_challenges
  pub login_budget : Option LoginBudget

-- SELECT id FROM workspaces WHERE id=$1 AND closed_at IS NULL FOR UPDATE
unfoldable pub open_workspace : ℕ → Db → Option Workspace
open_workspace scope db = find (λ w. (w.id == scope) && not w.closed) db.workspaces

unfoldable pub is_active_user : ℕ → Db → Bool
is_active_user user db = is_some (find (λ u. (u.id == user) && not u.disabled) db.users)

-- The membership of a user that is not disabled.
unfoldable pub active_membership : ℕ → ℕ → Db → Option Membership
unfolding is_active_user
active_membership scope user db =
    find (λ m. (m.workspace == scope) && (m.user == user) && is_active_user user db) db.memberships

unfoldable pub grant_of : ℕ → ℕ → ℕ → Db → Option Grant
grant_of scope connection user db =
    find (λ g. (g.workspace == scope) && (g.connection == connection) && (g.user == user)) db.grants

unfoldable pub connection_of : ℕ → ℕ → Db → Option Connection
connection_of scope connection db =
    find (λ c. (c.workspace == scope) && (c.id == connection)) db.connections

-- The version of a credential that is not revoked.
unfoldable pub live_credential : ℕ → ℕ → ℕ → Db → Option Credential
live_credential scope connection version db =
    find
      (λ v.
        (v.workspace == scope)
        && (v.connection == connection)
        && (v.version == version)
        && not v.revoked)
      db.credentials

-- UPDATE workspaces SET policy_version=policy_version+1 WHERE id=$1
unfoldable pub bump_policy : ℕ → Db → Db
bump_policy scope db = record db {
  workspaces =
      update (λ w. w.id == scope) (λ w. record w { policy_version = w.policy_version + 1 })
        db.workspaces;
}
