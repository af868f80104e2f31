-- ===== src/Connections/Lifecycle.antt =====
-- The transactions of backend/internal/connection: disable.go, rotate.go and save.go. What Preview
-- and EncryptCredential return is an argument.
use Prim.Native.String.{len}
use sama.Prelude.{
  ℕ, ◌+◌, ◌-◌, ◌^◌, Bool, true, false, ◌&&◌, not, Option, none, some, List, [], ◌∷◌, String, leb,
  ◌==◌, ◌is◌, if◌then◌else◌, is_some, ok, err, pure, gets, row, modify, guard, ◌>>=◌, ◌>>◌, any,
  update,
}
use sama.Database.{Db, Env, Connection, Job, JobState, user_actor, connection_of, live_credential}
use sama.External.{External}
use sama.Audit.{Value, append_audit}
use sama.Operation.Records.{is_job_state}
use sama.Workspace.Errors.{not_found, invalid, store}
use sama.Workspace.Members.{lock_authority}
use sama.Workspace.Grants.{connection_authority}
use sama.Inventory.Enqueue.{initial}
use sama.Connections.Errors.{
  of_workspace, disabled, version_changed, credential, preview, ConTx, from_workspace,
  from_inventory,
}

abbrev pub is_connection : ℕ → ℕ → Connection → Bool
is_connection scope id c = c.workspace == scope && c.id == id

-- An active connection whose current credential is not revoked.
unfoldable pub require_new_work : ℕ → ℕ → ConTx Unit
require_new_work scope id db =
    (do
      c ← row (of_workspace not_found) (connection_of scope id db)
      guard ((c.status is "active") && is_some (live_credential scope id c.credential db)) disabled)
      db

unfoldable pub require_version : ℕ → ℕ → ℕ → ConTx Unit
unfolding require_new_work
require_version scope id version db =
    (do
      require_new_work scope id
      c ← row (of_workspace store) (connection_of scope id db)
      guard (c.credential == version) version_changed)
      db

abbrev pub is_queued_of : ℕ → ℕ → Job → Bool
is_queued_of scope id j =
    j.workspace == scope && j.connection == id && is_job_state j.state JobState.queued

-- The two UPDATEs of Disable.
unfoldable pub stop_connection : Env → ℕ → ℕ → Db → Db
stop_connection env scope id db = record db {
  connections =
      update (is_connection scope id) (λ c. record c { status = "disabled" }) db.connections;
  jobs =
      update (is_queued_of scope id)
        (λ j. record j { state = JobState.cancelled; completed = some env.clock }) db.jobs;
}

-- The INSERT of storeEnvelope, against the primary key.
unfoldable pub store_envelope : ℕ → ℕ → ℕ → ℕ → ConTx Unit
store_envelope scope id version envelope db =
    if any (λ v. v.workspace == scope && v.connection == id && v.version == version) db.credentials
    then err (of_workspace store)
    else ok (
      tt,
      record db {
        credentials =
            record {
              workspace = scope;
              connection = id;
              version = version;
              revoked = false;
              envelope = envelope;
            }
            ∷ db.credentials;
      },
    )

-- Preview of the source; a capability is its action and whether it is available.
pub record Preview : Type 0 where
  pub account : String
  pub capabilities : List (String × Bool)

unfoldable pub verified : List (String × Bool) → List String
verified [] = []
verified ((action, available) ∷ rest) =
    let others = verified rest in if available then action ∷ others else others

module _ (ext : External) (env : Env) where
  -- The audit events of the package, which only name the connection.
  unfoldable pub credential_audit : ℕ → ℕ → ℕ → String → String → ConTx Unit
  credential_audit actor scope id kind request db =
      if not env.random_ok
      then err (of_workspace store)
      else elim (append_audit ext env.clock
          (record {
            id = env.new_audit;
            workspace = scope;
            actor_kind = user_actor;
            actor = some actor;
            kind = kind;
            request = request;
            metadata = ("connection_id", Value.uuid id) ∷ [];
          })
          db) [ none ↦ err (of_workspace store) | some db' ↦ ok (tt, db') ]

  -- Disable; of a disabled connection it returns nil, and its transaction ends without a change.
  unfoldable pub disable : ℕ → ℕ → ℕ → String → ConTx Unit
  unfolding stop_connection credential_audit
  disable actor scope id request = do
    guard env.begin_ok (of_workspace store)
    from_workspace (lock_authority actor scope)
    found ← gets (connection_of scope id)
    c ← row (of_workspace not_found) found
    if c.status is "disabled" then pure tt else (do
      modify (stop_connection env scope id)
      credential_audit actor scope id "connection.disabled" request
      guard env.commit_ok (of_workspace store))

  -- The UPDATE of Rotate.
  unfoldable pub use_version : ℕ → ℕ → ℕ → Preview → Db → Db
  use_version scope id version p db = record db {
    connections =
        update (is_connection scope id)
          (λ c. record c {
            credential = version;
            permissions_verified = true;
            capabilities = verified p.capabilities;
          })
          db.connections;
  }

  -- The transaction of Rotate, from the version that it read before.
  unfoldable pub rotate_body : ℕ → ℕ → ℕ → ℕ → Preview → ℕ → String → ConTx ℕ
  unfolding store_envelope credential_audit use_version verified
  rotate_body actor scope id old p envelope request = do
    from_workspace (lock_authority actor scope)
    found ← gets (connection_of scope id)
    c ← row (of_workspace store) found
    guard (c.credential == old) version_changed
    store_envelope scope id (old + 1) envelope
    modify (use_version scope id (old + 1) p)
    credential_audit actor scope id "connection.credential_rotated" request
    pure (old + 1)

  -- Rotate after its check of the authority; `seen` is the database that its first reads meet,
  -- before the preview.
  unfoldable pub rotate_checked : ℕ → ℕ → ℕ → Option Preview → Option ℕ → String → Db → ConTx ℕ
  unfolding rotate_body
  rotate_checked actor scope id answer envelope request seen = do
    before ← row (of_workspace store) (connection_of scope id seen)
    guard (not (before.credential == 2 ^ 63 - 1)) version_changed
    p ← row preview answer
    guard (p.account is before.account) credential
    e ← row credential envelope
    guard env.begin_ok (of_workspace store)
    version ← rotate_body actor scope id before.credential p e request
    guard env.commit_ok (of_workspace store)
    pure version

  unfoldable pub rotate : ℕ → ℕ → ℕ → Option Preview → Option ℕ → String → Db → ConTx ℕ
  unfolding connection_authority
  rotate actor scope id answer envelope request seen db =
      elim (connection_authority actor scope id "manage" seen) [
        | err e ↦ err (of_workspace e)
        | ok r ↦ rotate_checked actor scope id answer envelope request seen db
      ]

  abbrev pub new_connection : ℕ → String → String → Preview → Connection
  new_connection scope family label p = record {
    workspace = scope;
    id = env.new_connection;
    brand = family;
    family = family;
    credential = 1;
    status = "active";
    account = p.account;
    permissions_verified = true;
    capabilities = verified p.capabilities;
    label = label;
  }

  -- The INSERT of Save, against the primary key.
  unfoldable pub insert_connection : Connection → ConTx Unit
  insert_connection c db =
      if any (λ x. x.id == c.id) db.connections
      then err (of_workspace store)
      else ok (tt, record db { connections = c ∷ db.connections })

  -- The transaction of Save; the result is the id of the first run.
  unfoldable pub save_body : ℕ → ℕ → String → String → Preview → ℕ → String → ConTx ℕ
  unfolding insert_connection store_envelope credential_audit verified
  save_body actor scope family label p envelope request = do
    from_workspace (lock_authority actor scope)
    insert_connection (new_connection scope family label p)
    store_envelope scope env.new_connection 1 envelope
    credential_audit actor scope env.new_connection "connection.created" request
    from_inventory (initial env actor scope env.new_connection)

  -- Save; `label` is already trimmed.
  unfoldable pub save : ℕ → ℕ → String → String → Option Preview → Option ℕ → String → ConTx ℕ
  unfolding save_body
  save actor scope family label answer envelope request = do
    guard (not (label is "") && leb (len label) 100) (of_workspace invalid)
    p ← row preview answer
    guard env.random_ok (of_workspace store)
    e ← row credential envelope
    guard env.begin_ok (of_workspace store)
    run ← save_body actor scope family label p e request
    guard env.commit_ok (of_workspace store)
    pure run
