-- ===== src/Workspace/Grants.antt =====
-- Grants on connections: backend/internal/workspace/grants.go. A query that fails for another reason
-- than a missing row is ErrStore and changes nothing; it has no clause here.
pub mod Delegation
use sama.Prelude.{
  ℕ, Bool, true, false, ◌&&◌, ◌||◌, not, Option, none, some, List, [], ◌∷◌, String, leb, ◌==◌, ◌is◌,
  if◌then◌else◌, contains, length, ok, err, pure, raise, gets, row, modify, guard, ◌>>=◌, ◌>>◌,
  find, any, upsert,
}
use sama.Database.{
  Db, Env, Role, owner, admin, Grant, Membership, user_actor, open_workspace, active_membership,
  connection_of, grant_of, bump_policy,
}
use sama.External.{External}
use sama.Audit.{Value, append_audit}
use sama.Workspace.Role.{allows, within_ceiling, can_assign, is_admin}
use sama.Workspace.Errors.{Error, not_found, denied, invalid, store, WsTx, in_tx}
use sama.Workspace.Members.{lock_authority, member_in_tx}

-- COALESCE(g.actions,'{}')
abbrev pub actions_or_none : Option Grant → List String
actions_or_none none = []
actions_or_none (some g) = g.actions

-- The grant of a user on a connection, empty where there is no row.
unfoldable pub granted : ℕ → ℕ → ℕ → Db → List String
granted scope connection user db = actions_or_none (grant_of scope connection user db)

unfoldable pub connection_authority : ℕ → ℕ → ℕ → String → WsTx Unit
unfolding granted
connection_authority actor scope connection action db =
    (do
      row not_found (open_workspace scope db)
      m ← row not_found (active_membership scope actor db)
      c ← row not_found (connection_of scope connection db)
      if action is "manage" then guard (allows m.role admin) denied else (do
        guard (contains (granted scope connection actor db) "read") not_found
        guard
            (within_ceiling m.role action
              && contains (granted scope connection actor db) action
              && ((action is "read") || (c.status is "active")))
            denied))
      db

unfoldable pub read_grant : ℕ → ℕ → ℕ → WsTx (List String)
unfolding granted
read_grant actor scope connection db =
    (do
      row not_found (open_workspace scope db)
      m ← row not_found (active_membership scope actor db)
      row not_found (connection_of scope connection db)
      guard (allows m.role admin || contains (granted scope connection actor db) "read") not_found
      pure (granted scope connection actor db))
      db

-- The loop over the actions of SetGrant; `seen` is its map.
unfoldable pub distinct_classes : List String → List String → Bool
unfolding within_ceiling
distinct_classes seen [] = true
distinct_classes seen (a ∷ rest) =
    within_ceiling owner a && not (contains seen a) && distinct_classes (a ∷ seen) rest

unfoldable pub valid_actions : List String → Bool
unfolding distinct_classes
valid_actions actions =
    leb (length actions) 4
    && distinct_classes [] actions
    && (length actions == 0 || contains actions "read")

abbrev pub is_grant_of : ℕ → ℕ → ℕ → Grant → Bool
is_grant_of scope connection user g =
    (g.workspace == scope) && (g.connection == connection) && (g.user == user)

-- INSERT INTO connection_grants, with its ON CONFLICT clause.
unfoldable pub put_grant : ℕ → ℕ → ℕ → List String → Db → Db
unfolding upsert
put_grant scope connection user actions db = record db {
  grants =
      upsert (is_grant_of scope connection user) (λ g. record g { actions = actions })
        (record { workspace = scope; connection = connection; user = user; actions = actions })
        db.grants;
}

-- Some action is above the ceiling of the member, or an admin does not hold it.
unfoldable pub exceeds : Role → List String → Role → List String → Bool
exceeds current own member [] = false
exceeds current own member (a ∷ rest) =
    not (within_ceiling member a)
    || is_admin current && not (contains own a)
    || exceeds current own member rest

module _ (ext : External) (env : Env) where
  unfoldable pub grant_audit : ℕ → ℕ → ℕ → ℕ → String → String → WsTx Unit
  grant_audit actor scope connection target kind request db =
      if not env.random_ok
      then err store
      else elim (append_audit ext env.clock
          (record {
            id = env.new_audit;
            workspace = scope;
            actor_kind = user_actor;
            actor = some actor;
            kind = kind;
            request = request;
            metadata =
                ("connection_id", Value.uuid connection) ∷ ("member_id", Value.uuid target) ∷ [];
          })
          db) [ none ↦ err store | some db' ↦ ok (tt, db') ]

  -- What is committed with an error: the audit event of the refusal.
  unfoldable pub deny : ℕ → ℕ → ℕ → ℕ → String → Error → WsTx (Option Error)
  deny actor scope connection target request cause = do
    grant_audit actor scope connection target "connection.grants_denied" request
    pure (some cause)

  -- SetGrant once the caller, the connection and the member are read.
  unfoldable pub decide_grant :
      ℕ → ℕ → ℕ → ℕ → List String → String → Membership → Membership → WsTx (Option Error)
  unfolding granted deny
  decide_grant actor scope connection target actions request current member db =
      let own = if is_admin current.role then granted scope connection actor db else [] in
      (if not (can_assign current.role member.role) || exceeds current.role own member.role actions
          then deny actor scope connection target request denied
          else (do
            grant_audit actor scope connection target "connection.grants_changed" request
            modify (put_grant scope connection target actions)
            modify (bump_policy scope)
            pure none))
        db

  -- SetGrant after LockAuthority.
  unfoldable pub grant_locked :
      ℕ → ℕ → ℕ → ℕ → List String → String → Membership → WsTx (Option Error)
  grant_locked actor scope connection target actions request current db =
      elim (connection_of scope connection db) [
        | none ↦ deny actor scope connection target request not_found db
        | some c ↦ elim (active_membership scope target db) [
          | none ↦ deny actor scope connection target request not_found db
          | some member ↦
              decide_grant actor scope connection target actions request current member db
        ]
      ]

  -- The transaction of SetGrant. `some e` is an error whose transaction commits.
  unfoldable pub grant_body : ℕ → ℕ → ℕ → ℕ → List String → String → WsTx (Option Error)
  grant_body actor scope connection target actions request db =
      elim (lock_authority actor scope db) [
        | err denied ↦ deny actor scope connection target request denied db
        | err e ↦ err e
        | ok r ↦ grant_locked actor scope connection target actions request r.0 r.1
      ]

  unfoldable pub set_grant : ℕ → ℕ → ℕ → ℕ → List String → String → WsTx (Option Error)
  set_grant actor scope connection target actions request = do
    guard (valid_actions actions) invalid
    in_tx env (grant_body actor scope connection target actions request)
