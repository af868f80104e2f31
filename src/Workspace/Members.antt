-- ===== src/Workspace/Members.antt =====
-- Membership changes: backend/internal/workspace/change_member.go and transfer.go.
pub mod Transferred
pub mod Effects
pub mod Owners
use sama.Prelude.{
  ℕ, ◌+◌, Bool, ◌&&◌, ◌||◌, not, Option, none, some, [], ◌∷◌, String, ltb, ◌==◌, if◌then◌else◌,
  is_some, ok, err, pure, gets, row, modify, guard, ◌>>=◌, ◌>>◌, find, any, count, update, delete,
}
use sama.Database.{
  Db, Env, Role, empty, viewer, admin, owner, Membership, user_actor, open_workspace,
  is_active_user, active_membership, bump_policy,
}
use sama.External.{External}
use sama.Audit.{Value, append_audit}
use sama.Workspace.Role.{allows, can_assign, is_owner, is_empty}
use sama.Workspace.Errors.{not_found, denied, conflict, invalid, store, WsTx, in_tx}

-- memberInTx; where there is no row the source returns a zero Membership beside ErrNotFound.
unfoldable pub member_in_tx : ℕ → ℕ → WsTx Membership
member_in_tx scope user db = row not_found (active_membership scope user db) db

abbrev pub absent : ℕ → ℕ → Membership
absent scope user = record { workspace = scope; user = user; role = empty; version = 0 }

abbrev pub member_or : Membership → Option Membership → Membership
member_or m none = m
member_or m (some found) = found

-- memberInTx where the caller goes on after ErrNotFound.
unfoldable pub member_or_absent : ℕ → ℕ → Db → Membership
member_or_absent scope user db = member_or (absent scope user) (active_membership scope user db)

unfoldable pub lock_authority : ℕ → ℕ → WsTx Membership
unfolding member_in_tx
lock_authority actor scope db =
    (do
      row not_found (open_workspace scope db)
      m ← member_in_tx scope actor
      guard (allows m.role admin) denied
      pure m)
      db

-- The members of a workspace with the role owner whose user is not disabled.
unfoldable pub owners : ℕ → Db → ℕ
owners scope db =
    count (λ m. (m.workspace == scope) && is_owner m.role && is_active_user m.user db)
      db.memberships

-- The new policy_version of the workspace.
unfoldable pub next_revision : ℕ → WsTx ℕ
next_revision scope db = elim (find (λ w. w.id == scope) db.workspaces) [
  | none ↦ err store
  | some w ↦ ok (w.policy_version + 1, bump_policy scope db)
]

abbrev pub is_member : ℕ → ℕ → Membership → Bool
is_member scope user m = m.workspace == scope && m.user == user

-- A member of any open workspace, not disabled.
unfoldable pub is_admitted : ℕ → Db → Bool
is_admitted user db =
    is_active_user user db
    && any (λ m. (m.user == user) && is_some (open_workspace m.workspace db)) db.memberships

-- INSERT INTO memberships, against the primary key (workspace_id, user_id).
unfoldable pub insert_membership : Membership → WsTx Unit
insert_membership m db =
    if any (is_member m.workspace m.user) db.memberships
    then err store
    else ok (tt, record db { memberships = m ∷ db.memberships })

-- DELETE FROM memberships; the grants of the member go with it (ON DELETE CASCADE).
unfoldable pub delete_membership : ℕ → ℕ → Db → Db
delete_membership scope user db = record db {
  memberships = delete (is_member scope user) db.memberships;
  grants = delete (λ g. (g.workspace == scope) && g.user == user) db.grants;
}

unfoldable pub set_membership : ℕ → ℕ → Role → ℕ → Db → Db
set_membership scope user role version db = record db {
  memberships =
      update (is_member scope user) (λ m. record m { role = role; version = version })
        db.memberships;
}

unfoldable pub invalidate_elevation : ℕ → Role → Role → Db → Db
invalidate_elevation user previous next db =
    if not (is_empty next) && not (allows previous next)
    then record db { sessions = delete (λ s. s.user == user) db.sessions }
    else db

-- The INSERT, DELETE or UPDATE of ChangeMember.
unfoldable pub write_member : ℕ → ℕ → Role → ℕ → ℕ → WsTx Unit
unfolding insert_membership
write_member scope target role version revision db =
    if version == 0
    then (do
      guard (is_admitted target db) not_found
      insert_membership
          (record { workspace = scope; user = target; role = role; version = revision }))
        db
    else if is_empty role
    then ok (tt, delete_membership scope target db)
    else ok (tt, set_membership scope target role revision db)

module _ (ext : External) (env : Env) where
  unfoldable pub member_audit : ℕ → ℕ → ℕ → Role → String → WsTx Unit
  member_audit actor scope target role request db =
      if not env.random_ok
      then err store
      else elim (append_audit ext env.clock
          (record {
            id = env.new_audit;
            workspace = scope;
            actor_kind = user_actor;
            actor = some actor;
            kind = "membership.changed";
            request = request;
            metadata =
                ("member_id", Value.uuid target)
                ∷ (if is_empty role then [] else ("role", Value.role role) ∷ []);
          })
          db) [ none ↦ err store | some db' ↦ ok (tt, db') ]

  -- ChangeMember from the new revision of the workspace to the audit event.
  unfoldable pub apply_change : ℕ → ℕ → ℕ → Role → Role → ℕ → String → WsTx Unit
  apply_change actor scope target previous role version request = do
    revision ← next_revision scope
    write_member scope target role version revision
    modify (invalidate_elevation target previous role)
    member_audit actor scope target role request

  -- The transaction of ChangeMember.
  unfoldable pub change_body : ℕ → ℕ → ℕ → Role → ℕ → String → WsTx Unit
  change_body actor scope target role version request = do
    current ← lock_authority actor scope
    previous ← gets (member_or_absent scope target)
    guard (can_assign current.role role || is_empty role) denied
    guard (is_empty previous.role || can_assign current.role previous.role) denied
    guard (previous.version == version && not (previous.version == 0 && is_empty role)) conflict
    remaining ← gets (owners scope)
    guard (not (is_owner previous.role) || is_owner role || ltb 1 remaining) conflict
    apply_change actor scope target previous.role role version request

  -- `version` is not negative; a negative one is refused as ErrInvalid before anything is read.
  unfoldable pub change_member : ℕ → ℕ → ℕ → Role → ℕ → String → WsTx Unit
  change_member actor scope target role version request = do
    guard (is_empty role || allows role viewer) invalid
    in_tx env (change_body actor scope target role version request)

  unfoldable pub transfer : ℕ → ℕ → ℕ → ℕ → ℕ → Bool → String → WsTx Unit
  unfolding in_tx
  transfer actor scope target actor_version target_version demote request = do
    guard (not (actor == target) && ltb 0 actor_version && ltb 0 target_version) invalid
    in_tx env do
      caller ← lock_authority actor scope
      guard (is_owner caller.role) denied
      member ← member_in_tx scope target
      guard (caller.version == actor_version && member.version == target_version) conflict
      revision ← next_revision scope
      modify (set_membership scope target owner revision)
      modify (invalidate_elevation target member.role owner)
      member_audit actor scope target owner request
      if demote
          then (do
            modify (set_membership scope actor admin revision)
            member_audit actor scope actor admin request)
          else pure tt
