-- ===== src/Workspace/Invitations.antt =====
-- Invitations: backend/internal/workspace/invitations.go and redeem_invitation.go.
pub mod Redemption
pub mod Issue
use Prim.Native.String.{len}
use sama.Prelude.{
  ℕ, ◌+◌, ◌*◌, Bool, true, false, ◌&&◌, ◌||◌, not, Option, none, some, List, [], ◌∷◌, String, ltb,
  leb, ◌==◌, ◌is◌, if◌then◌else◌, ok, err, pure, gets, row, modify, guard, ◌>>=◌, ◌>>◌, find, any,
  count, delete,
}
use sama.Database.{Db, Env, Role, viewer, empty, Membership, Invitation, User, user_actor, hour}
use sama.External.{External, token_digest}
use sama.Audit.{Value, append_audit}
use sama.Workspace.Role.{allows, can_assign}
use sama.Workspace.Errors.{Error, denied, conflict, invalid, limit, store, WsTx, in_tx}
use sama.Workspace.Members.{
  lock_authority, next_revision, is_member, invalidate_elevation, member_audit,
}

abbrev is_of : ℕ → Invitation → Bool
is_of scope i = i.workspace == scope

abbrev pub is_expired_in : ℕ → ℕ → Invitation → Bool
is_expired_in scope now i = i.workspace == scope && leb i.expires now

-- The INSERT, against the primary key and the CHECK of the version.
unfoldable pub insert_invitation : Invitation → WsTx Unit
insert_invitation i db =
    if any (λ x. x.digest == i.digest) db.invitations || i.inviter_version == 0
    then err store
    else ok (tt, record db { invitations = i ∷ db.invitations })

unfoldable pub stored_invitations : ℕ → Db → ℕ
stored_invitations scope db = count (is_of scope) db.invitations

module _ (ext : External) (env : Env) where
  unfoldable pub invitation_audit : ℕ → ℕ → Role → String → WsTx Unit
  invitation_audit actor scope role request db =
      if not env.random_ok
      then err store
      else elim (append_audit ext env.clock
          (record {
            id = env.new_audit;
            workspace = scope;
            actor_kind = user_actor;
            actor = some actor;
            kind = "invitation.created";
            request = request;
            metadata = ("role", Value.role role) ∷ [];
          })
          db) [ none ↦ err store | some db' ↦ ok (tt, db') ]

  -- The transaction of IssueInvitation; `digest` is that of the new proof.
  unfoldable pub issue_body : ℕ → ℕ → String → String → Role → String → Option ℕ → WsTx Unit
  unfolding stored_invitations
  issue_body actor scope issuer subject role request digest = do
    caller ← lock_authority actor scope
    guard (can_assign caller.role role) denied
    modify (λ db. record db { invitations = delete (is_expired_in scope env.now) db.invitations })
    stored ← gets (stored_invitations scope)
    guard (ltb stored 100) limit
    d ← row store digest
    insert_invitation (record {
      digest = d;
      workspace = scope;
      inviter = actor;
      inviter_version = caller.version;
      issuer = issuer;
      subject = subject;
      role = role;
      expires = env.now + 24 * hour;
    })
    invitation_audit actor scope role request

  -- `raw` is what rand.Read filled in, if it did.
  unfoldable pub issue_invitation :
      Option (List ℕ) → ℕ → ℕ → String → String → Role → String → WsTx String
  unfolding in_tx
  issue_invitation raw actor scope issuer subject role request = do
    guard
        (not (len issuer == 0)
          && leb (len issuer) 2048
          && not (len subject == 0)
          && leb (len subject) 255
          && allows role viewer)
        invalid
    bytes ← row store raw
    in_tx env do
      issue_body actor scope issuer subject role request
          (token_digest ext (ext.base64_encode bytes))
      pure (ext.base64_encode bytes)

abbrev pub matches : ℕ → String → String → ℕ → Invitation → Bool
matches digest issuer subject now i =
    i.digest == digest && (i.issuer is issuer) && (i.subject is subject) && ltb now i.expires

abbrev pub is_live : ℕ → ℕ → Invitation → Bool
is_live digest now i = i.digest == digest && ltb now i.expires

abbrev pub has_identity : String → String → User → Bool
has_identity issuer subject u = (u.issuer is issuer) && (u.subject is subject)

-- DELETE FROM invitations; none or several deleted rows are refused.
unfoldable pub spend_invitation : ℕ → ℕ → WsTx Unit
spend_invitation digest now db =
    if count (is_live digest now) db.invitations == 1
    then ok (tt, record db { invitations = delete (is_live digest now) db.invitations })
    else err denied

-- INSERT INTO users ... ON CONFLICT(issuer,subject) DO NOTHING, against the primary key.
unfoldable pub insert_user : ℕ → String → String → WsTx Unit
insert_user id issuer subject db =
    if any (has_identity issuer subject) db.users
    then ok (tt, db)
    else if any (λ u. u.id == id) db.users
    then err store
    else ok (
      tt,
      record db {
        users = record { id = id; disabled = false; issuer = issuer; subject = subject } ∷ db.users;
      },
    )

-- INSERT INTO memberships ... ON CONFLICT DO NOTHING; no inserted row is ErrConflict.
unfoldable pub join_workspace : Membership → WsTx Unit
join_workspace m db =
    if any (is_member m.workspace m.user) db.memberships
    then err conflict
    else ok (tt, record db { memberships = m ∷ db.memberships })

module _ (ext : External) (env : Env) where
  -- RedeemInvitation from the deletion of the invitation on.
  unfoldable pub admit : Invitation → String → String → String → WsTx Unit
  admit i issuer subject request = do
    spend_invitation i.digest env.now
    guard env.random_ok store
    insert_user env.new_user issuer subject
    found ← gets (λ (db : Db). find (λ u. has_identity issuer subject u && not u.disabled) db.users)
    user ← row denied found
    revision ← next_revision i.workspace
    join_workspace
        (record { workspace = i.workspace; user = user.id; role = i.role; version = revision })
    modify (invalidate_elevation user.id empty i.role)
    member_audit ext env i.inviter i.workspace user.id i.role request

  -- In the transaction of the caller.
  unfoldable pub redeem_invitation : ℕ → String → String → String → WsTx Unit
  unfolding admit
  redeem_invitation digest issuer subject request = do
    found ← gets (λ (db : Db). find (matches digest issuer subject env.now) db.invitations)
    i ← row denied found
    caller ← lock_authority i.inviter i.workspace
    guard (caller.version == i.inviter_version && can_assign caller.role i.role) denied
    admit i issuer subject request
