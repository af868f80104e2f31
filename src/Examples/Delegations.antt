-- ===== src/Examples/Delegations.antt =====
-- Witnesses for grants and invitations.
use sama.Prelude.{
  ℕ, ◌≤◌, Bool, true, false, none, some, List, [], ◌∷◌, String, ◌≡◌, refl, arith, Result, ok, err,
  any, if◌then◌else◌, contains, ◌&&◌, ◌||◌, ◌is◌,
}
use sama.Database
use sama.Workspace.Role.{allows}
use sama.Database.{Role, Membership, Db, Env, owner, operator, viewer, hour}
use sama.Workspace.Errors.{Error}
use sama.Workspace.Grants.{set_grant, connection_authority}
use sama.Workspace.Grants.Delegation.{Decision, set_grant-Decision, set_grant-connection_authority}
use sama.Workspace.Invitations.{issue_invitation, redeem_invitation}
use sama.Workspace.Invitations.Issue.{IsIssued, issue_invitation-IsIssued}
use sama.Workspace.Invitations.Redemption.{
  IsInvited, IsAdmitted, redeem_invitation-IsAdmitted, redeem_invitation-once,
}
use sama.External.{token_digest}
use sama.Workspace.Members.{transfer}
use sama.Examples.{ext, env, before, committed, raw_token}

abbrev shared : Db
shared = record before {
  users =
      record { id = 2; disabled = false; issuer = "issuer"; subject = "owner" }
      ∷ record { id = 5; disabled = false; issuer = "issuer"; subject = "guest" }
      ∷ [];
  memberships =
      record { workspace = 1; user = 2; role = owner; version = 1 }
      ∷ record { workspace = 1; user = 5; role = operator; version = 1 }
      ∷ [];
}

abbrev reading : List String
reading = "read" ∷ "operate" ∷ []

abbrev granted_db : Db
granted_db = committed shared (set_grant ext env 2 1 3 5 reading "request" shared)

grants_here : set_grant ext env 2 1 3 5 reading "request" shared ≡ ok (none, granted_db)
unfolding set_grant sama.Workspace.Grants.valid_actions sama.Workspace.Errors.in_tx
    sama.Workspace.Grants.grant_body sama.Workspace.Members.lock_authority Database.open_workspace
    sama.Prelude.find Database.active_membership sama.Workspace.Grants.grant_locked
    Database.connection_of sama.Workspace.Grants.decide_grant sama.Workspace.Role.can_assign
    sama.Workspace.Grants.exceeds sama.Workspace.Grants.grant_audit sama.Audit.append_audit
    sama.Audit.valid_event sama.External.parse_identifier
grants_here = refl

set_grant-Decision_example : Decision 2 1 3 5 reading shared none granted_db
set_grant-Decision_example = set_grant-Decision ext env 2 1 3 5 reading "request" shared grants_here

connection_here :
    Database.connection_of 1 3 shared
    ≡ some (record {
      workspace = 1;
      id = 3;
      brand = "hetzner";
      family = "cloud";
      credential = 1;
      status = "active";
      account = "account";
      permissions_verified = true;
      capabilities = "compute.server.power_on" ∷ [];
      label = "label";
    })
unfolding Database.connection_of sama.Prelude.find
connection_here = refl

abbrev receiver : Membership
receiver = record { workspace = 1; user = 5; role = operator; version = 1 }

receiver_here : Database.active_membership 1 5 shared ≡ some receiver
unfolding Database.active_membership sama.Prelude.find Database.is_active_user
receiver_here = refl

set_grant-connection_authority_example : connection_authority 5 1 3 "operate" granted_db ≡ (
    if "operate" is "manage"
    then (if allows operator Role.admin then ok (tt, granted_db) else err Error.denied)
    else if contains reading "read"
    then (if contains reading "operate" && (("operate" is "read") || ("active" is "active"))
        then ok (tt, granted_db)
        else err Error.denied)
    else err Error.not_found)
set_grant-connection_authority_example =
    set_grant-connection_authority ext env 2 1 3 5 reading "request" "operate" receiver
      (record {
        workspace = 1;
        id = 3;
        brand = "hetzner";
        family = "cloud";
        credential = 1;
        status = "active";
        account = "account";
        permissions_verified = true;
        capabilities = "compute.server.power_on" ∷ [];
        label = "label";
      })
      shared receiver_here connection_here grants_here

abbrev invited_db : Db
invited_db =
    committed before
      (issue_invitation ext env (some raw_token) 2 1 "issuer" "guest" viewer "request" before)

invites_here :
    issue_invitation ext env (some raw_token) 2 1 "issuer" "guest" viewer "request" before
    ≡ ok ("token", invited_db)
unfolding issue_invitation sama.Workspace.Role.allows sama.Workspace.Invitations.issue_body
    sama.Workspace.Members.lock_authority Database.open_workspace sama.Prelude.find
    Database.active_membership sama.Workspace.Role.can_assign sama.Prelude.count sama.Prelude.delete
    token_digest sama.Workspace.Invitations.insert_invitation any
    sama.Workspace.Invitations.invitation_audit sama.Audit.append_audit sama.Audit.valid_event
    sama.External.parse_identifier
invites_here = refl

issue_invitation-IsIssued_example :
    (d : ℕ) × (token_digest ext "token" ≡ some d)
    × IsIssued 2 1 "issuer" "guest" viewer 1000 d before invited_db
issue_invitation-IsIssued_example =
    issue_invitation-IsIssued ext env 2 1 "issuer" "guest" viewer "request" (some raw_token) before
      invites_here

abbrev joined_db : Db
joined_db =
    committed invited_db (redeem_invitation ext env 1001 "issuer" "guest" "request" invited_db)

redeems_here :
    redeem_invitation ext env 1001 "issuer" "guest" "request" invited_db ≡ ok (tt, joined_db)
unfolding redeem_invitation sama.Prelude.find issue_invitation sama.Workspace.Role.allows
    sama.Workspace.Invitations.issue_body sama.Workspace.Members.lock_authority
    Database.open_workspace Database.active_membership sama.Workspace.Role.can_assign
    sama.Prelude.count sama.Prelude.delete token_digest sama.Workspace.Invitations.insert_invitation
    any sama.Workspace.Invitations.invitation_audit sama.Audit.append_audit sama.Audit.valid_event
    sama.External.parse_identifier sama.Audit.is_code_char sama.Audit.is_entity_id
    sama.Audit.metadata_fields sama.Audit.safe_code sama.Audit.safe_code_chars
    sama.Audit.valid_actor sama.Audit.valid_field sama.Audit.valid_fields Database.bump_policy
    Database.is_active_user sama.Prelude.update sama.Prelude.all_in sama.Prelude.is_alnum
    sama.Workspace.Errors.in_tx sama.Workspace.Invitations.admit
    sama.Workspace.Invitations.insert_user sama.Workspace.Invitations.join_workspace
    sama.Workspace.Invitations.spend_invitation sama.Workspace.Invitations.stored_invitations
    sama.Workspace.Members.invalidate_elevation sama.Workspace.Members.member_audit
    sama.Workspace.Members.member_in_tx sama.Workspace.Members.next_revision
redeems_here = refl

redeem_invitation-IsAdmitted_example :
    (r : IsInvited 1001 "issuer" "guest" 1000 invited_db) × IsAdmitted r.invitation "issuer" "guest"
      env.new_user 1000 invited_db joined_db
redeem_invitation-IsAdmitted_example =
    redeem_invitation-IsAdmitted ext env 1001 "issuer" "guest" "request" invited_db redeems_here

redeem_invitation-once_example :
    redeem_invitation ext env 1001 "issuer" "other" "request" joined_db ≡ err Error.denied
redeem_invitation-once_example =
    redeem_invitation-once ext env 1001 "issuer" "guest" "request" env "issuer" "other" "request"
      invited_db (omega arith) redeems_here

abbrev handed_over : Db
handed_over = committed shared (transfer ext env 2 1 5 1 1 true "request" shared)
