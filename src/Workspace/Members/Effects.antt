-- ===== src/Workspace/Members/Effects.antt =====
-- What each statement of a membership change leaves alone.
use sama.Prelude.{ℕ, some, ◌≡◌, arith, String, ok, true, is_some}
use sama.Database.{Db, Env, Role, Membership, bump_policy, active_membership, admin, open_workspace}
use sama.External.{External}
use sama.Audit.{append_audit, AuditEvent}
use sama.Workspace.Members.{
  lock_authority, next_revision, invalidate_elevation, member_audit, member_in_tx, allows,
}

-- Two databases with the same users, workspaces and memberships.
pub record SameMembers (a b : Db) : Type 0 where
  pub users : a.users ≡ b.users
  pub memberships : a.memberships ≡ b.memberships

pub lock_authority-db :
    (actor scope : ℕ) (db : Db) {m : Membership} {db' : Db}
    → lock_authority actor scope db ≡ ok (m, db')
    → db' ≡ db
unfolding lock_authority
lock_authority-db actor scope db h = ground arith

-- Who holds the authority is an active member and at least an admin of an open workspace.
pub lock_authority-found :
    (actor scope : ℕ) (db : Db) {m : Membership} {db' : Db}
    → lock_authority actor scope db ≡ ok (m, db')
    → (active_membership scope actor db ≡ some m)
      × (allows m.role admin ≡ true)
      × (is_some (open_workspace scope db) ≡ true)
unfolding lock_authority member_in_tx
lock_authority-found actor scope db h = ground arith

pub next_revision-SameMembers :
    (scope : ℕ) (db : Db) {v : ℕ} {db' : Db}
    → next_revision scope db ≡ ok (v, db')
    → SameMembers db' db
unfolding next_revision bump_policy
next_revision-SameMembers scope db h = ground arith

pub invalidate_elevation-SameMembers :
    (user : ℕ) (previous next : Role) (db : Db)
    → SameMembers (invalidate_elevation user previous next db) db
unfolding invalidate_elevation
invalidate_elevation-SameMembers user previous next db = ground arith

append_audit-SameMembers :
    (ext : External) (clock : ℕ) (e : AuditEvent) (db : Db) {db' : Db}
    → append_audit ext clock e db ≡ some db'
    → SameMembers db' db
unfolding append_audit
append_audit-SameMembers ext clock e db h = ground arith

pub member_audit-SameMembers :
    (ext : External) (env : Env) (actor scope target : ℕ) (role : Role) (request : String) (db : Db)
    {db' : Db}
    → member_audit ext env actor scope target role request db ≡ ok (tt, db')
    → SameMembers db' db
unfolding member_audit append_audit
member_audit-SameMembers ext env actor scope target role request db h = ground arith

-- The invitations are in none of these statements.
pub member_audit-invitations :
    (ext : External) (env : Env) (actor scope target : ℕ) (role : Role) (request : String) (db : Db)
    {db' : Db}
    → member_audit ext env actor scope target role request db ≡ ok (tt, db')
    → db'.invitations ≡ db.invitations
unfolding member_audit append_audit
member_audit-invitations ext env actor scope target role request db h = ground arith

pub next_revision-invitations :
    (scope : ℕ) (db : Db) {v : ℕ} {db' : Db}
    → next_revision scope db ≡ ok (v, db')
    → db'.invitations ≡ db.invitations
unfolding next_revision bump_policy
next_revision-invitations scope db h = ground arith

pub invalidate_elevation-invitations :
    (user : ℕ) (previous next : Role) (db : Db)
    → (invalidate_elevation user previous next db).invitations ≡ db.invitations
unfolding invalidate_elevation
invalidate_elevation-invitations user previous next db = ground arith
