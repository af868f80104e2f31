-- ===== src/Workspace/Members/Transferred.antt =====
-- What Transfer of backend/internal/workspace/transfer.go hands over.
use sama.Prelude.{ℕ, Bool, true, false, ◌&&◌, ◌||◌, some, ◌≡◌, ◌==◌, if◌then◌else◌, ◌>>◌}
use sama.Database.{Db, Role, owner, admin, Membership, active_membership}
use sama.External.{External}
use sama.Workspace.Role.{is_owner}
use sama.Workspace.Members.{set_membership}

-- A membership with another role.
abbrev pub with_role : Role → ℕ → Membership → Membership
with_role role version m = record m { role = role; version = version }

-- The members of the workspaces before and after a transfer.
pub record IsTransferred (actor scope target actor_version target_version : ℕ) (demote : Bool)
    (a b : Db) : Type 0 where
  pub caller : Membership
  pub member : Membership
  pub version : ℕ
  pub caller_found : active_membership scope actor a ≡ some caller
  pub member_found : active_membership scope target a ≡ some member
  pub was_owner : is_owner caller.role ≡ true
  pub caller_version : caller.version ≡ actor_version
  pub member_version : member.version ≡ target_version
  pub promoted : active_membership scope target b ≡ some (with_role owner version member)
  pub giver :
      active_membership scope actor b
      ≡ some (if demote then with_role admin version caller else caller)
  pub others :
      (w u : ℕ)
      → (w == scope && (u == actor || u == target)) ≡ false
      → active_membership w u b ≡ active_membership w u a

-- The memberships after the two statements of a transfer, whatever the other tables are.
abbrev handed : ℕ → ℕ → ℕ → ℕ → Bool → Db → Db
handed actor scope target version demote db =
    let promoted = set_membership scope target owner version db in
    if demote then set_membership scope actor admin version promoted else promoted
