-- ===== src/Workspace/Role.antt =====
-- Roles and grant classes: Allows of backend/internal/workspace/membership.go, WithinCeiling of
-- grants.go and CanAssign of change_member.go.
use sama.Prelude.{
  ℕ, Bool, true, false, ◌&&◌, ◌||◌, String, ◌≡◌, arith, ltb, leb, ◌is◌, if◌then◌else◌,
}
use sama.Database.{Role, empty, viewer, operator, admin, owner}

-- The map `ranks`; a missing key reads 0.
abbrev pub rank : Role → ℕ
rank viewer = 1
rank operator = 2
rank admin = 3
rank owner = 4
rank _ = 0

unfoldable pub allows : Role → Role → Bool
allows role minimum = ltb 0 (rank minimum) && leb (rank minimum) (rank role)

unfoldable pub within_ceiling : Role → String → Bool
unfolding allows
within_ceiling role action =
    if action is "read"
    then allows role viewer
    else if (action is "refresh") || (action is "operate") || (action is "high_impact")
    then allows role operator
    else false

abbrev pub is_owner : Role → Bool
is_owner owner = true
is_owner _ = false

abbrev pub is_admin : Role → Bool
is_admin admin = true
is_admin _ = false

abbrev pub is_empty : Role → Bool
is_empty empty = true
is_empty _ = false

abbrev pub is_low : Role → Bool
is_low viewer = true
is_low operator = true
is_low _ = false

unfoldable pub can_assign : Role → Role → Bool
unfolding allows
can_assign actor role = allows role viewer && (is_owner actor || is_admin actor && is_low role)

-- A role is at least itself exactly when it has a rank, and `allows` composes.
pub allows_trans : (a b c : Role) → allows a b ≡ true → allows b c ≡ true → allows a c ≡ true
unfolding allows
allows_trans a b c h k = ground arith

-- Whoever may assign a role has at least that role, and at least `admin`.
pub can_assign-allows :
    (actor role : Role)
    → can_assign actor role ≡ true
    → (allows actor role ≡ true) × (allows actor admin ≡ true) × (allows role viewer ≡ true)
unfolding can_assign
can_assign-allows actor role h = ground arith

-- A higher role keeps every grant class of a lower one.
pub within_ceiling_mono :
    (low high : Role) (action : String)
    → allows high low ≡ true
    → within_ceiling low action ≡ true
    → within_ceiling high action ≡ true
unfolding within_ceiling
within_ceiling_mono low high action h k = ground arith
