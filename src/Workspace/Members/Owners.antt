-- ===== src/Workspace/Members/Owners.antt =====
-- A workspace that has an owner keeps one.
use sama.Prelude.{
  ℕ, ◌+◌, ◌≤◌, ◌<◌, Bool, true, false, ◌&&◌, ◌||◌, not, ◌≡◌, refl, ◌∙◌, inl, inr, arith, String, ok,
  ltb, ◌==◌, find, count, count-le-update, count-le-update_add, count-le-delete_add, bind-ok,
  count-and-le, count_mono, count-find_unique, count-find-none, count-zero, Option-cases,
  Bool-cases,
}
use sama.Database.{Db, Env, Role, Membership, is_active_user, active_membership}
use sama.External.{External}
use sama.Workspace.Role.{is_owner}
use sama.Workspace.Errors.{in_tx-ok}
use sama.Workspace.Members.{
  owners, is_member, member_or_absent, set_membership, delete_membership, write_member,
  insert_membership, change_member, change_body, lock_authority, next_revision,
  invalidate_elevation, apply_change,
}
use sama.Workspace.Members.Effects.{
  SameMembers, lock_authority-db, next_revision-SameMembers, invalidate_elevation-SameMembers,
  member_audit-SameMembers,
}

-- The primary key (workspace_id, user_id) of the table memberships.
abbrev pub HasUniqueMembers : Db → Type 0
HasUniqueMembers db = (scope user : ℕ) → count (is_member scope user) db.memberships ≤ 1

abbrev owner_row : ℕ → Db → Membership → Bool
owner_row s db m = (m.workspace == s) && is_owner m.role && is_active_user m.user db

abbrev active_row : ℕ → ℕ → Db → Membership → Bool
active_row scope user db m = (m.workspace == scope) && (m.user == user) && is_active_user user db

-- How many owners of `s` a statement about one member touches.
abbrev touched : ℕ → ℕ → ℕ → Db → ℕ
touched scope user s db = count (λ m. is_member scope user m && owner_row s db m) db.memberships

touched-le-one : (scope user s : ℕ) (db : Db) → HasUniqueMembers db → touched scope user s db ≤ 1
touched-le-one scope user s db u =
    omega (arith, u scope user, count-and-le (is_member scope user) (owner_row s db) db.memberships)

touched-le-active :
    (scope user s : ℕ) (db : Db)
    → touched scope user s db
      ≤ count (λ m. active_row scope user db m && owner_row s db m) db.memberships
touched-le-active scope user s db = count_mono _ _ db.memberships λ m h. ground arith

active-le-one :
    (scope user : ℕ) (db : Db)
    → HasUniqueMembers db
    → count (active_row scope user db) db.memberships ≤ 1
active-le-one scope user db u = omega (
  arith,
  u scope user,
  count_mono (active_row scope user db) (is_member scope user) db.memberships (λ m h. ground arith),
)

-- A member whose row is not an active owner's is no owner of any workspace through that row.
touched-zero :
    (scope user s : ℕ) (db : Db)
    → HasUniqueMembers db
    → is_owner (member_or_absent scope user db).role ≡ false
    → touched scope user s db ≡ 0
unfolding member_or_absent active_membership
touched-zero scope user s db u h =
    elim (Option-cases (find (active_row scope user db) db.memberships)) [
      | inl e ↦ omega (
        arith,
        touched-le-active scope user s db,
        count-find-none (active_row scope user db) (owner_row s db) db.memberships e,
      )
      | inr found ↦ omega (
        arith,
        touched-le-active scope user s db,
        count-find_unique (active_row scope user db) (owner_row s db) db.memberships
            (active-le-one scope user db u) found.1
            (let e : is_owner found.0.role ≡ false = rw found.1 at h in ground arith),
      )
    ]

set_membership-owners :
    (scope user s version : ℕ) (role : Role) (db : Db)
    → owners s db ≤ owners s (set_membership scope user role version db) + touched scope user s db
unfolding owners set_membership is_active_user
set_membership-owners scope user s version role db =
    count-le-update_add (is_member scope user) (owner_row s db) _ db.memberships

set_membership-owners_keep :
    (scope user s version : ℕ) (role : Role) (db : Db)
    → is_owner role ≡ true
    → owners s db ≤ owners s (set_membership scope user role version db)
unfolding owners set_membership is_active_user
set_membership-owners_keep scope user s version role db o =
    count-le-update (is_member scope user) (owner_row s db) _ db.memberships λ m p q. ground arith

delete_membership-owners :
    (scope user s : ℕ) (db : Db)
    → owners s db ≤ owners s (delete_membership scope user db) + touched scope user s db
unfolding owners delete_membership is_active_user
delete_membership-owners scope user s db =
    count-le-delete_add (is_member scope user) (owner_row s db) db.memberships

insert_membership-owners :
    (s : ℕ) (m : Membership) (db : Db) {db' : Db}
    → insert_membership m db ≡ ok (tt, db')
    → owners s db ≤ owners s db'
unfolding owners insert_membership is_active_user count
insert_membership-owners s m db h = ground arith

write_member-owners :
    (scope target s : ℕ) (role : Role) (version revision : ℕ) (db : Db) {db' : Db}
    → write_member scope target role version revision db ≡ ok (tt, db')
    → owners s db ≤ owners s db' + touched scope target s db
unfolding write_member
write_member-owners scope target s role version revision db {db'} h = ground (
  arith,
  insert_membership-owners s
      (record { workspace = scope; user = target; role = role; version = revision }) db {db' = db'},
  delete_membership-owners scope target s db,
  set_membership-owners scope target s revision role db,
)

write_member-owners_keep :
    (scope target s : ℕ) (role : Role) (version revision : ℕ) (db : Db) {db' : Db}
    → is_owner role ≡ true
    → write_member scope target role version revision db ≡ ok (tt, db')
    → owners s db ≤ owners s db'
unfolding write_member
write_member-owners_keep scope target s role version revision db {db'} o h = ground (
  arith,
  insert_membership-owners s
      (record { workspace = scope; user = target; role = role; version = revision }) db {db' = db'},
  set_membership-owners_keep scope target s revision role db,
)

owners-SameMembers : (s : ℕ) {a b : Db} → SameMembers a b → owners s a ≡ owners s b
unfolding owners is_active_user
owners-SameMembers s h = rw (h.users, h.memberships)

touched-SameMembers :
    (scope user s : ℕ) {a b : Db}
    → SameMembers a b
    → touched scope user s a ≡ touched scope user s b
unfolding is_active_user
touched-SameMembers scope user s h = rw (h.users, h.memberships)

module _ (ext : External) (env : Env) where
  apply_change-owners :
      (actor scope target s : ℕ) (previous role : Role) (version : ℕ) (request : String) (db : Db)
      {db' : Db}
      → apply_change ext env actor scope target previous role version request db ≡ ok (tt, db')
      → (owners s db ≤ owners s db' + touched scope target s db)
        × (is_owner role ≡ true → owners s db ≤ owners s db')
  unfolding apply_change
  apply_change-owners actor scope target s previous role version request db h =
      let (revision, db₁, p₁, h₁) = bind-ok (next_revision scope) _ db h in
      let (_, db₂, p₂, h₂) = bind-ok (write_member scope target role version revision) _ db₁ h₁ in
      let same₁ = next_revision-SameMembers scope db p₁ in
      let db₃ = invalidate_elevation target previous role db₂ in
      let same₃ = invalidate_elevation-SameMembers target previous role db₂ in
      let same₄ = member_audit-SameMembers ext env actor scope target role request db₃ h₂ in
      let e₁ = owners-SameMembers s same₁ in
      let e₃ = owners-SameMembers s same₃ in
      let e₄ = owners-SameMembers s same₄ in
      let t₁ = touched-SameMembers scope target s same₁ in
      (
        omega (arith, write_member-owners scope target s role version revision db₁ p₂),
        λ o. omega (arith, write_member-owners_keep scope target s role version revision db₁ o p₂),
      )

touched-ne : (scope user s : ℕ) (db : Db) → (s == scope) ≡ false → touched scope user s db ≡ 0
touched-ne scope user s db h = count-zero _ db.memberships λ m. ground arith

-- The arithmetic of the final-owner test.
owner_left :
    (scope target s : ℕ) (previous role : Role) (db : Db) (left : ℕ)
    → HasUniqueMembers db
    → is_owner (member_or_absent scope target db).role ≡ is_owner previous
    → (not (is_owner previous) || is_owner role || ltb 1 (owners scope db)) ≡ true
    → owners s db ≤ left + touched scope target s db
    → (is_owner role ≡ true → owners s db ≤ left)
    → 0 < owners s db
    → 0 < left
owner_left scope target s previous role db left u same test lost kept h =
    elim (Bool-cases (is_owner role)) [
      | inl o ↦ omega (arith, kept o)
      | inr o ↦ elim (Bool-cases (is_owner previous)) [
        | inr p ↦ omega (arith, lost, touched-zero scope target s db u (same ∙ p))
        | inl p ↦ elim (Bool-cases (s == scope)) [
          | inr ne ↦ omega (arith, lost, touched-ne scope target s db ne)
          | inl e ↦ ground (arith, touched-le-one scope target s db u)
        ]
      ]
    ]

module _ (ext : External) (env : Env) where
  -- After a membership change that succeeds, every workspace that had an owner whose user is not
  -- disabled still has one, whoever asked for the change and whatever it was. The table of
  -- memberships has its primary key.
  pub change_member-owners :
      (actor scope target : ℕ) (role : Role) (version : ℕ) (request : String) (db : Db) {db' : Db}
      → HasUniqueMembers db
      → change_member ext env actor scope target role version request db ≡ ok (tt, db')
      → (s : ℕ) → 0 < owners s db
      → 0 < owners s db'
  unfolding change_member change_body
  change_member-owners actor scope target role version request db {db'} u h s positive =
      let ran : change_body ext env actor scope target role version request db ≡ ok (tt, db') =
        ground (
          arith,
          in_tx-ok env (change_body ext env actor scope target role version request) db
              {r = (tt, db')},
        ) in
      let (current, db₁, p₁, rest) =
        bind-ok (lock_authority actor scope) _ db (unfold change_body in ran) in
      let same : db₁ ≡ db = lock_authority-db actor scope db p₁ in
      let previous = member_or_absent scope target db₁ in
      let facts : ((not (is_owner previous.role) || is_owner role || ltb 1 (owners scope db₁))
            ≡ true)
          × (apply_change ext env actor scope target previous.role role version request db₁
              ≡ ok (tt, db')) =
        ground arith in
      let change =
        apply_change-owners ext env actor scope target s previous.role role version request db₁
          facts.1 in
      owner_left scope target s previous.role role db₁ (owners s db') (rw same u) refl facts.0
        change.0 change.1 (rw same positive)
