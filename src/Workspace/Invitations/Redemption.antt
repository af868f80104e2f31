-- ===== src/Workspace/Invitations/Redemption.antt =====
-- What redeeming an invitation admits: backend/internal/workspace/redeem_invitation.go.
use sama.Prelude.{
  ℕ, true, false, ◌&&◌, not, some, none, String, ◌≡◌, refl, ◌∙◌, sym, arith, ok, ◌==◌, bind-ok, ◌∷◌,
  guard-ok, row, find, any, ◌≤◌, find-holds, find-delete-none, any-find, inl, inr, ◌⊎◌, ◌≢◌, List,
  Option-cases, is_iff, delete, find, guard-ok, row, row-ok, ap, err, ◌≢◌, any-find, ◌⊎◌,
  Option-cases, inl, inr,
}
use sama.Database.{Db, Env, Role, Membership, Invitation, User, active_membership}
use sama.External.{External}
use sama.Workspace.Role.{can_assign}
use sama.Workspace.Errors.{Error}
use sama.Workspace.Members.{lock_authority, next_revision, is_member, invalidate_elevation}
use sama.Workspace.Members.Effects.{
  next_revision-SameMembers, next_revision-invitations, invalidate_elevation-SameMembers,
  invalidate_elevation-invitations, member_audit-SameMembers, member_audit-invitations,
  lock_authority-db, lock_authority-found,
}
use sama.Workspace.Invitations.{
  matches, is_live, has_identity, spend_invitation, insert_user, join_workspace, admit,
  redeem_invitation,
}

-- The user that an identity is registered as: the one that was there, or a new row.
abbrev pub Registered : ℕ → String → String → User → List User → List User → Type 0
Registered fresh issuer subject user a b =
    ((find (has_identity issuer subject) a ≢ none) × (b ≡ a))
    ⊎ ((find (has_identity issuer subject) a ≡ none)
        × (any (λ u. u.id == fresh) a ≡ false)
        × (user ≡ record { id = fresh; disabled = false; issuer = issuer; subject = subject })
        × (b ≡ user ∷ a))

-- What an admission does: the invitation is spent, and one user with its identity joins.
pub record IsAdmitted (i : Invitation) (issuer subject : String) (fresh now : ℕ) (a b : Db)
    : Type 0 where
  pub user : User
  pub stored : find (λ u. has_identity issuer subject u && not u.disabled) b.users ≡ some user
  pub registered : Registered fresh issuer subject user a.users b.users
  pub version : ℕ
  pub identity : has_identity issuer subject user ≡ true
  pub enabled : user.disabled ≡ false
  pub spent : b.invitations ≡ delete (is_live i.digest now) a.invitations
  pub was_no_member : any (is_member i.workspace user.id) a.memberships ≡ false
  pub joined :
      b.memberships
      ≡ record { workspace = i.workspace; user = user.id; role = i.role; version = version }
        ∷ a.memberships

spend_invitation-effect :
    (digest now : ℕ) (db : Db) {db' : Db}
    → spend_invitation digest now db ≡ ok (tt, db')
    → (db'.invitations ≡ delete (is_live digest now) db.invitations)
      × (db'.memberships ≡ db.memberships)
      × (db'.users ≡ db.users)
unfolding spend_invitation
spend_invitation-effect digest now db h = ground arith

insert_user-effect :
    (id : ℕ) (issuer subject : String) (db : Db) {db' : Db}
    → insert_user id issuer subject db ≡ ok (tt, db')
    → (db'.invitations ≡ db.invitations) × (db'.memberships ≡ db.memberships)
unfolding insert_user
insert_user-effect id issuer subject db h = ground arith

insert_user-Registered :
    (id : ℕ) (issuer subject : String) (db : Db) {db' : Db} {user : User}
    → insert_user id issuer subject db ≡ ok (tt, db')
    → find (λ u. has_identity issuer subject u && not u.disabled) db'.users ≡ some user
    → Registered id issuer subject user db.users db'.users
unfolding insert_user find
insert_user-Registered id issuer subject db h found =
    let known = any-find (has_identity issuer subject) db.users in
    elim (Option-cases (find (has_identity issuer subject) db.users)) [
      | inl e ↦ inr (
        e,
        ground (arith, known, e, h),
        ground (arith, known, e, h, found, (is_iff issuer issuer).1, (is_iff subject subject).1),
        ground (arith, known, e, h, found, (is_iff issuer issuer).1, (is_iff subject subject).1),
      )
      | inr (u, e) ↦ inl (ground (arith, e), ground (arith, known, e, h))
    ]

join_workspace-effect :
    (m : Membership) (db : Db) {db' : Db}
    → join_workspace m db ≡ ok (tt, db')
    → (any (is_member m.workspace m.user) db.memberships ≡ false)
      × (db'.memberships ≡ m ∷ db.memberships)
      × (db'.invitations ≡ db.invitations)
      × (db'.users ≡ db.users)
unfolding join_workspace
join_workspace-effect m db h = ground arith

Registered-between :
    {fresh : ℕ} {issuer subject : String} {user : User} {a a' b b' : List User}
    → a ≡ a'
    → b ≡ b'
    → Registered fresh issuer subject user a b
    → Registered fresh issuer subject user a' b'
Registered-between p q r = rw (sym p, sym q) r

module _ (ext : External) (env : Env) where
  admit-IsAdmitted :
      (i : Invitation) (issuer subject request : String) (db : Db) {db' : Db}
      → admit ext env i issuer subject request db ≡ ok (tt, db')
      → IsAdmitted i issuer subject env.new_user env.now db db'
  unfolding admit
  admit-IsAdmitted i issuer subject request db {db' = db'} h =
      let (_, db₁, p₁, h₁) = bind-ok (spend_invitation i.digest env.now) _ db h in
      let (_, h₂) = guard-ok env.random_ok Error.store _ db₁ h₁ in
      let (_, db₂, p₂, h₃) = bind-ok (insert_user env.new_user issuer subject) _ db₁ h₂ in
      let (user, db₃, p₃, h₄) =
        bind-ok
          (row Error.denied (find (λ u. has_identity issuer subject u && not u.disabled) db₂.users))
          _ db₂ h₃ in
      let (v, db₄, p₄, h₅) = bind-ok (next_revision i.workspace) _ db₃ h₄ in
      let m : Membership = record {
        workspace = i.workspace;
        user = user.id;
        role = i.role;
        version = v;
      } in
      let (_, db₅, p₅, h₆) = bind-ok (join_workspace m) _ db₄ h₅ in
      let s₁ = spend_invitation-effect i.digest env.now db p₁ in
      let e₂ = insert_user-effect env.new_user issuer subject db₁ p₂ in
      let found : (find (λ u. has_identity issuer subject u && not u.disabled) db₂.users
            ≡ some user)
          × (db₃ ≡ db₂) =
        row-ok Error.denied _ db₂ p₃ in
      let e₃ : db₃.memberships ≡ db₂.memberships = ap (λ (d : Db). d.memberships) found.1 in
      let f₃ : db₃.invitations ≡ db₂.invitations = ap (λ (d : Db). d.invitations) found.1 in
      let e₄ = next_revision-SameMembers i.workspace db₃ p₄ in
      let v₄ = next_revision-invitations i.workspace db₃ p₄ in
      let (new, s₅, v₅, u₅) = join_workspace-effect m db₄ p₅ in
      let db₆ = invalidate_elevation user.id Role.empty i.role db₅ in
      let e₆ = invalidate_elevation-SameMembers user.id Role.empty i.role db₅ in
      let v₆ = invalidate_elevation-invitations user.id Role.empty i.role db₅ in
      let e₇ =
        member_audit-SameMembers ext env i.inviter i.workspace user.id i.role request db₆ h₆ in
      let v₇ =
        member_audit-invitations ext env i.inviter i.workspace user.id i.role request db₆ h₆ in
      let users : db'.users ≡ db₂.users =
        e₇.users ∙ e₆.users ∙ u₅ ∙ e₄.users ∙ ap (λ (d : Db). d.users) found.1 in
      let holds =
        find-holds (λ u. has_identity issuer subject u && not u.disabled) db₂.users found.0 in
      record {
        user = user;
        stored = rw users found.0;
        registered =
            Registered-between s₁.2 (sym users)
              (insert_user-Registered env.new_user issuer subject db₁ p₂ found.0);
        version = v;
        identity = ground (arith, holds);
        enabled = ground (arith, holds);
        spent = ground (arith, v₇, v₆, v₅, v₄, f₃, e₂.0, s₁.0);
        was_no_member = ground (arith, new, e₄.memberships, e₃, e₂.1, s₁.1);
        joined = ground (arith, e₇.memberships, e₆.memberships, s₅, e₄.memberships, e₃, e₂.1, s₁.1);
      }

-- The invitation and the inviter behind an admission.
pub record IsInvited (digest : ℕ) (issuer subject : String) (now : ℕ) (db : Db) : Type 0 where
  pub invitation : Invitation
  pub inviter : Membership
  pub found : find (matches digest issuer subject now) db.invitations ≡ some invitation
  pub inviter_found : active_membership invitation.workspace invitation.inviter db ≡ some inviter
  pub unchanged : inviter.version ≡ invitation.inviter_version
  pub assigns : can_assign inviter.role invitation.role ≡ true

module _ (ext : External) (env : Env) (digest : ℕ) (issuer subject request : String) where
  -- A redemption that succeeds found an invitation for exactly this proof, issuer and subject that
  -- has not expired; its inviter is an active member whose version is still the one of the
  -- invitation and who may assign the role; the invitation is deleted. The users table then has a
  -- row with that identity that is not disabled: the identity was known and no user changes, or it
  -- was unknown and this row, with the new id, is added. That user was no member of the workspace,
  -- and gets one membership, with the role of the invitation.
  pub redeem_invitation-IsAdmitted :
      (db : Db) {db' : Db}
      → redeem_invitation ext env digest issuer subject request db ≡ ok (tt, db')
      → (r : IsInvited digest issuer subject env.now db) × IsAdmitted r.invitation issuer subject
          env.new_user env.now db db'
  unfolding redeem_invitation
  redeem_invitation-IsAdmitted db {db'} h =
      let (i, db₁, p₁, h₁) =
        bind-ok (row Error.denied (find (matches digest issuer subject env.now) db.invitations)) _
          db h in
      let (found, e₁) =
        row-ok Error.denied (find (matches digest issuer subject env.now) db.invitations) db p₁ in
      let (caller, db₂, p₂, h₂) = bind-ok (lock_authority i.inviter i.workspace) _ db₁ h₁ in
      let (test, h₃) =
        guard-ok (caller.version == i.inviter_version && can_assign caller.role i.role) Error.denied
          _ db₂ h₂ in
      let e₂ : db₂ ≡ db = lock_authority-db i.inviter i.workspace db₁ p₂ ∙ e₁ in
      let authority = lock_authority-found i.inviter i.workspace db₁ p₂ in
      (
        record {
          invitation = i;
          inviter = caller;
          found = found;
          inviter_found = rw (sym e₁) authority.0;
          unchanged = ground (arith, test);
          assigns = ground (arith, test);
        },
        admit-IsAdmitted ext env i issuer subject request db (rw (sym e₂) h₃),
      )

  -- A proof admits once: after a redemption that succeeds, every later one with the same proof is
  -- refused as ErrDenied, whoever presents it.
  pub redeem_invitation-once :
      (later : Env) (issuer' subject' request' : String) (db : Db) {db' : Db}
      → env.now ≤ later.now
      → redeem_invitation ext env digest issuer subject request db ≡ ok (tt, db')
      → redeem_invitation ext later digest issuer' subject' request' db' ≡ err Error.denied
  unfolding redeem_invitation
  redeem_invitation-once later issuer' subject' request' db {db'} le h =
      let (r, a) = redeem_invitation-IsAdmitted db h in
      let same = find-holds (matches digest issuer subject env.now) db.invitations r.found in
      let gone : find (matches digest issuer' subject' later.now) db'.invitations ≡ none =
        rw a.spent (
          find-delete-none (is_live r.invitation.digest env.now)
            (matches digest issuer' subject' later.now) db.invitations
            (λ x m. ground (arith, same, m, le))) in
      rw gone refl
