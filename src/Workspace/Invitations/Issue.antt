-- ===== src/Workspace/Invitations/Issue.antt =====
-- What IssueInvitation of backend/internal/workspace/invitations.go stores.
use Prim.Native.String.{len}
use sama.Prelude.{
  ◌>>◌, pure, ℕ, ◌+◌, ◌*◌, ◌≤◌, ◌<◌, true, ◌&&◌, not, Option, some, List, ◌∷◌, String, ◌≡◌, refl,
  ap, ◌∙◌, sym, arith, ok, ◌==◌, bind-ok, guard-ok, row-ok, row, ltb, leb, find, count, delete,
  is_iff, pure-ok,
}
use sama.Database.{Db, Env, Role, viewer, Membership, Invitation, active_membership, hour}
use sama.External.{External, token_digest}
use sama.Audit.{append_audit}
use sama.Workspace.Role.{can_assign, allows}
use sama.Workspace.Errors.{Error, store, in_tx-ok, WsTx}
use sama.Workspace.Members.{lock_authority}
use sama.Workspace.Members.Effects.{lock_authority-found}
use sama.Workspace.Invitations.{
  matches, is_expired_in, stored_invitations, insert_invitation, invitation_audit, issue_body,
  issue_invitation,
}

-- What is stored for an invitation, by the digest of its proof.
pub record IsIssued (actor scope : ℕ) (issuer subject : String) (role : Role) (now digest : ℕ)
    (a b : Db) : Type 0 where
  pub inviter : Membership
  pub invitation : Invitation
  pub inviter_found : active_membership scope actor a ≡ some inviter
  pub assigns : can_assign inviter.role role ≡ true
  pub at_most_100 : stored_invitations scope b ≤ 100
  pub contents :
      (invitation.workspace ≡ scope)
      × (invitation.inviter ≡ actor)
      × (invitation.inviter_version ≡ inviter.version)
      × (invitation.role ≡ role)
  pub redeemable :
      (t : ℕ)
      → t < now + 24 * hour
      → find (matches digest issuer subject t) b.invitations ≡ some invitation

at_ends :
    {actor scope : ℕ} {issuer subject : String} {role : Role} {now digest : ℕ} {a a' b b' : Db}
    → a ≡ a'
    → b ≡ b'
    → IsIssued actor scope issuer subject role now digest a b
    → IsIssued actor scope issuer subject role now digest a' b'
at_ends p q i = rw (sym p, sym q) i

insert_invitation-effect :
    (i : Invitation) (db : Db) {db' : Db}
    → insert_invitation i db ≡ ok (tt, db')
    → db'.invitations ≡ i ∷ db.invitations
unfolding insert_invitation
insert_invitation-effect i db h = ground arith

invitation_audit-effect :
    (ext : External) (env : Env) (actor scope : ℕ) (role : Role) (request : String) (db : Db)
    {db' : Db}
    → invitation_audit ext env actor scope role request db ≡ ok (tt, db')
    → db'.invitations ≡ db.invitations
unfolding invitation_audit append_audit
invitation_audit-effect ext env actor scope role request db h = ground arith

module _ (ext : External) (env : Env) (actor scope : ℕ) (issuer subject : String) (role : Role)
    (request : String) where
  abbrev new_invitation : ℕ → ℕ → Invitation
  new_invitation version digest = record {
    digest = digest;
    workspace = scope;
    inviter = actor;
    inviter_version = version;
    issuer = issuer;
    subject = subject;
    role = role;
    expires = env.now + 24 * hour;
  }

  issue_body-IsIssued :
      (digest : Option ℕ) (db : Db) {db' : Db}
      → issue_body ext env actor scope issuer subject role request digest db ≡ ok (tt, db')
      → (d : ℕ) × (digest ≡ some d) × IsIssued actor scope issuer subject role env.now d db db'
  unfolding issue_body stored_invitations count find
  issue_body-IsIssued digest db {db'} h =
      let (caller, db₁, p₁, h₁) = bind-ok (lock_authority actor scope) _ db h in
      let (assigns, h₂) = guard-ok (can_assign caller.role role) Error.denied _ db₁ h₁ in
      let db₂ : Db = record db₁ {
        invitations = delete (is_expired_in scope env.now) db₁.invitations;
      } in
      let (few, h₃) = guard-ok (ltb (stored_invitations scope db₂) 100) Error.limit _ db₂ h₂ in
      let (d, db₃, p₃, h₄) = bind-ok (row store digest) _ db₂ h₃ in
      let (e₃, s₃) = row-ok store digest db₂ p₃ in
      let (_, db₄, p₄, h₅) =
        bind-ok (insert_invitation (new_invitation caller.version d)) _ db₃ h₄ in
      let v₄ = insert_invitation-effect (new_invitation caller.version d) db₃ p₄ in
      let v₅ = invitation_audit-effect ext env actor scope role request db₄ h₅ in
      let rows : db'.invitations ≡ new_invitation caller.version d ∷ db₂.invitations =
        v₅ ∙ v₄ ∙ ap (λ (x : Db). new_invitation caller.version d ∷ x.invitations) s₃ in
      (
        d,
        e₃,
        record {
          inviter = caller;
          invitation = new_invitation caller.version d;
          inviter_found = (lock_authority-found actor scope db p₁).0;
          assigns = assigns;
          at_most_100 = ground (arith, rows, few);
          contents = (refl, refl, refl, refl);
          redeemable = λ t lt.
              ground
                (arith, rows, lt, (is_iff issuer issuer).1 refl, (is_iff subject subject).1 refl);
        },
      )

  -- An invitation that was issued: its caller is an active member who may assign the role, the
  -- workspace has at most 100 invitations, and for 24 hours whoever has the proof, the issuer and
  -- the subject finds it, with the role, the inviter and the inviter's version.
  pub issue_invitation-IsIssued :
      (raw : Option (List ℕ)) (db : Db) {proof : String} {db' : Db}
      → issue_invitation ext env raw actor scope issuer subject role request db ≡ ok (proof, db')
      → (d : ℕ) × (token_digest ext proof ≡ some d)
        × IsIssued actor scope issuer subject role env.now d db db'
  unfolding issue_invitation
  issue_invitation-IsIssued raw db {proof} {db'} h =
      let (_, h₁) =
        guard-ok
          (not (len issuer == 0)
            && leb (len issuer) 2048
            && not (len subject == 0)
            && leb (len subject) 255
            && allows role viewer)
          Error.invalid _ db h in
      let (bytes, db₁, p₁, h₂) = bind-ok (row store raw) _ db h₁ in
      let (_, e₁) = row-ok store raw db p₁ in
      let body : WsTx String =
        issue_body ext env actor scope issuer subject role request
          (token_digest ext (ext.base64_encode bytes))
        >> pure (ext.base64_encode bytes) in
      let h₃ : body db₁ ≡ ok (proof, db') = in_tx-ok env body db₁ h₂ in
      let (_, db₂, p₂, h₄) =
        bind-ok
          (issue_body ext env actor scope issuer subject role request
            (token_digest ext (ext.base64_encode bytes)))
          _ db₁ h₃ in
      let (d, e, issued) =
        issue_body-IsIssued (token_digest ext (ext.base64_encode bytes)) db₁ p₂ in
      let (f, g) = pure-ok (ext.base64_encode bytes) proof db₂ db' h₄ in
      (d, ap (token_digest ext) (sym f) ∙ e, at_ends e₁ g issued)
