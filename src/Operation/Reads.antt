-- ===== src/Operation/Reads.antt =====
-- What the writes of Confirm in backend/internal/operation/accept.go leave alone: the tables that decide
-- what a member may read.

use sama.Prelude.{
  ℕ, ◌+◌, ◌*◌, ◌&&◌, none, [], ◌∷◌, String, ◌==◌, ok, ◌≡◌, refl, ap, ◌∙◌, arith, inl, inr, bind-ok,
  Option-cases, find,
}
use sama.Database.{Db, Env, queued, minute}
use sama.External.{External}
use sama.Audit.{append_audit}
use sama.Identity.Recent.{Principal}
use sama.Operation.Records.{take_lock, reserve, Target, append_event, operation_of}
use sama.Operation.Access.{Service, Stored, Authority}
use sama.Operation.Accept.{
  Accepted, insert_operation, insert_job, new_operation, accept_audit, accepted_target,
  consume_review, write_operation,
}

-- The tables that decide what a member may read, and the operations.
pub record SameReads (a b : Db) : Type 0 where
  pub workspaces : b.workspaces ≡ a.workspaces
  pub users : b.users ≡ a.users
  pub memberships : b.memberships ≡ a.memberships
  pub grants : b.grants ≡ a.grants
  pub operations : b.operations ≡ a.operations

SameReads-trans : {a b c : Db} → SameReads a b → SameReads b c → SameReads a c
SameReads-trans p q = record {
  workspaces = q.workspaces ∙ p.workspaces;
  users = q.users ∙ p.users;
  memberships = q.memberships ∙ p.memberships;
  grants = q.grants ∙ p.grants;
  operations = q.operations ∙ p.operations;
}

SameReads-of : {a b : Db} → b ≡ a → SameReads a b
SameReads-of e = record {
  workspaces = ap (λ (d : Db). d.workspaces) e;
  users = ap (λ (d : Db). d.users) e;
  memberships = ap (λ (d : Db). d.memberships) e;
  grants = ap (λ (d : Db). d.grants) e;
  operations = ap (λ (d : Db). d.operations) e;
}

take_lock-SameReads :
    (w c i : ℕ) (t : Target) (kind : String) (db : Db) {f : ℕ} {db' : Db}
    → take_lock w c i t kind db ≡ ok (f, db')
    → SameReads db db'
unfolding take_lock
take_lock-SameReads w c i t kind db h = record {
  workspaces = ground arith;
  users = ground arith;
  memberships = ground arith;
  grants = ground arith;
  operations = ground arith;
}

reserve-SameReads :
    (w c i : ℕ) (t : Target) (db : Db) {f : ℕ} {db' : Db}
    → reserve w c i (t ∷ []) db ≡ ok (f, db')
    → SameReads db db'
unfolding reserve
reserve-SameReads w c i t db {f} {db'} h = elim (Option-cases (operation_of w i db)) [
  | inl e ↦ absurd (ground arith)
  | inr o ↦
      elim (Option-cases
        (find (λ r. r.workspace == w && r.connection == c && r.id == o.0.target) db.resources)) [
          | inl e ↦ absurd (ground arith)
          | inr r ↦ take_lock-SameReads w c i t r.0.kind db {f = f} (ground arith)
        ]
]

module _ (ext : External) (svc : Service) (env : Env) where
  insert_job-SameReads :
      (scope connection operation deadline : ℕ) (db : Db) {u : Unit} {db' : Db}
      → insert_job ext svc env scope connection operation deadline db ≡ ok (u, db')
      → SameReads db db'
  unfolding insert_job
  insert_job-SameReads scope connection operation deadline db h = record {
    workspaces = ground arith;
    users = ground arith;
    memberships = ground arith;
    grants = ground arith;
    operations = ground arith;
  }

  append_event-SameReads :
      (w i : ℕ) (db : Db) {u : Unit} {db' : Db}
      → append_event env w i 1 none queued db ≡ ok (u, db')
      → SameReads db db'
  unfolding append_event
  append_event-SameReads w i db h = record {
    workspaces = ground arith;
    users = ground arith;
    memberships = ground arith;
    grants = ground arith;
    operations = ground arith;
  }

  accept_audit-SameReads :
      (p : Principal) (scope target : ℕ) (request : String) (db : Db) {u : Unit} {db' : Db}
      → accept_audit ext svc env p scope target request db ≡ ok (u, db')
      → SameReads db db'
  unfolding accept_audit append_audit
  accept_audit-SameReads p scope target request db h = record {
    workspaces = ground arith;
    users = ground arith;
    memberships = ground arith;
    grants = ground arith;
    operations = ground arith;
  }

  pub write_operation-SameReads :
      (p : Principal) (scope : ℕ) (key : String) (hash : ℕ) (r : Stored) (current : Authority)
      (request : String) (db : Db) {a : Accepted} {db' : Db}
      → write_operation ext svc env p scope key hash r current request db ≡ ok (a, db')
      → (a ≡ record { id = env.new_operation; state = queued })
        × SameReads
            (record db {
              operations = new_operation ext svc env p scope key r hash ∷ db.operations;
            })
            db'
  unfolding write_operation
  write_operation-SameReads p scope key hash r current request db {a} {db'} h =
      let o = new_operation ext svc env p scope key r hash in
      let i = env.new_operation in
      let target : Target = accepted_target ext svc env current in
      let (_, db₁, p₁, h₁) = bind-ok (insert_operation o) _ db h in
      let (f, db₂, p₂, h₂) = bind-ok (reserve scope r.row.connection i (target ∷ [])) _ db₁ h₁ in
      let (_, db₃, p₃, h₃) =
        bind-ok (insert_job ext svc env scope r.row.connection i (env.now + 30 * minute)) _ db₂
          h₂ in
      let db₄ = consume_review ext svc env r.row.id db₃ in
      let (_, db₅, p₅, h₅) = bind-ok (append_event env scope i 1 none queued) _ db₄ h₃ in
      let (_, db₆, p₆, h₆) =
        bind-ok (accept_audit ext svc env p scope r.row.target request) _ db₅ h₅ in
      let last : db' ≡ db₆ = ground arith in
      let first : db₁ ≡ record db { operations = o ∷ db.operations } =
        unfold insert_operation in ground arith in
      (
        ground arith,
        SameReads-trans (SameReads-of first) (
            SameReads-trans (reserve-SameReads scope r.row.connection i target db₁ p₂) (
              SameReads-trans
                (insert_job-SameReads scope r.row.connection i (env.now + 30 * minute) db₂ p₃)
                (SameReads-trans
                  (record {
                    workspaces = refl;
                    users = refl;
                    memberships = refl;
                    grants = refl;
                    operations = refl;
                  })
                  (SameReads-trans (append_event-SameReads scope i db₄ p₅) (
                    SameReads-trans (accept_audit-SameReads p scope r.row.target request db₅ p₆)
                      (SameReads-of last)))))),
      )
