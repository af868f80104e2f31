-- ===== src/Operation/Replay.antt =====
-- A confirmation that is sent again: what Resolve of backend/internal/operation/idempotency.go finds after
-- Confirm accepted an operation.
use mathlib.Core.Option
use sama.Prelude.{
  ℕ, Bool, true, ◌&&◌, Option, none, some, List, ◌∷◌, String, ◌==◌, if◌then◌else◌, is_some, ok, err,
  ◌≡◌, refl, sym, ap, ◌∙◌, arith, inl, inr, bind-ok, guard-ok, Option-cases, find, is_iff, contains,
}
use sama.Database.{
  Db, Env, Operation, Workspace, Membership, Grant, open_workspace, active_membership, grant_of,
  is_active_user, connection_of, live_credential,
}
use sama.External.{External}
use sama.Identity.Recent.{Principal}
use sama.Operation.Errors.{pass, pass-ok, conflict, stale}
use sama.Operation.Access.{Service, Stored, Authority, load, authority, authority_row, check}
use sama.Operation.Review.{Preconditions}
use sama.Operation.Intent.{valid_key}
use sama.Operation.Accept.{
  Accepted, Confirmation, admit, new_operation, write_operation, confirm_fresh, resolve, has_key,
  reads,
}
use sama.Operation.Reads.{SameReads, write_operation-SameReads}

-- The condition of Resolve's SELECT.
abbrev readable : ℕ → ℕ → ℕ → Db → Bool
readable scope actor connection db =
    is_some (active_membership scope actor db)
    && is_some (open_workspace scope db)
    && reads (grant_of scope connection actor db)

readable-same :
    (scope actor connection : ℕ) {a b : Db}
    → SameReads a b
    → readable scope actor connection b ≡ readable scope actor connection a
unfolding active_membership open_workspace grant_of is_active_user
readable-same scope actor connection s = rw (s.workspaces, s.users, s.memberships, s.grants) refl

bind-some :
    {A B : Type 0} (x : Option A) (f : A → Option B) {b : B}
    → Option.bind x f ≡ some b
    → (a : A) × (x ≡ some a) × (f a ≡ some b)
unfolding Option.bind
bind-some none f h = absurd (ground arith)
bind-some (some a) f h = (a, refl, h)

readable-from :
    (w : Option Workspace) (m : Option Membership) (g : Option Grant) {x : Workspace}
    {y : Membership} {z : Grant}
    → w ≡ some x
    → m ≡ some y
    → g ≡ some z
    → contains z.actions "read" ≡ true
    → (is_some m && is_some w && reads g) ≡ true
readable-from w m g a b c d = ground arith

authority_row-readable :
    (actor scope target : ℕ) (db : Db) {a : Authority}
    → authority_row actor scope target db ≡ some a
    → readable scope actor a.connection db ≡ true
unfolding authority_row
authority_row-readable actor scope target db {a} h =
    let (w, is_open, h₁) = bind-some (open_workspace scope db) _ h in
    let (r, found, h₂) = bind-some _ _ h₁ in
    let (c, connected, h₃) = bind-some (connection_of scope r.connection db) _ h₂ in
    let (m, is_active, h₄) = bind-some (active_membership scope actor db) _ h₃ in
    let (g, granted, h₅) = bind-some (grant_of scope c.id actor db) _ h₄ in
    let (v, live, h₆) = bind-some (live_credential scope c.id c.credential db) _ h₅ in
    let id : a.connection ≡ c.id = ground arith in
    readable-from _ _ _ is_open is_active (ap (λ i. grant_of scope i actor db) id ∙ granted)
      (ground arith)

authority-readable :
    (ext : External) (svc : Service) (actor scope target : ℕ) (db : Db) {a : Authority} {db' : Db}
    → authority ext svc actor scope target db ≡ ok (a, db')
    → (readable scope actor a.connection db ≡ true) × (db' ≡ db)
unfolding authority
authority-readable ext svc actor scope target db {a} h =
    elim (Option-cases (authority_row actor scope target db)) [
      | inl e ↦ absurd (ground arith)
      | inr found ↦
          let same : a.connection ≡ found.0.connection = ground arith in
          (
            ap (λ i. readable scope actor i db) same
                ∙ authority_row-readable actor scope target db {a = found.0} found.1,
            ground arith,
          )
    ]

check-connection :
    (svc : Service) (env : Env) (p : Principal) (a : Authority) (r : Stored) (typed : String)
    → check svc env p a r typed ≡ none
    → r.row.connection ≡ a.connection
unfolding check
check-connection svc env p a r typed h = ground arith

resolve-head :
    (scope actor : ℕ) (key : String) (hash : ℕ) (o : Operation) (ops : List Operation) (db : Db)
    → db.operations ≡ o ∷ ops
    → has_key scope actor key o ≡ true
    → valid_key key ≡ true
    → readable scope actor o.connection db ≡ true
    → resolve scope actor key hash db
      ≡ (if o.hash == hash then ok (some (record { id = o.id; state = o.state })) else err conflict)
unfolding resolve find
resolve-head scope actor key hash o ops db e k v r = ground arith

module _ (ext : External) (svc : Service) (env : Env) where
  written-resolve :
      (p : Principal) (scope : ℕ) (key : String) (hash again : ℕ) (r : Stored) (current : Authority)
      (request : String) (db : Db) {a : Accepted} {db' : Db}
      → valid_key key ≡ true
      → readable scope p.user r.row.connection db ≡ true
      → write_operation ext svc env p scope key hash r current request db ≡ ok (a, db')
      → resolve scope p.user key again db' ≡ (if hash == again then ok (some a) else err conflict)
  unfolding new_operation active_membership open_workspace grant_of is_active_user
  written-resolve p scope key hash again r current request db {a} {db'} k readable_before h =
      let o = new_operation ext svc env p scope key r hash in
      let (answer, same) =
        write_operation-SameReads ext svc env p scope key hash r current request db h in
      resolve-head scope p.user key again o db.operations db' same.operations
        (ground (arith, is_iff key key)) k
        (readable-same scope p.user r.row.connection same ∙ readable_before)
      ∙ ap (λ x. if hash == again then ok (some x) else err conflict) (sym answer)

  -- The second transaction of Confirm, where it accepts an operation under an idempotency key that is
  -- well formed: afterwards the same member finds that operation, in its state, under the same key with the
  -- same hash, and gets a conflict with any other hash.
  pub confirm_fresh-resolve :
      (p : Principal) (scope : ℕ) (key : String) (c : Confirmation) (request : String)
      (hash again : ℕ) (pre : Preconditions) (db : Db) {a : Accepted} {db' : Db}
      → valid_key key ≡ true
      → confirm_fresh ext svc env p scope key c request hash pre db ≡ ok (a, db')
      → resolve scope p.user key again db' ≡ (if hash == again then ok (some a) else err conflict)
  unfolding confirm_fresh
  confirm_fresh-resolve p scope key c request hash again pre db {a} {db'} k h =
      let (r, db₁, p₁, h₁) = bind-ok (load ext p.user scope c.review) _ db h in
      let (current, db₂, p₂, h₂) = bind-ok (authority ext svc p.user scope r.row.target) _ db₁ h₁ in
      let (_, db₃, p₃, h₃) = bind-ok (pass (check svc env p current r c.typed)) _ db₂ h₂ in
      let (_, h₄) =
        guard-ok (hash == r.row.hash && pre.fingerprint == r.row.preconditions) stale _ db₃ h₃ in
      let written : write_operation ext svc env p scope key hash r current request db₃
          ≡ ok (a, db') =
        unfold admit in ground arith in
      let checked = pass-ok (check svc env p current r c.typed) db₂ p₃ in
      let (is_readable, same₂) = authority-readable ext svc p.user scope r.row.target db₁ p₂ in
      let connection = check-connection svc env p current r c.typed checked.0 in
      written-resolve p scope key hash again r current request db₃ k
        (ap (readable scope p.user r.row.connection) (checked.1 ∙ same₂)
          ∙ ap (λ i. readable scope p.user i db₁) connection
          ∙ is_readable)
        written
