-- ===== src/Operation/Fresh.antt =====
-- The transactions of Confirm in backend/internal/operation/accept.go keep the tables consistent.
use sama.Prelude.{
  ℕ, ◌&&◌, ◌||◌, not, Option, none, some, String, ◌==◌, ◌is◌, is_some, Result, ok, err, ◌≡◌, arith,
}
use sama.Database.{Db, Env, open_workspace}
use sama.External.{External}
use sama.Identity.Recent.{Principal}
use sama.Operation.Errors.{Error, OpTx, in_tx, pass, store, stale, unsupported, invalid, not_found}
use sama.Operation.Access.{Service, Stored, Authority, load, authority, check}
use sama.Operation.Review.{Preconditions, inspect}
use sama.Operation.Intent.{valid_key, digest}
use sama.Operation.Accept.{
  admit, Accepted, Confirmation, confirm, confirm_body, confirm_inspected, resolve, confirm_fresh,
  is_same_bool,
}
use sama.Operation.Soundness.{
  Sound, Untouched-Sound, Keeps, Keeps-unless, Keeps-result, Keeps-option, Keeps-unless_error,
  Keeps-if_raise, Keeps-bind, Keeps-guard, Leaves, Leaves-Keeps, Keeps-in_tx,
}
use sama.Operation.Admission.{write_operation-Keeps}

module _ (ext : External) (svc : Service) (env : Env) where
  admit-Keeps :
      (p : Principal) (scope : ℕ) (key : String) (hash : ℕ) (r : Stored) (current : Authority)
      (request : String)
      → Keeps (admit ext svc env p scope key hash r current request)
  unfolding admit
  admit-Keeps p scope key hash r current request = record {
    at = λ db db' x h.
        (write_operation-Keeps ext svc env p scope key hash r current request).at db db' x
          (ground arith);
  }

  Leaves-load : (actor scope id : ℕ) → Leaves (load ext actor scope id)
  unfolding load
  Leaves-load actor scope id = record { at = λ db db' p h. ground arith }

  pub Leaves-authority : (actor scope target : ℕ) → Leaves (authority ext svc actor scope target)
  unfolding authority
  Leaves-authority actor scope target = record { at = λ db db' a h. ground arith }

  Leaves-pass : (e : Option Error) → Leaves (pass e)
  Leaves-pass none = record { at = λ db db' a h. ground arith }
  Leaves-pass (some e) = record { at = λ db db' a h. absurd (ground arith) }

  confirm_fresh-Keeps :
      (p : Principal) (scope : ℕ) (key : String) (c : Confirmation) (request : String) (hash : ℕ)
      (pre : Preconditions)
      → Keeps (confirm_fresh ext svc env p scope key c request hash pre)
  unfolding confirm_fresh
  confirm_fresh-Keeps p scope key c request hash pre =
      Keeps-bind _ _ (Leaves-Keeps (Leaves-load p.user scope c.review)) λ r.
        Keeps-bind _ _ (Leaves-Keeps (Leaves-authority p.user scope r.row.target)) λ current.
          Keeps-bind _ _ (Leaves-Keeps (Leaves-pass (check svc env p current r c.typed))) λ u.
            Keeps-bind _ _
              (Keeps-guard (hash == r.row.hash && pre.fingerprint == r.row.preconditions) stale)
              λ t. admit-Keeps p scope key hash r current request

  -- What Resolve answers, `x`, decides whether anything is written.
  resolved-Sound :
      (x : Result Error (Option Accepted)) (m : OpTx Accepted) (db db' : Db) (a : Accepted)
      → Keeps m
      → (elim x [ err e ↦ err e | ok (some found) ↦ ok (found, db) | ok none ↦ m db ]) ≡ ok (a, db')
      → Sound db db'
  resolved-Sound (err e) m db db' a k h = absurd (ground arith)
  resolved-Sound (ok (some found)) m db db' a k h = Untouched-Sound (ground arith)
  resolved-Sound (ok none) m db db' a k h = k.at db db' a h

  confirm_body-Keeps :
      (p : Principal) (scope : ℕ) (key : String) (c : Confirmation) (request : String) (hash : ℕ)
      (pre : Preconditions)
      → Keeps (confirm_body ext svc env p scope key c request hash pre)
  unfolding confirm_body
  confirm_body-Keeps p scope key c request hash pre = record {
    at = λ db db' a h.
        resolved-Sound (resolve scope p.user key hash db)
          (confirm_fresh ext svc env p scope key c request hash pre) db db' a
          (confirm_fresh-Keeps p scope key c request hash pre) (ground arith);
  }

  confirm_inspected-Keeps :
      (p : Principal) (scope : ℕ) (key : String) (c : Confirmation) (request : String) (before : Db)
      (answer : Option Preconditions) (hash : ℕ) (r : Stored)
      → Keeps (confirm_inspected ext svc env p scope key c request before answer hash r)
  unfolding confirm_inspected
  confirm_inspected-Keeps p scope key c request before answer hash r =
      Keeps-result (authority ext svc p.user scope r.row.target before) _ λ a.
        Keeps-unless_error (check svc env p a.0 r c.typed) _ (
          Keeps-result (inspect ext svc a.0 r.intent.action answer) _ λ pre.
            Keeps-if_raise
              (pre.fingerprint == r.row.preconditions
                && is_same_bool pre.high r.row.high
                && (pre.name is r.row.name))
              stale (in_tx env (confirm_body ext svc env p scope key c request hash pre))
              (Keeps-in_tx env _ (confirm_body-Keeps p scope key c request hash pre)))

  -- A confirmation of a reviewed action, whatever the database was when it began.
  pub confirm-Keeps :
      (p : Principal) (scope : ℕ) (key : String) (c : Confirmation) (request : String) (before : Db)
      (answer : Option Preconditions)
      → Keeps (confirm ext svc env p scope key c request before answer)
  unfolding confirm
  confirm-Keeps p scope key c request before answer = Keeps-unless (not svc.ready) unsupported _ (
      Keeps-unless (not (valid_key key) || not (ext.uuid_version c.review == 7) || not c.confirmed)
        invalid _
        (Keeps-unless (not env.begin_ok) store _ (
          Keeps-unless (not (is_some (open_workspace scope before))) not_found _ (
            Keeps-result (load ext p.user scope c.review before) _ λ l.
              Keeps-option
                (digest ext l.0.intent scope p.user l.0.row.connection l.0.row.target c.review)
                stale _
                λ hash. Keeps-unless (not (hash == l.0.row.hash)) stale _ (record {
                  at = λ db db' a h.
                      resolved-Sound (resolve scope p.user key hash before)
                        (confirm_inspected ext svc env p scope key c request before answer hash l.0)
                        db db' a
                        (confirm_inspected-Keeps p scope key c request before answer hash l.0) h;
                })))))
