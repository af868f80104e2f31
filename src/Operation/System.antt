-- ===== src/Operation/System.antt =====
-- The installation as a sequence of committed transactions: every handler of
-- backend/internal/operation, with any arguments, clock and answers, and between them any change by
-- other packages, which do not write operations, their events or their reservations. Beside the
-- database stands the list of the operations whose submission followed a marker transaction of Work.
use sama.Prelude.{
  ℕ, ◌+◌, Bool, true, ◌&&◌, Option, List, [], ◌∷◌, String, ◌==◌, if◌then◌else◌, Result, ok, ◌≡◌,
}
use sama.Database.{Db, Env, State}
use sama.External.{External, Intent}
use sama.Identity.Recent.{Principal}
use sama.Operation.Errors.{Error}
use sama.Operation.Records.{Lease}
use sama.Operation.Invariant.{IsConsistent}
use sama.Operation.Access.{Service, Plan}
use sama.Operation.Receipt.{Receipt}
use sama.Operation.Review.{Preconditions, prepare}
use sama.Operation.Accept.{Accepted, Confirmation, confirm}
use sama.Operation.Control.{cancel, recheck, release_unknown}
use sama.Operation.Dispatch.{mark, receive, reject_unsent, observe_body, is_submitted}
use sama.Operation.Expiry.{expire_one, set_recovery}
use sama.Operation.Soundness.{Sound, Untouched, Untouched-Sound}
use sama.Operation.Handlers.{mark-Keeps, receive-Keeps, reject_unsent-Keeps, observe_body-Keeps}
use sama.Operation.Controls.{cancel-Keeps, recheck-Keeps, release_unknown-Keeps}
use sama.Operation.Fresh.{confirm-Keeps}
use sama.Operation.Upkeep.{expire_one-Keeps, set_recovery-Keeps, prepare-Keeps}

pub record System : Type 0 where
  pub db : Db
  pub sent : List (ℕ × ℕ)

-- How often the operation `i` of the workspace `w` was handed to the provider.
unfoldable pub submissions : ℕ → ℕ → List (ℕ × ℕ) → ℕ
submissions w i [] = 0
submissions w i (x ∷ xs) =
    let rest = submissions w i xs in if x.0 == w && x.1 == i then rest + 1 else rest

module _ (ext : External) (svc : Service) where
  pub data Step (s : System) : System → Type 0 where
    outside : (db' : Db) → Untouched s.db db' → Step s (record s { db = db' })
    prepares :
        (env : Env) (p : Principal) (scope target : ℕ) (i : Intent) (before : Db)
        (answer : Option Preconditions) {r : _} (db' : Db)
        → prepare ext svc env p scope target i before answer s.db ≡ ok (r, db')
        → Step s (record s { db = db' })
    confirms :
        (env : Env) (p : Principal) (scope : ℕ) (key : String) (c : Confirmation) (request : String)
        (before : Db) (answer : Option Preconditions) {a : Accepted} (db' : Db)
        → confirm ext svc env p scope key c request before answer s.db ≡ ok (a, db')
        → Step s (record s { db = db' })
    -- The marker transaction; Work calls the adapter when it has committed.
    submits :
        (env : Env) (l : Lease) (pre : Preconditions) (p : Plan) (db' : Db)
        → mark ext svc env l pre s.db ≡ ok (p, db')
        → Step s (record { db = db'; sent = (l.workspace, p.id) ∷ s.sent })
    receives :
        (env : Env) (l : Lease) (r : Receipt) (submitted : Bool) {u : Unit} (db' : Db)
        → receive ext svc env l r submitted s.db ≡ ok (u, db')
        → Step s (record s { db = db' })
    rejects :
        (env : Env) (l : Lease) (cause : Error) {u : Unit} (db' : Db)
        → reject_unsent ext svc env l cause s.db ≡ ok (u, db')
        → Step s (record s { db = db' })
    observes :
        (env : Env) (l : Lease) (from : State) (target : ℕ) (to : State)
        (refresh : Db → Result Error Db) (delay : ℕ) {u : Unit} (db' : Db)
        → is_submitted from ≡ true
        → ((a b : Db) → refresh a ≡ ok b → Untouched a b)
        → observe_body ext svc env l from target to refresh delay s.db ≡ ok (u, db')
        → Step s (record s { db = db' })
    cancels :
        (env : Env) (p : Principal) (scope id : ℕ) (request : String) {u : _} (db' : Db)
        → cancel ext svc env p scope id request s.db ≡ ok (u, db')
        → Step s (record s { db = db' })
    rechecks :
        (env : Env) (p : Principal) (scope id : ℕ) (request : String) {u : _} (db' : Db)
        → recheck ext svc env p scope id request s.db ≡ ok (u, db')
        → Step s (record s { db = db' })
    releases :
        (env : Env) (p : Principal) (scope id : ℕ) (acknowledged : Bool) (typed request : String)
        {u : _} (db' : Db)
        → release_unknown ext svc env p scope id acknowledged typed request s.db ≡ ok (u, db')
        → Step s (record s { db = db' })
    expires :
        (env : Env) (job : ℕ) {u : Unit} (db' : Db)
        → expire_one ext env job s.db ≡ ok (u, db')
        → Step s (record s { db = db' })
    gates :
        (env : Env) (open_it : Bool) (version : ℕ) {u : Unit} (db' : Db)
        → set_recovery env open_it version s.db ≡ ok (u, db')
        → Step s (record s { db = db' })

  pub data Steps (s : System) : System → Type 0 where
    start : Steps s s
    andthen : {t u : System} → Steps s t → Step t u → Steps s u

  pub Step-Sound : {s t : System} → Step s t → Sound s.db t.db
  Step-Sound (outside d u) = Untouched-Sound u
  Step-Sound {s} (prepares env p scope target i before answer {r} d h) =
      (prepare-Keeps ext svc env p scope target i before answer).at s.db d r h
  Step-Sound {s} (confirms env p scope key c request before answer {a} d h) =
      (confirm-Keeps ext svc env p scope key c request before answer).at s.db d a h
  Step-Sound {s} (submits env l pre p d h) = (mark-Keeps ext svc env l pre).at s.db d p h
  Step-Sound {s} (receives env l r submitted {u} d h) =
      (receive-Keeps ext svc env l r submitted).at s.db d u h
  Step-Sound {s} (rejects env l cause {u} d h) =
      (reject_unsent-Keeps ext svc env l cause).at s.db d u h
  Step-Sound {s} (observes env l from target to refresh delay {u} d submitted quiet h) =
      (observe_body-Keeps ext svc env l from target to refresh delay submitted quiet).at s.db d u h
  Step-Sound {s} (cancels env p scope id request {u} d h) =
      (cancel-Keeps ext svc env p scope id request).at s.db d u h
  Step-Sound {s} (rechecks env p scope id request {u} d h) =
      (recheck-Keeps ext svc env p scope id request).at s.db d u h
  Step-Sound {s} (releases env p scope id acknowledged typed request {u} d h) =
      (release_unknown-Keeps ext svc env p scope id acknowledged typed request).at s.db d u h
  Step-Sound {s} (expires env job {u} d h) = (expire_one-Keeps ext env job).at s.db d u h
  Step-Sound {s} (gates env open_it version {u} d h) =
      (set_recovery-Keeps ext env open_it version).at s.db d u h

  -- In every system reached from one with consistent tables, whatever the handlers were given and
  -- in whatever order they ran: an operation that is queued, dispatching, waiting or reconciling
  -- holds a reservation, no terminal operation holds one, and the events of each operation lead from
  -- `queued` to its state along allowed transitions, numbered without a gap.
  pub Steps-IsConsistent : {s t : System} → IsConsistent s.db → Steps s t → IsConsistent t.db
  Steps-IsConsistent c start = c
  Steps-IsConsistent c (andthen before step) =
      (Step-Sound step).consistent (Steps-IsConsistent c before)
