-- ===== src/Operation/Finality.antt =====
-- A finished operation stays finished: every handler of backend/internal/operation in any order.

use sama.Prelude.{ℕ, ◌≡◌, true, some, arith}
use sama.Database.{Db, State}
use sama.External.{External}
use sama.Operation.Access.{Service}
use sama.Operation.Machine.{is_terminal, is_state_iff}
use sama.Operation.Records.{operation_of}
use sama.Operation.Soundness.{stands}
use sama.Operation.Submission.{state_of}
use sama.Operation.System.{System, Steps, start, andthen, Step-Sound}

stands-state_of :
    (w i : ℕ) (s : State) (db : Db)
    → stands s (operation_of w i db) ≡ true
    → state_of w i db ≡ some s
stands-state_of w i s db h = ground arith

state_of-stands :
    (w i : ℕ) (s : State) (db : Db)
    → state_of w i db ≡ some s
    → stands s (operation_of w i db) ≡ true
state_of-stands w i s db h = ground (arith, (is_state_iff s s).1)

module _ (ext : External) (svc : Service) where
  Steps-stands :
      {a b : System} (w i : ℕ) (s : State)
      → is_terminal s ≡ true
      → Steps ext svc a b
      → stands s (operation_of w i a.db) ≡ true
      → stands s (operation_of w i b.db) ≡ true
  Steps-stands w i s t start h = h
  Steps-stands w i s t (andthen before step) h =
      (Step-Sound ext svc step).ends w i s t (Steps-stands w i s t before h)

  -- Whatever the handlers are given and in whatever order they run: an operation that is succeeded,
  -- failed or cancelled keeps its row and that state forever.
  pub Steps-state_of :
      {a b : System} (w i : ℕ) (s : State)
      → is_terminal s ≡ true
      → Steps ext svc a b
      → state_of w i a.db ≡ some s
      → state_of w i b.db ≡ some s
  Steps-state_of {a} {b} w i s t steps h =
      stands-state_of w i s b.db (Steps-stands w i s t steps (state_of-stands w i s a.db h))
