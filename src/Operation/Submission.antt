-- ===== src/Operation/Submission.antt =====
-- Work of backend/internal/operation/dispatch.go hands an operation to the provider at most once, since
-- its marker transaction takes the operation out of `queued` for good.
use mathlib.Core.Option
use sama.Prelude.{
  ℕ, ◌≤◌, true, Option, some, ◌∷◌, ◌==◌, ok, ◌≡◌, ap, arith, bind-ok, guard-ok, sym, ◌∙◌,
}
use sama.Database.{Db, Env, State, queued, dispatching}
use sama.External.{External}
use sama.Operation.Machine.{allowed-dispatching}
use sama.Operation.Errors.{in_tx-inner, stale}
use sama.Operation.Records.{advance, operation_of, Lease}
use sama.Operation.Records.Laws.{advance-ok}
use sama.Operation.Invariant.{advanced-operation_of}
use sama.Operation.Access.{Service, Plan, dispatch_load, dispatch_check, load}
use sama.Operation.Review.{Preconditions}
use sama.Operation.Dispatch.{mark, mark_body, check_gate}
use sama.Operation.Soundness.{Sound, is_unsent}
use sama.Operation.System.{
  System, submissions, Step, Steps, start, andthen, Step-Sound, outside, prepares, confirms,
  submits, receives, rejects, observes, cancels, rechecks, releases, expires, gates,
}

abbrev pub state_of : ℕ → ℕ → Db → Option State
state_of w i db = Option.map (λ o. o.state) (operation_of w i db)

-- No operation was submitted twice, and an unsent one was never submitted.
pub record SentOnce (s : System) : Type 0 where
  pub at_most_once : (w i : ℕ) → submissions w i s.sent ≤ 1
  pub unsent : (w i : ℕ) → is_unsent (operation_of w i s.db) ≡ true → submissions w i s.sent ≡ 0

module _ (ext : External) (svc : Service) where
  dispatch_load-db :
      (env : Env) (l : Lease) (db : Db) {p : Plan} {db' : Db}
      → dispatch_load ext env l db ≡ ok (p, db')
      → db' ≡ db
  unfolding dispatch_load load
  dispatch_load-db env l db h = ground arith

  dispatch_check-db :
      (l : Lease) (p : Plan) (db : Db) {a : _} {db' : Db}
      → dispatch_check ext svc l p db ≡ ok (a, db')
      → db' ≡ db
  unfolding dispatch_check
  dispatch_check-db l p db h = ground arith

  check_gate-ok :
      (db : Db) {u : Unit} {db' : Db}
      → check_gate db ≡ ok (u, db')
      → (db.gate.is_open ≡ true) × (db' ≡ db)
  unfolding check_gate
  check_gate-ok db h = ground arith

  -- The transition of the marker starts in `queued`.
  dispatching-moves :
      (env : Env) (w i : ℕ) (from : State) (db db' : Db)
      → advance env w i from dispatching db ≡ ok (tt, db')
      → (state_of w i db ≡ some queued) × (state_of w i db' ≡ some dispatching)
  dispatching-moves env w i from db db' h =
      let (o, a) = advance-ok env w i from dispatching db h in
      let begins : from ≡ queued = allowed-dispatching from a.is_allowed in
      ground (
        arith,
        begins,
        a.found,
        a.at_from,
        advanced-operation_of env w i from dispatching o db db' a w i,
      )

  -- Where the marker transaction of Work commits, the installation gate was open and the operation of
  -- the returned plan was queued; after it the operation is dispatching.
  pub mark-dispatches :
      (env : Env) (l : Lease) (pre : Preconditions) (p : Plan) (db db' : Db)
      → mark ext svc env l pre db ≡ ok (p, db')
      → (db.gate.is_open ≡ true)
        × (state_of l.workspace p.id db ≡ some queued)
        × (state_of l.workspace p.id db' ≡ some dispatching)
  unfolding mark mark_body
  mark-dispatches env l pre p db db' h =
      let (p₀, db₁, q, k) = bind-ok (dispatch_load ext env l) _ db (in_tx-inner env _ db h) in
      let (a, db₂, q₂, k₂) = bind-ok (dispatch_check ext svc l p₀) _ db₁ k in
      let (_, db₃, q₃, k₃) = bind-ok check_gate _ db₂ k₂ in
      let (_, k₄) = guard-ok (pre.fingerprint == p₀.review.row.preconditions) stale _ db₃ k₃ in
      let (_, db₄, q₅, k₅) =
        bind-ok (advance env l.workspace p₀.id p₀.state dispatching) _ db₃ k₄ in
      let same₁ = dispatch_load-db env l db q in
      let same₂ = dispatch_check-db l p₀ db₁ q₂ in
      let (is_open, same₃) = check_gate-ok db₂ q₃ in
      let same : db₃ ≡ db = same₃ ∙ same₂ ∙ same₁ in
      let plan : p₀ ≡ p = ground arith in
      let moves = dispatching-moves env l.workspace p₀.id p₀.state db₃ db₄ q₅ in
      let last : db₄ ≡ db' = ground arith in
      (
        ap (λ (d : Db). d.gate.is_open) (sym (same₂ ∙ same₁)) ∙ is_open,
        ap (state_of l.workspace p.id) (sym same)
            ∙ ap (λ (x : Plan). state_of l.workspace x.id db₃) (sym plan)
            ∙ moves.0,
        ap (state_of l.workspace p.id) (sym last)
            ∙ ap (λ (x : Plan). state_of l.workspace x.id db₄) (sym plan)
            ∙ moves.1,
      )

  submits-SentOnce :
      (s : System) (w i : ℕ) (db' : Db)
      → SentOnce s
      → Sound s.db db'
      → state_of w i s.db ≡ some queued
      → state_of w i db' ≡ some dispatching
      → SentOnce (record { db = db'; sent = (w, i) ∷ s.sent })
  unfolding submissions
  submits-SentOnce s w i db' once sound before after = record {
    at_most_once = λ u j. ground (arith, once.at_most_once u j, once.unsent w i);
    unsent = λ u j h. ground (arith, once.unsent u j, sound.stays u j);
  }

  quiet-SentOnce :
      (s : System) (db' : Db) → SentOnce s → Sound s.db db' → SentOnce (record s { db = db' })
  quiet-SentOnce s db' once sound = record {
    at_most_once = once.at_most_once;
    unsent = λ u j h. once.unsent u j (sound.stays u j h);
  }

  Step-SentOnce : {s t : System} → SentOnce s → Step ext svc s t → SentOnce t
  Step-SentOnce {s} once (submits env l pre p d h) =
      let moves = mark-dispatches env l pre p s.db d h in
      submits-SentOnce s l.workspace p.id d once
        (Step-Sound ext svc {s = s} (submits env l pre p d h)) moves.1 moves.2
  Step-SentOnce {s} once (outside d u) =
      quiet-SentOnce s d once (Step-Sound ext svc {s = s} (outside d u))
  Step-SentOnce {s} once (prepares env p scope target i before answer d h) =
      quiet-SentOnce s d once
        (Step-Sound ext svc {s = s} (prepares env p scope target i before answer d h))
  Step-SentOnce {s} once (confirms env p scope key c request before answer d h) =
      quiet-SentOnce s d once
        (Step-Sound ext svc {s = s} (confirms env p scope key c request before answer d h))
  Step-SentOnce {s} once (receives env l r submitted d h) =
      quiet-SentOnce s d once (Step-Sound ext svc {s = s} (receives env l r submitted d h))
  Step-SentOnce {s} once (rejects env l cause d h) =
      quiet-SentOnce s d once (Step-Sound ext svc {s = s} (rejects env l cause d h))
  Step-SentOnce {s} once (observes env l from target to refresh delay d submitted quiet h) =
      quiet-SentOnce s d once (
        Step-Sound ext svc {s = s}
          (observes env l from target to refresh delay d submitted quiet h))
  Step-SentOnce {s} once (cancels env p scope id request d h) =
      quiet-SentOnce s d once (Step-Sound ext svc {s = s} (cancels env p scope id request d h))
  Step-SentOnce {s} once (rechecks env p scope id request d h) =
      quiet-SentOnce s d once (Step-Sound ext svc {s = s} (rechecks env p scope id request d h))
  Step-SentOnce {s} once (releases env p scope id acknowledged typed request d h) =
      quiet-SentOnce s d once
        (Step-Sound ext svc {s = s} (releases env p scope id acknowledged typed request d h))
  Step-SentOnce {s} once (expires env job d h) =
      quiet-SentOnce s d once (Step-Sound ext svc {s = s} (expires env job d h))
  Step-SentOnce {s} once (gates env open_it version d h) =
      quiet-SentOnce s d once (Step-Sound ext svc {s = s} (gates env open_it version d h))

  -- In every system reached from one in which no operation was submitted twice and none that is
  -- queued or missing was submitted, the same holds: whatever the handlers were given and in whatever
  -- order they ran, Work hands an operation to the provider at most once.
  pub Steps-SentOnce : {s t : System} → SentOnce s → Steps ext svc s t → SentOnce t
  Steps-SentOnce once start = once
  Steps-SentOnce once (andthen before step) = Step-SentOnce (Steps-SentOnce once before) step
