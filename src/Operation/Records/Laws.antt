-- ===== src/Operation/Records/Laws.antt =====
-- What a successful statement on operations, events and reservations does.
use sama.Prelude.{
  ℕ, ◌+◌, true, false, ◌&&◌, Option, some, List, [], ◌∷◌, ◌≡◌, inl, inr, refl, arith, String, ◌==◌,
  if◌then◌else◌, ok, any, delete, lookup-update_at, Option-cases,
}
use mathlib.Core.Option
use sama.Database.{Db, Env, State, Operation, Event, Lock}
use sama.Operation.Machine.{allowed, is_terminal, is_state_iff}
use sama.Operation.Records.{
  operation_id, operation_of, is_lock_of, is_event_of, append_event, release_terminal, set_state,
  set_reference, advance,
}

abbrev pub moved : Env → State → Operation → Operation
moved env to o = record o {
  state = to;
  version = o.version + 1;
  sequence = o.sequence + 1;
  updated = env.clock;
}

pub operation_of-set_state :
    (env : Env) (id : ℕ) (to : State) (db : Db) (w j : ℕ)
    → operation_of w j (set_state env id to db)
      ≡ (if id == j then Option.map (moved env to) (operation_of w j db) else operation_of w j db)
unfolding operation_of set_state
operation_of-set_state env id to db w j =
    rw (lookup-update_at operation_id id j (moved env to) db.operations (λ o. refl)) (ground arith)

abbrev pub referenced : Option String → Operation → Operation
referenced reference o = record o { reference = reference }

pub operation_of-set_reference :
    (id : ℕ) (reference : Option String) (db : Db) (w j : ℕ)
    → operation_of w j (set_reference id reference db) ≡ (
        if id == j
        then Option.map (referenced reference) (operation_of w j db)
        else operation_of w j db)
unfolding operation_of set_reference
operation_of-set_reference id reference db w j =
    rw (lookup-update_at operation_id id j (referenced reference) db.operations (λ o. refl))
      (ground arith)

pub locked-delete :
    (w i u j : ℕ) (locks : List Lock)
    → any (is_lock_of u j) (delete (is_lock_of w i) locks)
      ≡ (if (w == u) && i == j then false else any (is_lock_of u j) locks)
unfolding any delete
locked-delete w i u j [] = ground arith
locked-delete w i u j (l ∷ ls) = ground (arith, locked-delete w i u j ls)

abbrev pub events_of : ℕ → ℕ → List Event → List Event
events_of w i [] = []
events_of w i (e ∷ es) = let rest = events_of w i es in if is_event_of w i e then e ∷ rest else rest

-- The tables after an operation of state `from` went to `to`.
pub record Advanced (env : Env) (w i : ℕ) (from to : State) (o : Operation) (db db' : Db)
    : Type 0 where
  pub found : operation_of w i db ≡ some o
  pub at_from : o.state ≡ from
  pub is_allowed : allowed from to ≡ true
  pub operations : db'.operations ≡ (set_state env i to db).operations
  pub events :
      db'.events
      ≡ record {
        workspace = w;
        operation = i;
        sequence = o.sequence + 1;
        before = some from;
        after = to;
      }
        ∷ db.events
  pub locks : db'.locks ≡ (if is_terminal to then delete (is_lock_of w i) db.locks else db.locks)
  pub jobs : db'.jobs ≡ db.jobs
  pub resolutions : db'.resolutions ≡ db.resolutions
  pub gate : db'.gate ≡ db.gate
  pub reviews : db'.reviews ≡ db.reviews

advance_at :
    (env : Env) (w i : ℕ) (from to : State) (o : Operation) (db : Db) {db' : Db}
    → operation_of w i db ≡ some o
    → advance env w i from to db ≡ ok (tt, db')
    → Advanced env w i from to o db db'
unfolding advance append_event release_terminal
advance_at env w i from to o db {db'} e h = ground (arith, is_state_iff o.state from)

pub advance-ok :
    (env : Env) (w i : ℕ) (from to : State) (db : Db) {db' : Db}
    → advance env w i from to db ≡ ok (tt, db')
    → (o : Operation) × Advanced env w i from to o db db'
unfolding advance
advance-ok env w i from to db h = elim (Option-cases (operation_of w i db)) [
  | inl e ↦ absurd (ground arith)
  | inr found ↦ (found.0, advance_at env w i from to found.0 db found.1 h)
]
