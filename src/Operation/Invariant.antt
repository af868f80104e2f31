-- ===== src/Operation/Invariant.antt =====
-- What holds of operations, their events and their reservations between transactions.
use sama.Prelude.{
  ℕ, ◌+◌, ◌-◌, Bool, true, false, ◌&&◌, not, Option, none, some, List, [], ◌∷◌, ◌≡◌, inl, inr, refl,
  arith, ◌==◌, if◌then◌else◌, ok, Bool-cases, is_some,
}
use mathlib.Core.Option
use sama.Database.{
  Db, Env, State, queued, dispatching, waiting_provider, reconciling, unknown, Operation, Event,
}
use sama.Operation.Machine.{is_state_iff, allowed, is_state, is_terminal}
use sama.Operation.Records.{operation_of, locked, advance}
use sama.Operation.Records.Laws.{
  operation_of-set_state, locked-delete, events_of, Advanced, advance-ok, moved,
}

-- An operation in one of these states holds its reservation; `unknown` may have lost it to an
-- owner's decision.
abbrev pub is_reserved : State → Bool
is_reserved queued = true
is_reserved dispatching = true
is_reserved waiting_provider = true
is_reserved reconciling = true
is_reserved _ = false

abbrev pub needs_lock : Option Operation → Bool
needs_lock none = false
needs_lock (some o) = is_reserved o.state

abbrev pub is_live : Option Operation → Bool
is_live none = false
is_live (some o) = not (is_terminal o.state)

abbrev pub is_nil : List Event → Bool
is_nil [] = true
is_nil (e ∷ es) = false

-- The events of one operation, the newest first, lead from `queued` to its state along allowed
-- transitions and are numbered from 1 without a gap.
unfoldable pub is_history : List Event → State → ℕ → Bool
is_history [] s n = false
is_history (e ∷ es) s n = is_state e.after s && e.sequence == n && elim e.before [
  | none ↦ is_nil es && is_state s queued && n == 1
  | some b ↦ allowed b s && is_history es b (n - 1)
]

abbrev pub has_history : Option Operation → List Event → Bool
has_history none es = is_nil es
has_history (some o) es = is_history es o.state o.sequence

pub record IsConsistent (db : Db) : Type 0 where
  pub reserved : (w i : ℕ) → needs_lock (operation_of w i db) ≡ true → locked w i db ≡ true
  pub live : (w i : ℕ) → locked w i db ≡ true → is_live (operation_of w i db) ≡ true
  pub history : (w i : ℕ) → has_history (operation_of w i db) (events_of w i db.events) ≡ true

module _ (env : Env) (w i : ℕ) (from to : State) (o : Operation) (db db' : Db)
    (a : Advanced env w i from to o db db') where
  -- The operation that moved is in `to`; every other one is as it was.
  pub advanced-operation_of :
      (u j : ℕ)
      → operation_of u j db'
        ≡ (if i == j then Option.map (moved env to) (operation_of u j db) else operation_of u j db)
  unfolding operation_of
  advanced-operation_of u j =
      rw a.operations (unfold operation_of in operation_of-set_state env i to db u j)

  advanced-locked :
      (u j : ℕ)
      → locked u j db' ≡ (if is_terminal to && (w == u) && i == j then false else locked u j db)
  unfolding locked
  advanced-locked u j = rw a.locks (elim (Bool-cases (is_terminal to)) [
    | inl t ↦ rw t (locked-delete w i u j db.locks)
    | inr f ↦ rw f refl
  ])

  -- A found operation belongs to one workspace.
  same_workspace :
      (u j : ℕ) → (i == j) ≡ true → is_some (operation_of u j db) ≡ true → (w == u) ≡ true
  unfolding operation_of
  same_workspace u j e h = ground (arith, a.found)

  events_of-advanced :
      (u j : ℕ)
      → events_of u j db'.events ≡ (
          if (w == u) && i == j
          then record {
            workspace = w;
            operation = i;
            sequence = o.sequence + 1;
            before = some from;
            after = to;
          }
            ∷ events_of u j db.events
          else events_of u j db.events)
  events_of-advanced u j = rw a.events refl

  advanced-reserved :
      IsConsistent db
      → (is_state from unknown ≡ true → locked w i db ≡ true)
      → (u j : ℕ) → needs_lock (operation_of u j db') ≡ true
      → locked u j db' ≡ true
  unfolding allowed
  advanced-reserved c held u j h = ground (
    arith,
    advanced-locked u j,
    advanced-operation_of u j,
    c.reserved u j,
    c.reserved w i,
    a.found,
    a.at_from,
    a.is_allowed,
    same_workspace u j,
  )

  advanced-live :
      IsConsistent db → (u j : ℕ) → locked u j db' ≡ true → is_live (operation_of u j db') ≡ true
  advanced-live c u j h =
      ground (arith, advanced-locked u j, advanced-operation_of u j, c.live u j, same_workspace u j)

  advanced-history :
      IsConsistent db
      → (u j : ℕ) → has_history (operation_of u j db') (events_of u j db'.events) ≡ true
  unfolding is_history
  advanced-history c u j =
      rw (advanced-operation_of u j, events_of-advanced u j)
        (ground (
          arith,
          c.history u j,
          c.history w i,
          a.found,
          a.at_from,
          a.is_allowed,
          is_state_iff to to,
          same_workspace u j,
        ))

-- A transition that the code makes keeps operations, events and reservations consistent; out of
-- `unknown` it needs the reservation.
pub advance-IsConsistent :
    (env : Env) (w i : ℕ) (from to : State) (db : Db) {db' : Db}
    → IsConsistent db
    → (is_state from unknown ≡ true → locked w i db ≡ true)
    → advance env w i from to db ≡ ok (tt, db')
    → IsConsistent db'
advance-IsConsistent env w i from to db {db'} c held h =
    let (o, a) = advance-ok env w i from to db h in
    record {
      reserved = advanced-reserved env w i from to o db db' a c held;
      live = advanced-live env w i from to o db db' a c;
      history = advanced-history env w i from to o db db' a c;
    }
