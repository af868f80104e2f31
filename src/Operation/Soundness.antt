-- ===== src/Operation/Soundness.antt =====
-- Transactions that keep operations, events and reservations consistent, that never make an operation
-- `queued` again and never move a finished one: one rule for each way to build a transaction.
use sama.Prelude.{
  ℕ, Bool, true, false, ◌&&◌, Option, none, some, String, if◌then◌else◌, Result, ok, err, pure,
  raise, gets, modify, guard, ◌>>=◌, ◌≡◌, refl, arith, bind-ok,
}
use sama.Database.{Db, Env, State, queued, reconciling, unknown, Operation}
use sama.External.{External}
use sama.Audit.{append_audit}
use sama.Operation.Machine.{
  allowed, is_state, is_state_iff, allowed-ne-queued, allowed-ne-terminal, is_terminal,
}
use sama.Operation.Errors.{Error, OpTx, in_tx}
use sama.Operation.Records.{
  set_reference, advance, operation_of, locked, finish_job, Lease, execution_audit,
}
use sama.Operation.Records.Laws.{Advanced, advance-ok, operation_of-set_reference}
use sama.Operation.Invariant.{IsConsistent, advance-IsConsistent, advanced-operation_of}
use sama.Database.{JobState}

-- No such operation, or one that was never submitted.
abbrev pub is_unsent : Option Operation → Bool
is_unsent none = true
is_unsent (some o) = is_state o.state queued

-- An operation that is in this state.
abbrev pub stands : State → Option Operation → Bool
stands s none = false
stands s (some o) = is_state o.state s

-- From `db` to `db'` consistency is kept, what was submitted stays submitted, and what is finished
-- stays as it finished.
pub record Sound (db db' : Db) : Type 0 where
  pub consistent : IsConsistent db → IsConsistent db'
  pub stays :
      (w i : ℕ) → is_unsent (operation_of w i db') ≡ true → is_unsent (operation_of w i db) ≡ true
  pub ends :
      (w i : ℕ) (s : State)
      → is_terminal s ≡ true
      → stands s (operation_of w i db) ≡ true
      → stands s (operation_of w i db') ≡ true

pub Sound-refl : (db : Db) → Sound db db
Sound-refl db = record { consistent = λ c. c; stays = λ w i h. h; ends = λ w i s t h. h }

pub Sound-trans : {a b c : Db} → Sound a b → Sound b c → Sound a c
Sound-trans p q = record {
  consistent = λ c. q.consistent (p.consistent c);
  stays = λ w i h. p.stays w i (q.stays w i h);
  ends = λ w i s t h. q.ends w i s t (p.ends w i s t h);
}

-- The tables that consistency is about are the same.
pub record Untouched (db db' : Db) : Type 0 where
  pub operations : db'.operations ≡ db.operations
  pub events : db'.events ≡ db.events
  pub locks : db'.locks ≡ db.locks

pub Untouched-Sound : {db db' : Db} → Untouched db db' → Sound db db'
unfolding operation_of locked
Untouched-Sound {db} {db'} u = record {
  consistent = λ c. record {
    reserved = λ w i h. rw u.locks (c.reserved w i (rw u.operations at h));
    live = λ w i h. rw u.operations (c.live w i (rw u.locks at h));
    history = λ w i. rw (u.operations, u.events) (c.history w i);
  };
  stays = λ w i h. rw u.operations at h;
  ends = λ w i s t h. rw u.operations h;
}

pub Untouched-operation_of :
    {db db' : Db} → Untouched db db' → (w i : ℕ) → operation_of w i db' ≡ operation_of w i db
unfolding operation_of
Untouched-operation_of u w i = rw u.operations

pub record Keeps {A : Type 0} (m : OpTx A) : Type 0 where
  pub at : (db db' : Db) (a : A) → m db ≡ ok (a, db') → Sound db db'

-- A transaction that leaves the three tables alone.
pub record Leaves {A : Type 0} (m : OpTx A) : Type 0 where
  pub at : (db db' : Db) (a : A) → m db ≡ ok (a, db') → Untouched db db'

pub Leaves-Keeps : {A : Type 0} {m : OpTx A} → Leaves m → Keeps m
Leaves-Keeps l = record { at = λ db db' a h. Untouched-Sound (l.at db db' a h) }

module _ {A : Type 0} where
  pub Keeps-pure : (a : A) → Keeps (pure a)
  Keeps-pure a = record { at = λ db db' b h. Untouched-Sound (ground arith) }

  pub Keeps-raise : (e : Error) → Keeps {A = A} (raise e)
  Keeps-raise e = record { at = λ db db' b h. absurd (ground arith) }

  pub Keeps-gets : (f : Db → A) → Keeps (gets f)
  Keeps-gets f = record { at = λ db db' b h. Untouched-Sound (ground arith) }

  pub Keeps-if :
      (t : Bool) (m n : OpTx A)
      → (t ≡ true → Keeps m)
      → (t ≡ false → Keeps n)
      → Keeps (if t then m else n)
  Keeps-if true m n km kn = km refl
  Keeps-if false m n km kn = kn refl

  pub Keeps-in_tx : (env : Env) (m : OpTx A) → Keeps m → Keeps (in_tx env m)
  unfolding in_tx
  Keeps-in_tx env m k = record { at = λ db db' a h. k.at db db' a (ground arith) }

-- A transaction chosen by a value that does not depend on the database.
module _ {A X : Type 0} where
  pub Keeps-result :
      (x : Result Error X) (f : X → OpTx A)
      → ((v : X) → Keeps (f v))
      → Keeps (λ db. elim x [ err e ↦ err e | ok v ↦ f v db ])
  Keeps-result (err e) f k = Keeps-raise e
  Keeps-result (ok v) f k = k v

  pub Keeps-option :
      (x : Option X) (e : Error) (f : X → OpTx A)
      → ((v : X) → Keeps (f v))
      → Keeps (λ db. elim x [ none ↦ err e | some v ↦ f v db ])
  Keeps-option none e f k = Keeps-raise e
  Keeps-option (some v) e f k = k v

pub Keeps-unless_error :
    {A : Type 0} (x : Option Error) (m : OpTx A)
    → Keeps m
    → Keeps (λ db. elim x [ some e ↦ err e | none ↦ m db ])
Keeps-unless_error none m k = k
Keeps-unless_error (some e) m k = Keeps-raise e

pub Keeps-unless :
    {A : Type 0} (t : Bool) (e : Error) (m : OpTx A)
    → Keeps m
    → Keeps (λ db. if t then err e else m db)
Keeps-unless true e m k = Keeps-raise e
Keeps-unless false e m k = k

pub Keeps-if_raise :
    {A : Type 0} (t : Bool) (e : Error) (m : OpTx A)
    → Keeps m
    → Keeps (λ db. if t then m db else err e)
Keeps-if_raise true e m k = k
Keeps-if_raise false e m k = Keeps-raise e

pub Keeps-guard : (t : Bool) (e : Error) → Keeps (guard t e)
Keeps-guard true e = record { at = λ db db' b h. Untouched-Sound (ground arith) }
Keeps-guard false e = record { at = λ db db' b h. absurd (ground arith) }

module _ {A B : Type 0} where
  pub Keeps-bind :
      (m : OpTx A) (f : A → OpTx B) → Keeps m → ((a : A) → Keeps (f a)) → Keeps (m >>= f)
  Keeps-bind m f km kf = record {
    at = λ db db' b h.
        let (a, t, p, q) = bind-ok m f db h in Sound-trans (km.at db t a p) ((kf a).at t db' b q);
  }

module _ {B : Type 0} where
  -- What follows a guard may use its test.
  pub Keeps-guarded :
      (t : Bool) (e : Error) (f : Unit → OpTx B)
      → (t ≡ true → Keeps (f tt))
      → Keeps (guard t e >>= f)
  Keeps-guarded true e f k = k refl
  Keeps-guarded false e f k = record { at = λ db db' b h. absurd (ground arith) }

-- No transition leads out of a finished operation.
advance-ends :
    (env : Env) (w i : ℕ) (from to : State) (o : Operation) (db db' : Db)
    → Advanced env w i from to o db db'
    → (v j : ℕ) (s : State) → is_terminal s ≡ true
    → stands s (operation_of v j db) ≡ true
    → stands s (operation_of v j db') ≡ true
unfolding operation_of
advance-ends env w i from to o db db' a v j s t k = ground (
  arith,
  advanced-operation_of env w i from to o db db' a v j,
  a.found,
  a.at_from,
  is_state_iff from s,
  allowed-ne-terminal from to a.is_allowed,
)

pub advance-Sound :
    (env : Env) (w i : ℕ) (from to : State) (db db' : Db)
    → (is_state from unknown ≡ true → locked w i db ≡ true)
    → advance env w i from to db ≡ ok (tt, db')
    → Sound db db'
advance-Sound env w i from to db db' held h =
    let (o, a) = advance-ok env w i from to db h in
    record {
      consistent = λ c. advance-IsConsistent env w i from to db c held h;
      stays = λ v j k. ground (
        arith,
        advanced-operation_of env w i from to o db db' a v j,
        a.is_allowed,
        is_state_iff to queued,
        allowed-ne-queued from to a.is_allowed,
      );
      ends = λ v j s t k. advance-ends env w i from to o db db' a v j s t k;
    }

-- Only Recheck leads from `unknown` to `reconciling`; every other transition is sound.
pub Keeps-advance :
    (env : Env) (w i : ℕ) (from to : State)
    → (is_state from unknown && is_state to reconciling) ≡ false
    → Keeps (advance env w i from to)
Keeps-advance env w i from to other = record {
  at = λ db db' u h.
      let (o, a) = advance-ok env w i from to db {db' = db'} h in
      advance-Sound env w i from to db db' (unfold allowed in λ s. ground (arith, a.is_allowed)) h;
}

-- Replacing a column that consistency does not read.
pub Keeps-modify_reference :
    (id : ℕ) (reference : Option String) → Keeps (modify (set_reference id reference))
unfolding set_reference locked
Keeps-modify_reference id reference = record {
  at = λ db db' u h.
      let same : db' ≡ set_reference id reference db = ground arith in
      let read = λ (w j : ℕ). operation_of-set_reference id reference db w j in
      rw same (record {
        consistent = λ c. record {
          reserved = λ w j k. ground (arith, read w j, c.reserved w j);
          live = λ w j k. ground (arith, read w j, c.live w j);
          history = λ w j. ground (arith, read w j, c.history w j);
        };
        stays = λ w j k. ground (arith, read w j);
        ends = λ w j s t k. ground (arith, read w j);
      });
}

-- A change of tables that consistency does not read.
pub Keeps-modify : (f : Db → Db) → ((db : Db) → Untouched db (f db)) → Keeps (modify f)
Keeps-modify f same = record {
  at = λ db db' u h. let e : db' ≡ f db = ground arith in rw e (Untouched-Sound (same db));
}

pub Leaves-execution_audit :
    (ext : External) (env : Env) (w i target : ℕ) (outcome : State)
    → Leaves (execution_audit ext env w i target outcome)
unfolding execution_audit append_audit
Leaves-execution_audit ext env w i target outcome = record { at = λ db db' u h. ground arith }

pub Leaves-finish_job :
    (env : Env) (l : Lease) (state : JobState) (next : ℕ) → Leaves (finish_job env l state next)
unfolding finish_job
Leaves-finish_job env l state next = record { at = λ db db' u h. ground arith }
