-- ===== src/Operation/Upkeep.antt =====
-- The remaining transactions of backend/internal/operation: Expire, SetRecovery and Prepare.
use sama.Operation.Expiry.{recovery_status}
use sama.Operation.Errors.{in_tx-inner}
-- other packages, which do not write operations, their events or their reservations.
use sama.Prelude.{
  ℕ, ◌+◌, Bool, true, false, ◌&&◌, ◌||◌, not, Option, some, ◌∷◌, ◌==◌, ltb, if◌then◌else◌, ok, pure,
  gets, modify, ◌>>◌, ◌≡◌, refl, arith, inl, inr, update, count, Option-cases,
}
use sama.Database.{Db, Env, State, queued, unknown, reconciling, failed, Operation, Review}
use sama.External.{External, Intent}
use sama.Identity.Recent.{Principal}
use sama.Operation.Machine.{is_state}
use sama.Operation.Errors.{OpTx, denied, unsupported, recent_required, invalid, store}
use sama.Operation.Access.{Service, Authority, authority, authorized}
use sama.Operation.Intent.{valid_intent, digest}
use sama.Operation.Errors.{conflict, stale}
use sama.Operation.Review.{
  is_unexpired, max_reviews, new_review, Preconditions, prepare, prepare_body, inspect,
}
use sama.Operation.Expiry.{
  expire_one, expire_body, expire_operation, or_store, is_in_flight, is_settled, fail_job,
  exhausted_operation, set_recovery, set_recovery_body,
}
use sama.Operation.Soundness.{
  Sound, Untouched-Sound, Keeps, Leaves-Keeps, Keeps-pure, Keeps-gets, Keeps-if, Keeps-in_tx,
  Keeps-bind, Keeps-advance, Keeps-modify, Leaves-execution_audit, Keeps-result, Keeps-option,
  Keeps-unless, Keeps-guarded,
}
use sama.Operation.Fresh.{Leaves-authority}
use sama.Identity.Recent.{is_recent}

or_store-Keeps : {A : Type 0} (m : OpTx A) → Keeps m → Keeps (or_store m)
or_store-Keeps m k = record { at = λ db db' a h. k.at db db' a (ground arith) }

module _ (ext : External) (env : Env) where
  expire_operation-Keeps :
      (w i target : ℕ) (from : State) → Keeps (expire_operation ext env w i target from)
  unfolding expire_operation
  expire_operation-Keeps w i target from =
      Keeps-bind _ _
        (Keeps-if (is_in_flight from) _ _
          (λ t. Keeps-advance env w i from reconciling (ground arith)) (λ f. Keeps-pure tt))
        λ a.
          Keeps-if (is_settled from) _ _ (λ t. Keeps-pure tt)
            λ f.
              Keeps-bind _ _
                (or_store-Keeps _ (
                  Keeps-advance env w i (if is_in_flight from then reconciling else from)
                    (if is_state from queued then failed else unknown) (ground arith)))
                λ b. Leaves-Keeps (Leaves-execution_audit ext env w i target _)

  expire_found-Keeps :
      (id : ℕ) (o : Operation)
      → Keeps (
          expire_operation ext env o.workspace o.id o.target o.state
          >> modify (λ db. record db { jobs = update (λ j. j.id == id) (fail_job env) db.jobs }))
  expire_found-Keeps id o =
      Keeps-bind _ _ (expire_operation-Keeps o.workspace o.id o.target o.state)
        λ a. Keeps-modify _ λ db. record { operations = refl; events = refl; locks = refl }

  expire_some-Sound :
      (id : ℕ) (o : Operation) (db db' : Db)
      → exhausted_operation env id db ≡ some o
      → expire_body ext env id db ≡ ok (tt, db')
      → Sound db db'
  unfolding expire_body
  expire_some-Sound id o db db' q h =
      (expire_found-Keeps id o).at db db' tt (rw (expire_body, q) at h)

  pub expire_one-Keeps : (id : ℕ) → Keeps (expire_one ext env id)
  unfolding expire_one expire_body
  expire_one-Keeps id = Keeps-in_tx env _ (record {
    at = λ db db' u h. elim (Option-cases (exhausted_operation env id db)) [
      | inl q ↦ Untouched-Sound (record {
        operations = ground (arith, q, h);
        events = ground (arith, q, h);
        locks = ground (arith, q, h);
      })
      | inr (o, q) ↦ expire_some-Sound id o db db' q h
    ];
  })

  pub set_recovery-Keeps : (open_it : Bool) (version : ℕ) → Keeps (set_recovery env open_it version)
  unfolding set_recovery set_recovery_body
  set_recovery-Keeps open_it version = Keeps-in_tx env _ (record {
    at = λ db db' u h. Untouched-Sound (record {
      operations = ground (arith, h);
      events = ground (arith, h);
      locks = ground (arith, h);
    });
  })

insert_review-Keeps :
    (r : Review) → Keeps (modify (λ db. record db { reviews = r ∷ db.reviews }) >> pure r)
insert_review-Keeps r = record { at = λ db db' x h. Untouched-Sound (ground arith) }

module _ (ext : External) (svc : Service) (env : Env) where
  prepare_body-Keeps :
      (p : Principal) (scope target : ℕ) (i : Intent) (a : Authority) (pre : Preconditions)
      (hash : ℕ)
      → Keeps (prepare_body ext svc env p scope target i a pre hash)
  unfolding prepare_body
  prepare_body-Keeps p scope target i a pre hash =
      Keeps-bind _ _ (Leaves-Keeps (Leaves-authority ext svc env p.user scope target)) λ current.
        Keeps-guarded
          (current.credential == a.credential
            && current.policy == a.policy
            && authorized current i.action pre.high)
          stale _
          λ t.
            Keeps-bind (gets (λ db. count (is_unexpired ext svc env scope) db.reviews)) _
              (Keeps-gets _)
              λ n.
                Keeps-guarded (ltb n max_reviews) conflict
                  (λ v.
                    modify (λ db. record db {
                      reviews = new_review ext svc env p scope target i a pre hash ∷ db.reviews;
                    })
                    >> pure (new_review ext svc env p scope target i a pre hash))
                  λ v. insert_review-Keeps (new_review ext svc env p scope target i a pre hash)

  -- A review that is prepared, whatever the database was when it began.
  pub prepare-Keeps :
      (p : Principal) (scope target : ℕ) (i : Intent) (before : Db) (answer : Option Preconditions)
      → Keeps (prepare ext svc env p scope target i before answer)
  unfolding prepare
  prepare-Keeps p scope target i before answer = Keeps-unless (not (valid_intent i)) invalid _ (
      Keeps-unless (not svc.ready) unsupported _ (
        Keeps-unless (not env.begin_ok) store _ (
          Keeps-result (authority ext svc p.user scope target before) _ λ r.
            Keeps-unless (not (authorized r.0 i.action false) && not (authorized r.0 i.action true))
              denied _
              (Keeps-result (inspect ext svc r.0 i.action answer) _ λ pre.
                Keeps-unless (pre.high && not (svc.sessions && is_recent p env.now)) recent_required
                  _
                  (Keeps-unless (not env.random_ok) store _ (
                    Keeps-option (digest ext i scope p.user r.0.connection target env.new_review)
                      invalid _
                      λ hash.
                        Keeps-in_tx env _ (prepare_body-Keeps p scope target i r.0 pre hash)))))))

set_recovery_body-gate :
    (open_it : Bool) (version : ℕ) (db : Db) {u : Unit} {db' : Db}
    → set_recovery_body open_it version db ≡ ok (u, db')
    → (db' ≡ record db { gate = record { is_open = open_it; version = db.gate.version + 1 } })
      × ((not open_it || db.gate.version == version && (recovery_status db).unresolved == 0) ≡ true)
unfolding set_recovery_body recovery_status
set_recovery_body-gate open_it version db h = ground arith

-- SetRecovery opens the gate only at the version that the caller read and while no submitted operation is
-- unresolved; it closes the gate at any version; each change has the next version, and nothing but the gate
-- changes.
pub set_recovery-gate :
    (env : Env) (open_it : Bool) (version : ℕ) (db : Db) {u : Unit} {db' : Db}
    → set_recovery env open_it version db ≡ ok (u, db')
    → (db' ≡ record db { gate = record { is_open = open_it; version = db.gate.version + 1 } })
      × ((not open_it || db.gate.version == version && (recovery_status db).unresolved == 0) ≡ true)
unfolding set_recovery
set_recovery-gate env open_it version db h =
    set_recovery_body-gate open_it version db
      (in_tx-inner env (set_recovery_body open_it version) db h)
