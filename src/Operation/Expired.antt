-- ===== src/Operation/Expired.antt =====
-- Where Expire of backend/internal/operation/expire.go leaves an operation.
use mathlib.Core.Option
use sama.Prelude.{
  ℕ, some, if◌then◌else◌, ok, pure, ◌≡◌, ap, ◌∙◌, arith, inl, inr, bind-ok, Bool-cases,
}
use sama.Database.{Db, Env, State, queued, reconciling, unknown, failed}
use sama.External.{External}
use sama.Operation.Machine.{is_state}
use sama.Operation.Errors.{OpTx}
use sama.Operation.Records.{advance, execution_audit}
use sama.Operation.Records.Laws.{advance-ok}
use sama.Operation.Invariant.{advanced-operation_of}
use sama.Operation.Soundness.{Leaves-execution_audit, Untouched-operation_of}
use sama.Operation.Expiry.{expire_operation, expired_state, is_in_flight, is_settled, or_store}
use sama.Operation.Submission.{state_of}

advance-state_of :
    (env : Env) (w i : ℕ) (from to : State) (db : Db) {u : Unit} {db' : Db}
    → advance env w i from to db ≡ ok (u, db')
    → state_of w i db' ≡ some to
advance-state_of env w i from to db {u} {db'} h =
    let (o, a) = advance-ok env w i from to db {db' = db'} h in
    ground (arith, a.found, advanced-operation_of env w i from to o db db' a w i)

or_store-ok : {A : Type 0} (m : OpTx A) (db : Db) {r : A × Db} → or_store m db ≡ ok r → m db ≡ ok r
or_store-ok m db h = ground arith

module _ (ext : External) (env : Env) where
  -- The moves of Expire on an operation that is in the state `from` leave it in the state that this
  -- determines: queued work, which was never submitted, failed; dispatching, waiting or reconciling work
  -- unknown, never failed; settled work as it is.
  pub expire_operation-state_of :
      (w i target : ℕ) (from : State) (db : Db) {u : Unit} {db' : Db}
      → state_of w i db ≡ some from
      → expire_operation ext env w i target from db ≡ ok (u, db')
      → state_of w i db' ≡ some (expired_state from)
  unfolding expire_operation expired_state
  expire_operation-state_of w i target from db {u} {db'} was h =
      let (_, db₁, p₁, h₁) =
        bind-ok (if is_in_flight from then advance env w i from reconciling else pure tt) _ db h in
      elim (Bool-cases (is_settled from)) [
        | inl settled ↦
            let same : db' ≡ db = ground arith in ap (state_of w i) same ∙ was ∙ ground arith
        | inr unsettled ↦
            let to : State = if is_state from queued then failed else unknown in
            let named : some to ≡ some (expired_state from) = ground arith in
            let (_, db₂, p₂, h₂) =
              bind-ok
                (or_store (advance env w i (if is_in_flight from then reconciling else from) to))
                (λ x. execution_audit ext env w i target to) db₁ (ground arith) in
            let audited = (Leaves-execution_audit ext env w i target to).at db₂ db' u h₂ in
            ap (Option.map (λ o. o.state)) (Untouched-operation_of audited w i)
            ∙ advance-state_of env w i (if is_in_flight from then reconciling else from) to db₁ (
                or_store-ok (advance env w i (if is_in_flight from then reconciling else from) to)
                  db₁ p₂)
            ∙ named
      ]
