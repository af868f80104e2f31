-- ===== src/Operation/Handlers.antt =====
-- The worker's transactions keep stored operations consistent.
use sama.Prelude.{ℕ, ◌+◌, ◌*◌, Bool, true, if◌then◌else◌, Result, ok, ◌≡◌, arith}
use sama.Database.{Db, Env, State, dispatching, reconciling, succeeded, failed, JobState, second}
use sama.External.{External}
use sama.Operation.Machine.{is_state, is_state_iff}
use sama.Operation.Errors.{Error}
use sama.Operation.Records.{Lease}
use sama.Operation.Access.{Service, Plan, dispatch_load, dispatch_check, load, authority}
use sama.Operation.Receipt.{Receipt, classify_action_receipt}
use sama.Operation.Review.{Preconditions}
use sama.Operation.Dispatch.{
  check_gate, mark, mark_body, receive, receipt_body, reject_unsent, reject_body, observe_body,
  receipt_job_state, observed_job_state, earlier, steps_through, is_submitted, is_definite,
}
use sama.Operation.Soundness.{
  Untouched, Untouched-Sound, Keeps, Leaves, Leaves-Keeps, Keeps-pure, Keeps-raise, Keeps-if,
  Keeps-in_tx, Keeps-guard, Keeps-bind, Keeps-guarded, Keeps-advance, Keeps-modify_reference,
  Leaves-execution_audit, Leaves-finish_job,
}

module _ (ext : External) (svc : Service) (env : Env) where
  pub Leaves-dispatch_load : (l : Lease) → Leaves (dispatch_load ext env l)
  unfolding dispatch_load load
  Leaves-dispatch_load l = record { at = λ db db' p h. ground arith }

  pub Leaves-dispatch_check : (l : Lease) (p : Plan) → Leaves (dispatch_check ext svc l p)
  unfolding dispatch_check authority
  Leaves-dispatch_check l p = record { at = λ db db' a h. ground arith }

Leaves-check_gate : Leaves check_gate
unfolding check_gate
Leaves-check_gate = record { at = λ db db' u h. ground arith }

module _ (ext : External) (svc : Service) (env : Env) where
  -- The marker transaction of Work.
  pub mark-Keeps : (l : Lease) (pre : Preconditions) → Keeps (mark ext svc env l pre)
  unfolding mark mark_body
  mark-Keeps l pre = Keeps-in_tx env _ (
      Keeps-bind _ _ (Leaves-Keeps (Leaves-dispatch_load ext svc env l)) λ p.
        Keeps-bind _ _ (Leaves-Keeps (Leaves-dispatch_check ext svc env l p)) λ a.
          Keeps-bind _ _ (Leaves-Keeps Leaves-check_gate) λ g. Keeps-bind _ _ (Keeps-guard _ _) λ t.
            Keeps-bind _ _ (Keeps-advance env l.workspace p.id p.state dispatching (ground arith))
              λ u. Keeps-pure p)

  -- The receipt transaction.
  pub receive-Keeps :
      (l : Lease) (r : Receipt) (submitted : Bool) → Keeps (receive ext svc env l r submitted)
  unfolding receive receipt_body
  receive-Keeps l r submitted = Keeps-in_tx env _ (
      Keeps-bind _ _ (Leaves-Keeps (Leaves-dispatch_load ext svc env l)) λ p.
        Keeps-guarded (is_state p.state dispatching) _ _ λ sent.
          let c = classify_action_receipt p.review.intent.action r submitted in
          Keeps-bind _ _ (Keeps-modify_reference p.id c.1) λ a.
            Keeps-bind _ _ (Keeps-advance env l.workspace p.id p.state c.0 (ground arith)) λ b.
              Keeps-bind _ _
                (Leaves-Keeps (Leaves-execution_audit ext env l.workspace p.id p.target c.0))
                λ d. Leaves-Keeps (
                  Leaves-finish_job env l (receipt_job_state c.0)
                    (earlier (env.now + 2 * second) l.deadline)))

  pub reject_unsent-Keeps : (l : Lease) (cause : Error) → Keeps (reject_unsent ext svc env l cause)
  unfolding reject_unsent reject_body
  reject_unsent-Keeps l cause =
      Keeps-if (is_definite cause) _ _
        (λ t. Keeps-in_tx env _ (
          Keeps-bind _ _ (Leaves-Keeps (Leaves-dispatch_load ext svc env l)) λ p.
            Keeps-bind _ _ (Keeps-guard _ _) λ a.
              Keeps-bind _ _ (Keeps-advance env l.workspace p.id p.state failed (ground arith)) λ b.
                Keeps-bind _ _
                  (Leaves-Keeps (Leaves-execution_audit ext env l.workspace p.id p.target failed))
                  λ d. Leaves-Keeps (Leaves-finish_job env l JobState.failed 0)))
        (λ f. Keeps-raise cause)

  pub observe_body-Keeps :
      (l : Lease) (from : State) (target : ℕ) (to : State) (refresh : Db → Result Error Db)
      (delay : ℕ)
      → is_submitted from ≡ true
      → ((db db' : Db) → refresh db ≡ ok db' → Untouched db db')
      → Keeps (observe_body ext svc env l from target to refresh delay)
  unfolding observe_body
  observe_body-Keeps l from target to refresh delay s quiet =
      Keeps-bind _ _ (Leaves-Keeps (Leaves-dispatch_load ext svc env l)) λ p.
        Keeps-guarded (is_state p.state from) _ _ λ same.
          Keeps-bind _ _
            (Keeps-if (steps_through from to) _ _
              (λ t.
                Keeps-advance env l.workspace p.id p.state reconciling
                  (ground (arith, is_state_iff p.state from)))
              (λ f. Keeps-pure tt))
            λ a.
              Keeps-bind _ _
                (Keeps-advance env l.workspace p.id
                  (if steps_through from to then reconciling else p.state) to
                  (unfold steps_through in ground (arith, is_state_iff p.state from)))
                λ b.
                  Keeps-bind _ _
                    (Leaves-Keeps (Leaves-execution_audit ext env l.workspace p.id target to))
                    λ d.
                      Keeps-bind _ _
                        (Keeps-if (is_state to succeeded) _ _
                          (λ t. record {
                            at = λ db db' u h. Untouched-Sound (quiet db db' (ground arith));
                          })
                          (λ f. Keeps-pure tt))
                        λ e. Leaves-Keeps (
                          Leaves-finish_job env l (observed_job_state to)
                            (earlier (env.now + delay) l.deadline))
