-- ===== src/Operation/Controls.antt =====
-- The owner-facing controls keep stored operations consistent.
use sama.Prelude.{
  ℕ, Bool, ◌&&◌, none, some, String, ok, guard, ◌>>◌, ◌≡◌, refl, ap, ◌∙◌, arith, bind-ok, guard-ok,
  any, delete,
}
use sama.Database.{Db, Env, State, reconciling, unknown, cancelled, Operation}
use sama.External.{External}
use sama.Audit.{append_audit}
use sama.Identity.Recent.{Principal}
use sama.Operation.Machine.{is_state, is_state_iff}
use sama.Identity.Recent.{is_recent}
use sama.Operation.Records.{is_lock_of}
use sama.Operation.Records.Laws.{locked-delete}
use sama.Operation.Errors.{pass-ok, pass, store, bad_state}
use sama.Operation.Records.{advance, operation_of, locked}
use sama.Operation.Access.{Service}
use sama.Operation.Control.{
  control_load, control_audit, reopen, resolve_risk, cancel, cancel_body, recheck, recheck_body,
  release_unknown, release_body, release_refusal, Controlled,
}
use sama.Operation.Soundness.{
  Sound, Untouched-operation_of, advance-Sound, Sound-trans, Untouched, Untouched-Sound, Keeps,
  Leaves, Leaves-Keeps, Keeps-pure, Keeps-gets, Keeps-if, Keeps-in_tx, Keeps-guard, Keeps-bind,
  Keeps-guarded, Keeps-advance, Keeps-modify,
}

Leaves-control_load : (actor scope id : ℕ) → Leaves (control_load actor scope id)
unfolding control_load
Leaves-control_load actor scope id = record { at = λ db db' c h. ground arith }

Leaves-control_audit :
    (ext : External) (env : Env) (actor scope id target : ℕ) (request reason : String)
    → Leaves (control_audit ext env actor scope id target request reason)
unfolding control_audit append_audit
Leaves-control_audit ext env actor scope id target request reason = record {
  at = λ db db' u h. ground arith;
}

module _ (ext : External) (svc : Service) (env : Env) where
  pub cancel-Keeps :
      (p : Principal) (scope id : ℕ) (request : String)
      → Keeps (cancel ext svc env p scope id request)
  unfolding cancel cancel_body
  cancel-Keeps p scope id request = Keeps-guarded svc.ready _ _ λ t. Keeps-in_tx env _ (
      Keeps-bind _ _ (Leaves-Keeps (Leaves-control_load p.user scope id)) λ c.
        Keeps-bind _ _ (Keeps-guard _ _) λ a.
          Keeps-bind _ _ (Keeps-advance env scope id c.operation.state cancelled (ground arith))
            λ b.
              Keeps-bind _ _
                (Keeps-modify _ (λ db. record { operations = refl; events = refl; locks = refl }))
                λ d.
                  Keeps-bind _ _
                    (Leaves-Keeps (
                      Leaves-control_audit ext env p.user scope id c.operation.target request
                        "cancelled_before_dispatch"))
                    λ e. Keeps-pure cancelled)

  reopen-Keeps :
      (p : Principal) (scope id target : ℕ) (request : String)
      → Keeps (reopen ext svc env p scope id target request)
  unfolding reopen
  reopen-Keeps p scope id target request = record {
    at = λ db db' s h.
        let audited =
          Leaves-control_audit ext env p.user scope id target request "user_requested_recheck" in
        let (held, h₁) = guard-ok (locked scope id db) _ _ db h in
        let (_, db₂, p₂, h₂) =
          bind-ok (control_audit ext env p.user scope id target request "user_requested_recheck") _
            db h₁ in
        let (_, db₃, p₃, h₃) = bind-ok (advance env scope id unknown reconciling) _ db₂ h₂ in
        let same = audited.at db db₂ tt p₂ in
        let last : Untouched db₃ db' = ground arith in
        let moved : Sound db₂ db₃ =
          advance-Sound env scope id unknown reconciling db₂ db₃
            (λ u. unfold locked in rw same.locks held) p₃ in
        Sound-trans (Untouched-Sound same) (Sound-trans moved (Untouched-Sound last));
  }

  pub recheck-Keeps :
      (p : Principal) (scope id : ℕ) (request : String)
      → Keeps (recheck ext svc env p scope id request)
  unfolding recheck recheck_body
  recheck-Keeps p scope id request = Keeps-guarded svc.ready _ _ λ t. Keeps-in_tx env _ (
      Keeps-bind _ _ (Leaves-Keeps (Leaves-control_load p.user scope id)) λ c.
        Keeps-bind _ _ (Keeps-gets _) λ pending.
          Keeps-if (is_state c.operation.state reconciling && pending) _
            (guard (is_state c.operation.state unknown) bad_state
              >> reopen ext svc env p scope id c.operation.target request)
            (λ t. Keeps-pure reconciling)
            (λ f.
              Keeps-bind (guard (is_state c.operation.state unknown) bad_state) _
                (Keeps-guard (is_state c.operation.state unknown) bad_state)
                (λ u. reopen-Keeps p scope id c.operation.target request)))

  control_load-found :
      (actor scope id : ℕ) (db : Db) {c : Controlled} {db' : Db}
      → control_load actor scope id db ≡ ok (c, db')
      → operation_of scope id db ≡ some c.operation
  unfolding control_load
  control_load-found actor scope id db h = ground arith

  -- The reservation of an `unknown` operation may go.
  resolve_risk-Sound :
      (p : Principal) (scope id : ℕ) (o : Operation) (db db' : Db) (s : State)
      → operation_of scope id db ≡ some o
      → o.state ≡ unknown
      → resolve_risk ext svc env p scope id db ≡ ok (s, db')
      → Sound db db'
  unfolding resolve_risk locked
  resolve_risk-Sound p scope id o db db' s found u h =
      let operations : db'.operations ≡ db.operations = ground arith in
      let events : db'.events ≡ db.events = ground arith in
      let locks : db'.locks ≡ delete (is_lock_of scope id) db.locks = ground arith in
      let same : (w j : ℕ) → operation_of w j db' ≡ operation_of w j db =
        unfold operation_of in λ w j. rw operations in
      record {
        consistent = λ c. record {
          reserved = λ w j k.
              rw locks
                (ground (arith, locked-delete scope id w j db.locks, c.reserved w j, same w j));
          live = λ w j k. ground (
            arith,
            ap (any (is_lock_of w j)) locks,
            locked-delete scope id w j db.locks,
            c.live w j,
            same w j,
          );
          history = λ w j. rw (same w j) (rw events (c.history w j));
        };
        stays = λ w j k. ground (arith, same w j);
        ends = λ w j s t k. ground (arith, same w j);
      }

  release_refusal-unknown :
      (p : Principal) (scope : ℕ) (c : Controlled) (typed : String) (db : Db)
      → release_refusal ext svc env p scope c typed db ≡ none
      → c.operation.state ≡ unknown
  unfolding release_refusal
  release_refusal-unknown p scope c typed db h =
      ground (arith, is_state_iff c.operation.state unknown)

  release_body-Keeps :
      (p : Principal) (scope id : ℕ) (typed request : String)
      → Keeps (release_body ext svc env p scope id typed request)
  unfolding release_body
  release_body-Keeps p scope id typed request = record {
    at = λ db db' s h.
        let (c, db₁, p₁, h₁) = bind-ok (control_load p.user scope id) _ db h in
        let read = (Leaves-control_load p.user scope id).at db db₁ c p₁ in
        let audited =
          Leaves-control_audit ext env p.user scope id c.operation.target request
            "reservation_released_residual_risk" in
        let refusal = release_refusal ext svc env p scope c typed db₁ in
        let (_, db₂, p₂, h₂) = bind-ok (pass refusal) _ db₁ h₁ in
        let passed = pass-ok refusal db₁ p₂ in
        let (_, db₃, p₃, h₃) =
          bind-ok
            (control_audit ext env p.user scope id c.operation.target request
              "reservation_released_residual_risk")
            _ db₂ h₂ in
        let written = audited.at db₂ db₃ tt p₃ in
        let (_, h₄) = guard-ok env.random_ok store _ db₃ h₃ in
        let found : operation_of scope id db₃ ≡ some c.operation =
          Untouched-operation_of written scope id
          ∙ ap (operation_of scope id) passed.1
          ∙ Untouched-operation_of read scope id
          ∙ control_load-found p.user scope id db p₁ in
        let is_unknown : c.operation.state ≡ unknown =
          release_refusal-unknown p scope c typed db₁ passed.0 in
        Sound-trans (Untouched-Sound read) (
          rw (← passed.1) (
            Sound-trans (Untouched-Sound written)
              (resolve_risk-Sound p scope id c.operation db₃ db' s found is_unknown h₄)));
  }

  pub release_unknown-Keeps :
      (p : Principal) (scope id : ℕ) (acknowledged : Bool) (typed request : String)
      → Keeps (release_unknown ext svc env p scope id acknowledged typed request)
  unfolding release_unknown
  release_unknown-Keeps p scope id acknowledged typed request = Keeps-guarded svc.ready _ _ λ a.
      Keeps-guarded acknowledged _ _ λ b.
        Keeps-guarded (svc.sessions && is_recent p env.now) _ _
          λ c. Keeps-in_tx env _ (release_body-Keeps p scope id typed request)
