-- ===== src/Operation/Admission.antt =====
-- Acceptance inserts a consistent operation: its reservation and its first event come with it.
use sama.Prelude.{
  ℕ, ◌+◌, ◌*◌, true, false, ◌&&◌, none, some, List, [], ◌∷◌, String, ◌==◌, if◌then◌else◌, ok, ◌≡◌,
  refl, ap, ◌∙◌, arith, inl, inr, bind-ok, Option-cases, any, find, lookup,
}
use sama.Database.{Db, Env, queued, Operation, Lock, minute}
use sama.External.{External}
use sama.Audit.{append_audit}
use sama.Identity.Recent.{Principal}
use sama.Operation.Records.{
  operation_of, operation_id, locked, is_lock_of, is_lock_on, take_lock, reserve, Target,
  append_event,
}
use sama.Operation.Invariant.{is_history}
use sama.Operation.Access.{Service, Stored, Authority}
use sama.Operation.Accept.{
  insert_operation, insert_job, new_operation, accept_audit, clashes, write_operation,
  accepted_target, consume_review,
}
use sama.Operation.Soundness.{Sound, Keeps, Leaves}

-- The operation `i` of `w` got its reservation, and no other changed.
record Taken (w i : ℕ) (db db' : Db) : Type 0 where
  operations : db'.operations ≡ db.operations
  events : db'.events ≡ db.events
  held : locked w i db' ≡ true
  others : (u j : ℕ) → (w == u && i == j) ≡ false → locked u j db' ≡ locked u j db

any-find :
    (w c i : ℕ) (t : Target) (kind : String) (locks : List Lock) {l : Lock}
    → find (λ x. is_lock_on w c t kind x && x.operation == i) locks ≡ some l
    → any (is_lock_of w i) locks ≡ true
unfolding find any is_lock_on
any-find w c i t kind [] h = ground arith
any-find w c i t kind (x ∷ xs) {l} h = ground (arith, any-find w c i t kind xs {l = l})

take_lock-Taken :
    (w c i : ℕ) (t : Target) (kind : String) (db : Db) {f : ℕ} {db' : Db}
    → take_lock w c i t kind db ≡ ok (f, db')
    → Taken w i db db'
unfolding take_lock locked any
take_lock-Taken w c i t kind db {f} {db'} h = record {
  operations = ground arith;
  events = ground arith;
  held = elim (Option-cases (find (λ x. is_lock_on w c t kind x && x.operation == i) db.locks)) [
    | inl e ↦ ground arith
    | inr found ↦ ground (arith, any-find w c i t kind db.locks found.1)
  ];
  others = λ u j ne. ground arith;
}

reserve-Taken :
    (w c i : ℕ) (t : Target) (db : Db) {f : ℕ} {db' : Db}
    → reserve w c i (t ∷ []) db ≡ ok (f, db')
    → Taken w i db db'
unfolding reserve
reserve-Taken w c i t db {f} {db'} h = elim (Option-cases (operation_of w i db)) [
  | inl e ↦ absurd (ground arith)
  | inr o ↦
      elim (Option-cases
        (find (λ r. r.workspace == w && r.connection == c && r.id == o.0.target) db.resources)) [
          | inl e ↦ absurd (ground arith)
          | inr r ↦ take_lock-Taken w c i t r.0.kind db {f = f} (ground arith)
        ]
]

clashes-lookup :
    (o : Operation) (ops : List Operation)
    → any (clashes o) ops ≡ false
    → lookup operation_id o.id ops ≡ none
unfolding any lookup
clashes-lookup o [] h = refl
clashes-lookup o (x ∷ xs) h = ground (arith, clashes-lookup o xs)

-- A new operation that is reserved and has its first event.
record Admitted (o : Operation) (db db' : Db) : Type 0 where
  fresh : any (clashes o) db.operations ≡ false
  is_queued : (o.state ≡ queued) × (o.sequence ≡ 1)
  operations : db'.operations ≡ o ∷ db.operations
  events :
      db'.events
      ≡ record {
        workspace = o.workspace;
        operation = o.id;
        sequence = 1;
        before = none;
        after = queued;
      }
        ∷ db.events
  held : locked o.workspace o.id db' ≡ true
  others : (u j : ℕ) → (o.workspace == u && o.id == j) ≡ false → locked u j db' ≡ locked u j db

module _ (o : Operation) (db db' : Db) (a : Admitted o db db') where
  admitted-operation_of :
      (u j : ℕ)
      → operation_of u j db'
        ≡ (if o.id == j then (if o.workspace == u then some o else none) else operation_of u j db)
  unfolding operation_of lookup
  admitted-operation_of u j = rw a.operations (ground arith)

  was_absent : (u j : ℕ) → (o.id == j) ≡ true → operation_of u j db ≡ none
  unfolding operation_of
  was_absent u j e = ground (arith, clashes-lookup o db.operations, a.fresh)

  admitted-Sound : Sound db db'
  unfolding is_history
  admitted-Sound = record {
    consistent = λ c. record {
      reserved =
          λ u j h. ground (arith, admitted-operation_of u j, a.others u j, a.held, c.reserved u j);
      live = λ u j h. ground (
        arith,
        admitted-operation_of u j,
        was_absent u j,
        a.others u j,
        a.is_queued.0,
        c.live u j,
      );
      history = λ u j.
          rw (admitted-operation_of u j, a.events)
            (ground (arith, was_absent u j, a.is_queued.0, a.is_queued.1, c.history u j));
    };
    stays = λ u j h. ground (arith, admitted-operation_of u j, was_absent u j);
    ends = λ u j s t h. ground (arith, admitted-operation_of u j, was_absent u j);
  }

insert_operation-ok :
    (o : Operation) (db : Db) {u : Unit} {db' : Db}
    → insert_operation o db ≡ ok (u, db')
    → (any (clashes o) db.operations ≡ false) × (db' ≡ record db { operations = o ∷ db.operations })
unfolding insert_operation
insert_operation-ok o db h = ground arith

module _ (ext : External) (svc : Service) (env : Env) where
  Leaves-insert_job :
      (scope connection operation deadline : ℕ)
      → Leaves (insert_job ext svc env scope connection operation deadline)
  unfolding insert_job
  Leaves-insert_job scope connection operation deadline = record { at = λ db db' u h. ground arith }

  Leaves-accept_audit :
      (p : Principal) (scope target : ℕ) (request : String)
      → Leaves (accept_audit ext svc env p scope target request)
  unfolding accept_audit append_audit
  Leaves-accept_audit p scope target request = record { at = λ db db' u h. ground arith }

  append_event-ok :
      (w i : ℕ) (db : Db) {u : Unit} {db' : Db}
      → append_event env w i 1 none queued db ≡ ok (u, db')
      → (db'.operations ≡ db.operations)
        × (db'.locks ≡ db.locks)
        × (db'.events
            ≡ record { workspace = w; operation = i; sequence = 1; before = none; after = queued }
              ∷ db.events)
  unfolding append_event
  append_event-ok w i db h = ground arith

  pub write_operation-Keeps :
      (p : Principal) (scope : ℕ) (key : String) (hash : ℕ) (r : Stored) (current : Authority)
      (request : String)
      → Keeps (write_operation ext svc env p scope key hash r current request)
  unfolding write_operation locked new_operation
  write_operation-Keeps p scope key hash r current request = record {
    at = λ db db' result h.
        let o = new_operation ext svc env p scope key r hash in
        let i = env.new_operation in
        let target : Target = accepted_target ext svc env current in
        let (_, db₁, p₁, h₁) = bind-ok (insert_operation o) _ db h in
        let (_, db₂, p₂, h₂) = bind-ok (reserve scope r.row.connection i (target ∷ [])) _ db₁ h₁ in
        let (_, db₃, p₃, h₃) =
          bind-ok (insert_job ext svc env scope r.row.connection i (env.now + 30 * minute)) _ db₂
            h₂ in
        let db₄ = consume_review ext svc env r.row.id db₃ in
        let (_, db₅, p₅, h₅) = bind-ok (append_event env scope i 1 none queued) _ db₄ h₃ in
        let inserted = insert_operation-ok o db p₁ in
        let taken = reserve-Taken scope r.row.connection i target db₁ p₂ in
        let queued_job =
          (Leaves-insert_job scope r.row.connection i (env.now + 30 * minute)).at db₂ db₃ tt p₃ in
        let event = append_event-ok scope i db₄ p₅ in
        let (_, db₆, p₆, h₆) =
          bind-ok (accept_audit ext svc env p scope r.row.target request) _ db₅ h₅ in
        let audited = (Leaves-accept_audit p scope r.row.target request).at db₅ db₆ tt p₆ in
        let last : db' ≡ db₆ = ground arith in
        let first : db₁.operations ≡ o ∷ db.operations = ap (λ (d : Db). d.operations) inserted.1 in
        let before : db₁.events ≡ db.events = ap (λ (d : Db). d.events) inserted.1 in
        let locks : db'.locks ≡ db₂.locks =
          ap (λ (d : Db). d.locks) last ∙ audited.locks ∙ event.1 ∙ queued_job.locks in
        let old_locks : db₁.locks ≡ db.locks = ap (λ (d : Db). d.locks) inserted.1 in
        admitted-Sound o db db' (record {
          fresh = inserted.0;
          is_queued = (refl, refl);
          operations =
              ap (λ (d : Db). d.operations) last
              ∙ audited.operations
              ∙ event.0
              ∙ queued_job.operations
              ∙ taken.operations
              ∙ first;
          events =
              ap (λ (d : Db). d.events) last
              ∙ audited.events
              ∙ event.2
              ∙ ap
                  (λ es.
                    record {
                      workspace = scope;
                      operation = i;
                      sequence = 1;
                      before = none;
                      after = queued;
                    }
                    ∷ es)
                  (queued_job.events ∙ taken.events ∙ before);
          held = ap (any (is_lock_of scope i)) locks ∙ taken.held;
          others = λ u j ne.
              ap (any (is_lock_of u j)) locks
              ∙ taken.others u j ne
              ∙ ap (any (is_lock_of u j)) old_locks;
        });
  }
