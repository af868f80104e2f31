-- ===== src/Connections/Disabled.antt =====
-- What Disable of backend/internal/connection/disable.go leaves behind.
use mathlib.Core.Option
use sama.Prelude.{
  is-ne, pure, guard-same, ℕ, false, some, String, ◌≡◌, refl, ap, ◌∙◌, sym, arith, ok, err, ◌is◌,
  bind-ok, guard-ok, row-ok, row, modify, guard, any, Bool-cases, if◌then◌else◌, inl, inr,
  any-update_cleared, find-update, ◌>>=◌, ◌>>◌,
}
use sama.Database.{Db, Env, Connection, JobState, connection_of}
use sama.External.{External}
use sama.Audit.{append_audit}
use sama.Workspace.Errors.{not_found, store}
use sama.Workspace.Members.{lock_authority}
use sama.Workspace.Members.Effects.{lock_authority-db}
use sama.Connections.Errors.{of_workspace, disabled, from_workspace, from_workspace-ok}
use sama.Connections.Lifecycle.{
  is_connection, require_new_work, is_queued_of, stop_connection, credential_audit, disable,
}

-- After a call of Disable: new work is refused, and unless the connection was disabled before, no job
-- of it is queued; operations, their events and reservations stay.
pub record IsDisabled (scope id : ℕ) (c : Connection) (a b : Db) : Type 0 where
  pub refused : require_new_work scope id b ≡ err disabled
  pub idle : (c.status is "disabled") ≡ false → any (is_queued_of scope id) b.jobs ≡ false
  pub operations : b.operations ≡ a.operations
  pub events : b.events ≡ a.events
  pub locks : b.locks ≡ a.locks

pub credential_audit-effect :
    (ext : External) (env : Env) (actor scope id : ℕ) (kind request : String) (db : Db) {db' : Db}
    → credential_audit ext env actor scope id kind request db ≡ ok (tt, db')
    → db' ≡ record db { audits = db'.audits }
unfolding credential_audit append_audit
credential_audit-effect ext env actor scope id kind request db h = ground arith

at_start :
    {scope id : ℕ} {c : Connection} {a a' b : Db}
    → a ≡ a'
    → IsDisabled scope id c a b
    → IsDisabled scope id c a' b
at_start p i = rw (sym p) i

require_new_work-status :
    (scope id : ℕ) (c : Connection) (db : Db)
    → connection_of scope id db ≡ some c
    → (c.status is "active") ≡ false
    → require_new_work scope id db ≡ err disabled
unfolding require_new_work
require_new_work-status scope id c db e n = ground (arith, e, n)

stopped-connection :
    (env : Env) (scope id : ℕ) (c : Connection) (db : Db)
    → connection_of scope id db ≡ some c
    → connection_of scope id (stop_connection env scope id db)
      ≡ some (record c { status = "disabled" })
unfolding stop_connection connection_of
stopped-connection env scope id c db e =
    find-update (is_connection scope id) (λ c. record c { status = "disabled" }) db.connections
      (λ x. refl)
    ∙ ap (Option.map {A = Connection} (λ c. record c { status = "disabled" })) e

stop_connection-idle :
    (env : Env) (scope id : ℕ) (db : Db)
    → any (is_queued_of scope id) (stop_connection env scope id db).jobs ≡ false
unfolding stop_connection
stop_connection-idle env scope id db =
    any-update_cleared (is_queued_of scope id)
      (λ j. record j { state = JobState.cancelled; completed = some env.clock }) db.jobs
      (λ j q. ground arith)

module _ (ext : External) (env : Env) (actor scope id : ℕ) (request : String) where
  stopped-IsDisabled :
      (c : Connection) (db : Db) {db' : Db}
      → connection_of scope id db ≡ some c
      → db' ≡ record (stop_connection env scope id db) { audits = db'.audits }
      → IsDisabled scope id c db db'
  unfolding stop_connection connection_of
  stopped-IsDisabled c db {db' = db'} e same = record {
    refused =
        require_new_work-status scope id (record c { status = "disabled" }) db'
          (ap (connection_of scope id) same ∙ stopped-connection env scope id c db e)
          (ground arith);
    idle = λ n.
        ap (λ (d : Db). any (is_queued_of scope id) d.jobs) same
        ∙ stop_connection-idle env scope id db;
    operations = ap (λ (d : Db). d.operations) same;
    events = ap (λ (d : Db). d.events) same;
    locks = ap (λ (d : Db). d.locks) same;
  }

  disable-ways :
      (c : Connection) (db : Db) {db' : Db}
      → (if c.status is "disabled" then pure tt else (do
        modify (stop_connection env scope id)
        credential_audit ext env actor scope id "connection.disabled" request
        guard env.commit_ok (of_workspace store)))
          db
        ≡ ok (tt, db')
      → connection_of scope id db ≡ some c
      → IsDisabled scope id c db db'
  disable-ways c db {db' = db'} h e = elim (Bool-cases (c.status is "disabled")) [
    | inl d ↦
        let same : db' ≡ db = ground (arith, d, h) in
        record {
          refused =
              ap (require_new_work scope id) same
              ∙ require_new_work-status scope id c db e
                  (is-ne c.status "disabled" "active" (ground arith) d);
          idle = λ n. absurd (ground (arith, d, n));
          operations = ap (λ (x : Db). x.operations) same;
          events = ap (λ (x : Db). x.events) same;
          locks = ap (λ (x : Db). x.locks) same;
        }
    | inr n ↦
        let ran : (credential_audit ext env actor scope id "connection.disabled" request >>= λ _.
        guard env.commit_ok (of_workspace store))
              (stop_connection env scope id db)
            ≡ ok (tt, db') =
          ground (arith, n, h) in
        let (_, d₁, p₁, h₁) =
          bind-ok (credential_audit ext env actor scope id "connection.disabled" request) _
            (stop_connection env scope id db) ran in
        let same : db' ≡ d₁ = guard-same env.commit_ok (of_workspace store) d₁ h₁ in
        let audited =
          credential_audit-effect ext env actor scope id "connection.disabled" request
            (stop_connection env scope id db) p₁ in
        stopped-IsDisabled c db e (
          same
          ∙ audited
          ∙ ap (λ (x : Db). record (stop_connection env scope id db) { audits = x.audits })
              (sym same))
  ]

  -- After a Disable that succeeds, RequireNewWork refuses the connection as disabled, and no job of it
  -- is queued unless it was disabled before; operations, their events and their reservations stay as
  -- they are, so that an operation whose queued job was cancelled keeps its state and reservation.
  pub disable-IsDisabled :
      (db : Db) {db' : Db}
      → disable ext env actor scope id request db ≡ ok (tt, db')
      → (c : Connection) × (connection_of scope id db ≡ some c) × IsDisabled scope id c db db'
  unfolding disable
  disable-IsDisabled db {db' = db'} h =
      let (_, h₁) = guard-ok env.begin_ok (of_workspace store) _ db h in
      let (m, d₁, p₁, h₂) = bind-ok (from_workspace (lock_authority actor scope)) _ db h₁ in
      let e₁ =
        lock_authority-db actor scope db (from_workspace-ok (lock_authority actor scope) db p₁) in
      let (c, d₂, p₂, h₃) =
        bind-ok (row (of_workspace not_found) (connection_of scope id d₁)) _ d₁ h₂ in
      let (e₂, s₂) = row-ok (of_workspace not_found) (connection_of scope id d₁) d₁ p₂ in
      let same : d₂ ≡ db = s₂ ∙ e₁ in
      let found = ap (connection_of scope id) (sym e₁) ∙ e₂ in
      (c, found, at_start same (disable-ways c d₂ h₃ (ap (connection_of scope id) same ∙ found)))
