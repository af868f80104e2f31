-- ===== src/Workspace/Grants/Delegation.antt =====
-- What SetGrant of backend/internal/workspace/grants.go delegates, and what a refusal changes.
use mathlib.Core.Option
use sama.Prelude.{
  ◌>>=◌, modify, pure, ℕ, true, false, ◌&&◌, ◌||◌, not, Option, none, some, List, [], ◌∷◌, String,
  ◌≡◌, refl, arith, ok, ◌is◌, ◌==◌, contains, bind-ok, is_iff, if◌then◌else◌, Bool-cases, inr, inl,
  sym, find-upsert, Option-cases, Result-cases, err, is_some, is_some-find-update, ◌∙◌,
}
use sama.Database.{
  Db, Env, Role, admin, Grant, Membership, Connection, Audit, open_workspace, active_membership,
  connection_of, grant_of, is_active_user, bump_policy, user_actor,
}
use sama.External.{External}
use sama.Audit.{append_audit}
use sama.Workspace.Role.{within_ceiling, can_assign, is_admin, allows}
use sama.Workspace.Errors.{Error, in_tx-ok}
use sama.Workspace.Members.{lock_authority}
use sama.Workspace.Members.Effects.{lock_authority-db, lock_authority-found}
use sama.Workspace.Grants.{
  granted, actions_or_none, exceeds, set_grant, grant_body, grant_locked, decide_grant, deny,
  grant_audit, put_grant, is_grant_of, connection_authority,
}

-- A delegation: who gives, who receives, and that the actions are within both.
pub record IsDelegated (actor scope connection target : ℕ) (actions : List String) (db : Db)
    : Type 0 where
  pub giver : Membership
  pub receiver : Membership
  pub opened : is_some (open_workspace scope db) ≡ true
  pub giver_found : active_membership scope actor db ≡ some giver
  pub receiver_found : active_membership scope target db ≡ some receiver
  pub assigns : can_assign giver.role receiver.role ≡ true
  pub within : (a : String) → contains actions a ≡ true → within_ceiling receiver.role a ≡ true
  pub held :
      (a : String)
      → is_admin giver.role ≡ true
      → contains actions a ≡ true
      → contains (granted scope connection actor db) a ≡ true

-- A refusal: its audit event is all that changes.
pub record IsRefused (actor scope : ℕ) (a b : Db) : Type 0 where
  pub event : Audit
  pub kind : event.kind ≡ "connection.grants_denied"
  pub caller : event.actor ≡ some actor
  pub place : event.workspace ≡ scope
  pub tables : b ≡ record a { audits = event ∷ a.audits }

-- What the grants of everyone are after the caller is told that it succeeded.
pub record IsGranted (actor scope connection target : ℕ) (actions : List String) (a b : Db)
    : Type 0 where
  pub event : Audit
  pub delegated : IsDelegated actor scope connection target actions a
  pub tables :
      b
      ≡ bump_policy scope
          (put_grant scope connection target actions (record a { audits = event ∷ a.audits }))

-- What a commit of SetGrant did, by the answer of the call.
abbrev pub Decision : ℕ → ℕ → ℕ → ℕ → List String → Db → Option Error → Db → Type 0
Decision actor scope connection target actions a none b =
    IsGranted actor scope connection target actions a b
Decision actor scope connection target actions a (some e) b = IsRefused actor scope a b

contains-same : (l : List String) (x a : String) → (x is a) ≡ true → contains l x ≡ contains l a
contains-same l x a h = rw ((is_iff x a).0 h)

-- Actions that do not exceed are each within the ceiling, and held by an admin who gives them.
exceeds-false :
    (giver receiver : Role) (own actions : List String) (a : String)
    → exceeds giver own receiver actions ≡ false
    → contains actions a ≡ true
    → (within_ceiling receiver a ≡ true) × (is_admin giver ≡ true → contains own a ≡ true)
unfolding exceeds
exceeds-false giver receiver own [] a h k = ground arith
exceeds-false giver receiver own (x ∷ rest) a h k = elim (Bool-cases (x is a)) [
  | inr n ↦ ground (arith, exceeds-false giver receiver own rest a)
  | inl e ↦
      let same : x ≡ a = (is_iff x a).0 e in
      let h' : exceeds giver own receiver (a ∷ rest) ≡ false = rw (sym same) h in
      ((unfold exceeds in ground arith), λ p. unfold exceeds in ground arith)
]

grant_audit-event :
    (ext : External) (env : Env) (actor scope connection target : ℕ) (kind request : String)
    (db : Db) {db' : Db}
    → grant_audit ext env actor scope connection target kind request db ≡ ok (tt, db')
    → (event : Audit) × (event.kind ≡ kind)
      × (event.actor ≡ some actor)
      × (event.workspace ≡ scope)
      × (db' ≡ record db { audits = event ∷ db.audits })
unfolding grant_audit append_audit
grant_audit-event ext env actor scope connection target kind request db h = (
  record {
    id = env.new_audit;
    workspace = scope;
    actor_kind = user_actor;
    actor = some actor;
    kind = kind;
    request = request;
    operation = none;
    created = env.clock;
  },
  refl,
  refl,
  refl,
  ground arith,
)

actions_or_none-map :
    (o : Option Grant) (l : List String)
    → Option.map (λ g. g.actions) o ≡ some l
    → actions_or_none o ≡ l
actions_or_none-map none l h = ground arith
actions_or_none-map (some g) l h = ground arith

granted-put_grant :
    (scope connection user : ℕ) (actions : List String) (db : Db)
    → granted scope connection user (put_grant scope connection user actions db) ≡ actions
unfolding granted put_grant grant_of
granted-put_grant scope connection user actions db = actions_or_none-map _ _ (
    find-upsert (is_grant_of scope connection user) (λ g. record g { actions = actions })
      (record { workspace = scope; connection = connection; user = user; actions = actions })
      db.grants (λ g. g.actions) actions (λ g. refl) (λ g. refl) (ground arith) refl)

deny-audits :
    (ext : External) (env : Env) (actor scope connection target : ℕ) (request : String)
    (cause : Error) (db : Db) {answer : Option Error} {db' : Db}
    → deny ext env actor scope connection target request cause db ≡ ok (answer, db')
    → (answer ≡ some cause) × IsRefused actor scope db db'
unfolding deny
deny-audits ext env actor scope connection target request cause db h =
    let (_, t, p, q) =
      bind-ok (grant_audit ext env actor scope connection target "connection.grants_denied" request)
        _ db h in
    let (event, kind, who, place, e) =
      grant_audit-event ext env actor scope connection target "connection.grants_denied" request db
        p in
    (
      ground arith,
      record { event = event; kind = kind; caller = who; place = place; tables = ground arith },
    )

connection_authority-reads :
    (actor scope connection : ℕ) (a : String) (m : Membership) (c : Connection)
    (actions : List String) (db : Db)
    → is_some (open_workspace scope db) ≡ true
    → active_membership scope actor db ≡ some m
    → connection_of scope connection db ≡ some c
    → granted scope connection actor db ≡ actions
    → connection_authority actor scope connection a db ≡ (
        if a is "manage"
        then (if allows m.role admin then ok (tt, db) else err Error.denied)
        else if contains actions "read"
        then (if within_ceiling m.role a
              && contains actions a
              && ((a is "read") || (c.status is "active"))
            then ok (tt, db)
            else err Error.denied)
        else err Error.not_found)
unfolding connection_authority
connection_authority-reads actor scope connection a m c actions db w p q r =
    elim (Option-cases (open_workspace scope db)) [
      | inl e ↦ absurd (ground (arith, e, w))
      | inr (x, e) ↦ elim (Bool-cases (a is "manage")) [
        | inl k ↦ ground (arith, e, p, q, k)
        | inr k ↦ ground (arith, e, p, q, r, k)
      ]
    ]

bump_policy-open_workspace :
    (scope : ℕ) (db : Db)
    → is_some (open_workspace scope (bump_policy scope db)) ≡ is_some (open_workspace scope db)
unfolding bump_policy open_workspace
bump_policy-open_workspace scope db =
    is_some-find-update (λ w. (w.id == scope) && not w.closed) (λ w. w.id == scope) _ db.workspaces
      (λ w. refl)

connection_authority-granted :
    (target scope connection : ℕ) (a : String) (actions : List String) (m : Membership)
    (c : Connection) (event : Audit) (db : Db)
    → is_some (open_workspace scope db) ≡ true
    → active_membership scope target db ≡ some m
    → connection_of scope connection db ≡ some c
    → (contains actions a ≡ true → within_ceiling m.role a ≡ true)
    → (db' : Db)
    → db'
      ≡ bump_policy scope
          (put_grant scope connection target actions (record db { audits = event ∷ db.audits }))
    → connection_authority target scope connection a db' ≡ (
        if a is "manage"
        then (if allows m.role admin then ok (tt, db') else err Error.denied)
        else if contains actions "read"
        then (if contains actions a && ((a is "read") || (c.status is "active"))
            then ok (tt, db')
            else err Error.denied)
        else err Error.not_found)
unfolding put_grant bump_policy open_workspace active_membership is_active_user connection_of
    granted grant_of
connection_authority-granted target scope connection a actions m c event db w p q within db' e =
    let read =
      connection_authority-reads target scope connection a m c actions db'
        (rw e (
          bump_policy-open_workspace scope
            (put_grant scope connection target actions (record db { audits = event ∷ db.audits }))
          ∙ w))
        (rw e p) (rw e q)
        (rw e (
          granted-put_grant scope connection target actions
            (record db { audits = event ∷ db.audits }))) in
    elim (Bool-cases (a is "manage")) [
      | inl k ↦ ground (arith, read, k)
      | inr k ↦ ground (arith, read, within, k)
    ]

module _ (ext : External) (env : Env) (actor scope connection target : ℕ) (actions : List String)
    (request : String) where
  decide_grant-delegates :
      (current member : Membership) (db : Db) {answer : Option Error} {db' : Db}
      → is_some (open_workspace scope db) ≡ true
      → active_membership scope actor db ≡ some current
      → active_membership scope target db ≡ some member
      → decide_grant ext env actor scope connection target actions request current member db
        ≡ ok (answer, db')
      → Decision actor scope connection target actions db answer db'
  unfolding decide_grant
  decide_grant-delegates current member db {answer = answer} {db' = db'} o p q h =
      let own = if is_admin current.role then granted scope connection actor db else [] in
      elim (Bool-cases (
        not (can_assign current.role member.role)
        || exceeds current.role own member.role actions)) [
          | inl refused ↦
              let (e, r) =
                deny-audits ext env actor scope connection target request Error.denied db
                  {answer = answer} {db' = db'} (ground (arith, refused)) in
              rw e r
          | inr allowed ↦
              let ran : (grant_audit ext env actor scope connection target
                        "connection.grants_changed" request
                      >>= λ _. modify (put_grant scope connection target actions) >>= λ _.
                          modify (bump_policy scope) >>= λ _. pure {E = Error} none)
                    db
                  ≡ ok (answer, db') =
                ground (arith, allowed) in
              let (_, t, p₁, q₁) =
                bind-ok
                  (grant_audit ext env actor scope connection target "connection.grants_changed"
                    request)
                  _ db ran in
              let (event, _, _, _, e) =
                grant_audit-event ext env actor scope connection target "connection.grants_changed"
                  request db p₁ in
              let none_answer : answer ≡ none = ground arith in
              rw none_answer (record {
                event = event;
                delegated = record {
                  giver = current;
                  receiver = member;
                  opened = o;
                  giver_found = p;
                  receiver_found = q;
                  assigns = ground (arith, allowed);
                  within = λ a k.
                      (exceeds-false current.role member.role own actions a
                        (ground (arith, allowed)) k).0;
                  held = λ a adm k.
                      let w =
                        (exceeds-false current.role member.role own actions a
                            (ground (arith, allowed)) k).1
                          adm in
                      ground (arith, w, adm);
                };
                tables = ground arith;
              })
        ]

  refused-Decision :
      (cause : Error) (db : Db) {answer : Option Error} {db' : Db}
      → deny ext env actor scope connection target request cause db ≡ ok (answer, db')
      → Decision actor scope connection target actions db answer db'
  refused-Decision cause db {answer = answer} {db' = db'} h =
      let (e, r) =
        deny-audits ext env actor scope connection target request cause db {answer = answer}
          {db' = db'} h in
      rw e r

  grant_locked-Decision :
      (current : Membership) (db : Db) {answer : Option Error} {db' : Db}
      → is_some (open_workspace scope db) ≡ true
      → active_membership scope actor db ≡ some current
      → grant_locked ext env actor scope connection target actions request current db
        ≡ ok (answer, db')
      → Decision actor scope connection target actions db answer db'
  unfolding grant_locked
  grant_locked-Decision current db {answer = answer} {db' = db'} o p h =
      elim (Option-cases (connection_of scope connection db)) [
        | inl e ↦ refused-Decision Error.not_found db (ground (arith, e))
        | inr (c, e) ↦ elim (Option-cases (active_membership scope target db)) [
          | inl n ↦ refused-Decision Error.not_found db (ground (arith, e, n))
          | inr (member, q) ↦ decide_grant-delegates current member db o p q (ground (arith, e, q))
        ]
      ]

  grant_body-Decision :
      (db : Db) {answer : Option Error} {db' : Db}
      → grant_body ext env actor scope connection target actions request db ≡ ok (answer, db')
      → Decision actor scope connection target actions db answer db'
  unfolding grant_body
  grant_body-Decision db {answer = answer} {db' = db'} h =
      elim (Result-cases (lock_authority actor scope db)) [
        | inl (r, e) ↦
            let found = lock_authority-found actor scope db e in
            let same = lock_authority-db actor scope db e in
            grant_locked-Decision r.0 db found.2 found.0 (ground (arith, e, same))
        | inr (x, e) ↦ refused-Decision x db (ground (arith, e, h))
      ]

  -- SetGrant that commits either tells its caller an error and changes nothing but the audit log,
  -- which gets an event of the refusal, or succeeds: the caller and the target are active members,
  -- the caller may assign the target's role, every action is within the target's ceiling, an admin
  -- holds every action itself, and the target's grant on the connection, the policy version and
  -- the audit log are all that changes.
  pub set_grant-Decision :
      (db : Db) {answer : Option Error} {db' : Db}
      → set_grant ext env actor scope connection target actions request db ≡ ok (answer, db')
      → Decision actor scope connection target actions db answer db'
  unfolding set_grant
  set_grant-Decision db {answer = answer} {db' = db'} h = grant_body-Decision db (
      in_tx-ok env (grant_body ext env actor scope connection target actions request) db
        {r = (answer, db')} (ground (arith, h)))

  -- After a grant of `actions` that succeeds, ConnectionAuthority answers for the target, whose
  -- membership is `m`, on a connection that exists: "manage", which no grant gives or takes away, is
  -- allowed exactly to an admin or owner; every other action is allowed exactly where it is in
  -- `actions` and the connection is active, or it is "read"; without "read" in `actions` the
  -- connection is not found.
  pub set_grant-connection_authority :
      (a : String) (m : Membership) (c : Connection) (db : Db) {db' : Db}
      → active_membership scope target db ≡ some m
      → connection_of scope connection db ≡ some c
      → set_grant ext env actor scope connection target actions request db ≡ ok (none, db')
      → connection_authority target scope connection a db' ≡ (
          if a is "manage"
          then (if allows m.role admin then ok (tt, db') else err Error.denied)
          else if contains actions "read"
          then (if contains actions a && ((a is "read") || (c.status is "active"))
              then ok (tt, db')
              else err Error.denied)
          else err Error.not_found)
  set_grant-connection_authority a m c db {db' = db'} p r h =
      let g = set_grant-Decision db h in
      let same : g.delegated.receiver ≡ m = ground (arith, g.delegated.receiver_found, p) in
      connection_authority-granted target scope connection a actions m c g.event db
        g.delegated.opened p r (λ k. rw (sym same) (g.delegated.within a k)) db' g.tables
