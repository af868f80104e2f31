-- ===== src/Operation/Access.antt =====
-- What the stored state lets an actor do: Service, authority and authorized of
-- backend/internal/operation/review.go, load and check of accept.go, dispatchLoad and dispatchCheck
-- of dispatch_authority.go, and provider.NewBinding of backend/internal/provider/capability.go.
use Prim.Native.String.{len}
use mathlib.Core.Option
use sama.Prelude.{
  ℕ, Bool, true, false, ◌&&◌, ◌||◌, not, Option, none, some, List, [], String, leb, ◌==◌, ◌is◌,
  ◌followed_by◌, if◌then◌else◌, is_some, contains, ok, err, find, any,
}
use sama.Database.{
  Db, Env, State, queued, Role, Resource, Review, Operation, operation_dispatch, JobKind,
  open_workspace, active_membership, connection_of, grant_of, live_credential,
}
use sama.External.{External, Intent}
use sama.Identity.Recent.{Principal, is_recent}
use sama.Workspace.Role.{within_ceiling}
use sama.Operation.Machine.{is_state}
use sama.Operation.Intent.{
  decode_intent, snapshot_action, target_type, permits, Policy, policy_version,
}
use sama.Operation.Errors.{
  Error, invalid, store, stale, denied, unsupported, not_found, lease, recent_required, OpTx,
}
use sama.Operation.Records.{Lease, holds_lease, operation_of}

-- Service: whether its pool is set, its switch, its policy, whether its sessions are set, and the
-- keys that have a factory.
pub record Service : Type 0 where
  pub ready : Bool
  pub enabled : Bool
  pub policy : Option Policy
  pub sessions : Bool
  pub reviewers : List String
  pub mutators : List String

-- `workspace` to `credential` are provider.Binding.
pub record Authority : Type 0 where
  pub workspace : ℕ
  pub connection : ℕ
  pub family : String
  pub credential : ℕ
  pub brand : String
  pub scope : String
  pub native : String
  pub name : String
  pub role : Role
  pub kind : String
  pub grants : List String
  pub verified : List String
  pub policy : ℕ
  pub account : String

abbrev when : {A : Type 0} → Bool → A → Option A
when true a = some a
when false a = none

-- A resource is published if its generation is that of a sync run of its type that succeeded.
unfoldable pub is_published : ℕ → Resource → Db → Bool
is_published scope r db =
    any
      (λ s.
        s.workspace == scope
        && s.connection == r.connection
        && (s.scope is r.scope)
        && s.generation == r.generation
        && (s.status is "succeeded")
        && (s.kind is r.kind))
      db.sync_runs

-- The joined SELECT of `authority`; `policy` is still the workspace's policy_version.
unfoldable pub authority_row : ℕ → ℕ → ℕ → Db → Option Authority
authority_row actor scope target db = Option.bind (open_workspace scope db) λ w.
    Option.bind
      (find (λ r. r.workspace == scope && r.id == target && not r.tombstoned) db.resources)
      λ r. Option.bind (connection_of scope r.connection db) λ c.
        Option.bind (active_membership scope actor db) λ m.
          Option.bind (grant_of scope c.id actor db) λ g.
            Option.bind (live_credential scope c.id c.credential db) λ v.
              when (is_published scope r db && contains g.actions "read" && (c.status is "active"))
                (record {
                  workspace = scope;
                  connection = c.id;
                  family = c.family;
                  credential = c.credential;
                  brand = c.brand;
                  scope = r.scope;
                  native = r.native;
                  name = r.name;
                  role = m.role;
                  kind = r.kind;
                  grants = g.actions;
                  verified = if c.permissions_verified then c.capabilities else [];
                  policy = w.policy_version;
                  account = c.account;
                })

unfoldable pub class_of : String → Bool → String
class_of action high = if high || snapshot_action action then "high_impact" else "operate"

unfoldable pub authorized : Authority → String → Bool → Bool
unfolding class_of
authorized a action high =
    let class = class_of action high in
    (a.kind is target_type action)
    && within_ceiling a.role class
    && contains a.grants class
    && contains a.verified action

-- provider.Binding.Family with its provider.
abbrev pub family_key : Authority → String
family_key a = a.brand followed_by "/" followed_by a.family

-- The stored review with its decoded intent.
pub record Stored : Type 0 where
  pub row : Review
  pub intent : Intent

-- dispatchPlan.
pub record Plan : Type 0 where
  pub id : ℕ
  pub actor : ℕ
  pub target : ℕ
  pub state : State
  pub reference : Option String
  pub review : Stored

abbrev pub is_dispatch : JobKind → Bool
is_dispatch operation_dispatch = true
is_dispatch _ = false

unfoldable pub valid_binding : External → ℕ → ℕ → String → ℕ → Bool
valid_binding ext workspace connection family version =
    ext.uuid_version workspace == 7
    && ext.uuid_version connection == 7
    && not (family is "")
    && leb (len family) 128
    && not (version == 0)

unfoldable pub authority : External → Service → ℕ → ℕ → ℕ → OpTx Authority
unfolding valid_binding
authority ext svc actor scope target db = elim (authority_row actor scope target db) [
  | none ↦ err not_found
  | some a ↦
      if valid_binding ext a.workspace a.connection a.family a.credential
      then ok (record a { policy = policy_version ext svc.policy a.policy }, db)
      else err store
]

unfoldable pub load : External → ℕ → ℕ → ℕ → OpTx Stored
load ext actor scope id db =
    elim (find (λ r. r.workspace == scope && r.actor == actor && r.id == id) db.reviews) [
      | none ↦ err not_found
      | some r ↦ elim (decode_intent ext r.encoded) [
        | none ↦ err store
        | some i ↦ ok (record { row = r; intent = i }, db)
      ]
    ]

-- `typed` is the confirmation's TypedTarget; `none` is no error.
unfoldable pub check : Service → Env → Principal → Authority → Stored → String → Option Error
check svc env p a r typed =
    if is_some r.row.consumed
      || leb r.row.expiry env.now
      || not (r.row.connection == a.connection)
      || not (r.row.credential == a.credential)
      || not (r.row.policy == a.policy)
    then some stale
    else if not (authorized a r.intent.action r.row.high)
    then some denied
    else if not r.row.high
    then none
    else if not (typed is r.row.name)
    then some invalid
    else if svc.sessions && is_recent p env.now
    then none
    else some recent_required

-- The SELECT of dispatchLoad: the operation of a dispatch job whose lease is live.
unfoldable pub leased_operation : Env → Lease → Db → Option Operation
leased_operation env l db =
    Option.bind
      (find
        (λ j.
          j.workspace == l.workspace
          && j.connection == l.connection
          && is_dispatch j.kind
          && j.payload_version == 3
          && holds_lease env.clock l j)
        db.jobs)
      λ j. Option.bind j.operation λ id.
        Option.bind (operation_of l.workspace id db) λ o. when (o.connection == l.connection) o

unfoldable pub dispatch_load : External → Env → Lease → OpTx Plan
unfolding load leased_operation
dispatch_load ext env l db = elim (open_workspace l.workspace db) [
  | none ↦ err denied
  | some w ↦ elim (leased_operation env l db) [
    | none ↦ err lease
    | some o ↦ elim (load ext o.actor l.workspace o.review db) [
      | err e ↦ err e
      | ok r ↦ ok (
        record {
          id = o.id;
          actor = o.actor;
          target = o.target;
          state = o.state;
          reference = o.reference;
          review = r.0;
        },
        db,
      )
    ]
  ]
]

-- A service with no policy permits every action.
unfoldable pub policy_permits : External → Service → Authority → String → Bool
policy_permits ext svc a action = elim svc.policy [
  | none ↦ true
  | some p ↦ permits ext p (family_key a) action
]

unfoldable pub dispatch_check : External → Service → Lease → Plan → OpTx Authority
unfolding policy_permits
dispatch_check ext svc l p db = elim (authority ext svc p.actor l.workspace p.target db) [
  | err e ↦ err denied
  | ok r ↦
      if not (is_state p.state queued)
        || not (r.0.connection == l.connection)
        || not (r.0.credential == p.review.row.credential)
        || not (r.0.policy == p.review.row.policy)
      then err stale
      else if not (authorized r.0 p.review.intent.action p.review.row.high)
      then err denied
      else if not (policy_permits ext svc r.0 p.review.intent.action)
      then err unsupported
      else ok (r.0, db)
]
