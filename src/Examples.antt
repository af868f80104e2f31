-- ===== src/Examples.antt =====
-- A small installation: one workspace with one owner, one server and one review of a power-on, which
-- is confirmed, claimed by a worker and submitted. Each witness applies a theorem to it.
mod Parts
mod Late
mod Delegations
mod Logins
mod Refreshes
mod Limits
use sama.Prelude.{
  if◌then◌else◌, ℕ, zero, suc, ◌+◌, ◌*◌, ◌≤◌, ◌<◌, Bool, true, false, Option, none, some, List, [],
  ◌∷◌, String, ◌==◌, ◌is◌, ◌≡◌, ◌≢◌, refl, ap, arith, Result, ok, err, find, any, count, update,
  delete, lookup, update_at, all_in, is_alnum, if◌then◌else◌,
}
use sama.Database
use sama.Database.{
  Db, Env, Workspace, User, Membership, Connection, Credential, Grant, Resource, SyncRun, Review,
  Operation, Job, JobState, JobKind, Gate, Role, owner, admin, State, minute, second,
}
use sama.External.{External, Intent}
use sama.Identity.Recent.{Principal}
use sama.Operation.Machine.{allowed, is_terminal}
use sama.Operation.Invariant.{IsConsistent, is_history}
use sama.Operation.Soundness.{Untouched}
use sama.Operation.System.{
  System, Step, Steps, start, andthen, outside, confirms, submits, submissions, Steps-IsConsistent,
}
use sama.Operation.Submission.{SentOnce, Steps-SentOnce, mark-dispatches, state_of}
use sama.Operation.Access.{Plan}
use sama.Job.{start_lease}
use sama.Operation.Intent
use sama.Operation.Access.{Service}
use sama.Operation.Replay.{confirm_fresh-resolve}
use sama.Operation.Accept.{confirm_fresh, resolve, Confirmation, Accepted, confirm}
use sama.Operation.Review.{Preconditions}
use sama.Operation.Records.{Lease}
use sama.Operation.Dispatch.{mark}
use sama.Operation.Errors.{Error, OpTx}

abbrev power : Intent
power = record { action = "compute.server.power_on"; parameters = true }

-- Two answers of rand.Read.
abbrev tail_token : ℕ → List ℕ
tail_token b =
    b ∷ 0 ∷ 0 ∷ 0 ∷ 0 ∷ 0 ∷ 0 ∷ 0 ∷ 0 ∷ 0 ∷ 0 ∷ 0 ∷ 0 ∷ 0 ∷ 0 ∷ 0 ∷ 0 ∷ 0 ∷ 0 ∷ 0 ∷ 0 ∷ 0 ∷ 0 ∷ 0
    ∷ 0 ∷ 0 ∷ 0 ∷ 0 ∷ 0 ∷ 0 ∷ 0 ∷ 0 ∷ []

abbrev raw_token : List ℕ
raw_token = tail_token 1

abbrev other_token : List ℕ
other_token = tail_token 2

abbrev ext : External
ext = record {
  uuid_parse = λ s. some 1;
  uuid_string = λ u. "id";
  uuid_version = λ u. 7;
  uuid_rfc4122 = λ u. true;
  strict_intent = λ s. if s is "power" then some power else none;
  intent_json = λ i. "power";
  digest_scope = λ i w a c t r. 77;
  sha256_word = λ s. 5;
  sort_strings = λ l. l;
  format_int = λ n. "n";
  quota_digest = λ a b c. "quota";
  valid_utf8 = λ s. true;
  rune_count = λ s. 3;
  base64_decode =
      λ s. if s is "token" then some raw_token else if s is "other" then some other_token else none;
  base64_encode = λ l. elim l [ [] ↦ "" | b ∷ rest ↦ if b == 1 then "token" else "other" ];
  sha256 = λ s. if s is "token" then 1001 else 1002;
  has_control = λ s. false;
}

abbrev svc : Service
svc = record {
  ready = true;
  enabled = true;
  policy = none;
  sessions = true;
  reviewers = "hetzner/cloud" ∷ [];
  mutators = "hetzner/cloud" ∷ [];
}

abbrev env : Env
env = record {
  clock = 1000;
  now = 1000;
  begin_ok = true;
  commit_ok = true;
  random_ok = true;
  new_review = 40;
  new_operation = 50;
  new_job = 60;
  new_audit = 70;
  new_user = 80;
  new_sync = 90;
  new_connection = 95;
}

abbrev review : Review
review = record {
  id = 40;
  workspace = 1;
  actor = 2;
  connection = 3;
  target = 4;
  encoded = "power";
  hash = 77;
  preconditions = 9;
  credential = 1;
  policy = 1;
  high = false;
  name = "web";
  expiry = 2000;
  consumed = none;
}

abbrev before : Db
before = record {
  workspaces = record { id = 1; closed = false; policy_version = 1; queue_limit = 10 } ∷ [];
  users = record { id = 2; disabled = false; issuer = "issuer"; subject = "owner" } ∷ [];
  memberships = record { workspace = 1; user = 2; role = owner; version = 1 } ∷ [];
  connections =
      record {
        workspace = 1;
        id = 3;
        brand = "hetzner";
        family = "cloud";
        credential = 1;
        status = "active";
        account = "account";
        permissions_verified = true;
        capabilities = "compute.server.power_on" ∷ [];
        label = "label";
      }
      ∷ [];
  credentials =
      record { workspace = 1; connection = 3; version = 1; revoked = false; envelope = 12 } ∷ [];
  grants =
      record { workspace = 1; connection = 3; user = 2; actions = "read" ∷ "operate" ∷ [] } ∷ [];
  resources =
      record {
        workspace = 1;
        connection = 3;
        id = 4;
        scope = "scope";
        native = "srv-1";
        name = "web";
        kind = "compute.server";
        generation = 1;
        tombstoned = false;
        family = "cloud";
        native_status = "off";
        status = "stopped";
        details = "{}";
        observed = 500;
        version = 1;
      }
      ∷ [];
  sync_runs =
      record {
        workspace = 1;
        connection = 3;
        scope = "scope";
        kind = "compute.server";
        generation = 1;
        status = "succeeded";
        id = 6;
        number = 1;
        actor = some 2;
        credential = some 1;
        page_count = 1;
        complete = true;
        started = some 400;
        failure = none;
        completed = some 500;
      }
      ∷ [];
  reviews = review ∷ [];
  operations = [];
  jobs = [];
  locks = [];
  events = [];
  audits = [];
  resolutions = [];
  gate = record { is_open = true; version = 1 };
  sessions = [];
  fence = 0;
  generations = 1;
  staging = [];
  invitations = [];
  challenges = [];
  login_budget = none;
}

abbrev caller : Principal
caller = record { user = 2; authenticated_at = 900; csrf = 0; reauthenticated = true }

abbrev answer : Preconditions
answer = record { fingerprint = 9; name = "web"; allowed = true; high = false }

abbrev confirmation : Confirmation
confirmation = record { review = 40; confirmed = true; typed = "" }

abbrev committed : {A E : Type 0} → Db → Result E (A × Db) → Db
committed old (ok (a, new)) = new
committed old (err e) = old

abbrev accepted : Db
accepted =
    committed before
      (confirm ext svc env caller 1 "key-1" confirmation "request" before (some answer) before)

confirms_here :
    confirm ext svc env caller 1 "key-1" confirmation "request" before (some answer) before
    ≡ ok (record { id = 50; state = State.queued }, accepted)
unfolding confirm Intent.valid_key Database.open_workspace find sama.Operation.Access.load
    Intent.decode_intent Intent.digest sama.Operation.Accept.resolve sama.Operation.Access.authority
    sama.Operation.Access.authority_row mathlib.Core.Option.bind Database.connection_of
    Database.active_membership Database.grant_of Database.live_credential
    sama.Operation.Access.is_published any sama.Operation.Access.check sama.Audit.append_audit
    sama.Audit.is_code_char sama.Audit.is_entity_id sama.Audit.metadata_fields sama.Audit.safe_code
    sama.Audit.safe_code_chars sama.Audit.valid_actor sama.Audit.valid_event sama.Audit.valid_field
    sama.Audit.valid_fields Database.is_active_user sama.External.parse_identifier
    sama.Identity.Recent.is_recent sama.Identity.Recent.recent_at sama.Operation.Accept.accept_audit
    sama.Operation.Accept.admit sama.Operation.Accept.confirm_body
    sama.Operation.Accept.confirm_fresh sama.Operation.Accept.confirm_inspected
    sama.Operation.Accept.insert_job sama.Operation.Accept.insert_operation
    sama.Operation.Accept.new_operation sama.Operation.Accept.write_operation
    sama.Operation.Access.authorized sama.Operation.Access.class_of
    sama.Operation.Access.policy_permits sama.Operation.Access.valid_binding
    sama.Operation.Errors.in_tx Intent.factory_key Intent.is_key_char Intent.permits
    Intent.policy_version Intent.snapshot_action Intent.target_type Intent.valid_intent
    sama.Operation.Records.append_event sama.Operation.Records.is_lock_on
    sama.Operation.Records.operation_of sama.Operation.Records.reserve
    sama.Operation.Records.take_lock sama.Operation.Records.valid_target
    sama.Operation.Review.inspect sama.Operation.Review.valid_name count lookup update all_in
    is_alnum sama.Workspace.Role.allows sama.Workspace.Role.within_ceiling
confirms_here = refl

abbrev worker : Lease
worker = record {
  id = 60;
  workspace = 1;
  connection = 3;
  owner = 8;
  token = 9;
  deadline = 1000 + 30 * minute;
}

abbrev leased : Db
leased = record accepted { jobs = update (λ j. j.id == 60) (start_lease 1000 8 9) accepted.jobs }

abbrev plan : Plan
plan = record {
  id = 50;
  actor = 2;
  target = 4;
  state = State.queued;
  reference = none;
  review = record { row = record review { consumed = some 50 }; intent = power };
}

abbrev submitted : Db
submitted = committed leased (mark ext svc env worker answer leased)

marks_here : mark ext svc env worker answer leased ≡ ok (plan, submitted)
unfolding confirm Intent.valid_key Database.open_workspace find sama.Operation.Access.load
    Intent.decode_intent Intent.digest sama.Operation.Accept.resolve sama.Operation.Access.authority
    sama.Operation.Access.authority_row mathlib.Core.Option.bind Database.connection_of
    Database.active_membership Database.grant_of Database.live_credential
    sama.Operation.Access.is_published any sama.Operation.Access.check sama.Audit.append_audit
    sama.Audit.is_code_char sama.Audit.is_entity_id sama.Audit.metadata_fields sama.Audit.safe_code
    sama.Audit.safe_code_chars sama.Audit.valid_actor sama.Audit.valid_event sama.Audit.valid_field
    sama.Audit.valid_fields Database.is_active_user sama.External.parse_identifier
    sama.Identity.Recent.is_recent sama.Identity.Recent.recent_at sama.Operation.Accept.accept_audit
    sama.Operation.Accept.admit sama.Operation.Accept.confirm_body
    sama.Operation.Accept.confirm_fresh sama.Operation.Accept.confirm_inspected
    sama.Operation.Accept.insert_job sama.Operation.Accept.insert_operation
    sama.Operation.Accept.new_operation sama.Operation.Accept.write_operation
    sama.Operation.Access.authorized sama.Operation.Access.class_of
    sama.Operation.Access.policy_permits sama.Operation.Access.valid_binding
    sama.Operation.Errors.in_tx Intent.factory_key Intent.is_key_char Intent.permits
    Intent.policy_version Intent.snapshot_action Intent.target_type Intent.valid_intent
    sama.Operation.Records.append_event sama.Operation.Records.is_lock_on
    sama.Operation.Records.operation_of sama.Operation.Records.reserve
    sama.Operation.Records.take_lock sama.Operation.Records.valid_target
    sama.Operation.Review.inspect sama.Operation.Review.valid_name count lookup update all_in
    is_alnum sama.Workspace.Role.allows sama.Workspace.Role.within_ceiling mark
    sama.Operation.Dispatch.mark_body sama.Operation.Dispatch.check_gate
    sama.Operation.Access.dispatch_load sama.Operation.Access.dispatch_check
    sama.Operation.Access.leased_operation sama.Operation.Records.advance
    sama.Operation.Records.set_state sama.Operation.Records.release_terminal
    sama.Operation.Records.holds_lease update_at allowed start_lease
marks_here = refl

abbrev first : System
first = record { db = before; sent = [] }

abbrev last : System
last = record { db = submitted; sent = (1, 50) ∷ [] }

-- The confirmation, the claim of its job by a worker, and the submission.
run_here : Steps ext svc first last
run_here =
    andthen
      (andthen
        (andthen start (
          confirms env caller 1 "key-1" confirmation "request" before (some answer) accepted
            confirms_here))
        (outside leased (record { operations = refl; events = refl; locks = refl })))
      (submits env worker answer plan submitted marks_here)

none_sent : SentOnce first
unfolding submissions
none_sent = record { at_most_once = λ w i. omega arith; unsent = λ w i h. refl }

before-IsConsistent : IsConsistent before
unfolding sama.Operation.Records.operation_of sama.Operation.Records.locked any lookup
before-IsConsistent = record {
  reserved = λ w i h. absurd (ground arith);
  live = λ w i h. absurd (ground arith);
  history = λ w i. refl;
}

Steps-SentOnce_example : SentOnce last
Steps-SentOnce_example = Steps-SentOnce ext svc none_sent run_here

Steps-IsConsistent_example : IsConsistent submitted
Steps-IsConsistent_example = Steps-IsConsistent ext svc before-IsConsistent run_here

mark-dispatches_example :
    (leased.gate.is_open ≡ true)
    × (state_of 1 50 leased ≡ some State.queued)
    × (state_of 1 50 submitted ≡ some State.dispatching)
mark-dispatches_example = mark-dispatches ext svc env worker answer plan leased submitted marks_here

fresh_here :
    confirm_fresh ext svc env caller 1 "key-1" confirmation "request" 77 answer before
    ≡ ok (record { id = 50; state = State.queued }, accepted)
unfolding confirm Intent.valid_key Database.open_workspace find sama.Operation.Access.load
    Intent.decode_intent Intent.digest sama.Operation.Accept.resolve sama.Operation.Access.authority
    sama.Operation.Access.authority_row mathlib.Core.Option.bind Database.connection_of
    Database.active_membership Database.grant_of Database.live_credential
    sama.Operation.Access.is_published any sama.Operation.Access.check sama.Audit.append_audit
    sama.Audit.is_code_char sama.Audit.is_entity_id sama.Audit.metadata_fields sama.Audit.safe_code
    sama.Audit.safe_code_chars sama.Audit.valid_actor sama.Audit.valid_event sama.Audit.valid_field
    sama.Audit.valid_fields Database.is_active_user sama.External.parse_identifier
    sama.Identity.Recent.is_recent sama.Identity.Recent.recent_at sama.Operation.Accept.accept_audit
    sama.Operation.Accept.admit sama.Operation.Accept.confirm_body
    sama.Operation.Accept.confirm_fresh sama.Operation.Accept.confirm_inspected
    sama.Operation.Accept.insert_job sama.Operation.Accept.insert_operation
    sama.Operation.Accept.new_operation sama.Operation.Accept.write_operation
    sama.Operation.Access.authorized sama.Operation.Access.class_of
    sama.Operation.Access.policy_permits sama.Operation.Access.valid_binding
    sama.Operation.Errors.in_tx Intent.factory_key Intent.is_key_char Intent.permits
    Intent.policy_version Intent.snapshot_action Intent.target_type Intent.valid_intent
    sama.Operation.Records.append_event sama.Operation.Records.is_lock_on
    sama.Operation.Records.operation_of sama.Operation.Records.reserve
    sama.Operation.Records.take_lock sama.Operation.Records.valid_target
    sama.Operation.Review.inspect sama.Operation.Review.valid_name count lookup update all_in
    is_alnum sama.Workspace.Role.allows sama.Workspace.Role.within_ceiling
fresh_here = refl

confirm_fresh-resolve_example : resolve 1 2 "key-1" 78 accepted ≡ (
    if 77 == 78 then ok (some (record { id = 50; state = State.queued })) else err Error.conflict)
confirm_fresh-resolve_example =
    confirm_fresh-resolve ext svc env caller 1 "key-1" confirmation "request" 77 78 answer before
      (unfold Intent.valid_key Intent.is_key_char all_in is_alnum in refl) fresh_here
