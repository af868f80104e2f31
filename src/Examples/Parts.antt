-- ===== src/Examples/Parts.antt =====
-- Witnesses for roles, members, jobs, the call budget and the smaller functions.
use sama.Prelude.{
  ℕ, ◌+◌, ◌*◌, ◌≤◌, ◌<◌, Bool, true, false, none, some, List, [], ◌∷◌, if◌then◌else◌, ◌==◌, ◌is◌,
  ◌≡◌, ◌≢◌, ◌&&◌, not, ◌||◌, refl, arith, ok, err, find, any, count, update, delete, lookup,
  update_at,
}
use sama.Database
use sama.Database.{
  Db, Env, Workspace, User, Membership, Job, JobState, JobKind, Gate, Role, owner, admin, operator,
  viewer, State, minute, second, hour, Event,
}
use sama.Workspace.Role.{allows, can_assign}
use sama.Workspace.Members.{change_member, owners}
use sama.Workspace.Members.Owners.{change_member-owners, HasUniqueMembers}
use sama.Operation.Receipt.{
  classify_action_receipt, classify_action_receipt_exact, admits_reference,
}
use sama.Operation.Expiry.{set_recovery, recovery_status}
use sama.Operation.Upkeep.{set_recovery-gate}
use sama.Operation.Records.{Lease, holds_lease}
use sama.Job.{extend, Error, Scheduler, claim, renew, finish, candidate, is_due, start_lease}
use sama.Job.Order.{is_open}
use sama.Job.Displaced
use sama.Job.Displaced.{claim-fences}
use sama.Job.Fencing.{IsClaimed, claim-IsClaimed, claim-ne_held, finish-once}
use sama.Outbound.Budget.{new_budget, enter, attempt}
use sama.Outbound.Admission.{
  Office, Steps, start, andthen, enters, takes, Tracks, Steps-Tracks, more, fewer,
}
use sama.Outbound.Retry.{seconds, retry_after, retry_after-reset}
use sama.Outbound.Dial.{
  Address, v4, v6, mapped, is_public, all_public, safe_dial, safe_dial-public, public_address,
  dial_first, unmap, is_in_any, special4, denied4,
}
use sama.Examples.{ext, env, before, committed}

classify_action_receipt_exact_example :
    classify_action_receipt "compute.server.reboot"
      (record { outcome = "rejected"; reference = "" })
      true
    ≡ (if true && ("rejected" is "accepted") && admits_reference "compute.server.reboot" ""
        then (State.waiting_provider, some "")
        else if true && ("rejected" is "rejected") && ("" is "")
        then (State.failed, none)
        else (State.reconciling, none))
classify_action_receipt_exact_example =
    classify_action_receipt_exact "compute.server.reboot"
      (record { outcome = "rejected"; reference = "" }) true

abbrev closed : Db
closed = record before { gate = record { is_open = false; version = 4 } }

abbrev reopened : Db
reopened = record before { gate = record { is_open = true; version = 5 } }

set_recovery-gate_example :
    (reopened ≡ record closed { gate = record { is_open = true; version = 4 + 1 } })
    × ((not true || closed.gate.version == 4 && (recovery_status closed).unresolved == 0) ≡ true)
set_recovery-gate_example = set_recovery-gate env true 4 closed {db' = reopened} (
    unfold set_recovery sama.Operation.Expiry.set_recovery_body sama.Operation.Errors.in_tx count in
    refl)

retry_after-reset_example :
    (retry_after (seconds 2) (some 10) 3 (3 * second) ≤ hour)
    × (10 * second ≤ 3 * second + retry_after (seconds 2) (some 10) 3 (3 * second))
    × (retry_after (seconds 2) none 3 (3 * second)
        ≤ retry_after (seconds 2) (some 10) 3 (3 * second))
retry_after-reset_example =
    retry_after-reset (seconds 2) 10 3 (3 * second) (omega arith) (omega arith) (omega arith)

abbrev due_job : Job
due_job = record {
  id = 60;
  workspace = 1;
  connection = 3;
  kind = JobKind.connection_refresh;
  payload_version = 1;
  operation = none;
  sync = none;
  state = JobState.queued;
  next_run = 900;
  lease_owner = none;
  lease_token = none;
  lease_expires = none;
  attempts = 0;
  deadline = 5000;
  completed = none;
}

abbrev held_job : Job
held_job = record due_job {
  id = 61;
  state = JobState.running;
  lease_owner = some 7;
  lease_token = some 5;
  lease_expires = some 4000;
}

abbrev scheduler : Scheduler
scheduler = record { operations = true; maintained = none }

abbrev held : Lease
held = record { id = 61; workspace = 1; connection = 3; owner = 7; token = 5; deadline = 5000 }

abbrev claimed : Lease
claimed = record { id = 60; workspace = 1; connection = 3; owner = 8; token = 9; deadline = 5000 }

abbrev lost : Lease
lost = record claimed { token = 6 }

abbrev queue : List Job
queue = held_job ∷ due_job ∷ []

abbrev queue_after : List Job
queue_after = held_job ∷ start_lease 1000 8 9 due_job ∷ []

abbrev unlocked : ℕ → Bool
unlocked i = false

claim_here : claim scheduler 1000 8 (some 9) true unlocked queue ≡ ok (claimed, queue_after)
unfolding claim candidate is_due update
claim_here = refl

claim-IsClaimed_example : IsClaimed scheduler 1000 claimed queue queue_after
claim-IsClaimed_example = claim-IsClaimed scheduler 1000 8 (some 9) true unlocked queue claim_here

queue_unique : (i : ℕ) → count (λ x. x.id == i) queue ≤ 1
unfolding count
queue_unique i = ground arith

claim-ne_held_example : claimed.id ≢ held.id
claim-ne_held_example =
    claim-ne_held scheduler 1000 8 (some 9) true unlocked queue held {l = claimed} queue_unique
      (unfold any holds_lease in refl) claim_here

-- The claimant renews its lease while another job is finished.
abbrev renewed_queue : List Job
renewed_queue = held_job ∷ extend 2000 (start_lease 1000 8 9 due_job) ∷ []

renews_here : renew 2000 claimed queue_after ≡ ok (tt, renewed_queue)
unfolding renew any update holds_lease start_lease
renews_here = refl

claim-fences_example :
    (renew 3000 lost renewed_queue ≡ err Error.unavailable)
    × (finish 3000 3000 lost JobState.succeeded renewed_queue ≡ err Error.unavailable)
claim-fences_example =
    claim-fences scheduler 1000 8 (some 9) true unlocked queue lost 3000 3000 JobState.succeeded
      {jobs'' = renewed_queue} claim_here refl (ground arith)
      (Displaced.andthen Displaced.start
        (Displaced.renews 2000 claimed {u = tt} renewed_queue renews_here))

finish-once_example :
    any (holds_lease 1500 held) (
      record held_job {
        state = JobState.succeeded;
        completed = some 1000;
        lease_owner = none;
        lease_token = none;
        lease_expires = none;
      }
      ∷ due_job
      ∷ [])
    ≡ false
finish-once_example =
    finish-once 1000 1500 1000 held JobState.succeeded queue (omega arith)
      (unfold finish any update holds_lease in refl)

abbrev empty_office : Office
empty_office = record { budget = new_budget; waiting = λ c. 0; running = λ c. 0 }

abbrev entered : Office
entered = record empty_office {
  budget = (enter ext 3 "scope" 10 new_budget).1;
  waiting = more 3 (λ c. 0);
}

abbrev started : Office
started = record {
  budget = (attempt 3 "scope" 10 false (entered.budget)).1;
  waiting = fewer 3 (more 3 (λ c. 0));
  running = more 3 (λ c. 0);
}

one_call : Steps ext empty_office started
unfolding enter attempt delete any lookup update_at update find
one_call =
    andthen (andthen start (enters 3 "scope" 10 refl)) (takes 3 "scope" 10 false (omega arith) refl)

empty-Tracks : Tracks empty_office
unfolding lookup
empty-Tracks = record { active = λ c. refl; refs = λ c. refl; at_most_two = λ c. omega arith }

Steps-Tracks_example : Tracks started
Steps-Tracks_example = Steps-Tracks ext empty-Tracks one_call

before_unique : HasUniqueMembers before
unfolding count
before_unique scope user = ground arith

abbrev joined : Db
joined = record before {
  users =
      record { id = 2; disabled = false; issuer = "issuer"; subject = "owner" }
      ∷ record { id = 5; disabled = false; issuer = "issuer"; subject = "guest" }
      ∷ [];
  memberships =
      record { workspace = 1; user = 2; role = owner; version = 1 }
      ∷ record { workspace = 1; user = 5; role = operator; version = 1 }
      ∷ [];
}

joined_unique : HasUniqueMembers joined
unfolding count
joined_unique scope user = ground arith

abbrev promoted : Db
promoted = committed joined (change_member ext env 2 1 5 owner 1 "request" joined)

promote_here : change_member ext env 2 1 5 owner 1 "request" joined ≡ ok (tt, promoted)
unfolding change_member allows sama.Workspace.Errors.in_tx sama.Workspace.Members.change_body
    sama.Workspace.Members.lock_authority Database.open_workspace find Database.active_membership
    can_assign sama.Workspace.Members.member_or_absent sama.Workspace.Members.apply_change
    sama.Workspace.Members.next_revision sama.Workspace.Members.write_member
    sama.Workspace.Members.member_audit sama.Audit.append_audit sama.Audit.valid_event
    sama.External.parse_identifier
promote_here = refl

change_member-owners_example : 0 < owners 1 promoted
change_member-owners_example =
    change_member-owners ext env 2 1 5 owner 1 "request" joined joined_unique promote_here 1
      (unfold owners count Database.is_active_user find in omega arith)

abbrev resolved : List Address
resolved = v4 16843009 ∷ v6 (mapped + 134744072) false ∷ []

safe_dial-public_example :
    (is_public (v4 134744072) ≡ true)
    × (all_public resolved ≡ true)
    × (("api.example" is "api.example") ≡ true)
    × (("443" is "443") ≡ true)
safe_dial-public_example =
    safe_dial-public "api.example" "tcp" (record { name = "api.example"; port = "443" }) resolved
      (λ k. false) (λ k. k == 1) {ip = v4 134744072}
      (unfold safe_dial all_public dial_first public_address is_public unmap is_in_any special4
          denied4 in
        refl)
