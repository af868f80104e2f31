-- ===== src/Examples/Late.antt =====
-- The submitted operation of the examples whose job then expires.
use sama.Prelude.{
  ◌+◌, [], ◌∷◌, none, false, some, ◌≡◌, refl, ok, find, any, count, update, lookup, update_at,
  all_in, is_alnum,
}
use sama.Database
use sama.Database.{
  Db, Env, Workspace, User, Membership, Connection, Credential, Grant, Resource, SyncRun, Review,
  Operation, Job, JobState, JobKind, Gate, Role, owner, admin, State, minute, second,
}
use sama.External.{External, Intent}
use sama.Identity.Recent.{Principal}
use sama.Operation.Machine.{allowed}
use sama.Operation.Submission.{mark-dispatches, state_of}
use sama.Operation.Access.{Plan}
use sama.Job.{start_lease}
use sama.Operation.Intent
use sama.Operation.Access.{Service}
use sama.Operation.Accept.{confirm_fresh, resolve, Confirmation, Accepted, confirm}
use sama.Operation.Review.{Preconditions}
use sama.Operation.Records.{Lease}
use sama.Operation.Dispatch.{mark}
use sama.Operation.Errors.{Error, OpTx}
use sama.Operation.Finality.{Steps-state_of}
use sama.Operation.System.{start, andthen, gates}
use sama.Operation.Expiry.{set_recovery}
use sama.Operation.Expired.{expire_operation-state_of}
use sama.Operation.Expiry.{expire_operation, expired_state}
use sama.Examples.{
  before, ext, svc, env, worker, answer, plan, leased, submitted, marks_here, committed,
}

abbrev expired : Db
expired = committed submitted (expire_operation ext env 1 50 4 State.dispatching submitted)

expires_here : expire_operation ext env 1 50 4 State.dispatching submitted ≡ ok (tt, expired)
unfolding expire_operation sama.Operation.Records.execution_audit
    sama.Operation.Records.execution_kind confirm Intent.valid_key Database.open_workspace find
    sama.Operation.Access.load Intent.decode_intent Intent.digest sama.Operation.Accept.resolve
    sama.Operation.Access.authority sama.Operation.Access.authority_row mathlib.Core.Option.bind
    Database.connection_of Database.active_membership Database.grant_of Database.live_credential
    sama.Operation.Access.is_published any sama.Operation.Access.check sama.Audit.append_audit
    sama.Audit.is_code_char sama.Audit.is_entity_id sama.Audit.metadata_fields sama.Audit.safe_code
    sama.Audit.safe_code_chars sama.Audit.valid_actor sama.Audit.valid_event sama.Audit.valid_field
    sama.Audit.valid_fields Database.is_active_user sama.External.parse_identifier
    sama.Identity.Recent.is_recent sama.Identity.Recent.recent_at sama.Operation.Accept.accept_audit
    sama.Operation.Accept.admit sama.Operation.Accept.confirm_body
    sama.Operation.Accept.confirm_fresh sama.Operation.Accept.confirm_inspected
    sama.Operation.Accept.insert_job sama.Operation.Accept.insert_operation
    sama.Operation.Accept.new_operation sama.Operation.Accept.write_operation
    sama.Operation.Access.authorized sama.Operation.Access.class_of
    sama.Operation.Access.policy_permits sama.Operation.Access.valid_binding
    sama.Operation.Errors.in_tx Intent.factory_key Intent.is_key_char Intent.permits
    Intent.policy_version Intent.snapshot_action Intent.target_type Intent.valid_intent
    sama.Operation.Records.append_event sama.Operation.Records.is_lock_on
    sama.Operation.Records.operation_of sama.Operation.Records.reserve
    sama.Operation.Records.take_lock sama.Operation.Records.valid_target
    sama.Operation.Review.inspect sama.Operation.Review.valid_name count lookup update all_in
    is_alnum sama.Workspace.Role.allows sama.Workspace.Role.within_ceiling mark
    sama.Operation.Dispatch.mark_body sama.Operation.Dispatch.check_gate
    sama.Operation.Access.dispatch_load sama.Operation.Access.dispatch_check
    sama.Operation.Access.leased_operation sama.Operation.Records.advance
    sama.Operation.Records.set_state sama.Operation.Records.release_terminal
    sama.Operation.Records.holds_lease update_at allowed start_lease
expires_here = refl

expire_operation-state_of_example : state_of 1 50 expired ≡ some State.unknown
unfolding expired_state
expire_operation-state_of_example =
    expire_operation-state_of ext env 1 50 4 State.dispatching submitted
      (mark-dispatches ext svc env worker answer plan leased submitted marks_here).2 expires_here

-- An operation whose failure is known, and an owner who closes the recovery gate.
abbrev rejected : Db
rejected = record before {
  operations =
      record {
        id = 50;
        workspace = 1;
        actor = 2;
        connection = 3;
        target = 4;
        action = "compute.server.power_on";
        hash = 77;
        key = "key-1";
        review = 30;
        credential = 1;
        policy = 1;
        state = State.failed;
        version = 3;
        sequence = 3;
        reference = none;
        deadline = 5000;
        updated = 1000;
      }
      ∷ [];
}

abbrev gated : Db
gated = record rejected { gate = record { is_open = false; version = rejected.gate.version + 1 } }

gates_here : set_recovery env false 1 rejected ≡ ok (tt, gated)
unfolding set_recovery sama.Operation.Expiry.set_recovery_body sama.Operation.Errors.in_tx
gates_here = refl

rejected_here : state_of 1 50 rejected ≡ some State.failed
unfolding sama.Operation.Records.operation_of lookup
rejected_here = refl

Steps-state_of_example : state_of 1 50 gated ≡ some State.failed
Steps-state_of_example =
    Steps-state_of ext svc {a = record { db = rejected; sent = [] }}
      {b = record { db = gated; sent = [] }} 1 50 State.failed refl
      (andthen start (gates env false 1 gated gates_here)) rejected_here
