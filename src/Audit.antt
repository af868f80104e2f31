-- ===== src/Audit.antt =====
-- backend/internal/audit/append.go: the allowlist of audit events. A metadata value is a uuid, a
-- role or a text; a uuid's text is what UUID.String gives.
use Prim.Native.String.{len}
use sama.Prelude.{
  ℕ, Bool, true, false, ◌&&◌, ◌||◌, not, Option, none, some, List, [], ◌∷◌, String, leb, ◌==◌, ◌is◌,
  if◌then◌else◌, contains, length, is_some, codes, is_alnum, all_in,
}
use sama.Database.{
  ActorKind, user_actor, Role, empty, viewer, operator, admin, owner, other_role, Db,
}
use sama.External.{External, parse_identifier}

pub data Value : Type 0 where
  uuid : ℕ → Value
  role : Role → Value
  text : String → Value

pub record AuditEvent : Type 0 where
  pub id : ℕ
  pub workspace : ℕ
  pub actor_kind : ActorKind
  pub actor : Option ℕ
  pub kind : String
  pub request : String
  pub metadata : List (String × Value)

-- The characters of `safeCode` after its first.
unfoldable pub is_code_char : ℕ → Bool
is_code_char c = is_alnum c || c == b'.' || c == b'_' || c == b'-'

-- ^[A-Za-z0-9][A-Za-z0-9._-]{0,63}$
unfoldable pub safe_code_chars : List ℕ → Bool
unfolding is_code_char all_in is_alnum
safe_code_chars [] = false
safe_code_chars (c ∷ cs) = is_alnum c && all_in is_code_char cs && leb (length cs) 63

unfoldable pub safe_code : String → Bool
unfolding safe_code_chars
safe_code s = safe_code_chars (codes s)

-- The keys of `metadataFields`; `none` where the event type has no entry.
unfoldable pub metadata_fields : String → Option (List String)
metadata_fields kind =
    if (kind is "connection.grants_changed") || (kind is "connection.grants_denied")
    then some ("connection_id" ∷ "member_id" ∷ [])
    else if kind is "invitation.created"
    then some ("role" ∷ [])
    else if (kind is "auth.logout") || (kind is "auth.login") || (kind is "workspace.created")
    then some []
    else if kind is "workspace.settings_changed"
    then some ("policy_version" ∷ [])
    else if kind is "membership.changed"
    then some ("member_id" ∷ "role" ∷ [])
    else if (kind is "connection.created")
        || (kind is "connection.credential_rotated")
        || (kind is "connection.disabled")
    then some ("connection_id" ∷ [])
    else if (kind is "operation.accepted") || (kind is "operation.completed")
    then some ("operation_id" ∷ "resource_id" ∷ [])
    else if (kind is "operation.failed")
        || (kind is "operation.reconciled")
        || (kind is "operation.cancelled")
        || (kind is "operation.reservation_released")
    then some ("operation_id" ∷ "resource_id" ∷ "reason_code" ∷ [])
    else none

abbrev pub role_name : Role → String
role_name empty = ""
role_name viewer = "viewer"
role_name operator = "operator"
role_name admin = "admin"
role_name owner = "owner"
role_name other_role = "other"

abbrev pub is_known_role : String → Bool
is_known_role s = (s is "viewer") || (s is "operator") || (s is "admin") || (s is "owner")

module _ (ext : External) where
  unfoldable pub is_entity_id : ℕ → Bool
  is_entity_id value = is_some (parse_identifier ext (ext.uuid_string value))

  abbrev pub value_text : Value → String
  value_text (uuid u) = ext.uuid_string u
  value_text (role r) = role_name r
  value_text (text s) = s

  unfoldable pub valid_field : List String → String → Value → Bool
  valid_field allowed key value =
      let s = value_text value in
      contains allowed key
      && not (len s == 0)
      && leb (len s) 64
      && (if (key is "member_id")
            || (key is "connection_id")
            || (key is "operation_id")
            || (key is "resource_id")
          then is_some (parse_identifier ext s)
          else if key is "role"
          then is_known_role s
          else if key is "reason_code"
          then safe_code s
          else true)

  unfoldable pub valid_fields : List String → List (String × Value) → Bool
  valid_fields allowed [] = true
  valid_fields allowed ((key, value) ∷ rest) =
      valid_field allowed key value && valid_fields allowed rest

  unfoldable pub valid_actor : ActorKind → Option ℕ → Bool
  valid_actor user_actor none = false
  valid_actor user_actor (some actor) = is_entity_id actor
  valid_actor _ actor = not (is_some actor)

  unfoldable pub valid_event : AuditEvent → Bool
  unfolding valid_fields valid_field valid_actor is_entity_id metadata_fields safe_code
  valid_event event =
      is_entity_id event.id
      && is_entity_id event.workspace
      && leb (len event.request) 64
      && safe_code event.request
      && valid_actor event.actor_kind event.actor
      && elim (metadata_fields event.kind) [
        | none ↦ false
        | some allowed ↦ leb (length event.metadata) 8 && valid_fields allowed event.metadata
      ]

abbrev operation_field : List (String × Value) → Option ℕ
operation_field [] = none
operation_field ((key, uuid u) ∷ rest) =
    let later = operation_field rest in if key is "operation_id" then some u else later
operation_field ((key, other) ∷ rest) = operation_field rest

-- `none` where validation refuses the event.
unfoldable pub append_audit : External → ℕ → AuditEvent → Db → Option Db
append_audit ext clock event db = elim (valid_event ext event) [
  | false ↦ none
  | true ↦ some (record db {
    audits =
        record {
          id = event.id;
          workspace = event.workspace;
          actor_kind = event.actor_kind;
          actor = event.actor;
          kind = event.kind;
          request = event.request;
          operation = operation_field event.metadata;
          created = clock;
        }
        ∷ db.audits;
  })
]
