-- ===== src/Database/Rows.antt =====
-- The rows of the tables. The CHECK constraints of backend/migrations leave a role four values, an
-- operation's state eight and a job's state five; the code also passes around roles that are empty
-- or none of those.
use sama.Prelude.{ℕ, Bool, Option, List, String}

pub data Role : Type 0 where
  empty viewer operator admin owner other_role : Role

pub data State : Type 0 where
  queued dispatching waiting_provider reconciling unknown succeeded failed cancelled : State

pub data JobState : Type 0 where
  queued running succeeded failed cancelled : JobState

pub data JobKind : Type 0 where
  connection_refresh operation_dispatch : JobKind

pub record Workspace : Type 0 where
  pub id : ℕ
  pub closed : Bool
  pub policy_version : ℕ
  pub queue_limit : ℕ

pub record User : Type 0 where
  pub id : ℕ
  pub disabled : Bool
  pub issuer : String
  pub subject : String

pub record Membership : Type 0 where
  pub workspace : ℕ
  pub user : ℕ
  pub role : Role
  pub version : ℕ

pub record Connection : Type 0 where
  pub workspace : ℕ
  pub id : ℕ
  pub brand : String  -- provider
  pub family : String  -- api_family
  pub credential : ℕ  -- active_credential_version
  pub status : String
  pub account : String  -- account_identity
  pub permissions_verified : Bool  -- permissions_verified_at IS NOT NULL
  pub capabilities : List String  -- verified_capabilities
  pub label : String

pub record Credential : Type 0 where
  pub workspace : ℕ
  pub connection : ℕ
  pub version : ℕ
  pub revoked : Bool
  pub envelope : ℕ  -- the columns of the encrypted value

pub record Grant : Type 0 where
  pub workspace : ℕ
  pub connection : ℕ
  pub user : ℕ
  pub actions : List String

pub record Resource : Type 0 where
  pub workspace : ℕ
  pub connection : ℕ
  pub id : ℕ
  pub scope : String
  pub native : String
  pub name : String
  pub kind : String  -- resource_type
  pub generation : ℕ
  pub tombstoned : Bool
  pub family : String  -- api_family
  pub native_status : String
  pub status : String
  pub details : String
  pub observed : ℕ
  pub version : ℕ

pub record SyncRun : Type 0 where
  pub workspace : ℕ
  pub connection : ℕ
  pub scope : String
  pub kind : String
  pub generation : ℕ
  pub status : String
  pub id : ℕ
  pub number : ℕ  -- generation_number
  pub actor : Option ℕ
  pub credential : Option ℕ  -- credential_version
  pub page_count : ℕ
  pub complete : Bool  -- scan_complete
  pub started : Option ℕ
  pub failure : Option String  -- failure_code
  pub completed : Option ℕ

pub record Review : Type 0 where
  pub id : ℕ
  pub workspace : ℕ
  pub actor : ℕ
  pub connection : ℕ
  pub target : ℕ
  pub encoded : String
  pub hash : ℕ
  pub preconditions : ℕ
  pub credential : ℕ
  pub policy : ℕ
  pub high : Bool
  pub name : String
  pub expiry : ℕ
  pub consumed : Option ℕ

pub record Operation : Type 0 where
  pub id : ℕ
  pub workspace : ℕ
  pub actor : ℕ
  pub connection : ℕ
  pub target : ℕ
  pub action : String
  pub hash : ℕ
  pub key : String  -- idempotency_key
  pub review : ℕ
  pub credential : ℕ
  pub policy : ℕ
  pub state : State
  pub version : ℕ
  pub sequence : ℕ  -- event_sequence
  pub reference : Option String  -- provider_reference
  pub deadline : ℕ
  pub updated : ℕ

pub record Job : Type 0 where
  pub id : ℕ
  pub workspace : ℕ
  pub connection : ℕ
  pub kind : JobKind
  pub payload_version : ℕ
  pub operation : Option ℕ
  pub sync : Option ℕ
  pub state : JobState
  pub next_run : ℕ
  pub lease_owner : Option ℕ
  pub lease_token : Option ℕ
  pub lease_expires : Option ℕ
  pub attempts : ℕ
  pub deadline : ℕ
  pub completed : Option ℕ

pub record Lock : Type 0 where
  pub workspace : ℕ
  pub connection : ℕ
  pub target_kind : String
  pub kind : String  -- resource_type
  pub scope : String
  pub native : String
  pub operation : ℕ
  pub fence : ℕ

-- `before` is none for the first event, whose from_state is the empty text.
pub record Event : Type 0 where
  pub workspace : ℕ
  pub operation : ℕ
  pub sequence : ℕ
  pub before : Option State
  pub after : State

pub data ActorKind : Type 0 where
  user_actor system_actor installation_actor : ActorKind

pub record Audit : Type 0 where
  pub id : ℕ
  pub workspace : ℕ
  pub actor_kind : ActorKind
  pub actor : Option ℕ
  pub kind : String
  pub request : String
  pub operation : Option ℕ
  pub created : ℕ

pub record Resolution : Type 0 where
  pub workspace : ℕ
  pub operation : ℕ
  pub actor : ℕ

pub record Gate : Type 0 where
  pub is_open : Bool
  pub version : ℕ

pub record Session : Type 0 where
  pub digest : ℕ
  pub user : ℕ
  pub authenticated : ℕ
  pub last_seen : ℕ
  pub idle_expires : ℕ
  pub absolute_expires : ℕ
  pub reauthenticated : Bool
  pub csrf : ℕ  -- csrf_digest
  pub audit_workspace : ℕ

pub record Invitation : Type 0 where
  pub digest : ℕ
  pub workspace : ℕ
  pub inviter : ℕ
  pub inviter_version : ℕ
  pub issuer : String
  pub subject : String
  pub role : Role
  pub expires : ℕ

-- A row of login_challenges; the digests of the state and of the browser.
pub record Challenge : Type 0 where
  pub state : ℕ
  pub browser : ℕ
  pub nonce : String
  pub verifier : String
  pub created : ℕ
  pub expires : ℕ
  pub invitation : Option ℕ
  pub session : Option ℕ

-- The only row of login_initiation_budget.
pub record LoginBudget : Type 0 where
  pub window_started : ℕ
  pub issued : ℕ
