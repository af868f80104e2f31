-- ===== src/Operation/Intent.antt =====
-- Intents, keys, policies: backend/internal/operation/intent.go, snapshot.go, idempotency.go
-- (ValidKey), budget.go, policy.go.
use Prim.Native.String.{len}
use sama.Prelude.{
  ℕ, ◌+◌, ◌^◌, ◌%◌, Bool, true, ◌&&◌, ◌||◌, not, Option, none, some, List, [], ◌∷◌, String, ◌≡◌,
  arith, ltb, leb, ◌==◌, ◌is◌, if◌then◌else◌, ◌followed_by◌, contains, codes, is_alnum, all_in,
}
use sama.External.{External, Intent}

abbrev pub power_on : String
power_on = "compute.server.power_on"

abbrev pub shutdown : String
shutdown = "compute.server.shutdown"

abbrev pub power_off : String
power_off = "compute.server.power_off"

abbrev pub reboot : String
reboot = "compute.server.reboot"

abbrev pub snapshot_create : String
snapshot_create = "compute.server.snapshot_create"

abbrev pub snapshot_delete : String
snapshot_delete = "storage.snapshot.delete"

unfoldable pub valid_intent : Intent → Bool
valid_intent i =
    i.parameters
    && ((i.action is power_on)
        || (i.action is shutdown)
        || (i.action is power_off)
        || (i.action is reboot)
        || (i.action is snapshot_create)
        || (i.action is snapshot_delete))

unfoldable pub snapshot_action : String → Bool
snapshot_action action = (action is snapshot_create) || (action is snapshot_delete)

unfoldable pub target_type : String → String
target_type action = if action is snapshot_delete then "storage.snapshot" else "compute.server"

unfoldable pub factory_key : String → String → String
unfolding snapshot_action
factory_key family action =
    if snapshot_action action then family followed_by ":" followed_by action else family

-- Every rune in a-z A-Z 0-9 . _ : -
unfoldable pub is_key_char : ℕ → Bool
unfolding is_alnum
is_key_char c = is_alnum c || c == b'.' || c == b'_' || c == b':' || c == b'-'

unfoldable pub valid_key : String → Bool
unfolding is_key_char all_in
valid_key key = not (len key == 0) && leb (len key) 128 && all_in is_key_char (codes key)

module _ (ext : External) where
  unfoldable pub decode_intent : String → Option Intent
  unfolding valid_intent
  decode_intent encoded =
      if ltb 1024 (len encoded) then none else elim (ext.strict_intent encoded) [
        | none ↦ none
        | some i ↦ if valid_intent i then some i else none
      ]

  -- `none` is ErrInvalid.
  unfoldable pub digest : Intent → ℕ → ℕ → ℕ → ℕ → ℕ → Option ℕ
  unfolding valid_intent
  digest i workspace actor connection target review =
      if valid_intent i
        && ext.uuid_version workspace == 7
        && ext.uuid_version actor == 7
        && ext.uuid_version connection == 7
        && ext.uuid_version target == 7
        && ext.uuid_version review == 7
      then some (ext.digest_scope i workspace actor connection target review)
      else none

  -- Every decoded intent is one of the six actions, with its parameters present.
  pub decode_intent-valid :
      (encoded : String) (i : Intent) → decode_intent encoded ≡ some i → valid_intent i ≡ true
  unfolding decode_intent
  decode_intent-valid encoded i h = ground arith

-- The map `allowed` by its keys.
pub record Policy : Type 0 where
  pub allowed : List String
  pub version : ℕ

abbrev pub join_lines : List String → String
join_lines [] = ""
join_lines (x ∷ []) = x
join_lines (x ∷ y ∷ rest) = x followed_by "\n" followed_by join_lines (y ∷ rest)

unfoldable pub keep_qualified : List String → List String → List String
keep_qualified qualified [] = []
keep_qualified qualified (key ∷ keys) =
    let rest = keep_qualified qualified keys in if contains qualified key then key ∷ rest else rest

module _ (ext : External) where
  unfoldable pub new_policy : List String → List String → Policy
  unfolding keep_qualified
  new_policy switches qualified =
      let keys = ext.sort_strings switches in
      record {
        allowed = keep_qualified qualified keys;
        version = ext.sha256_word (join_lines keys) % 2 ^ 63;
      }

  unfoldable pub permits : Policy → String → String → Bool
  permits p family action = contains p.allowed (family followed_by ":" followed_by action)

  -- `none` is a service with no policy.
  unfoldable pub policy_version : Option Policy → ℕ → ℕ
  policy_version none workspace = workspace
  policy_version (some p) workspace =
      ext.sha256_word
          (ext.format_int workspace followed_by ":" followed_by ext.format_int p.version)
        % 2 ^ 62
      + 1
