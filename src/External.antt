-- ===== src/External.antt =====
-- What the modelled code takes from outside the repository: uuids, hashing, JSON and Unicode tables
-- of the Go libraries. The fields are the functions; a theorem that needs a law of one of them
-- states it as a hypothesis.
use sama.Prelude.{
  ℕ, Bool, true, false, ◌&&◌, Option, none, some, List, String, ◌==◌, ◌is◌, length, if◌then◌else◌,
}

-- Intent of backend/internal/operation/intent.go; `parameters` says whether the pointer is set.
pub record Intent : Type 0 where
  pub action : String
  pub parameters : Bool

pub record External : Type 0 where
  pub uuid_parse : String → Option ℕ  -- uuid.Parse
  pub uuid_string : ℕ → String  -- UUID.String
  pub uuid_version : ℕ → ℕ  -- UUID.Version
  pub uuid_rfc4122 : ℕ → Bool  -- UUID.Variant() == uuid.RFC4122
  pub strict_intent : String → Option Intent  -- one JSON value with known fields, then io.EOF
  pub intent_json : Intent → String  -- json.Marshal
  pub digest_scope : Intent → ℕ → ℕ → ℕ → ℕ → ℕ → ℕ  -- sha256 over the JSON of Digest's struct
  pub sha256_word : String → ℕ  -- the first 8 bytes of sha256, as a big-endian uint64
  pub sort_strings : List String → List String  -- sort.Strings
  pub format_int : ℕ → String  -- strconv.FormatInt
  pub quota_digest : String → String → String → String  -- hex of sha256 over the parts with NULs
  pub valid_utf8 : String → Bool
  pub rune_count : String → ℕ
  pub base64_decode : String → Option (List ℕ)  -- base64.RawURLEncoding.DecodeString
  pub base64_encode : List ℕ → String  -- base64.RawURLEncoding.EncodeToString
  pub sha256 : String → ℕ  -- sha256.Sum256
  pub has_control : String → Bool  -- unicode.IsControl of some rune

-- identifier.Parse of backend/internal/identifier/uuid.go
unfoldable pub parse_identifier : External → String → Option ℕ
parse_identifier ext value = elim (ext.uuid_parse value) [
  | none ↦ none
  | some parsed ↦
      elim ((ext.uuid_string parsed is value)
        && ext.uuid_version parsed == 7
        && ext.uuid_rfc4122 parsed) [ true ↦ some parsed | false ↦ none ]
]

-- tokenDigest of backend/internal/identity/sessions.go, which InvitationDigest of
-- backend/internal/workspace/invitations.go repeats.
unfoldable pub token_digest : External → String → Option ℕ
token_digest ext token = elim (ext.base64_decode token) [
  | none ↦ none
  | some decoded ↦
      if (length decoded == 32) && (ext.base64_encode decoded is token)
      then some (ext.sha256 token)
      else none
]
