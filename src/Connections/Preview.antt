-- ===== src/Connections/Preview.antt =====
-- The preview of a connection: Preview of backend/internal/connection/validation.go, the checks of
-- credential.go, and Effective of backend/internal/provider/capability.go. The qualified reader is an
-- argument.
use Prim.Native.String.{len}
use sama.Prelude.{
  ℕ, Bool, true, false, ◌&&◌, ◌||◌, not, Option, none, some, List, [], ◌∷◌, String, ltb, leb, ◌==◌,
  ◌is◌, if◌then◌else◌, contains, length, is_some, Result, ok, err, codes, is_alnum, is_digit,
  all_in, any, ◌≡◌, refl, arith, ap, sym, ◌∙◌,
}
use sama.Database.{Db, admin, active_membership, open_workspace}
use sama.Workspace.Errors.{denied}
use sama.Workspace.Role.{allows}
use sama.Connections.Errors.{Error, of_workspace, credential, validation, unsupported, limited}
use sama.Connections.Lifecycle.{Preview}
use sama.Connections.Validation.{Window, permit}

-- Credential of credential.go.
pub record Secrets : Type 0 where
  pub kind : String  -- Type
  pub token : String
  pub client_id : String
  pub client_secret : String
  pub username : String
  pub password : String
  pub customer_number : String
  pub api_key : String
  pub api_password : String

-- Not one of the carriage return, the line feed and the NUL.
abbrev pub is_plain : ℕ → Bool
is_plain c = not (c == 13 || c == 10 || c == 0)

unfoldable pub valid_secret : String → Bool
unfolding all_in
valid_secret s = ltb 0 (len s) && leb (len s) 4096 && all_in is_plain (codes s)

-- ^[1-9][0-9]{0,19}$
unfoldable pub is_customer_number : List ℕ → Bool
unfolding all_in
is_customer_number [] = false
is_customer_number (c ∷ cs) =
    is_digit c && not (c == b'0') && all_in is_digit cs && leb (length cs) 19

abbrev pub is_empty_text : String → Bool
is_empty_text s = s is ""

unfoldable pub validate : Secrets → Bool
unfolding valid_secret is_customer_number
validate c =
    let legacy =
      not (is_empty_text c.customer_number)
      || not (is_empty_text c.api_key)
      || not (is_empty_text c.api_password) in
    let others =
      not (is_empty_text c.client_id)
      || not (is_empty_text c.client_secret)
      || not (is_empty_text c.username)
      || not (is_empty_text c.password) in
    if c.kind is "bearer_v1"
    then not legacy && valid_secret c.token && not others
    else if c.kind is "contabo_v1"
    then not legacy
      && is_empty_text c.token
      && valid_secret c.client_id
      && valid_secret c.client_secret
      && valid_secret c.username
      && valid_secret c.password
    else if c.kind is "netcup_legacy_v1"
    then is_customer_number (codes c.customer_number)
      && valid_secret c.api_key
      && valid_secret c.api_password
      && is_empty_text c.token
      && not others
    else false

-- strings.Contains, on code points.
unfoldable pub starts_with : List ℕ → List ℕ → Bool
starts_with [] text = true
starts_with (c ∷ cs) [] = false
starts_with (c ∷ cs) (d ∷ ds) = c == d && starts_with cs ds

unfoldable pub includes : List ℕ → List ℕ → Bool
unfolding starts_with
includes part [] = starts_with part []
includes part (d ∷ ds) = starts_with part (d ∷ ds) || includes part ds

abbrev pub secrets_of : Secrets → List String
secrets_of c =
    c.token ∷ c.client_id ∷ c.client_secret ∷ c.username ∷ c.password ∷ c.api_key ∷ c.api_password
    ∷ []

unfoldable pub contains_secret : Secrets → String → Bool
unfolding any includes
contains_secret c text =
    any (λ value. not (is_empty_text value) && includes (codes value) (codes text)) (secrets_of c)

abbrev is_account_char : ℕ → Bool
is_account_char c = is_alnum c || c == b'.' || c == b'_' || c == b':' || c == b'/' || c == b'-'

-- ^[A-Za-z0-9][A-Za-z0-9._:/-]{0,511}$
unfoldable pub safe_account : List ℕ → Bool
unfolding all_in is_alnum
safe_account [] = false
safe_account (c ∷ cs) = is_alnum c && all_in is_account_char cs && leb (length cs) 511

-- An entry of a catalog is an action and its class.
unfoldable pub effective :
    List (String × String)
    → List String
    → List String
    → List String
    → List String
    → List (String × Bool)
effective [] implemented checked granted allowed = []
effective ((action, class) ∷ rest) implemented checked granted allowed =
    (
      action,
      contains implemented action
          && contains checked action
          && contains granted class
          && contains allowed action,
    )
    ∷ effective rest implemented checked granted allowed

-- The EXISTS of Preview.
unfoldable pub manages : ℕ → ℕ → Db → Bool
manages actor scope db = elim (active_membership scope actor db) [
  | none ↦ false
  | some m ↦ is_some (open_workspace scope db) && allows m.role admin
]

abbrev unless : Bool → Preview → Result Error Preview
unless true p = err validation
unless false p = ok p

-- Preview after the limit: the answer of the reader, if it succeeded.
unfoldable pub judge : Secrets → Option (String × List String) → Result Error Preview
unfolding contains_secret safe_account effective
judge input none = err validation
judge input (some (account, checked)) =
    unless (not (safe_account (codes account)) || contains_secret input account) (record {
      account = account;
      capabilities =
          effective (("compute.server.read", "read") ∷ []) ("compute.server.read" ∷ []) checked
            ("read" ∷ []) ("compute.server.read" ∷ []);
    })

-- Preview, with the windows of the service before and after. `ready` says whether validation is
-- enabled and has a key; `reader` is the reader of the family, with what it answers.
unfoldable pub preview :
    Bool
    → ℕ
    → ℕ
    → Secrets
    → Option (Option (String × List String))
    → ℕ
    → Db
    → List Window
    → Result Error Preview × List Window
unfolding judge manages validate permit
preview ready actor scope input reader now db ws =
    if not ready
    then (err validation, ws)
    else if not (manages actor scope db)
    then (err (of_workspace denied), ws)
    else if not (validate input)
    then (err credential, ws)
    else elim reader [
      | none ↦ (err unsupported, ws)
      | some answer ↦
          let limit = permit now actor ws in
          if limit.0 then (judge input answer, limit.1) else (err limited, limit.1)
    ]

unless-ok : (t : Bool) (q p : Preview) → unless t q ≡ ok p → (t ≡ false) × (q ≡ p)
unless-ok true q p h = cc
unless-ok false q p h = (refl, ground (arith, h))

neither : (a b : Bool) → (not a || b) ≡ false → (b ≡ false) × (a ≡ true)
neither a b h = ground arith

judge-safe :
    (input : Secrets) (answer : Option (String × List String)) {p : Preview}
    → judge input answer ≡ ok p
    → (contains_secret input p.account ≡ false) × (safe_account (codes p.account) ≡ true)
unfolding judge
judge-safe input none h = cc
judge-safe input (some (account, checked)) {p = p} h =
    let (t, q) =
      unless-ok (not (safe_account (codes account)) || contains_secret input account) _ p h in
    let e : account ≡ p.account = ap (λ (x : Preview). x.account) q in
    let (secret, safe) = neither (safe_account (codes account)) (contains_secret input account) t in
    (ap (contains_secret input) (sym e) ∙ secret, ap (λ a. safe_account (codes a)) (sym e) ∙ safe)

-- A preview that succeeds: the caller is at least an admin of the open workspace and an active
-- member, the credential passes Validate, the limit let the call through, and the
-- account that is shown has only safe characters and contains none of the secrets.
pub preview-judge :
    (ready : Bool) (actor scope : ℕ) (input : Secrets)
    (reader : Option (Option (String × List String))) (now : ℕ) (db : Db) (ws : List Window)
    {p : Preview} {after : List Window}
    → preview ready actor scope input reader now db ws ≡ (ok p, after)
    → (manages actor scope db ≡ true)
      × (validate input ≡ true)
      × ((permit now actor ws).0 ≡ true)
      × (contains_secret input p.account ≡ false)
      × (safe_account (codes p.account) ≡ true)
unfolding preview
preview-judge ready actor scope input none now db ws h = absurd (ground (arith, h))
preview-judge ready actor scope input (some answer) now db ws {p = p} h =
    let judged : judge input answer ≡ ok p = ground (arith, h) in
    let (s, t) = judge-safe input answer judged in
    (ground (arith, h), ground (arith, h), ground (arith, h), s, t)
