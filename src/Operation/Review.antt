-- ===== src/Operation/Review.antt =====
-- Preparing a review: Prepare and inspect of backend/internal/operation/review.go.
use sama.Prelude.{
  ℕ, ◌+◌, ◌*◌, Bool, true, false, ◌&&◌, ◌||◌, not, Option, none, some, ◌∷◌, String, ltb, leb, ◌==◌,
  ◌is◌, if◌then◌else◌, is_some, contains, Result, ok, err, pure, gets, modify, guard, ◌>>=◌, ◌>>◌,
  count,
}
use sama.Database.{Db, Env, Review, minute}
use sama.External.{External, Intent}
use sama.Identity.Recent.{Principal, is_recent}
use sama.Operation.Intent.{snapshot_action, factory_key, valid_intent, digest}
use sama.Operation.Errors.{
  Error, invalid, store, conflict, stale, denied, unsupported, provider, recent_required, OpTx,
  in_tx,
}
use sama.Operation.Access.{Service, Authority, authority, authorized, family_key, policy_permits}

-- provider.Preconditions; the fingerprint 0 is the zero hash.
pub record Preconditions : Type 0 where
  pub fingerprint : ℕ
  pub name : String
  pub allowed : Bool
  pub high : Bool

abbrev pub max_reviews : ℕ
max_reviews = 100

module _ (ext : External) (svc : Service) where
  unfoldable pub valid_name : String → Bool
  valid_name name =
      not (name is "")
      && ext.valid_utf8 name
      && leb (ext.rune_count name) 200
      && not (ext.has_control name)

  -- `answer` is what the adapter's Inspect returned under the budget; `none` is an error of the
  -- factory, of the budget or of the adapter.
  unfoldable pub inspect : Authority → String → Option Preconditions → Result Error Preconditions
  unfolding valid_name
  inspect a action answer =
      if not svc.enabled
        || not (contains svc.reviewers (factory_key (family_key a) action))
        || not (policy_permits ext svc a action)
      then err unsupported
      else elim answer [
        | none ↦ err provider
        | some p ↦
            if snapshot_action action && not p.high
            then err provider
            else if not p.allowed || p.fingerprint == 0
            then err stale
            else if not (valid_name p.name)
            then err provider
            else ok p
      ]

  unfoldable pub is_unexpired : Env → ℕ → Review → Bool
  is_unexpired env scope r =
      r.workspace == scope && not (is_some r.consumed) && ltb env.clock r.expiry

  -- The row that Prepare inserts.
  unfoldable pub new_review :
      Env → Principal → ℕ → ℕ → Intent → Authority → Preconditions → ℕ → Review
  new_review env p scope target i a pre hash = record {
    id = env.new_review;
    workspace = scope;
    actor = p.user;
    connection = a.connection;
    target = target;
    encoded = ext.intent_json i;
    hash = hash;
    preconditions = pre.fingerprint;
    credential = a.credential;
    policy = a.policy;
    high = pre.high;
    name = pre.name;
    expiry = env.now + 5 * minute;
    consumed = none;
  }

  -- The second transaction of Prepare; `a` is the authority that the first one read.
  unfoldable pub prepare_body :
      Env → Principal → ℕ → ℕ → Intent → Authority → Preconditions → ℕ → OpTx Review
  unfolding new_review
  prepare_body env p scope target i a pre hash = do
    current ← authority ext svc p.user scope target
    guard
        (current.credential == a.credential
          && current.policy == a.policy
          && authorized current i.action pre.high)
        stale
    unexpired ← gets (λ db. count (is_unexpired env scope) db.reviews)
    guard (ltb unexpired max_reviews) conflict
    modify (λ db. record db { reviews = new_review env p scope target i a pre hash ∷ db.reviews })
    pure (new_review env p scope target i a pre hash)

  -- Prepare reads the authority in the database `before`, inspects the provider outside any
  -- transaction, and inserts the review in the database that it then meets.
  unfoldable pub prepare :
      Env → Principal → ℕ → ℕ → Intent → Db → Option Preconditions → OpTx Review
  unfolding prepare_body
  prepare env p scope target i before answer db =
      if not (valid_intent i)
      then err invalid
      else if not svc.ready
      then err unsupported
      else if not env.begin_ok
      then err store
      else elim (authority ext svc p.user scope target before) [
        | err e ↦ err e
        | ok r ↦
            if not (authorized r.0 i.action false) && not (authorized r.0 i.action true)
            then err denied
            else elim (inspect r.0 i.action answer) [
              | err e ↦ err e
              | ok pre ↦
                  if pre.high && not (svc.sessions && is_recent p env.now)
                  then err recent_required
                  else if not env.random_ok
                  then err store
                  else elim (digest ext i scope p.user r.0.connection target env.new_review) [
                    | none ↦ err invalid
                    | some hash ↦ in_tx env (prepare_body env p scope target i r.0 pre hash) db
                  ]
            ]
      ]
