-- ===== src/Identity/Challenges.antt =====
-- Login challenges: backend/internal/identity/challenges.go. The CHECKs on the lengths of the nonce
-- and of the verifier, which 32 random bytes meet, have no clause.
pub mod Budget
pub mod Use
use sama.Prelude.{
  ℕ, ◌+◌, ◌*◌, Bool, true, false, ◌&&◌, ◌||◌, not, Option, none, some, List, [], ◌∷◌, String, ltb,
  leb, ◌==◌, if◌then◌else◌, ok, err, pure, gets, row, modify, guard, ◌>>=◌, ◌>>◌, find, any, delete,
  batch, length,
}
use sama.Database.{Db, Env, Challenge, LoginBudget, minute}
use sama.External.{External, token_digest}
use sama.Identity.Errors.{Error, unauthenticated, store, random, rate_limited, IdTx}

-- Challenge of the source, as Start returns it; `invitation` and `session` are digests.
pub record Started : Type 0 where
  pub state : String
  pub browser : String
  pub nonce : String
  pub verifier : String

-- The four answers of rand.Read.
pub record Randoms : Type 0 where
  pub state : Option (List ℕ)
  pub browser : Option (List ℕ)
  pub nonce : Option (List ℕ)
  pub verifier : Option (List ℕ)

-- The DELETE of at most 100 expired challenges.
unfoldable pub drop_expired : ℕ → Db → Db
unfolding batch
drop_expired now db =
    let old = batch (λ c. leb c.expires now) (λ c. c.expires) 100 db.challenges in
    record db { challenges = delete (λ c. any (λ o. o.state == c.state) old) db.challenges }

-- The INSERT ... ON CONFLICT of the budget; none where no row is returned.
unfoldable pub charge : ℕ → Option LoginBudget → Option LoginBudget
charge now none = some (record { window_started = now; issued = 1 })
charge now (some b) =
    if leb (b.window_started + minute) now
    then some (record { window_started = now; issued = 1 })
    else if ltb b.issued 30
    then some (record { window_started = b.window_started; issued = b.issued + 1 })
    else none

unfoldable pub insert_challenge : Challenge → IdTx Unit
insert_challenge c db =
    if any (λ x. x.state == c.state) db.challenges
    then err store
    else ok (tt, record db { challenges = c ∷ db.challenges })

module _ (ext : External) (env : Env) where
  -- The transaction of start from the deletion on; `s` holds the new tokens.
  unfoldable pub start_body : Option ℕ → Option ℕ → Started → IdTx Unit
  unfolding drop_expired charge insert_challenge
  start_body invitation session s = do
    modify (drop_expired env.now)
    charged ← gets (λ (db : Db). charge env.now db.login_budget)
    budget ← row rate_limited charged
    modify (λ (db : Db). record db { login_budget = some budget })
    total ← gets (λ (db : Db). length db.challenges)
    guard (ltb total 1000) rate_limited
    state ← row store (token_digest ext s.state)
    browser ← row store (token_digest ext s.browser)
    insert_challenge (record {
      state = state;
      browser = browser;
      nonce = s.nonce;
      verifier = s.verifier;
      created = env.now;
      expires = env.now + 5 * minute;
      invitation = invitation;
      session = session;
    })

  -- start; `locked` is the answer of pg_try_advisory_xact_lock.
  unfoldable pub start : Bool → Randoms → Option ℕ → Option ℕ → IdTx Started
  start locked raws invitation session = do
    state ← row random raws.state
    browser ← row random raws.browser
    nonce ← row random raws.nonce
    verifier ← row random raws.verifier
    let s : Started = record {
      state = ext.base64_encode state;
      browser = ext.base64_encode browser;
      nonce = ext.base64_encode nonce;
      verifier = ext.base64_encode verifier;
    }
    guard env.begin_ok store
    guard locked rate_limited
    start_body invitation session s
    guard env.commit_ok store
    pure s

  -- Start, StartInvitation and StartReauthentication.
  unfoldable pub start_login : Bool → Randoms → IdTx Started
  start_login locked raws = start locked raws none none

  unfoldable pub start_invitation : Bool → Randoms → String → IdTx Started
  start_invitation locked raws proof = do
    d ← row unauthenticated (token_digest ext proof)
    start locked raws (some d) none

  unfoldable pub start_reauthentication : Bool → Randoms → String → IdTx Started
  start_reauthentication locked raws token = do
    d ← row unauthenticated (token_digest ext token)
    start locked raws none (some d)

  abbrev pub is_answered : ℕ → ℕ → Challenge → Bool
  is_answered state browser c = c.state == state && c.browser == browser && ltb env.now c.expires

  -- Consume returns the deleted row.
  unfoldable pub consume : String → String → IdTx Challenge
  consume state browser = do
    s ← row unauthenticated (token_digest ext state)
    b ← row unauthenticated (token_digest ext browser)
    found ← gets (λ (db : Db). find (is_answered s b) db.challenges)
    c ← row unauthenticated found
    modify (λ (db : Db). record db { challenges = delete (is_answered s b) db.challenges })
    pure c
