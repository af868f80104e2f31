-- ===== src/Identity/Challenges/Use.antt =====
-- A challenge from Start to Consume: backend/internal/identity/challenges.go.
use sama.Prelude.{
  ℕ, ◌+◌, ◌*◌, ◌≤◌, ◌<◌, Bool, true, Option, some, none, List, ◌∷◌, String, ◌≡◌, refl, ap, ◌∙◌, sym,
  arith, ok, err, bind-ok, guard-ok, row-ok, pure-ok, row, ltb, find, delete, length,
  find-delete-none,
}
use sama.Database.{Db, Env, Challenge, LoginBudget, minute}
use sama.External.{External, token_digest}
use sama.Identity.Errors.{Error}
use sama.Identity.Sessions.Life.{find-head}
use sama.Identity.Challenges.{
  Started, Randoms, drop_expired, charge, insert_challenge, start_body, start, is_answered, consume,
}

-- What Start stored for the tokens that it returns.
pub record IsStarted (ext : External) (now : ℕ) (invitation session : Option ℕ) (s : Started)
    (a b : Db) : Type 0 where
  pub state : ℕ
  pub browser : ℕ
  pub others : List Challenge
  pub budget : LoginBudget
  pub state_of : token_digest ext s.state ≡ some state
  pub browser_of : token_digest ext s.browser ≡ some browser
  pub few : length b.challenges ≤ 1000
  pub charged : charge now a.login_budget ≡ some budget
  pub budget_of : b.login_budget ≡ some budget
  pub challenges :
      b.challenges
      ≡ record {
        state = state;
        browser = browser;
        nonce = s.nonce;
        verifier = s.verifier;
        created = now;
        expires = now + 5 * minute;
        invitation = invitation;
        session = session;
      }
        ∷ others

insert_challenge-effect :
    (c : Challenge) (db : Db) {db' : Db}
    → insert_challenge c db ≡ ok (tt, db')
    → (db'.challenges ≡ c ∷ db.challenges) × (db'.login_budget ≡ db.login_budget)
unfolding insert_challenge
insert_challenge-effect c db h = ground arith

one_more :
    (c : Challenge) (l k : List Challenge)
    → l ≡ c ∷ k
    → ltb (length k) 1000 ≡ true
    → length l ≤ 1000
one_more c l k e h = ground (arith, e, h)

module _ (ext : External) (env : Env) where
  pub start_body-IsStarted :
      (invitation session : Option ℕ) (s : Started) (db : Db) {db' : Db}
      → start_body ext env invitation session s db ≡ ok (tt, db')
      → IsStarted ext env.now invitation session s db db'
  unfolding start_body drop_expired
  start_body-IsStarted invitation session s db {db' = db'} h =
      let db₁ : Db = drop_expired env.now db in
      let (budget, db₂, p₂, h₂) =
        bind-ok (row Error.rate_limited (charge env.now db₁.login_budget)) _ db₁ h in
      let (q₂, e₂) = row-ok Error.rate_limited (charge env.now db₁.login_budget) db₁ p₂ in
      let db₃ : Db = record db₂ { login_budget = some budget } in
      let (few, h₃) = guard-ok (ltb (length db₃.challenges) 1000) Error.rate_limited _ db₃ h₂ in
      let (state, db₄, p₄, h₄) = bind-ok (row Error.store (token_digest ext s.state)) _ db₃ h₃ in
      let (q₄, e₄) = row-ok Error.store (token_digest ext s.state) db₃ p₄ in
      let (browser, db₅, p₅, h₅) =
        bind-ok (row Error.store (token_digest ext s.browser)) _ db₄ h₄ in
      let (q₅, e₅) = row-ok Error.store (token_digest ext s.browser) db₄ p₅ in
      let c : Challenge = record {
        state = state;
        browser = browser;
        nonce = s.nonce;
        verifier = s.verifier;
        created = env.now;
        expires = env.now + 5 * minute;
        invitation = invitation;
        session = session;
      } in
      let (rows, kept) = insert_challenge-effect c db₅ h₅ in
      let same : db₅ ≡ db₃ = e₅ ∙ e₄ in
      let all = rows ∙ ap (λ (x : Db). c ∷ x.challenges) same in
      record {
        state = state;
        browser = browser;
        others = db₃.challenges;
        budget = budget;
        state_of = q₄;
        browser_of = q₅;
        few = one_more c db'.challenges db₃.challenges all few;
        charged = q₂;
        budget_of = kept ∙ ap (λ (x : Db). x.login_budget) same;
        challenges = all;
      }

  at_end :
      {invitation session : Option ℕ} {s s' : Started} {a b b' : Db}
      → s ≡ s'
      → b ≡ b'
      → IsStarted ext env.now invitation session s a b
      → IsStarted ext env.now invitation session s' a b'
  at_end p q i = rw (sym p, sym q) i

  at_start :
      {invitation session : Option ℕ} {s : Started} {a a' b : Db}
      → a ≡ a'
      → IsStarted ext env.now invitation session s a b
      → IsStarted ext env.now invitation session s a' b
  at_start p i = rw (sym p) i

  pub start-IsStarted :
      (locked : Bool) (raws : Randoms) (invitation session : Option ℕ) (db : Db) {s : Started}
      {db' : Db}
      → start ext env locked raws invitation session db ≡ ok (s, db')
      → IsStarted ext env.now invitation session s db db'
  unfolding start
  start-IsStarted locked raws invitation session db {s = s} {db' = db'} h =
      let (state, d1, p1, h1) = bind-ok (row Error.random raws.state) _ db h in
      let (_, e1) = row-ok Error.random raws.state db p1 in
      let (browser, d2, p2, h2) = bind-ok (row Error.random raws.browser) _ d1 h1 in
      let (_, e2) = row-ok Error.random raws.browser d1 p2 in
      let (nonce, d3, p3, h3) = bind-ok (row Error.random raws.nonce) _ d2 h2 in
      let (_, e3) = row-ok Error.random raws.nonce d2 p3 in
      let (verifier, d4, p4, h4) = bind-ok (row Error.random raws.verifier) _ d3 h3 in
      let (_, e4) = row-ok Error.random raws.verifier d3 p4 in
      let made : Started = record {
        state = ext.base64_encode state;
        browser = ext.base64_encode browser;
        nonce = ext.base64_encode nonce;
        verifier = ext.base64_encode verifier;
      } in
      let (_, h5) = guard-ok env.begin_ok Error.store _ d4 h4 in
      let (_, h6) = guard-ok locked Error.rate_limited _ d4 h5 in
      let (_, d7, p7, h7) = bind-ok (start_body ext env invitation session made) _ d4 h6 in
      let (_, h8) = guard-ok env.commit_ok Error.store _ d7 h7 in
      let (f, g) = pure-ok made s d7 db' h8 in
      let same : d4 ≡ db = e4 ∙ e3 ∙ e2 ∙ e1 in
      at_start same (at_end f g (start_body-IsStarted invitation session made d4 p7))

consume-found :
    (ext : External) (env : Env) (state browser : String) (s b : ℕ) (c : Challenge) (db : Db)
    → token_digest ext state ≡ some s
    → token_digest ext browser ≡ some b
    → find (is_answered ext env s b) db.challenges ≡ some c
    → consume ext env state browser db
      ≡ ok (c, record db { challenges = delete (is_answered ext env s b) db.challenges })
unfolding consume
consume-found ext env state browser s b c db p q r = rw (p, q, r) refl

module _ (ext : External) (env : Env) where
  -- For five minutes after Start, whoever has both the state and the browser token that it
  -- returned gets the challenge back: its nonce, its verifier, what it is bound to, and its time.
  -- At most 1000 challenges are stored then.
  pub start-consume :
      (locked : Bool) (raws : Randoms) (invitation session : Option ℕ) (later : Env) (db : Db)
      {s : Started} {db' : Db}
      → later.now < env.now + 5 * minute
      → start ext env locked raws invitation session db ≡ ok (s, db')
      → (length db'.challenges ≤ 1000)
        × (c : Challenge) × (after : Db) × (consume ext later s.state s.browser db' ≡ ok (c, after))
        × (c.nonce ≡ s.nonce)
        × (c.verifier ≡ s.verifier)
        × (c.invitation ≡ invitation)
        × (c.session ≡ session)
        × (c.created ≡ env.now)
  start-consume locked raws invitation session later db {s = s} {db' = db'} soon h =
      let i = start-IsStarted ext env locked raws invitation session db h in
      let c : Challenge = record {
        state = i.state;
        browser = i.browser;
        nonce = s.nonce;
        verifier = s.verifier;
        created = env.now;
        expires = env.now + 5 * minute;
        invitation = invitation;
        session = session;
      } in
      let found =
        find-head (is_answered ext later i.state i.browser) c i.others db'.challenges i.challenges
          (ground (arith, soon)) in
      (
        i.few,
        c,
        record db' { challenges = delete (is_answered ext later i.state i.browser) db'.challenges },
        consume-found ext later s.state s.browser i.state i.browser c db' i.state_of i.browser_of
            found,
        refl,
        refl,
        refl,
        refl,
        refl,
      )

  -- A challenge is consumed once: after a Consume that succeeds, every later one with the same
  -- state and browser tokens is refused.
  pub consume-once :
      (state browser : String) (later : Env) (db : Db) {c : Challenge} {db' : Db}
      → env.now ≤ later.now
      → consume ext env state browser db ≡ ok (c, db')
      → consume ext later state browser db' ≡ err Error.unauthenticated
  unfolding consume
  consume-once state browser later db {c = c} {db' = db'} le h =
      let (s, d1, p1, h1) = bind-ok (row Error.unauthenticated (token_digest ext state)) _ db h in
      let (q1, e1) = row-ok Error.unauthenticated (token_digest ext state) db p1 in
      let (b, d2, p2, h2) =
        bind-ok (row Error.unauthenticated (token_digest ext browser)) _ d1 h1 in
      let (q2, e2) = row-ok Error.unauthenticated (token_digest ext browser) d1 p2 in
      let (x, d3, p3, h3) =
        bind-ok (row Error.unauthenticated (find (is_answered ext env s b) d2.challenges)) _ d2
          h2 in
      let (f, g) =
        pure-ok x c (record d3 { challenges = delete (is_answered ext env s b) d3.challenges }) db'
          h3 in
      let gone : find (is_answered ext later s b) db'.challenges ≡ none =
        ap (λ (y : Db). find (is_answered ext later s b) y.challenges) (sym g)
        ∙ find-delete-none (is_answered ext env s b) (is_answered ext later s b) d3.challenges
            (λ y m. ground (arith, m, le)) in
      rw (q1, q2, gone) refl
