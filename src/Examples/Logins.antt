-- ===== src/Examples/Logins.antt =====
-- Witnesses for sessions and login challenges.
use sama.Prelude.{
  ℕ, ◌+◌, ◌*◌, ◌≤◌, ◌<◌, Bool, true, false, none, some, List, [], ◌∷◌, String, ◌≡◌, refl, arith, ok,
  ◌≢◌, err, find, count, length,
}
use sama.Database
use sama.Database.{Db, Env, Session, Challenge, minute, hour}
use sama.External.{token_digest}
use sama.Identity.Errors.{Error}
use sama.Identity.Recent.{Principal, recent_at}
use sama.Identity.Sessions.{
  SessionPolicy, default_policy, valid_policy, create, resolve, logout, slide, is_usable,
  valid_csrf, may_rotate, has_digest, rotate_recent,
}
use sama.Identity.Sessions.Life.{IsSlid, create-resolve, resolve-slides, logout-resolve}
use sama.Identity.Sessions.Rotation.{rotate_recent-resolve}
use sama.Identity.Challenges.{Randoms, start, consume}
use sama.Identity.Challenges.Use.{start-consume, consume-once}
use sama.Identity.Challenges.Budget.{
  System, IsBudgeted, issued_in, begin, andthen, starts, Steps-IsBudgeted, window_of,
}
use sama.Examples.{ext, env, before, committed, raw_token, other_token}

abbrev later : Env
later = record env { now = 2000 }

abbrev signed_in : Db
signed_in =
    committed before
      (create ext default_policy env (some raw_token) (some other_token) 2 900 "" before)

creates_here :
    create ext default_policy env (some raw_token) (some other_token) 2 900 "" before
    ≡ ok (record { token = "token"; csrf = "other" }, signed_in)
unfolding create sama.External.parse_identifier sama.Identity.Sessions.insert_session
    Database.is_active_user find token_digest sama.Prelude.any
creates_here = refl

policy_here : valid_policy default_policy ≡ true
unfolding valid_policy
policy_here = refl

active_here : Database.is_active_user 2 before ≡ true
unfolding Database.is_active_user find
active_here = refl

create-resolve_example :
    (p : Principal) × (after : Db) × (resolve ext default_policy later "token" signed_in
      ≡ ok (p, after))
    × (p.user ≡ 2)
    × (p.authenticated_at ≡ 900)
    × (p.reauthenticated ≡ false)
    × (valid_csrf ext default_policy later p "other" ≡ true)
create-resolve_example =
    create-resolve ext default_policy env (some raw_token) (some other_token) 2 900 "" later before
      policy_here active_here (omega arith) creates_here

abbrev answered : Principal
answered = record { user = 2; authenticated_at = 900; csrf = 1002; reauthenticated = false }

abbrev slid : Db
slid = committed signed_in (resolve ext default_policy later "token" signed_in)

resolves_here : resolve ext default_policy later "token" signed_in ≡ ok (answered, slid)
unfolding resolve token_digest find create sama.External.parse_identifier
    sama.Identity.Sessions.insert_session Database.is_active_user sama.Prelude.any
resolves_here = refl

resolve-slides_example :
    (d : ℕ) × (s : Session) × (token_digest ext "token" ≡ some d)
    × (find (is_usable ext default_policy later d signed_in) signed_in.sessions ≡ some s)
    × (2000 < s.idle_expires)
    × (2000 < s.absolute_expires)
    × (answered ≡ record {
      user = s.user;
      authenticated_at = s.authenticated;
      csrf = s.csrf;
      reauthenticated = s.reauthenticated;
    })
    × (slid ≡ record signed_in {
      sessions =
          sama.Prelude.update
            (is_usable ext default_policy later d signed_in)
            (slide ext default_policy later)
            signed_in.sessions;
    })
    × IsSlid default_policy 2000 s (slide ext default_policy later s)
resolve-slides_example = resolve-slides ext default_policy later "token" signed_in resolves_here

abbrev signed_out : Db
signed_out = committed signed_in (logout ext default_policy later "token" "request" signed_in)

logs_out_here : logout ext default_policy later "token" "request" signed_in ≡ ok (tt, signed_out)
unfolding logout token_digest find create sama.External.parse_identifier
    sama.Identity.Sessions.insert_session Database.is_active_user sama.Prelude.any
    sama.Identity.Sessions.logout_audit sama.Audit.append_audit sama.Audit.valid_event
logs_out_here = refl

logout-resolve_example :
    resolve ext default_policy later "token" signed_out ≡ err Error.unauthenticated
logout-resolve_example =
    logout-resolve ext default_policy later "token" "request" default_policy later signed_in
      logs_out_here

abbrev rotated : Db
rotated = committed signed_in (
    rotate_recent ext default_policy later (some other_token) (some other_token) 2 1500 "token" 1001
      signed_in)

rotates_here :
    rotate_recent ext default_policy later
      (some other_token)
      (some other_token)
      2
      1500
      "token"
      1001
      signed_in
    ≡ ok (record { token = "other"; csrf = "other" }, rotated)
unfolding rotate_recent token_digest recent_at count sama.External.parse_identifier
    sama.Identity.Sessions.insert_session Database.is_active_user find sama.Prelude.any
    sama.Prelude.delete
rotates_here = refl

active_then : Database.is_active_user 2 signed_in ≡ true
unfolding Database.is_active_user find create sama.External.parse_identifier
    sama.Identity.Sessions.insert_session token_digest sama.Prelude.any
active_then = refl

one_row : count (has_digest 1001) signed_in.sessions ≤ 1
unfolding count create sama.External.parse_identifier sama.Identity.Sessions.insert_session
    Database.is_active_user find token_digest sama.Prelude.any
one_row = omega arith

other_digest : token_digest ext "other" ≢ token_digest ext "token"
unfolding token_digest
other_digest e = absurd (ground (arith, e))

rotate_recent-resolve_example :
    (token_digest ext "token" ≡ some 1001)
    × (recent_at 1500 2000 ≡ true)
    × (count (may_rotate ext default_policy later 1001 2) signed_in.sessions ≡ 1)
    × (p : Principal) × (after : Db) × (resolve ext default_policy later "other" rotated
        ≡ ok (p, after))
    × (p.user ≡ 2)
    × (p.authenticated_at ≡ 1500)
    × (p.reauthenticated ≡ true)
    × (resolve ext default_policy later "token" rotated ≡ err Error.unauthenticated)
rotate_recent-resolve_example =
    rotate_recent-resolve ext default_policy later (some other_token) (some other_token) 2 1500
      "token" 1001 later default_policy later signed_in policy_here active_then (omega arith)
      one_row other_digest rotates_here

abbrev randoms : Randoms
randoms = record {
  state = some raw_token;
  browser = some other_token;
  nonce = some raw_token;
  verifier = some raw_token;
}

abbrev started_db : Db
started_db = committed before (start ext env true randoms none none before)

starts_here :
    start ext env true randoms none none before
    ≡ ok (
      record { state = "token"; browser = "other"; nonce = "token"; verifier = "token" },
      started_db,
    )
unfolding start sama.Identity.Challenges.start_body sama.Prelude.delete token_digest
    sama.Prelude.any
starts_here = refl

start-consume_example :
    (length started_db.challenges ≤ 1000)
    × (c : Challenge) × (after : Db) × (consume ext later "token" "other" started_db
        ≡ ok (c, after))
    × (c.nonce ≡ "token")
    × (c.verifier ≡ "token")
    × (c.invitation ≡ none)
    × (c.session ≡ none)
    × (c.created ≡ 1000)
start-consume_example =
    start-consume ext env true randoms none none later before (omega arith) starts_here

abbrev consumed_db : Db
consumed_db = committed started_db (consume ext later "token" "other" started_db)

abbrev challenge : Challenge
challenge = record {
  state = 1001;
  browser = 1002;
  nonce = "token";
  verifier = "token";
  created = 1000;
  expires = 1000 + 5 * minute;
  invitation = none;
  session = none;
}

consumes_here : consume ext later "token" "other" started_db ≡ ok (challenge, consumed_db)
unfolding consume token_digest find start sama.Identity.Challenges.start_body sama.Prelude.delete
    sama.Prelude.any
consumes_here = refl

consume-once_example : consume ext later "token" "other" consumed_db ≡ err Error.unauthenticated
consume-once_example =
    consume-once ext later "token" "other" later started_db (omega arith) consumes_here

abbrev idle_system : System
idle_system = record { db = before; windows = [] }

abbrev busy_system : System
busy_system = record { db = started_db; windows = window_of started_db.login_budget ∷ [] }

idle-IsBudgeted : IsBudgeted before.login_budget []
unfolding issued_in count
idle-IsBudgeted = record {
  limit = λ w. omega arith;
  apart = λ v w p q lt. absurd (omega (arith, p));
  unused = λ w e. refl;
  current = λ b e. absurd (ground (arith, e));
  positive = λ b e. absurd (ground (arith, e));
  last = λ b w e lt. refl;
}

Steps-IsBudgeted_example : IsBudgeted busy_system.db.login_budget busy_system.windows
Steps-IsBudgeted_example =
    Steps-IsBudgeted ext {x = idle_system} {y = busy_system} idle-IsBudgeted
      (andthen begin (starts env true randoms none none _ started_db starts_here))
