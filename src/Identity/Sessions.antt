-- ===== src/Identity/Sessions.antt =====
-- Sessions: backend/internal/identity/sessions.go, logout.go and the rotation of recent.go. The
-- clock of the process is `now` of Env; a statement outside a transaction is one step.
pub mod Created
pub mod Life
pub mod Rotation
use sama.Prelude.{
  ℕ, ◌+◌, ◌*◌, ◌/◌, min, max, Bool, true, false, ◌&&◌, ◌||◌, not, Option, none, some, List, [], ◌∷◌,
  String, ltb, leb, ◌==◌, ◌is◌, if◌then◌else◌, is_some, ok, err, Result, pure, gets, row, modify,
  guard, ◌>>=◌, ◌>>◌, find, any, count, update, delete, batch,
}
use sama.Database.{Db, Env, Membership, Session, user_actor, is_active_user, second, minute, hour}
use sama.External.{External, token_digest, parse_identifier}
use sama.Audit.{append_audit}
use sama.Identity.Errors.{
  Error, unauthenticated, store, random, recent_required, reauth_unsupported, IdTx, bad_limit,
}
use sama.Identity.Recent.{Principal, recent_at}

pub record SessionPolicy : Type 0 where
  pub idle : ℕ
  pub absolute : ℕ

abbrev pub default_policy : SessionPolicy
default_policy = record { idle = 30 * minute; absolute = 12 * hour }

-- The check of NewSessions.
unfoldable pub valid_policy : SessionPolicy → Bool
valid_policy p =
    leb second p.idle
    && leb p.idle p.absolute
    && leb p.idle (24 * hour)
    && leb p.absolute (30 * 24 * hour)

-- The pair that Create returns.
pub record Tokens : Type 0 where
  pub token : String
  pub csrf : String

-- SELECT workspace_id FROM memberships WHERE user_id=$2 ORDER BY workspace_id LIMIT 1
unfoldable pub first_workspace : ℕ → List Membership → Option ℕ
first_workspace user [] = none
first_workspace user (m ∷ ms) =
    let rest = first_workspace user ms in
    if m.user == user
    then elim rest [ none ↦ some m.workspace | some w ↦ some (min m.workspace w) ]
    else rest

abbrev pub has_digest : ℕ → Session → Bool
has_digest d s = s.digest == d

-- The row that Create inserts.
abbrev pub new_session : SessionPolicy → ℕ → ℕ → ℕ → ℕ → ℕ → ℕ → Session
new_session policy now user d c at w = record {
  digest = d;
  user = user;
  authenticated = at;
  last_seen = now;
  idle_expires = now + policy.idle;
  absolute_expires = now + policy.absolute;
  reauthenticated = false;
  csrf = c;
  audit_workspace = w;
}

-- Against the primary key.
unfoldable pub store_session : Session → IdTx Unit
store_session s db =
    if any (has_digest s.digest) db.sessions
    then err store
    else ok (tt, record db { sessions = s ∷ db.sessions })

-- The INSERT of Create: no row for a user that is missing or disabled; the digests and the audit
-- workspace are NOT NULL.
unfoldable pub insert_session : SessionPolicy → ℕ → ℕ → Option ℕ → Option ℕ → ℕ → IdTx Unit
unfolding first_workspace store_session
insert_session policy now user digest csrf at db =
    (if is_active_user user db
        then (do
          d ← row store digest
          c ← row store csrf
          w ← row store (first_workspace user db.memberships)
          store_session (new_session policy now user d c at w))
        else pure tt)
      db

abbrev pub owned_by : ℕ → ℕ → Session → Bool
owned_by d user s = s.digest == d && s.user == user

abbrev pub unexpired : ℕ → Session → Bool
unexpired now s = ltb now s.idle_expires && ltb now s.absolute_expires

-- The DELETE of Create, for a previous token that is one.
unfoldable pub end_previous : Option ℕ → ℕ → Db → Db
end_previous none user db = db
end_previous (some d) user db = record db { sessions = delete (owned_by d user) db.sessions }

-- SELECT EXISTS of Create.
abbrev pub is_present : Option ℕ → Db → Bool
is_present none db = false
is_present (some d) db = any (has_digest d) db.sessions

abbrev pub mark_reauthenticated : Option ℕ → Db → Db
mark_reauthenticated none db = db
mark_reauthenticated (some d) db = record db {
  sessions = update (has_digest d) (λ s. record s { reauthenticated = true }) db.sessions;
}

module _ (ext : External) (policy : SessionPolicy) (env : Env) where
  -- Create, in the transaction of the caller. `raw` and `raw_csrf` are the answers of rand.Read.
  unfoldable pub create : Option (List ℕ) → Option (List ℕ) → ℕ → ℕ → String → IdTx Tokens
  unfolding end_previous
  create raw raw_csrf user at previous = do
    guard (is_some (parse_identifier ext (ext.uuid_string user)) && leb at env.now && not (at == 0))
        unauthenticated
    bytes ← row random raw
    csrf_bytes ← row random raw_csrf
    modify (end_previous (token_digest ext previous) user)
    insert_session policy env.now user (token_digest ext (ext.base64_encode bytes))
        (token_digest ext (ext.base64_encode csrf_bytes)) at
    present ← gets (is_present (token_digest ext (ext.base64_encode bytes)))
    guard present unauthenticated
    pure (record { token = ext.base64_encode bytes; csrf = ext.base64_encode csrf_bytes })

  abbrev pub is_usable : ℕ → Db → Session → Bool
  is_usable d db s = s.digest == d && is_active_user s.user db && unexpired env.now s

  -- The SET of Resolve.
  unfoldable pub slide : Session → Session
  slide s = record s {
    last_seen = max s.last_seen env.now;
    idle_expires = min s.absolute_expires (max s.idle_expires (env.now + policy.idle));
  }

  unfoldable pub resolve : String → IdTx Principal
  unfolding slide
  resolve token db = elim (token_digest ext token) [
    | none ↦ err unauthenticated
    | some d ↦ elim (find (is_usable d db) db.sessions) [
      | none ↦ err unauthenticated
      | some s ↦ ok (
        record {
          user = s.user;
          authenticated_at = s.authenticated;
          csrf = s.csrf;
          reauthenticated = s.reauthenticated;
        },
        record db { sessions = update (is_usable d db) slide db.sessions },
      )
    ]
  ]

  unfoldable pub revoke : String → IdTx Unit
  revoke token db = elim (token_digest ext token) [
    | none ↦ ok (tt, db)
    | some d ↦ ok (tt, record db { sessions = delete (has_digest d) db.sessions })
  ]

  unfoldable pub valid_csrf : Principal → String → Bool
  valid_csrf p raw = elim (token_digest ext raw) [ none ↦ false | some d ↦ d == p.csrf ]

  unfoldable pub logout_audit : Session → String → IdTx Unit
  logout_audit s request db =
      if not env.random_ok
      then err store
      else elim (append_audit ext env.clock
          (record {
            id = env.new_audit;
            workspace = s.audit_workspace;
            actor_kind = user_actor;
            actor = some s.user;
            kind = "auth.logout";
            request = request;
            metadata = [];
          })
          db) [ none ↦ err store | some db' ↦ ok (tt, db') ]

  -- Logout; a token without a session returns nil and the transaction ends without a change.
  unfoldable pub logout : String → String → IdTx Unit
  logout token request db = elim (token_digest ext token) [
    | none ↦ ok (tt, db)
    | some d ↦
        (guard env.begin_ok store >> (λ db. elim (find (has_digest d) db.sessions) [
          | none ↦ ok (tt, db)
          | some s ↦
              (do
                modify (λ db. record db { sessions = delete (has_digest d) db.sessions })
                logout_audit s request
                guard env.commit_ok store)
                db
        ]))
          db
  ]

  -- AuthenticationTime; the claims are none where they do not decode, `acr` is the configured one.
  unfoldable pub authentication_time : Bool → String → Option (ℕ × String) → ℕ → Result Error ℕ
  authentication_time supported acr claims started =
      if not supported then err reauth_unsupported else elim claims [
        | none ↦ err recent_required
        | some c ↦
            if not (c.0 == 0)
              && (c.1 is acr)
              && recent_at (c.0 * second) env.now
              && leb (started / second * second) (c.0 * second)
            then ok (c.0 * second)
            else err recent_required
      ]

  abbrev pub may_rotate : ℕ → ℕ → Session → Bool
  may_rotate d user s = owned_by d user s && unexpired env.now s

  -- The DELETE of RotateRecent, of exactly one session.
  unfoldable pub end_session : ℕ → ℕ → IdTx Unit
  end_session d user db =
      if count (may_rotate d user) db.sessions == 1
      then ok (tt, record db { sessions = delete (may_rotate d user) db.sessions })
      else err unauthenticated

  -- RotateRecent, in the transaction of the caller; `bound` is the digest in the challenge.
  unfoldable pub rotate_recent :
      Option (List ℕ) → Option (List ℕ) → ℕ → ℕ → String → ℕ → IdTx Tokens
  unfolding create end_session
  rotate_recent raw raw_csrf user at previous bound = do
    d ← row unauthenticated (token_digest ext previous)
    guard (d == bound && recent_at at env.now) unauthenticated
    end_session d user
    tokens ← create raw raw_csrf user at ""
    modify (mark_reauthenticated (token_digest ext tokens.token))
    pure tokens

-- The sessions that Cleanup looks at.
abbrev pub is_expired : ℕ → Session → Bool
is_expired now s = leb s.idle_expires now || leb s.absolute_expires now

-- Cleanup, with the number of deleted rows.
unfoldable pub cleanup : Env → ℕ → IdTx ℕ
unfolding batch
cleanup env limit db =
    let old = batch (is_expired env.now) (λ s. s.idle_expires) limit db.sessions in
    let chosen : Session → Bool = λ s. any (has_digest s.digest) old in
    (if ltb limit 1 || ltb 1000 limit
      then err bad_limit
      else ok (count chosen db.sessions, record db { sessions = delete chosen db.sessions }))
