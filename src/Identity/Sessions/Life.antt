-- ===== src/Identity/Sessions/Life.antt =====
-- The life of a session: backend/internal/identity/sessions.go, logout.go and recent.go.
use sama.Prelude.{
  guard-same, ◌>>=◌, ℕ, ◌+◌, ◌≤◌, ◌<◌, Bool, true, false, ◌&&◌, not, Option, some, none, List, ◌∷◌,
  String, ◌≡◌, refl, ap, ◌∙◌, arith, ok, err, ◌==◌, bind-ok, guard, find, delete, update, is_some,
  Option-cases, inl, inr, find-holds, find-none_mono, find-delete-none, min, ◌⊎◌,
}
use sama.Database.{Db, Env, Session, is_active_user}
use sama.External.{External, token_digest}
use sama.Audit.{append_audit}
use sama.Identity.Errors.{Error}
use sama.Identity.Recent.{Principal}
use sama.Identity.Sessions.{
  new_session, SessionPolicy, Tokens, valid_policy, has_digest, create, is_usable, slide, resolve,
  logout, logout_audit, valid_csrf,
}
use sama.Identity.Sessions.Created.{create-IsCreated}

pub find-head :
    {A : Type 0} (p : A → Bool) (a : A) (rest l : List A)
    → l ≡ a ∷ rest
    → p a ≡ true
    → find p l ≡ some a
unfolding find
find-head p a rest l e h = ground (arith, e, h)

module _ (ext : External) (policy : SessionPolicy) (env : Env) where
  pub resolve-found :
      (token : String) (d : ℕ) (s : Session) (db : Db)
      → token_digest ext token ≡ some d
      → find (is_usable ext policy env d db) db.sessions ≡ some s
      → resolve ext policy env token db
        ≡ ok (
          record {
            user = s.user;
            authenticated_at = s.authenticated;
            csrf = s.csrf;
            reauthenticated = s.reauthenticated;
          },
          record db {
            sessions = update (is_usable ext policy env d db) (slide ext policy env) db.sessions;
          },
        )
  unfolding resolve
  resolve-found token d s db p q = ground (arith, p, q)

-- From `s` to `t` only the time last seen and the end of idling moved.
pub record IsSlid (policy : SessionPolicy) (now : ℕ) (s t : Session) : Type 0 where
  pub digest : t.digest ≡ s.digest
  pub user : t.user ≡ s.user
  pub authenticated : t.authenticated ≡ s.authenticated
  pub reauthenticated : t.reauthenticated ≡ s.reauthenticated
  pub csrf : t.csrf ≡ s.csrf
  pub audit_workspace : t.audit_workspace ≡ s.audit_workspace
  pub absolute_expires : t.absolute_expires ≡ s.absolute_expires
  pub seen_now : now ≤ t.last_seen
  pub seen_before : s.last_seen ≤ t.last_seen
  pub seen_as : (t.last_seen ≡ now) ⊎ (t.last_seen ≡ s.last_seen)
  pub capped : t.idle_expires ≤ s.absolute_expires
  pub forward : min s.absolute_expires s.idle_expires ≤ t.idle_expires
  pub far : min s.absolute_expires (now + policy.idle) ≤ t.idle_expires

slide-IsSlid :
    (ext : External) (policy : SessionPolicy) (env : Env) (s : Session)
    → IsSlid policy env.now s (slide ext policy env s)
unfolding slide
slide-IsSlid ext policy env s = record {
  digest = refl;
  user = refl;
  authenticated = refl;
  reauthenticated = refl;
  csrf = refl;
  audit_workspace = refl;
  absolute_expires = refl;
  seen_now = omega arith;
  seen_before = omega arith;
  seen_as = ground arith;
  capped = omega arith;
  forward = omega arith;
  far = omega arith;
}

module _ (ext : External) (policy : SessionPolicy) (env : Env) where
  -- The pair that Create returns for a user that is not disabled opens a session: until the idle
  -- time is over, Resolve of the token answers with the user, the time of the authentication and
  -- no reauthentication, and the CSRF token is the one of that session. The policy is one that
  -- NewSessions accepts.
  pub create-resolve :
      (raw raw_csrf : Option (List ℕ)) (user at : ℕ) (previous : String) (later : Env) (db : Db)
      {t : Tokens} {db' : Db}
      → valid_policy policy ≡ true
      → is_active_user user db ≡ true
      → later.now < env.now + policy.idle
      → create ext policy env raw raw_csrf user at previous db ≡ ok (t, db')
      → (p : Principal) × (after : Db) × (resolve ext policy later t.token db' ≡ ok (p, after))
        × (p.user ≡ user)
        × (p.authenticated_at ≡ at)
        × (p.reauthenticated ≡ false)
        × (valid_csrf ext policy later p t.csrf ≡ true)
  unfolding valid_policy is_active_user valid_csrf
  create-resolve raw raw_csrf user at previous later db {t = t} {db' = db'} good live soon h =
      let c = create-IsCreated ext policy env raw raw_csrf user at previous db live h in
      let s : Session = new_session policy env.now user c.digest c.csrf at c.place in
      let active : is_active_user user db' ≡ true =
        ap (λ l. is_some (find (λ u. (u.id == user) && not u.disabled) l)) c.users ∙ live in
      let found =
        find-head (is_usable ext policy later c.digest db') s c.others db'.sessions c.sessions
          (ground (arith, active, soon, good)) in
      (
        record { user = user; authenticated_at = at; csrf = c.csrf; reauthenticated = false },
        record db' {
          sessions =
              update (is_usable ext policy later c.digest db') (slide ext policy later)
                db'.sessions;
        },
        resolve-found ext policy later t.token c.digest s db' c.token_of found,
        refl,
        refl,
        refl,
        ground (arith, c.csrf_of),
      )

  -- Where Resolve succeeds, its token names a session of a user that is not disabled, which has
  -- reached neither of its two ends, and the answer is what that session says. In that row only the
  -- time last seen, which becomes the present one unless it is later, and the end of idling change:
  -- that end is never moved back and becomes at least the present plus the idle time, both as far as
  -- the absolute end allows, which it does not pass. Rows that are not usable under this digest, and
  -- all other tables, stay as they are.
  pub resolve-slides :
      (token : String) (db : Db) {p : Principal} {db' : Db}
      → resolve ext policy env token db ≡ ok (p, db')
      → (d : ℕ) × (s : Session) × (token_digest ext token ≡ some d)
        × (find (is_usable ext policy env d db) db.sessions ≡ some s)
        × (env.now < s.idle_expires)
        × (env.now < s.absolute_expires)
        × (p ≡ record {
          user = s.user;
          authenticated_at = s.authenticated;
          csrf = s.csrf;
          reauthenticated = s.reauthenticated;
        })
        × (db' ≡ record db {
          sessions = update (is_usable ext policy env d db) (slide ext policy env) db.sessions;
        })
        × IsSlid policy env.now s (slide ext policy env s)
  unfolding resolve slide
  resolve-slides token db {p = p} {db' = db'} h = elim (Option-cases (token_digest ext token)) [
    | inl e ↦ absurd (ground (arith, e, h))
    | inr (d, e) ↦ elim (Option-cases (find (is_usable ext policy env d db) db.sessions)) [
      | inl n ↦ absurd (ground (arith, e, n, h))
      | inr (s, q) ↦
          let usable = find-holds (is_usable ext policy env d db) db.sessions q in
          let done = resolve-found ext policy env token d s db e q in
          (
            d,
            s,
            e,
            q,
            ground (arith, usable),
            ground (arith, usable),
            ground (arith, done, h),
            ground (arith, done, h),
            slide-IsSlid ext policy env s,
          )
    ]
  ]

-- No session has this digest.
abbrev pub NoSession : ℕ → Db → Type 0
NoSession d db = find (has_digest d) db.sessions ≡ none

pub resolve-gone :
    (ext : External) (policy : SessionPolicy) (env : Env) (token : String) (db : Db)
    → ((d : ℕ) → token_digest ext token ≡ some d → NoSession d db)
    → resolve ext policy env token db ≡ err Error.unauthenticated
unfolding resolve
resolve-gone ext policy env token db gone = elim (Option-cases (token_digest ext token)) [
  | inl e ↦ ground (arith, e)
  | inr (d, e) ↦
      let none_usable =
        find-none_mono (has_digest d) (is_usable ext policy env d db) db.sessions
          (λ x u. ground (arith, u)) (gone d e) in
      ground (arith, e, none_usable)
]

logout_audit-sessions :
    (ext : External) (policy : SessionPolicy) (env : Env) (s : Session) (request : String) (db : Db)
    {db' : Db}
    → logout_audit ext policy env s request db ≡ ok (tt, db')
    → db'.sessions ≡ db.sessions
unfolding logout_audit append_audit
logout_audit-sessions ext policy env s request db h = ground arith

module _ (ext : External) (policy : SessionPolicy) (env : Env) where
  logout-deletes :
      (token request : String) (d : ℕ) (db : Db) {db' : Db}
      → token_digest ext token ≡ some d
      → logout ext policy env token request db ≡ ok (tt, db')
      → NoSession d db'
  unfolding logout
  logout-deletes token request d db {db' = db'} e h =
      elim (Option-cases (find (has_digest d) db.sessions)) [
        | inl n ↦ let same : db' ≡ db = ground (arith, e, n, h) in rw same n
        | inr (s, q) ↦
            let db₁ : Db = record db { sessions = delete (has_digest d) db.sessions } in
            let ran : (logout_audit ext policy env s request >>= λ _.
            guard env.commit_ok Error.store)
                  db₁
                ≡ ok (tt, db') =
              ground (arith, e, q, h) in
            let (_, db₂, p₂, h₂) = bind-ok (logout_audit ext policy env s request) _ db₁ ran in
            let rows : db'.sessions ≡ db₁.sessions =
              ap (λ (d : Db). d.sessions) (guard-same env.commit_ok Error.store db₂ h₂)
              ∙ logout_audit-sessions ext policy env s request db₁ p₂ in
            rw rows (find-delete-none (has_digest d) (has_digest d) db.sessions (λ x k. k))
      ]

  -- After a logout that succeeds, no later Resolve accepts the token, under any policy.
  pub logout-resolve :
      (token request : String) (other : SessionPolicy) (later : Env) (db : Db) {db' : Db}
      → logout ext policy env token request db ≡ ok (tt, db')
      → resolve ext other later token db' ≡ err Error.unauthenticated
  logout-resolve token request other later db {db' = db'} h =
      resolve-gone ext other later token db' λ d e. logout-deletes token request d db e h
