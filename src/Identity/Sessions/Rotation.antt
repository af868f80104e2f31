-- ===== src/Identity/Sessions/Rotation.antt =====
-- The rotation of a session after a reauthentication: backend/internal/identity/recent.go.
use sama.Prelude.{
  ℕ, ◌+◌, ◌<◌, true, ◌&&◌, not, Option, some, none, List, ◌∷◌, [], false, ◌≢◌, ◌≤◌, String, Bool,
  delete, err, ◌≡◌, refl, ap, ◌∙◌, sym, arith, ok, ◌==◌, bind-ok, guard-ok, row-ok, pure-ok, row,
  find, count, update, is_some,
}
use sama.Database.{Db, Env, Session, is_active_user}
use sama.External.{External, token_digest}
use sama.Identity.Errors.{Error}
use sama.Identity.Recent.{Principal, recent_at}
use sama.Identity.Sessions.{
  SessionPolicy, Tokens, valid_policy, has_digest, new_session, create, is_usable, slide, resolve,
  may_rotate, end_session, mark_reauthenticated, rotate_recent, end_previous, owned_by,
}
use sama.Identity.Sessions.Created.{create-IsCreated}
use sama.Identity.Sessions.Life.{resolve-found, find-head, resolve-gone}

end_session-effect :
    (ext : External) (policy : SessionPolicy) (env : Env) (d user : ℕ) (db : Db) {db' : Db}
    → end_session ext policy env d user db ≡ ok (tt, db')
    → (count (may_rotate ext policy env d user) db.sessions ≡ 1)
      × (db'.users ≡ db.users)
      × (db'.sessions ≡ delete (may_rotate ext policy env d user) db.sessions)
unfolding end_session
end_session-effect ext policy env d user db h = ground arith

-- Deleting rows with a digest deletes as many of the rows with that digest.
count-delete_add :
    (p q : Session → Bool) (xs : List Session)
    → ((x : Session) → q x ≡ true → p x ≡ true)
    → count p (delete q xs) + count q xs ≡ count p xs
unfolding count delete
count-delete_add p q [] h = refl
count-delete_add p q (x ∷ xs) h = ground (arith, h x, count-delete_add p q xs h)

find-none-zero : (p : Session → Bool) (xs : List Session) → count p xs ≡ 0 → find p xs ≡ none
unfolding count find
find-none-zero p [] h = refl
find-none-zero p (x ∷ xs) h = ground (arith, find-none-zero p xs)

count-delete-le : (p q : Session → Bool) (xs : List Session) → count p (delete q xs) ≤ count p xs
unfolding count delete
count-delete-le p q [] = omega arith
count-delete-le p q (x ∷ xs) = ground (arith, count-delete-le p q xs)

count-end_previous :
    (p : Session → Bool) (o : Option ℕ) (user : ℕ) (db : Db)
    → count p (end_previous o user db).sessions ≤ count p db.sessions
unfolding end_previous
count-end_previous p none user db = omega arith
count-end_previous p (some d) user db = count-delete-le p (owned_by d user) db.sessions

count-marked :
    (d e : ℕ) (xs : List Session)
    → count (has_digest d) (update (has_digest e) (λ s. record s { reauthenticated = true }) xs)
      ≡ count (has_digest d) xs
unfolding count update
count-marked d e [] = refl
count-marked d e (x ∷ xs) = ground (arith, count-marked d e xs)

marked-sessions :
    (d : ℕ) (s : Session) (others : List Session) (o : Option ℕ) (db : Db)
    → o ≡ some d
    → s.digest ≡ d
    → db.sessions ≡ s ∷ others
    → (mark_reauthenticated o db).sessions
      ≡ record s { reauthenticated = true }
        ∷ update (has_digest d) (λ s. record s { reauthenticated = true }) others
unfolding update
marked-sessions d s others o db e k h = ground (arith, e, k, h)

marked-users : (o : Option ℕ) (db : Db) → (mark_reauthenticated o db).users ≡ db.users
marked-users none db = refl
marked-users (some d) db = refl

fresh-is_usable :
    (ext : External) (policy : SessionPolicy) (env later : Env) (user d c at w : ℕ) (db : Db)
    → valid_policy policy ≡ true
    → is_active_user user db ≡ true
    → later.now < env.now + policy.idle
    → is_usable ext policy later d db
        (record (new_session policy env.now user d c at w) { reauthenticated = true })
      ≡ true
unfolding valid_policy
fresh-is_usable ext policy env later user d c at w db good live soon =
    ground (arith, good, live, soon)

tests-hold :
    (d bound at now : ℕ)
    → (d == bound && recent_at at now) ≡ true
    → (d ≡ bound) × (recent_at at now ≡ true)
tests-hold d bound at now h = ground arith

module _ (ext : External) (policy : SessionPolicy) (env : Env) (d user : ℕ) (o : Option ℕ) where
  -- After the rotation no row has the digest of the session that was replaced.
  replaced :
      (s : Session) (a b : Db) (others rows : List Session)
      → count (has_digest d) a.sessions ≤ 1
      → count (may_rotate ext policy env d user) a.sessions ≡ 1
      → b.sessions ≡ delete (may_rotate ext policy env d user) a.sessions
      → others ≡ (end_previous o user b).sessions
      → (s.digest == d) ≡ false
      → rows ≡ s ∷ update (has_digest s.digest) (λ x. record x { reauthenticated = true }) others
      → find (has_digest d) rows ≡ none
  unfolding count
  replaced s a b others rows unique one gone rest new e =
      let left =
        count-delete_add (has_digest d) (may_rotate ext policy env d user) a.sessions
          (λ x h. ground (arith, h)) in
      let less = count-end_previous (has_digest d) o user b in
      let nothing : count (has_digest d) others ≡ 0 =
        ground (arith, unique, one, gone, rest, left, less) in
      let marked = count-marked d s.digest others in
      find-none-zero (has_digest d) rows (ground (arith, e, new, nothing, marked))

module _ (ext : External) (policy : SessionPolicy) (env : Env) where
  -- RotateRecent that succeeds took the token to which the challenge is bound, with exactly one
  -- unexpired session of the user, and a recent authentication; until the idle time is over,
  -- Resolve of the new token answers with the user, that time and a reauthentication. The replaced
  -- session is gone: no later Resolve accepts the previous token, under any policy. The policy is one
  -- that NewSessions accepts, the user is not disabled, the digest is the primary key of the table,
  -- and the new token has another digest than the previous one.
  pub rotate_recent-resolve :
      (raw raw_csrf : Option (List ℕ)) (user at : ℕ) (previous : String) (bound : ℕ) (later : Env)
      (other : SessionPolicy) (after_all : Env) (db : Db) {t : Tokens} {db' : Db}
      → valid_policy policy ≡ true
      → is_active_user user db ≡ true
      → later.now < env.now + policy.idle
      → count (has_digest bound) db.sessions ≤ 1
      → token_digest ext t.token ≢ token_digest ext previous
      → rotate_recent ext policy env raw raw_csrf user at previous bound db ≡ ok (t, db')
      → (token_digest ext previous ≡ some bound)
        × (recent_at at env.now ≡ true)
        × (count (may_rotate ext policy env bound user) db.sessions ≡ 1)
        × (p : Principal) × (after : Db) × (resolve ext policy later t.token db' ≡ ok (p, after))
        × (p.user ≡ user)
        × (p.authenticated_at ≡ at)
        × (p.reauthenticated ≡ true)
        × (resolve ext other after_all previous db' ≡ err Error.unauthenticated)
  unfolding rotate_recent valid_policy is_active_user
  rotate_recent-resolve raw raw_csrf user at previous bound later other after_all db {t = t}
        {db' = db'} good live soon unique ne h =
      let (d, db₁, p₁, h₁) =
        bind-ok (row Error.unauthenticated (token_digest ext previous)) _ db h in
      let (e, s₁) = row-ok Error.unauthenticated (token_digest ext previous) db p₁ in
      let (test, h₂) =
        guard-ok (d == bound && recent_at at env.now) Error.unauthenticated _ db₁ h₁ in
      let (_, db₂, p₂, h₃) = bind-ok (end_session ext policy env d user) _ db₁ h₂ in
      let (one, u₂, r₂) = end_session-effect ext policy env d user db₁ p₂ in
      let (made, db₃, p₃, h₄) = bind-ok (create ext policy env raw raw_csrf user at "") _ db₂ h₃ in
      let (f, g) = pure-ok made t (mark_reauthenticated (token_digest ext made.token) db₃) db' h₄ in
      let live₂ : is_active_user user db₂ ≡ true =
        ap (λ l. is_some (find (λ u. (u.id == user) && not u.disabled) l))
          (u₂ ∙ ap (λ (x : Db). x.users) s₁)
        ∙ live in
      let c = create-IsCreated ext policy env raw raw_csrf user at "" db₂ live₂ p₃ in
      let s : Session = new_session policy env.now user c.digest c.csrf at c.place in
      let rows =
        ap (λ (x : Db). x.sessions) (sym g)
        ∙ marked-sessions c.digest s c.others (token_digest ext made.token) db₃ c.token_of refl
            c.sessions in
      let active : is_active_user user db' ≡ true =
        ap (λ l. is_some (find (λ u. (u.id == user) && not u.disabled) l))
          (ap (λ (x : Db). x.users) (sym g)
            ∙ marked-users (token_digest ext made.token) db₃
            ∙ c.users)
        ∙ live₂ in
      let found =
        find-head (is_usable ext policy later c.digest db') (record s { reauthenticated = true }) _
          db'.sessions rows
          (fresh-is_usable ext policy env later user c.digest c.csrf at c.place db' good active
            soon) in
      let (same, recent) = tests-hold d bound at env.now test in
      (
        e ∙ ap some same,
        recent,
        ap (λ (x : Db). count (may_rotate ext policy env bound user) x.sessions) (sym s₁)
            ∙ ap (λ k. count (may_rotate ext policy env k user) db₁.sessions) (sym same)
            ∙ one,
        record { user = user; authenticated_at = at; csrf = c.csrf; reauthenticated = true },
        record db' {
          sessions =
              update (is_usable ext policy later c.digest db') (slide ext policy later)
                db'.sessions;
        },
        resolve-found ext policy later t.token c.digest (record s { reauthenticated = true }) db'
            (ap (λ (x : Tokens). token_digest ext x.token) (sym f) ∙ c.token_of) found,
        refl,
        refl,
        refl,
        resolve-gone ext other after_all previous db' λ x q.
            let dx : d ≡ x = ground (arith, e, q) in
            let new : (c.digest == x) ≡ false =
              ground (arith, c.token_of, q, ne, ap (λ (y : Tokens). token_digest ext y.token) f) in
            replaced ext policy env x user (token_digest ext "")
              (record s { reauthenticated = true }) db db₂ c.others db'.sessions
              (rw (sym dx, same) unique)
              (ap (λ (y : Db). count (may_rotate ext policy env x user) y.sessions) (sym s₁)
                ∙ ap (λ k. count (may_rotate ext policy env k user) db₁.sessions) (sym dx)
                ∙ one)
              (r₂
                ∙ ap (λ k. delete (may_rotate ext policy env k user) db₁.sessions) dx
                ∙ ap (λ (y : Db). delete (may_rotate ext policy env x user) y.sessions) s₁)
              c.rest new rows,
      )
