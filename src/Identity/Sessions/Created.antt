-- ===== src/Identity/Sessions/Created.antt =====
-- What Create of backend/internal/identity/sessions.go stores.
use sama.Prelude.{
  ◌>>=◌, ℕ, true, ◌&&◌, not, Option, some, none, List, ◌∷◌, String, ◌≡◌, refl, ap, ◌∙◌, sym, arith,
  ok, ◌==◌, bind-ok, guard-ok, row-ok, pure-ok, row, leb, find, is_some,
}
use sama.Database.{Db, Env, Session, is_active_user}
use sama.External.{External, token_digest, parse_identifier}
use sama.Identity.Errors.{Error}
use sama.Identity.Sessions.{
  new_session, store_session, SessionPolicy, Tokens, first_workspace, insert_session, end_previous,
  is_present, create,
}

-- The session that Create stored, found first.
pub record IsCreated (ext : External) (policy : SessionPolicy) (now user at : ℕ) (previous : String)
    (t : Tokens) (a b : Db) : Type 0 where
  pub digest : ℕ
  pub csrf : ℕ
  pub place : ℕ
  pub others : List Session
  pub token_of : token_digest ext t.token ≡ some digest
  pub csrf_of : token_digest ext t.csrf ≡ some csrf
  pub users : b.users ≡ a.users
  pub sessions : b.sessions ≡ new_session policy now user digest csrf at place ∷ others
  pub rest : others ≡ (end_previous (token_digest ext previous) user a).sessions

record IsInserted (policy : SessionPolicy) (now user at : ℕ) (digest csrf : Option ℕ) (a b : Db)
    : Type 0 where
  d : ℕ
  c : ℕ
  w : ℕ
  digest_is : digest ≡ some d
  csrf_is : csrf ≡ some c
  users : b.users ≡ a.users
  sessions : b.sessions ≡ new_session policy now user d c at w ∷ a.sessions

store_session-effect :
    (s : Session) (db : Db) {db' : Db}
    → store_session s db ≡ ok (tt, db')
    → (db'.users ≡ db.users) × (db'.sessions ≡ s ∷ db.sessions)
unfolding store_session
store_session-effect s db h = ground arith

insert_session-IsInserted :
    (policy : SessionPolicy) (now user at : ℕ) (digest csrf : Option ℕ) (db : Db) {db' : Db}
    → is_active_user user db ≡ true
    → insert_session policy now user digest csrf at db ≡ ok (tt, db')
    → IsInserted policy now user at digest csrf db db'
unfolding insert_session
insert_session-IsInserted policy now user at digest csrf db {db'} live h =
    let h₀ : (row Error.store digest >>= λ d. row Error.store csrf >>= λ c.
    row Error.store (first_workspace user db.memberships) >>= λ w.
    store_session (new_session policy now user d c at w))
          db
        ≡ ok (tt, db') =
      ground (arith, live, h) in
    let (d, db₁, p₁, h₁) = bind-ok (row Error.store digest) _ db h₀ in
    let (q₁, e₁) = row-ok Error.store digest db p₁ in
    let (c, db₂, p₂, h₂) = bind-ok (row Error.store csrf) _ db₁ h₁ in
    let (q₂, e₂) = row-ok Error.store csrf db₁ p₂ in
    let (w, db₃, p₃, h₃) =
      bind-ok (row Error.store (first_workspace user db.memberships)) _ db₂ h₂ in
    let (_, e₃) = row-ok Error.store (first_workspace user db.memberships) db₂ p₃ in
    let (u, stored) = store_session-effect (new_session policy now user d c at w) db₃ h₃ in
    let same : db₃ ≡ db = e₃ ∙ e₂ ∙ e₁ in
    record {
      d = d;
      c = c;
      w = w;
      digest_is = q₁;
      csrf_is = q₂;
      users = u ∙ ap (λ (x : Db). x.users) same;
      sessions = stored ∙ ap (λ (x : Db). new_session policy now user d c at w ∷ x.sessions) same;
    }

end_previous-users : (o : Option ℕ) (user : ℕ) (db : Db) → (end_previous o user db).users ≡ db.users
unfolding end_previous
end_previous-users none user db = refl
end_previous-users (some d) user db = refl

module _ (ext : External) (policy : SessionPolicy) (env : Env) where
  pub create-IsCreated :
      (raw raw_csrf : Option (List ℕ)) (user at : ℕ) (previous : String) (db : Db) {t : Tokens}
      {db' : Db}
      → is_active_user user db ≡ true
      → create ext policy env raw raw_csrf user at previous db ≡ ok (t, db')
      → IsCreated ext policy env.now user at previous t db db'
  unfolding create is_active_user
  create-IsCreated raw raw_csrf user at previous db {t = t} {db' = db'} live h =
      let (_, h₁) =
        guard-ok
          (is_some (parse_identifier ext (ext.uuid_string user)) && leb at env.now && not (at == 0))
          Error.unauthenticated _ db h in
      let (bytes, db₁, p₁, h₂) = bind-ok (row Error.random raw) _ db h₁ in
      let (_, e₁) = row-ok Error.random raw db p₁ in
      let (more, db₂, p₂, h₃) = bind-ok (row Error.random raw_csrf) _ db₁ h₂ in
      let (_, e₂) = row-ok Error.random raw_csrf db₁ p₂ in
      let db₃ = end_previous (token_digest ext previous) user db₂ in
      let (_, db₄, p₄, h₄) =
        bind-ok
          (insert_session policy env.now user (token_digest ext (ext.base64_encode bytes))
            (token_digest ext (ext.base64_encode more)) at)
          _ db₃ h₃ in
      let u : db₃.users ≡ db.users =
        end_previous-users (token_digest ext previous) user db₂
        ∙ ap (λ (d : Db). d.users) (e₂ ∙ e₁) in
      let i =
        insert_session-IsInserted policy env.now user at
          (token_digest ext (ext.base64_encode bytes)) (token_digest ext (ext.base64_encode more))
          db₃ {db' = db₄}
          (ap (λ l. is_some (find (λ u. (u.id == user) && not u.disabled) l)) u ∙ live) p₄ in
      let (_, h₅) =
        guard-ok (is_present (token_digest ext (ext.base64_encode bytes)) db₄) Error.unauthenticated
          _ db₄ h₄ in
      let (f, g) =
        pure-ok (record { token = ext.base64_encode bytes; csrf = ext.base64_encode more }) t db₄
          db' h₅ in
      record {
        digest = i.d;
        csrf = i.c;
        place = i.w;
        others = db₃.sessions;
        token_of = ap (λ (x : Tokens). token_digest ext x.token) (sym f) ∙ i.digest_is;
        csrf_of = ap (λ (x : Tokens). token_digest ext x.csrf) (sym f) ∙ i.csrf_is;
        users = ap (λ (d : Db). d.users) (sym g) ∙ i.users ∙ u;
        sessions = ap (λ (d : Db). d.sessions) (sym g) ∙ i.sessions;
        rest =
            ap (λ (x : Db). (end_previous (token_digest ext previous) user x).sessions) (e₂ ∙ e₁);
      }
