-- ===== src/Identity/Challenges/Budget.antt =====
-- The budget of login challenges over every order of calls: backend/internal/identity/challenges.go.
use sama.Prelude.{
  if◌then◌else◌, ℕ, ◌+◌, ◌≤◌, ◌<◌, Bool, Option, some, none, List, ◌∷◌, ◌≡◌, refl, sym, arith, ok,
  ◌==◌, count, Bool-cases, leb, inl, inr,
}
use sama.Database.{Db, Env, LoginBudget, minute}
use sama.External.{External}
use sama.Identity.Challenges.{Started, Randoms, charge, start}
use sama.Identity.Challenges.Use.{start-IsStarted}

-- The database, and for each challenge issued so far when its window started.
pub record System : Type 0 where
  pub db : Db
  pub windows : List ℕ

abbrev pub window_of : Option LoginBudget → ℕ
window_of none = 0
window_of (some b) = b.window_started

module _ (ext : External) where
  -- Start that succeeds, or anything that leaves the budget alone, as Consume and all other
  -- packages do.
  pub data Step : System → System → Type 0 where
    starts :
        {x : System} (env : Env) (locked : Bool) (raws : Randoms) (invitation session : Option ℕ)
        (s : Started) (db' : Db)
        → start ext env locked raws invitation session x.db ≡ ok (s, db')
        → Step x (record { db = db'; windows = window_of db'.login_budget ∷ x.windows })
    outside :
        {x : System} (db' : Db)
        → db'.login_budget ≡ x.db.login_budget
        → Step x (record { db = db'; windows = x.windows })

  pub data Steps : System → System → Type 0 where
    begin : {x : System} → Steps x x
    andthen : {x y z : System} → Steps x y → Step y z → Steps x z

-- How many challenges were issued in the window that started at `w`.
unfoldable pub issued_in : ℕ → List ℕ → ℕ
unfolding count
issued_in w log = count (λ x. x == w) log

-- The row of the budget counts the challenges of the last window.
pub record IsBudgeted (budget : Option LoginBudget) (log : List ℕ) : Type 0 where
  pub limit : (w : ℕ) → issued_in w log ≤ 30
  pub apart : (v w : ℕ) → 0 < issued_in v log → 0 < issued_in w log → v < w → v + minute ≤ w
  pub unused : (w : ℕ) → budget ≡ none → issued_in w log ≡ 0
  pub current : (b : LoginBudget) → budget ≡ some b → issued_in b.window_started log ≡ b.issued
  pub positive : (b : LoginBudget) → budget ≡ some b → 0 < b.issued
  pub last :
      (b : LoginBudget) (w : ℕ) → budget ≡ some b → b.window_started < w → issued_in w log ≡ 0

issued_in-cons :
    (v w : ℕ) (log : List ℕ)
    → issued_in w (v ∷ log) ≡ (if v == w then issued_in w log + 1 else issued_in w log)
unfolding issued_in
issued_in-cons v w log = ground arith

-- A window that starts anew, later than all others.
new_window :
    (now : ℕ) (budget : Option LoginBudget) (log : List ℕ)
    → IsBudgeted budget log
    → ((w : ℕ) → now ≤ w → issued_in w log ≡ 0)
    → ((v : ℕ) → 0 < issued_in v log → v + minute ≤ now)
    → IsBudgeted (some (record { window_started = now; issued = 1 })) (now ∷ log)
new_window now budget log i later earlier = record {
  limit = λ w. ground (arith, issued_in-cons now w log, i.limit w, later w);
  apart = λ v w p q lt. ground (
    arith,
    issued_in-cons now v log,
    issued_in-cons now w log,
    i.apart v w,
    later v,
    later w,
    earlier v,
    p,
    q,
    lt,
  );
  unused = λ w e. absurd (ground (arith, e));
  current =
      λ b e. ground (arith, e, issued_in-cons now b.window_started log, later now (omega arith));
  positive = λ b e. ground (arith, e);
  last = λ b w e lt. ground (arith, e, issued_in-cons now w log, later w);
}

same_window :
    (b : LoginBudget) (log : List ℕ)
    → IsBudgeted (some b) log
    → b.issued < 30
    → IsBudgeted
        (some (record { window_started = b.window_started; issued = b.issued + 1 }))
        (b.window_started ∷ log)
same_window b log i few = record {
  limit = λ w. ground (arith, issued_in-cons b.window_started w log, i.limit w, i.current b refl);
  apart = λ v w p q lt. ground (
    arith,
    issued_in-cons b.window_started v log,
    issued_in-cons b.window_started w log,
    i.apart v w,
    i.current b refl,
    i.positive b refl,
    i.last b w refl,
    p,
    q,
    lt,
  );
  unused = λ w e. absurd (ground (arith, e));
  current = λ c e.
      ground (arith, e, issued_in-cons b.window_started c.window_started log, i.current b refl);
  positive = λ c e. ground (arith, e);
  last = λ c w e lt. ground (arith, e, issued_in-cons b.window_started w log, i.last b w refl);
}

-- Windows that were used are not after the current one.
used_before :
    (b : LoginBudget) (log : List ℕ)
    → IsBudgeted (some b) log
    → (v : ℕ) → 0 < issued_in v log
    → v ≤ b.window_started
used_before b log i v p = ground (arith, i.last b v refl, p)

charge-IsBudgeted :
    (now : ℕ) (budget : Option LoginBudget) (log : List ℕ) {b : LoginBudget}
    → IsBudgeted budget log
    → charge now budget ≡ some b
    → IsBudgeted (some b) (b.window_started ∷ log)
unfolding charge
charge-IsBudgeted now none log {b} i h =
    let e : record { window_started = now; issued = 1 } ≡ b = ground (arith, h) in
    rw (sym e) (
      new_window now none log i (λ w le. i.unused w refl)
        λ v p. absurd (ground (arith, i.unused v refl, p)))
charge-IsBudgeted now (some c) log {b} i h =
    elim (Bool-cases (leb (c.window_started + minute) now)) [
      | inl t ↦
          let e : record { window_started = now; issued = 1 } ≡ b = ground (arith, h, t) in
          rw (sym e) (
            new_window now (some c) log i (λ w le. i.last c w refl (ground (arith, t, le)))
              λ v p. ground (arith, t, used_before c log i v p))
      | inr n ↦
          let e : (record { window_started = c.window_started; issued = c.issued + 1 } ≡ b)
              × (c.issued < 30) =
            ground (arith, h, n) in
          rw (sym e.0) (same_window c log i e.1)
    ]

module _ (ext : External) where
  Step-IsBudgeted :
      {x y : System}
      → IsBudgeted x.db.login_budget x.windows
      → Step ext x y
      → IsBudgeted y.db.login_budget y.windows
  Step-IsBudgeted {x} i (starts env locked raws invitation session s db' h) =
      let r = start-IsStarted ext env locked raws invitation session x.db h in
      rw r.budget_of (charge-IsBudgeted env.now x.db.login_budget x.windows i r.charged)
  Step-IsBudgeted i (outside db' e) = rw e i

  -- Over every order of calls that start a challenge, of Consume and of everything else: at most 30
  -- challenges are issued in one window of the budget, two windows begin at least a minute apart,
  -- and the stored row counts the challenges of the last one.
  pub Steps-IsBudgeted :
      {x y : System}
      → IsBudgeted x.db.login_budget x.windows
      → Steps ext x y
      → IsBudgeted y.db.login_budget y.windows
  Steps-IsBudgeted i begin = i
  Steps-IsBudgeted i (andthen run last) = Step-IsBudgeted (Steps-IsBudgeted i run) last
