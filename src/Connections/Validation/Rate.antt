-- ===== src/Connections/Validation/Rate.antt =====
-- The limit over every order of calls of permit: backend/internal/connection/validation.go.
use sama.Prelude.{
  ℕ, ◌+◌, ◌≤◌, Bool, true, false, ◌&&◌, List, [], ◌∷◌, ◌≡◌, arith, leb, ◌==◌, if◌then◌else◌, length,
  find, count, Bool-cases, Option-cases, inl, inr, find-none-count,
}
use sama.Connections.Validation.{Window, trim, is_of, admit, permit}
use sama.Connections.Validation.Limit.{
  is_within, recorded, trim-recorded, trim-recorded_le, trim-count, recorded-zero, recorded-found,
  append-recorded, append-count, find-some-count,
}

-- The windows, the validations that were let through, with their actor and time, and the time of the
-- last call.
pub record Service : Type 0 where
  pub windows : List Window
  pub passed : List (ℕ × ℕ)
  pub clock : ℕ

abbrev pub log_of : Bool → ℕ → ℕ → List (ℕ × ℕ) → List (ℕ × ℕ)
log_of true actor now log = (actor, now) ∷ log
log_of false actor now log = log

-- A call of permit at a time that is not before the last one.
pub data Step : Service → Service → Type 0 where
  call :
      {x : Service} (now actor : ℕ)
      → x.clock ≤ now
      → Step x (record {
        windows = (permit now actor x.windows).1;
        passed = log_of (permit now actor x.windows).0 actor now x.passed;
        clock = now;
      })

pub data Steps : Service → Service → Type 0 where
  begin : {x : Service} → Steps x x
  andthen : {x y z : Service} → Steps x y → Step y z → Steps x z

-- How many validations of an actor were let through less than a minute before `n`.
unfoldable pub passed_within : ℕ → ℕ → List (ℕ × ℕ) → ℕ
unfolding count
passed_within n actor log = count (λ e. (e.0 == actor) && is_within n e.1) log

-- The windows know of all those validations, and hold at most five of an actor.
pub record IsLimited (x : Service) : Type 0 where
  pub unique : (a : ℕ) → count (is_of a) x.windows ≤ 1
  pub few : (n a : ℕ) → recorded n a x.windows ≤ 5
  pub known : (n a : ℕ) → x.clock ≤ n → passed_within n a x.passed ≤ recorded n a x.windows

passed_within-cons :
    (n a actor now : ℕ) (log : List (ℕ × ℕ))
    → passed_within n a ((actor, now) ∷ log)
      ≡ passed_within n a log + (if (actor == a) && is_within n now then 1 else 0)
unfolding passed_within count
passed_within-cons n a actor now log = ground arith

recorded-cons :
    (n a actor now : ℕ) (ws : List Window)
    → recorded n a (record { actor = actor; times = now ∷ [] } ∷ ws)
      ≡ recorded n a ws + (if (actor == a) && is_within n now then 1 else 0)
unfolding recorded count
recorded-cons n a actor now ws = ground arith

admit-IsLimited :
    (now actor : ℕ) (ws : List Window) (log : List (ℕ × ℕ))
    → IsLimited (record { windows = ws; passed = log; clock = now })
    → IsLimited (record {
      windows = (admit now actor ws).1;
      passed = log_of (admit now actor ws).0 actor now log;
      clock = now;
    })
unfolding admit count
admit-IsLimited now actor ws log i = elim (Option-cases (find (is_of actor) ws)) [
  | inl n ↦ elim (Bool-cases (leb 1000 (length ws))) [
    | inl t ↦ rw (admit, n, t) i
    | inr t ↦
        rw (admit, n, t)
          (record {
            unique = λ a. ground (arith, i.unique a, find-none-count (is_of actor) ws n);
            few = λ m a. ground (
              arith,
              recorded-cons m a actor now ws,
              recorded-zero m actor ws (find-none-count (is_of actor) ws n),
              i.few m a,
            );
            known = λ m a le. ground (
              arith,
              recorded-cons m a actor now ws,
              passed_within-cons m a actor now log,
              i.known m a le,
            );
          })
  ]
  | inr (w, e) ↦ elim (Bool-cases (leb 5 (length w.times))) [
    | inl t ↦ rw (admit, e, t) i
    | inr t ↦
        rw (admit, e, t)
          (record {
            unique = λ a. ground (arith, i.unique a, append-count now actor a ws);
            few = λ m a. ground (
              arith,
              append-recorded m now actor a ws,
              i.unique actor,
              recorded-found m actor ws (i.unique actor) e,
              i.few m a,
              t,
            );
            known = λ m a le. ground (
              arith,
              append-recorded m now actor a ws,
              find-some-count (is_of actor) ws e,
              passed_within-cons m a actor now log,
              i.known m a le,
            );
          })
  ]
]

Step-IsLimited : {x y : Service} → IsLimited x → Step x y → IsLimited y
unfolding permit
Step-IsLimited {x} i (call now actor le) =
    admit-IsLimited now actor (trim now x.windows) x.passed (record {
      unique = λ a. omega (arith, i.unique a, trim-count now a x.windows);
      few = λ n a. omega (arith, i.few n a, trim-recorded_le now n a x.windows);
      known = λ n a later.
          omega
            (arith, i.known n a (omega (arith, le, later)), trim-recorded now n a x.windows later);
    })

Steps-IsLimited : {x y : Service} → IsLimited x → Steps x y → IsLimited y
Steps-IsLimited i begin = i
Steps-IsLimited i (andthen run last) = Step-IsLimited (Steps-IsLimited i run) last

-- Over every order of calls of permit by any number of actors, on a clock that does not go back, at
-- most five validations of one actor are let through in any minute that ends now or later. The
-- service starts with windows that know what was let through.
pub Steps-passed_within :
    {x y : Service} (actor n : ℕ)
    → IsLimited x
    → Steps x y
    → y.clock ≤ n
    → passed_within n actor y.passed ≤ 5
Steps-passed_within actor n i run le =
    let j = Steps-IsLimited i run in omega (arith, j.known n actor le, j.few n actor)
