-- ===== src/Connections/Validation/Limit.antt =====
-- How many validations permit lets through: backend/internal/connection/validation.go.
use sama.Prelude.{
  ℕ, ◌+◌, ◌≤◌, ◌<◌, Bool, true, ◌&&◌, some, List, [], ◌∷◌, ◌++◌, ◌≡◌, refl, arith, ltb, ◌==◌,
  if◌then◌else◌, length, find, update, count, Bool-cases, inl, inr, sym,
}
use sama.Database.{minute}
use sama.Connections.Validation.{Window, drop_old, is_empty_list, trim, is_of}

abbrev pub is_within : ℕ → ℕ → Bool
is_within n t = ltb n (t + minute)

-- How many recorded times of an actor are less than a minute before `n`.
unfoldable pub recorded : ℕ → ℕ → List Window → ℕ
unfolding count
recorded n actor [] = 0
recorded n actor (w ∷ ws) =
    let rest = recorded n actor ws in
    if w.actor == actor then count (is_within n) w.times + rest else rest

drop_old-count :
    (now n : ℕ) (ts : List ℕ)
    → now ≤ n
    → count (is_within n) (drop_old now ts) ≡ count (is_within n) ts
unfolding drop_old count
drop_old-count now n [] le = refl
drop_old-count now n (t ∷ ts) le = ground (arith, drop_old-count now n ts le, le)

drop_old-count_le :
    (now n : ℕ) (ts : List ℕ) → count (is_within n) (drop_old now ts) ≤ count (is_within n) ts
unfolding drop_old count
drop_old-count_le now n [] = omega arith
drop_old-count_le now n (t ∷ ts) = ground (arith, drop_old-count_le now n ts)

empty-count : (n : ℕ) (ts : List ℕ) → is_empty_list ts ≡ true → count (is_within n) ts ≡ 0
unfolding count
empty-count n [] h = refl
empty-count n (t ∷ ts) h = absurd (ground (arith, h))

pub trim-recorded :
    (now n actor : ℕ) (ws : List Window)
    → now ≤ n
    → recorded n actor (trim now ws) ≡ recorded n actor ws
unfolding trim recorded count
trim-recorded now n actor [] le = refl
trim-recorded now n actor (w ∷ ws) le = elim (Bool-cases (is_empty_list (drop_old now w.times))) [
  | inl e ↦ ground (
    arith,
    e,
    empty-count n (drop_old now w.times) e,
    drop_old-count now n w.times le,
    trim-recorded now n actor ws le,
  )
  | inr e ↦ ground (arith, e, drop_old-count now n w.times le, trim-recorded now n actor ws le)
]

pub trim-recorded_le :
    (now n actor : ℕ) (ws : List Window) → recorded n actor (trim now ws) ≤ recorded n actor ws
unfolding trim recorded count
trim-recorded_le now n actor [] = omega arith
trim-recorded_le now n actor (w ∷ ws) = ground (
  arith,
  empty-count n (drop_old now w.times),
  drop_old-count_le now n w.times,
  trim-recorded_le now n actor ws,
)

pub trim-count :
    (now actor : ℕ) (ws : List Window) → count (is_of actor) (trim now ws) ≤ count (is_of actor) ws
unfolding trim count
trim-count now actor [] = omega arith
trim-count now actor (w ∷ ws) = ground (arith, trim-count now actor ws)

pub recorded-zero :
    (n actor : ℕ) (ws : List Window) → count (is_of actor) ws ≡ 0 → recorded n actor ws ≡ 0
unfolding recorded count
recorded-zero n actor [] h = refl
recorded-zero n actor (w ∷ ws) h = ground (arith, h, recorded-zero n actor ws)

count-le-length : (p : ℕ → Bool) (ts : List ℕ) → count p ts ≤ length ts
unfolding count
count-le-length p [] = omega arith
count-le-length p (t ∷ ts) = ground (arith, count-le-length p ts)

count-snoc :
    (n now : ℕ) (ts : List ℕ)
    → count (is_within n) (ts ++ now ∷ [])
      ≡ count (is_within n) ts + (if is_within n now then 1 else 0)
unfolding count
count-snoc n now [] = ground arith
count-snoc n now (t ∷ ts) = ground (arith, count-snoc n now ts)

pub recorded-found :
    (n actor : ℕ) (ws : List Window) {w : Window}
    → count (is_of actor) ws ≤ 1
    → find (is_of actor) ws ≡ some w
    → recorded n actor ws ≤ length w.times
unfolding recorded count find
recorded-found n actor [] u e = absurd (ground (arith, e))
recorded-found n actor (v ∷ ws) {w} u e = elim (Bool-cases (is_of actor v)) [
  | inl t ↦
      let same : v ≡ w = ground (arith, e, t) in
      let size : count (is_within n) v.times ≤ length w.times =
        rw (sym same) (count-le-length (is_within n) v.times) in
      ground (arith, t, u, recorded-zero n actor ws, size)
  | inr t ↦
      ground
        (arith, t, recorded-found n actor ws {w = w} (ground (arith, t, u)) (ground (arith, t, e)))
]

pub append-recorded :
    (n now actor a : ℕ) (ws : List Window)
    → recorded n a (update (is_of actor) (λ v. record v { times = v.times ++ now ∷ [] }) ws)
      ≡ recorded n a ws + (if (actor == a) && is_within n now then count (is_of actor) ws else 0)
unfolding recorded count update
append-recorded n now actor a [] = ground arith
append-recorded n now actor a (w ∷ ws) =
    ground (arith, count-snoc n now w.times, append-recorded n now actor a ws)

pub append-count :
    (now actor a : ℕ) (ws : List Window)
    → count (is_of a) (update (is_of actor) (λ v. record v { times = v.times ++ now ∷ [] }) ws)
      ≡ count (is_of a) ws
unfolding count update
append-count now actor a [] = refl
append-count now actor a (w ∷ ws) = ground (arith, append-count now actor a ws)

pub find-some-count :
    (p : Window → Bool) (ws : List Window) {w : Window} → find p ws ≡ some w → 0 < count p ws
unfolding find count
find-some-count p [] e = absurd (ground (arith, e))
find-some-count p (v ∷ ws) {w} e = ground (arith, find-some-count p ws {w = w}, e)
