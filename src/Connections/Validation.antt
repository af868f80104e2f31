-- ===== src/Connections/Validation.antt =====
-- The limit on validations of credentials: permit of backend/internal/connection/validation.go. The
-- mutex makes each call one step; `now` is what the service's clock gives.
pub mod Limit
pub mod Rate
use sama.Prelude.{
  ℕ, ◌+◌, Bool, true, false, ◌&&◌, ◌||◌, not, Option, none, some, List, [], ◌∷◌, ◌++◌, leb, ◌==◌,
  if◌then◌else◌, is_some, length, find, update,
}
use sama.Database.{minute}

-- An entry of `windows`: an actor and the times of its validations.
pub record Window : Type 0 where
  pub actor : ℕ
  pub times : List ℕ

-- The inner loop: times up to a minute before `now` go, from the front on.
unfoldable pub drop_old : ℕ → List ℕ → List ℕ
drop_old now [] = []
drop_old now (t ∷ ts) = let rest = drop_old now ts in if leb (t + minute) now then rest else t ∷ ts

abbrev pub is_empty_list : List ℕ → Bool
is_empty_list [] = true
is_empty_list (t ∷ ts) = false

-- The outer loop: an actor whose times are all gone is deleted.
unfoldable pub trim : ℕ → List Window → List Window
unfolding drop_old
trim now [] = []
trim now (w ∷ ws) =
    let kept = drop_old now w.times in
    let rest = trim now ws in if is_empty_list kept then rest else record w { times = kept } ∷ rest

abbrev pub is_of : ℕ → Window → Bool
is_of actor w = w.actor == actor

-- The refusal and the append, after the loops.
unfoldable pub admit : ℕ → ℕ → List Window → Bool × List Window
admit now actor ws = elim (find (is_of actor) ws) [
  | none ↦
      if leb 1000 (length ws)
      then (false, ws)
      else (true, record { actor = actor; times = now ∷ [] } ∷ ws)
  | some w ↦
      if leb 5 (length w.times)
      then (false, ws)
      else (true, update (is_of actor) (λ v. record v { times = v.times ++ now ∷ [] }) ws)
]

unfoldable pub permit : ℕ → ℕ → List Window → Bool × List Window
unfolding trim admit
permit now actor ws = admit now actor (trim now ws)
