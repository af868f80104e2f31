-- ===== src/Outbound/Admission.antt =====
-- What the budget promises its callers, over every order of the critical sections: `waiting` and
-- `running` count, for each connection, the callers inside acquire's loop and those that it admitted
-- and that have not released.
use mathlib.Core.Option
use sama.Prelude.{
  ℕ, ◌+◌, ◌-◌, ◌≤◌, ◌<◌, Bool, true, false, none, List, [], ◌∷◌, String, ◌==◌, if◌then◌else◌,
  is_some, delete, lookup, update_at, ◌≡◌, refl, arith, lookup-update_at,
}
use sama.External.{External}
use sama.Outbound.Budget.{
  Slots, Budget, connection_key, slots_of, active_of, refs_of, enter, leave, given_up, admitted,
  waits, take_slot, free_slot, attempt, release, postpone, add_slots_ref, drop_slots_ref,
  with_slots,
}

pub record Office : Type 0 where
  pub budget : Budget
  pub waiting : ℕ → ℕ
  pub running : ℕ → ℕ

abbrev pub more : ℕ → (ℕ → ℕ) → ℕ → ℕ
more c n d = if c == d then n d + 1 else n d

abbrev pub fewer : ℕ → (ℕ → ℕ) → ℕ → ℕ
fewer c n d = if c == d then n d - 1 else n d

pub data Step (ext : External) (s : Office) : Office → Type 0 where
  enters :
      (c : ℕ) (scope : String) (now : ℕ)
      → (enter ext c scope now s.budget).0 ≡ true
      → Step ext s
          (record s { budget = (enter ext c scope now s.budget).1; waiting = more c s.waiting })
  refused :
      (c : ℕ) (scope : String) (now : ℕ)
      → (enter ext c scope now s.budget).0 ≡ false
      → Step ext s (record s { budget = (enter ext c scope now s.budget).1 })
  takes :
      (c : ℕ) (scope : String) (now : ℕ) (cancelled : Bool)
      → 0 < s.waiting c
      → (attempt c scope now cancelled s.budget).0 ≡ admitted
      → Step ext s (record {
        budget = (attempt c scope now cancelled s.budget).1;
        waiting = fewer c s.waiting;
        running = more c s.running;
      })
  quits :
      (c : ℕ) (scope : String) (now : ℕ) (cancelled : Bool)
      → 0 < s.waiting c
      → (attempt c scope now cancelled s.budget).0 ≡ given_up
      → Step ext s (record s {
        budget = (attempt c scope now cancelled s.budget).1;
        waiting = fewer c s.waiting;
      })
  stays :
      (c : ℕ) (scope : String) (now : ℕ) (cancelled : Bool)
      → (attempt c scope now cancelled s.budget).0 ≡ waits
      → Step ext s (record s { budget = (attempt c scope now cancelled s.budget).1 })
  releases :
      (c : ℕ) (scope : String) (now : ℕ)
      → 0 < s.running c
      → Step ext s (record s { budget = release c scope now s.budget; running = fewer c s.running })
  postpones :
      (scope : String) (delay now : ℕ)
      → Step ext s (record s { budget = postpone scope delay now s.budget })

pub data Steps (ext : External) (s : Office) : Office → Type 0 where
  start : Steps ext s s
  andthen : {t u : Office} → Steps ext s t → Step ext t u → Steps ext s u

-- The rows count the callers, and no connection has more than two running.
pub record Tracks (s : Office) : Type 0 where
  pub active : (c : ℕ) → active_of (slots_of c s.budget) ≡ s.running c
  pub refs : (c : ℕ) → refs_of (slots_of c s.budget) ≡ s.waiting c + s.running c
  pub at_most_two : (c : ℕ) → s.running c ≤ 2

lookup-delete :
    (c d : ℕ) (xs : List Slots)
    → lookup connection_key d (delete (λ s. s.connection == c) xs)
      ≡ (if c == d then none else lookup connection_key d xs)
unfolding lookup delete
lookup-delete c d [] = ground arith
lookup-delete c d (x ∷ xs) = ground (arith, lookup-delete c d xs)

lookup-with_slots :
    (c d : ℕ) (xs : List Slots)
    → (active_of (lookup connection_key d (with_slots c xs))
        ≡ active_of (lookup connection_key d xs))
      × (refs_of (lookup connection_key d (with_slots c xs)) ≡ refs_of (lookup connection_key d xs))
      × (is_some (lookup connection_key c (with_slots c xs)) ≡ true)
unfolding lookup
lookup-with_slots c d xs = ground arith

enters-Tracks :
    (ext : External) (c : ℕ) (scope : String) (now : ℕ) (s : Office)
    → Tracks s
    → (enter ext c scope now s.budget).0 ≡ true
    → Tracks (record s { budget = (enter ext c scope now s.budget).1; waiting = more c s.waiting })
unfolding enter
enters-Tracks ext c scope now s k h =
    let row = λ (d : ℕ).
      lookup-update_at connection_key c d add_slots_ref (with_slots c s.budget.connections)
        (λ a. refl) in
    record {
      active = λ d. ground (arith, row d, lookup-with_slots c d s.budget.connections, k.active d);
      refs = λ d. ground (arith, row d, lookup-with_slots c d s.budget.connections, k.refs d);
      at_most_two = k.at_most_two;
    }

takes-Tracks :
    (c : ℕ) (scope : String) (now : ℕ) (cancelled : Bool) (s : Office)
    → Tracks s
    → 0 < s.waiting c
    → (attempt c scope now cancelled s.budget).0 ≡ admitted
    → Tracks (record {
      budget = (attempt c scope now cancelled s.budget).1;
      waiting = fewer c s.waiting;
      running = more c s.running;
    })
unfolding attempt
takes-Tracks c scope now cancelled s k w h =
    let row =
      λ (d : ℕ). lookup-update_at connection_key c d take_slot s.budget.connections (λ a. refl) in
    record {
      active = λ d. ground (arith, row d, k.active d, k.refs d);
      refs = λ d. ground (arith, row d, k.refs d);
      at_most_two = λ d. ground (arith, k.active d, k.at_most_two d);
    }

-- Dropping one reference of `c`.
leave-row :
    (c d : ℕ) (scope : String) (now : ℕ) (b : Budget)
    → slots_of d (leave c scope now b) ≡ (
        if c == d
        then (if refs_of (slots_of c b) - 1 == 0
            then none
            else Option.map drop_slots_ref (slots_of d b))
        else slots_of d b)
unfolding leave
leave-row c d scope now b = ground (
  arith,
  lookup-update_at connection_key c d drop_slots_ref b.connections (λ a. refl),
  lookup-update_at connection_key c c drop_slots_ref b.connections (λ a. refl),
  lookup-delete c d (update_at connection_key c drop_slots_ref b.connections),
)

quits-Tracks :
    (c : ℕ) (scope : String) (now : ℕ) (cancelled : Bool) (s : Office)
    → Tracks s
    → 0 < s.waiting c
    → (attempt c scope now cancelled s.budget).0 ≡ given_up
    → Tracks (record s {
      budget = (attempt c scope now cancelled s.budget).1;
      waiting = fewer c s.waiting;
    })
unfolding attempt
quits-Tracks c scope now cancelled s k w h =
    let row = λ (d : ℕ). leave-row c d scope now s.budget in
    record {
      active = λ d. ground (arith, row d, k.active d, k.refs d);
      refs = λ d. ground (arith, row d, k.refs d);
      at_most_two = k.at_most_two;
    }

releases-Tracks :
    (c : ℕ) (scope : String) (now : ℕ) (s : Office)
    → Tracks s
    → 0 < s.running c
    → Tracks (record s { budget = release c scope now s.budget; running = fewer c s.running })
unfolding release
releases-Tracks c scope now s k w =
    let b : Budget = record (s.budget) {
      connections = update_at connection_key c free_slot s.budget.connections;
    } in
    let row = λ (d : ℕ). leave-row c d scope now b in
    let freed =
      λ (d : ℕ). lookup-update_at connection_key c d free_slot s.budget.connections (λ a. refl) in
    record {
      active = λ d. ground (arith, row d, freed d, k.active d, k.refs d);
      refs = λ d. ground (arith, row d, freed d, k.active d, k.refs d);
      at_most_two = λ d. ground (arith, k.at_most_two d);
    }

same-Tracks :
    (s : Office) (b : Budget)
    → Tracks s
    → b.connections ≡ s.budget.connections
    → Tracks (record s { budget = b })
same-Tracks s b k e = record {
  active = λ d. rw e (k.active d);
  refs = λ d. rw e (k.refs d);
  at_most_two = k.at_most_two;
}

Step-Tracks : (ext : External) {s t : Office} → Tracks s → Step ext s t → Tracks t
unfolding enter attempt postpone
Step-Tracks ext {s} k (enters c scope now h) = enters-Tracks ext c scope now s k h
Step-Tracks ext {s} k (refused c scope now h) =
    same-Tracks s (enter ext c scope now s.budget).1 k (ground arith)
Step-Tracks ext {s} k (takes c scope now x w h) = takes-Tracks c scope now x s k w h
Step-Tracks ext {s} k (quits c scope now x w h) = quits-Tracks c scope now x s k w h
Step-Tracks ext {s} k (stays c scope now x h) =
    same-Tracks s (attempt c scope now x s.budget).1 k (ground arith)
Step-Tracks ext {s} k (releases c scope now w) = releases-Tracks c scope now s k w
Step-Tracks ext {s} k (postpones scope delay now) =
    same-Tracks s (postpone scope delay now s.budget) k refl

-- Whatever the order of the critical sections, of any number of callers, the rows of the budget keep
-- counting the callers, and no connection ever has more than two calls running.
pub Steps-Tracks : (ext : External) {s t : Office} → Tracks s → Steps ext s t → Tracks t
Steps-Tracks ext k start = k
Steps-Tracks ext k (andthen before step) = Step-Tracks ext (Steps-Tracks ext k before) step
