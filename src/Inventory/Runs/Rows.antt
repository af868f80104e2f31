-- ===== src/Inventory/Runs/Rows.antt =====
-- Lists of runs in which no connection has two unfinished ones of one type.
use sama.Prelude.{
  ℕ, ◌≤◌, Bool, true, false, ◌&&◌, not, some, List, [], ◌∷◌, String, ◌≡◌, refl, ap, ◌∙◌, sym, arith,
  ◌==◌, find, any, count, update, Bool-cases, is_iff, inl, inr,
}
use sama.Database.{Db, SyncRun}
use sama.Inventory.Enqueue.{is_unfinished, is_pending_of}
use sama.Inventory.Authority.{has_id}

-- No two runs have one id, and no connection has two unfinished runs of one type.
pub record HasOnePending (runs : List SyncRun) : Type 0 where
  pub ids : (k : ℕ) → count (has_id k) runs ≤ 1
  pub pending :
      (scope connection : ℕ) (kind : String) → count (is_pending_of scope connection kind) runs ≤ 1

-- A pending run of the request and of another place is in the same place.
same_place :
    (a b c d : ℕ) (k l : String) (run : SyncRun)
    → is_pending_of a b k run ≡ true
    → is_pending_of c d l run ≡ true
    → (a ≡ c) × (b ≡ d) × (k ≡ l)
same_place a b c d k l run p q = (
  ground (arith, p, q),
  ground (arith, p, q),
  sym ((is_iff run.kind k).0 (ground (arith, p))) ∙ (is_iff run.kind l).0 (ground (arith, q)),
)

pub one_pending :
    (a b c d : ℕ) (k l : String) (run : SyncRun) (runs : List SyncRun)
    → is_pending_of a b k run ≡ true
    → count (is_pending_of a b k) runs ≡ 0
    → count (is_pending_of c d l) runs ≤ 1
    → count (is_pending_of c d l) (run ∷ runs) ≤ 1
unfolding count
one_pending a b c d k l run runs p zero_runs old = elim (Bool-cases (is_pending_of c d l run)) [
  | inr n ↦ ground (arith, n, old)
  | inl q ↦
      let (e, f, g) = same_place a b c d k l run p q in
      let none_there : count (is_pending_of c d l) runs ≡ 0 =
        ap (λ x. count (is_pending_of x d l) runs) (sym e)
        ∙ ap (λ x. count (is_pending_of a x l) runs) (sym f)
        ∙ ap (λ x. count (is_pending_of a b x) runs) (sym g)
        ∙ zero_runs in
      ground (arith, q, none_there)
]

-- A row that `f` opens again although it was finished.
abbrev pub reopens : ℕ → (SyncRun → SyncRun) → SyncRun → Bool
reopens run f s = has_id run s && is_unfinished (f s) && not (is_unfinished s)

-- `f` leaves the place and the id of a run alone.
pub record KeepsPlace (f : SyncRun → SyncRun) : Type 0 where
  pub id : (s : SyncRun) → (f s).id ≡ s.id
  pub workspace : (s : SyncRun) → (f s).workspace ≡ s.workspace
  pub connection : (s : SyncRun) → (f s).connection ≡ s.connection
  pub kind : (s : SyncRun) → (f s).kind ≡ s.kind
  pub scope : (s : SyncRun) → (f s).scope ≡ s.scope

update-pending :
    (run c d : ℕ) (k : String) (f : SyncRun → SyncRun) (xs : List SyncRun)
    → KeepsPlace f
    → any (reopens run f) xs ≡ false
    → count (is_pending_of c d k) (update (has_id run) f xs) ≤ count (is_pending_of c d k) xs
unfolding any count update
update-pending run c d k f [] p h = omega arith
update-pending run c d k f (x ∷ xs) p h =
    ground
      (arith, update-pending run c d k f xs p, p.workspace x, p.connection x, p.kind x, p.scope x)

update-ids :
    (run k : ℕ) (f : SyncRun → SyncRun) (xs : List SyncRun)
    → KeepsPlace f
    → count (has_id k) (update (has_id run) f xs) ≡ count (has_id k) xs
unfolding count update
update-ids run k f [] p = refl
update-ids run k f (x ∷ xs) p = ground (arith, update-ids run k f xs p, p.id x)

pub update-HasOnePending :
    (run : ℕ) (f : SyncRun → SyncRun) (xs : List SyncRun)
    → KeepsPlace f
    → any (reopens run f) xs ≡ false
    → HasOnePending xs
    → HasOnePending (update (has_id run) f xs)
update-HasOnePending run f xs p h one = record {
  ids = λ k. ground (arith, update-ids run k f xs p, one.ids k);
  pending = λ c d k. ground (arith, update-pending run c d k f xs p h, one.pending c d k);
}

nothing-reopens :
    (run : ℕ) (f : SyncRun → SyncRun) (xs : List SyncRun)
    → count (has_id run) xs ≡ 0
    → any (reopens run f) xs ≡ false
unfolding count any
nothing-reopens run f [] z = refl
nothing-reopens run f (x ∷ xs) z = ground (arith, z, nothing-reopens run f xs)

found-counts :
    (run : ℕ) (p : SyncRun → Bool) (xs : List SyncRun) {s : SyncRun}
    → ((x : SyncRun) → p x ≡ true → (has_id run x && is_unfinished x) ≡ true)
    → find p xs ≡ some s
    → 1 ≤ count (has_id run) xs
unfolding count find
found-counts run p [] imp h = absurd (ground (arith, h))
found-counts run p (x ∷ xs) {s} imp h = elim (Bool-cases (p x)) [
  | inl e ↦ ground (arith, imp x e)
  | inr n ↦ ground (arith, n, h, found-counts run p xs {s = s} imp)
]

-- Where ids are unique, an unfinished run that was found is the only row of its id.
pub found-unfinished :
    (run : ℕ) (p : SyncRun → Bool) (f : SyncRun → SyncRun) (xs : List SyncRun) {s : SyncRun}
    → ((x : SyncRun) → p x ≡ true → (has_id run x && is_unfinished x) ≡ true)
    → count (has_id run) xs ≤ 1
    → find p xs ≡ some s
    → any (reopens run f) xs ≡ false
unfolding count any find
found-unfinished run p f [] imp u h = absurd (ground (arith, h))
found-unfinished run p f (x ∷ xs) {s} imp u h = elim (Bool-cases (p x)) [
  | inl e ↦ ground (arith, imp x e, u, nothing-reopens run f xs)
  | inr n ↦
      let rest = found-unfinished run p f xs {s = s} imp in
      let there = found-counts run p xs {s = s} imp in ground (arith, n, h, u, rest, there)
]

pub fresh-count :
    (i k : ℕ) (xs : List SyncRun)
    → any (λ s. s.id == i) xs ≡ false
    → (i == k) ≡ true
    → count (has_id k) xs ≡ 0
unfolding count any
fresh-count i k [] e q = refl
fresh-count i k (x ∷ xs) e q = ground (arith, e, q, fresh-count i k xs)

-- The database after a step has the runs of a list that is in order.
abbrev pub Orderly : Db → Db → Type 0
Orderly a b = HasOnePending a.sync_runs → HasOnePending b.sync_runs

pub SameRuns-Orderly : (a b : Db) → b.sync_runs ≡ a.sync_runs → Orderly a b
SameRuns-Orderly a b e one = rw e one
