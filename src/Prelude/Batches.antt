-- ===== src/Prelude/Batches.antt =====
-- A bounded DELETE: the first rows of an order that satisfy a condition.
use Prim.Native.Nat.{ℕ, suc, zero, ◌≤◌}
use mathlib.Core.Path.{◌≡◌, refl}
use mathlib.Core.Logic.{inl, inr}
use mathlib.Core.Bool.{Bool, true, false, ◌&&◌}
use mathlib.Core.List.{List, [], ◌∷◌}
use native.Mathlib.Omega.{arith}
use sama.Prelude.Tests.{leb, if◌then◌else◌, Bool-cases}
use sama.Prelude.Lists.{length, All}
use sama.Prelude.Tables.{any}

module _ {ℓ} {A : Type ℓ} where
  -- ORDER BY a number.
  unfoldable pub insert_by : (A → ℕ) → A → List A → List A
  insert_by key x [] = x ∷ []
  insert_by key x (y ∷ ys) =
      let rest = insert_by key x ys in if leb (key x) (key y) then x ∷ y ∷ ys else y ∷ rest

  unfoldable pub sort_by : (A → ℕ) → List A → List A
  unfolding insert_by
  sort_by key [] = []
  sort_by key (x ∷ xs) = insert_by key x (sort_by key xs)

  unfoldable pub take : ℕ → List A → List A
  take zero xs = []
  take (suc n) [] = []
  take (suc n) (x ∷ xs) = x ∷ take n xs

  unfoldable pub select : (A → Bool) → List A → List A
  select p [] = []
  select p (x ∷ xs) = let rest = select p xs in if p x then x ∷ rest else rest

  -- SELECT ... WHERE p ORDER BY key LIMIT n
  unfoldable pub batch : (A → Bool) → (A → ℕ) → ℕ → List A → List A
  unfolding sort_by take select
  batch p key n xs = take n (sort_by key (select p xs))

  pub length-take : (n : ℕ) (xs : List A) → length (take n xs) ≤ n
  unfolding take
  length-take zero xs = omega arith
  length-take (suc n) [] = omega arith
  length-take (suc n) (x ∷ xs) = omega (arith, length-take n xs)

  any-insert_by :
      (q : A → Bool) (key : A → ℕ) (x : A) (xs : List A)
      → any q (insert_by key x xs) ≡ true
      → any q (x ∷ xs) ≡ true
  unfolding any insert_by
  any-insert_by q key x [] h = h
  any-insert_by q key x (y ∷ ys) h = ground (arith, any-insert_by q key x ys)

  any-sort_by :
      (q : A → Bool) (key : A → ℕ) (xs : List A) → any q (sort_by key xs) ≡ true → any q xs ≡ true
  unfolding any sort_by
  any-sort_by q key [] h = h
  any-sort_by q key (x ∷ xs) h =
      ground (arith, any-insert_by q key x (sort_by key xs) h, any-sort_by q key xs)

  any-take : (q : A → Bool) (n : ℕ) (xs : List A) → any q (take n xs) ≡ true → any q xs ≡ true
  unfolding any take
  any-take q zero xs h = ground arith
  any-take q (suc n) [] h = h
  any-take q (suc n) (x ∷ xs) h = ground (arith, any-take q n xs)

  -- What a batch holds satisfies the condition, and is in the table.
  any-select :
      (q p : A → Bool) (xs : List A)
      → ((x : A) → p x ≡ true → q x ≡ false)
      → any q (select p xs) ≡ false
  unfolding any select
  any-select q p [] h = refl
  any-select q p (x ∷ xs) h = ground (arith, h x, any-select q p xs h)

  pub any-batch :
      (q p : A → Bool) (key : A → ℕ) (n : ℕ) (xs : List A)
      → ((x : A) → p x ≡ true → q x ≡ false)
      → any q (batch p key n xs) ≡ false
  unfolding batch
  any-batch q p key n xs h = ground (
    arith,
    any-select q p xs h,
    any-sort_by q key (select p xs),
    any-take q n (sort_by key (select p xs)),
  )

  pub any-select_and :
      (q p : A → Bool) (xs : List A) → any (λ x. p x && q x) xs ≡ true → any q (select p xs) ≡ true
  unfolding any select
  any-select_and q p [] h = h
  any-select_and q p (x ∷ xs) h = ground (arith, h, any-select_and q p xs)

  pub select-All : (p : A → Bool) (xs : List A) → All (λ x. p x ≡ true) (select p xs)
  unfolding select
  select-All p [] = tt
  select-All p (x ∷ xs) = elim (Bool-cases (p x)) [
    | inl e ↦ rw e (e, select-All p xs)
    | inr e ↦ rw e (select-All p xs)
  ]
