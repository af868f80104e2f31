-- ===== src/Prelude/Tables.antt =====
-- Tables as lists of rows, and the statements SELECT, UPDATE, DELETE and count(*) on them.
use Prim.Native.Nat.{ℕ, suc}
use mathlib.Core.Path.{◌≡◌, refl}
use mathlib.Core.Logic.{inl, inr}
use mathlib.Core.Bool.{Bool, true, false, ◌||◌}
use mathlib.Core.Option.{Option, none, some}
use mathlib.Core.Option
use mathlib.Core.List.{List, [], ◌∷◌}
use native.Mathlib.Omega.{arith}
use sama.Prelude.Tests.{◌==◌, if◌then◌else◌, is_some, Option-cases}

module _ {ℓ} {A : Type ℓ} where
  -- The first row that satisfies the condition.
  unfoldable pub find : (A → Bool) → List A → Option A
  find p [] = none
  find p (x ∷ xs) = let rest = find p xs in if p x then some x else rest

  unfoldable pub any : (A → Bool) → List A → Bool
  any p [] = false
  any p (x ∷ xs) = p x || any p xs

  unfoldable pub count : (A → Bool) → List A → ℕ
  count p [] = 0
  count p (x ∷ xs) = let rest = count p xs in if p x then suc rest else rest

  unfoldable pub update : (A → Bool) → (A → A) → List A → List A
  update p f [] = []
  update p f (x ∷ xs) = (if p x then f x else x) ∷ update p f xs

  unfoldable pub delete : (A → Bool) → List A → List A
  delete p [] = []
  delete p (x ∷ xs) = let rest = delete p xs in if p x then rest else x ∷ rest

  pub any-find : (p : A → Bool) (xs : List A) → any p xs ≡ is_some (find p xs)
  unfolding any find
  any-find p [] = refl
  any-find p (x ∷ xs) = ground (arith, any-find p xs)

  pub find-update :
      (p : A → Bool) (f : A → A) (xs : List A)
      → ((x : A) → p (f x) ≡ p x)
      → find p (update p f xs) ≡ Option.map f (find p xs)
  unfolding find update
  find-update p f [] h = refl
  find-update p f (x ∷ xs) h = ground (arith, h x, find-update p f xs h)

  -- An UPDATE that does not change what the condition reads finds as many rows.
  pub is_some-find-update :
      (p q : A → Bool) (f : A → A) (xs : List A)
      → ((x : A) → p (f x) ≡ p x)
      → is_some (find p (update q f xs)) ≡ is_some (find p xs)
  unfolding find update
  is_some-find-update p q f [] h = refl
  is_some-find-update p q f (x ∷ xs) h = ground (arith, h x, is_some-find-update p q f xs h)

  -- No row is left that satisfies more than what was deleted.
  pub find-delete-none :
      (p q : A → Bool) (xs : List A)
      → ((x : A) → q x ≡ true → p x ≡ true)
      → find q (delete p xs) ≡ none
  unfolding find delete
  find-delete-none p q [] h = refl
  find-delete-none p q (x ∷ xs) h = ground (arith, h x, find-delete-none p q xs h)

  pub find-none_mono :
      (p q : A → Bool) (xs : List A)
      → ((x : A) → q x ≡ true → p x ≡ true)
      → find p xs ≡ none
      → find q xs ≡ none
  unfolding find
  find-none_mono p q [] h e = refl
  find-none_mono p q (x ∷ xs) h e = ground (arith, h x, find-none_mono p q xs h)

  pub any-false_mono :
      (p q : A → Bool) (xs : List A)
      → ((x : A) → q x ≡ true → p x ≡ true)
      → any p xs ≡ false
      → any q xs ≡ false
  unfolding any
  any-false_mono p q [] h e = refl
  any-false_mono p q (x ∷ xs) h e = ground (arith, h x, any-false_mono p q xs h)

  -- An UPDATE after which none of its rows satisfies the condition any more.
  pub any-update_cleared :
      (p : A → Bool) (f : A → A) (xs : List A)
      → ((x : A) → p x ≡ true → p (f x) ≡ false)
      → any p (update p f xs) ≡ false
  unfolding any update
  any-update_cleared p f [] h = refl
  any-update_cleared p f (x ∷ xs) h = ground (arith, h x, any-update_cleared p f xs h)

  -- An UPDATE that keeps the condition on the rows that it touches.
  pub any-update_keep :
      (p q : A → Bool) (f : A → A) (xs : List A)
      → ((x : A) → p x ≡ true → q x ≡ true → q (f x) ≡ true)
      → any q xs ≡ true
      → any q (update p f xs) ≡ true
  unfolding any update
  any-update_keep p q f [] h e = e
  any-update_keep p q f (x ∷ xs) h e = ground (arith, h x, any-update_keep p q f xs h)

  -- A row that satisfies `p` satisfies `q` after the UPDATE, whether it is touched or not.
  pub any-update_turn :
      (p touch q : A → Bool) (f : A → A) (xs : List A)
      → ((x : A) → p x ≡ true → touch x ≡ true → q (f x) ≡ true)
      → ((x : A) → p x ≡ true → touch x ≡ false → q x ≡ true)
      → any p xs ≡ true
      → any q (update touch f xs) ≡ true
  unfolding any update
  any-update_turn p touch q f [] h k e = absurd (ground (arith, e))
  any-update_turn p touch q f (x ∷ xs) h k e =
      ground (arith, h x, k x, any-update_turn p touch q f xs h k)

  pub any_mono :
      (p q : A → Bool) (xs : List A)
      → ((x : A) → p x ≡ true → q x ≡ true)
      → any p xs ≡ true
      → any q xs ≡ true
  unfolding any
  any_mono p q [] h e = e
  any_mono p q (x ∷ xs) h e = ground (arith, h x, any_mono p q xs h)

  pub any-delete_self : (p : A → Bool) (xs : List A) → any p (delete p xs) ≡ false
  unfolding any delete
  any-delete_self p [] = refl
  any-delete_self p (x ∷ xs) = ground (arith, any-delete_self p xs)

  pub any-delete_disjoint :
      (p q : A → Bool) (xs : List A)
      → ((x : A) → q x ≡ true → p x ≡ false)
      → any q (delete p xs) ≡ any q xs
  unfolding any delete
  any-delete_disjoint p q [] h = refl
  any-delete_disjoint p q (x ∷ xs) h = ground (arith, h x, any-delete_disjoint p q xs h)

module _ {ℓ} {A : Type ℓ} where
  -- INSERT, or UPDATE of the row that is there.
  unfoldable pub upsert : (A → Bool) → (A → A) → A → List A → List A
  unfolding any update
  upsert p f new xs = if any p xs then update p f xs else new ∷ xs

module _ {ℓ κ} {A : Type ℓ} {B : Type κ} where
  -- What is read of a row after it was inserted or updated.
  pub find-upsert :
      (p : A → Bool) (f : A → A) (new : A) (xs : List A) (g : A → B) (b : B)
      → ((x : A) → p (f x) ≡ p x)
      → ((x : A) → g (f x) ≡ b)
      → p new ≡ true
      → g new ≡ b
      → Option.map g (find p (upsert p f new xs)) ≡ some b
  unfolding upsert find any
  find-upsert p f new xs g b keeps sets matches reads = elim (Option-cases (find p xs)) [
    | inl e ↦ ground (arith, any-find p xs, e, matches, reads)
    | inr (x, e) ↦ ground (arith, any-find p xs, e, find-update p f xs keeps, sets x)
  ]

-- A table with a numeric primary key.
module _ {ℓ} {A : Type ℓ} (key : A → ℕ) where
  unfoldable pub lookup : ℕ → List A → Option A
  lookup k [] = none
  lookup k (x ∷ xs) = let rest = lookup k xs in if key x == k then some x else rest

  unfoldable pub update_at : ℕ → (A → A) → List A → List A
  update_at k f [] = []
  update_at k f (x ∷ xs) = (if key x == k then f x else x) ∷ update_at k f xs

  pub lookup-key : (k : ℕ) (xs : List A) {a : A} → lookup k xs ≡ some a → key a ≡ k
  unfolding lookup
  lookup-key k [] h = ground arith
  lookup-key k (x ∷ xs) {a} h = ground (arith, lookup-key k xs {a = a})

  pub lookup-update_at :
      (k j : ℕ) (f : A → A) (xs : List A)
      → ((a : A) → key (f a) ≡ key a)
      → lookup j (update_at k f xs) ≡ (if k == j then Option.map f (lookup j xs) else lookup j xs)
  unfolding lookup update_at
  lookup-update_at k j f [] h = ground arith
  lookup-update_at k j f (x ∷ xs) h = ground (arith, h x, lookup-update_at k j f xs h)
