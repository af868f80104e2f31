-- ===== src/Prelude/Counts.antt =====
-- How UPDATE and DELETE change the number of rows that satisfy a condition.
use Prim.Native.Nat.{◌+◌, ◌≤◌}
use mathlib.Core.Path.{◌≡◌, refl}
use mathlib.Core.Bool.{Bool, true, false, ◌&&◌}
use mathlib.Core.Option.{none, some}
use mathlib.Core.List.{List, [], ◌∷◌}
use native.Mathlib.Omega.{arith}
use sama.Prelude.Tables.{find, count, update, delete}

module _ {ℓ} {A : Type ℓ} where
  pub count-le-update :
      (p q : A → Bool) (f : A → A) (xs : List A)
      → ((x : A) → p x ≡ true → q x ≡ true → q (f x) ≡ true)
      → count q xs ≤ count q (update p f xs)
  unfolding count update
  count-le-update p q f [] h = omega arith
  count-le-update p q f (x ∷ xs) h = ground (arith, h x, count-le-update p q f xs h)

  -- An update loses at most the rows that it touches.
  pub count-le-update_add :
      (p q : A → Bool) (f : A → A) (xs : List A)
      → count q xs ≤ count q (update p f xs) + count (λ x. p x && q x) xs
  unfolding count update
  count-le-update_add p q f [] = omega arith
  count-le-update_add p q f (x ∷ xs) = ground (arith, count-le-update_add p q f xs)

  pub count-le-delete_add :
      (p q : A → Bool) (xs : List A)
      → count q xs ≤ count q (delete p xs) + count (λ x. p x && q x) xs
  unfolding count delete
  count-le-delete_add p q [] = omega arith
  count-le-delete_add p q (x ∷ xs) = ground (arith, count-le-delete_add p q xs)

  pub count-and-le : (p q : A → Bool) (xs : List A) → count (λ x. p x && q x) xs ≤ count p xs
  unfolding count
  count-and-le p q [] = omega arith
  count-and-le p q (x ∷ xs) = ground (arith, count-and-le p q xs)

  pub count_mono :
      (p q : A → Bool) (xs : List A) → ((x : A) → p x ≡ true → q x ≡ true) → count p xs ≤ count q xs
  unfolding count
  count_mono p q [] h = omega arith
  count_mono p q (x ∷ xs) h = ground (arith, h x, count_mono p q xs h)

  pub count-zero : (p : A → Bool) (xs : List A) → ((x : A) → p x ≡ false) → count p xs ≡ 0
  unfolding count
  count-zero p [] h = refl
  count-zero p (x ∷ xs) h = ground (arith, h x, count-zero p xs h)

  pub find-holds : (p : A → Bool) (xs : List A) {a : A} → find p xs ≡ some a → p a ≡ true
  unfolding find
  find-holds p [] h = ground arith
  find-holds p (x ∷ xs) {a} h = ground (arith, find-holds p xs {a = a})

  -- Where at most one row satisfies `p`, the row that is found decides `q` for all of them.
  pub count-find_unique :
      (p q : A → Bool) (xs : List A) {a : A}
      → count p xs ≤ 1
      → find p xs ≡ some a
      → q a ≡ false
      → count (λ x. p x && q x) xs ≡ 0
  unfolding find count
  count-find_unique p q [] u h n = refl
  count-find_unique p q (x ∷ xs) {a} u h n =
      ground (arith, count-and-le p q xs, count-find_unique p q xs {a = a})

  pub count-find-none :
      (p q : A → Bool) (xs : List A) → find p xs ≡ none → count (λ x. p x && q x) xs ≡ 0
  unfolding find count
  count-find-none p q [] h = refl
  count-find-none p q (x ∷ xs) h = ground (arith, count-find-none p q xs)

  pub find-none-count : (p : A → Bool) (xs : List A) → find p xs ≡ none → count p xs ≡ 0
  unfolding find count
  find-none-count p [] h = refl
  find-none-count p (x ∷ xs) h = ground (arith, find-none-count p xs)
