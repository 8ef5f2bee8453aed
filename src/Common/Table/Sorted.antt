-- ===== src/Common/Table/Sorted.antt =====
-- `order by key asc`, and what it leaves alone: the rows, and so every count of them.
use Prim.Native.Nat.{ℕ, suc, ◌+◌, ◌≤◌}
use mathlib.Core.Path.{◌≡◌, refl}
use mathlib.Core.Bool.{Bool, true, false, ◌&&◌, not}
use mathlib.Core.List.{List, [], ◌∷◌, ◌++◌}
use native.Mathlib.Omega.{arith}
use avtosh.Common.Tests.{ltb, if◌then◌else◌}
use avtosh.Common.Lists.{length}
use avtosh.Common.Table.{select_all, count, update}

module _ {ℓ} {A : Type ℓ} (key : A → ℕ) where
  -- A row before the first that has a greater key.
  unfoldable pub insert_by : A → List A → List A
  insert_by x [] = x ∷ []
  insert_by x (y ∷ ys) =
      let rest = insert_by x ys in if ltb (key y) (key x) then y ∷ rest else x ∷ y ∷ ys

  unfoldable pub sort_by : List A → List A
  sort_by [] = []
  sort_by (x ∷ xs) = insert_by x (sort_by xs)

  count-insert_by : (p : A → Bool) (x : A) (l : List A) → count p (insert_by x l) ≡ count p (x ∷ l)
  unfolding count insert_by
  count-insert_by p x [] = refl
  count-insert_by p x (y ∷ l) = ground (arith, count-insert_by p x l)

  pub count-sort_by : (p : A → Bool) (l : List A) → count p (sort_by l) ≡ count p l
  unfolding count sort_by
  count-sort_by p [] = refl
  count-sort_by p (x ∷ l) = ground (arith, count-insert_by p x (sort_by l), count-sort_by p l)

  length-insert_by : (x : A) (l : List A) → length (insert_by x l) ≡ suc (length l)
  unfolding insert_by
  length-insert_by x [] = refl
  length-insert_by x (y ∷ l) = ground (arith, length-insert_by x l)

  pub length-sort_by : (l : List A) → length (sort_by l) ≡ length l
  unfolding sort_by
  length-sort_by [] = refl
  length-sort_by (x ∷ l) = ground (arith, length-insert_by x (sort_by l), length-sort_by l)

module _ {ℓ} {A : Type ℓ} where
  pub count-append : (p : A → Bool) (l m : List A) → count p (l ++ m) ≡ count p l + count p m
  unfolding count
  count-append p [] m = omega arith
  count-append p (x ∷ l) m = ground (arith, count-append p l m)

  pub count-select_all :
      (p q : A → Bool) (l : List A) → count q (select_all p l) ≡ count (λ x. p x && q x) l
  unfolding count select_all
  count-select_all p q [] = refl
  count-select_all p q (x ∷ l) = ground (arith, count-select_all p q l)

  pub length-select_all : (p : A → Bool) (l : List A) → length (select_all p l) ≡ count p l
  unfolding count select_all
  length-select_all p [] = refl
  length-select_all p (x ∷ l) = ground (arith, length-select_all p l)

  -- What meets a condition and what does not make up the table.
  pub count-split :
      (p q : A → Bool) (l : List A)
      → count q l ≡ count (λ x. p x && q x) l + count (λ x. not (p x) && q x) l
  unfolding count
  count-split p q [] = refl
  count-split p q (x ∷ l) = ground (arith, count-split p q l)

  pub count-all : (p : A → Bool) (l : List A) → count (λ x. not (p x)) l ≡ 0 → count p l ≡ length l
  unfolding count
  count-all p [] h = refl
  count-all p (x ∷ l) h = ground (arith, count-all p l)

  pub count-ext : (p q : A → Bool) (l : List A) → ((x : A) → p x ≡ q x) → count p l ≡ count q l
  unfolding count
  count-ext p q [] h = refl
  count-ext p q (x ∷ l) h = ground (arith, h x, count-ext p q l h)

  pub count_mono :
      (p q : A → Bool) (l : List A) → ((x : A) → p x ≡ true → q x ≡ true) → count p l ≤ count q l
  unfolding count
  count_mono p q [] h = omega arith
  count_mono p q (x ∷ l) h = ground (arith, h x, count_mono p q l h)

  -- An assignment that takes its rows out of `q`, and no other, lowers the count of `q` by them.
  pub count-update_out :
      (p q : A → Bool) (f : A → A) (l : List A)
      → ((x : A) → p x ≡ true → q (f x) ≡ false)
      → count q (update p f l) + count (λ x. p x && q x) l ≡ count q l
  unfolding count update
  count-update_out p q f [] h = refl
  count-update_out p q f (x ∷ l) h = ground (arith, h x, count-update_out p q f l h)

  -- An assignment to rows whose count it does not change.
  pub count-update_same :
      (p q : A → Bool) (f : A → A) (l : List A)
      → ((x : A) → p x ≡ true → q (f x) ≡ q x)
      → count q (update p f l) ≡ count q l
  unfolding count update
  count-update_same p q f [] h = refl
  count-update_same p q f (x ∷ l) h = ground (arith, h x, count-update_same p q f l h)
