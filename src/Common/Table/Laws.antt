-- ===== src/Common/Table/Laws.antt =====
-- What the table statements satisfy, for any condition and any assignment.
use Prim.Native.Nat.{suc, ◌≤◌}
use mathlib.Core.Path.{◌≡◌, refl}
use mathlib.Core.Bool.{Bool, true, false}
use mathlib.Core.Option.{none, some}
use mathlib.Core.List.{List, [], ◌∷◌, ◌++◌, map}
use mathlib.Core.Logic.{inl, inr}
use native.Mathlib.Omega.{arith}
use avtosh.Common.Tests.{Bool-cases, is_some}
use avtosh.Common.Lists.{All}
use avtosh.Common.Table.{select, select_all, exists, count, update, touch_option}

module _ {ℓ} {A : Type ℓ} where
  pub exists-count : (p : A → Bool) (l : List A) → exists p l ≡ true → 1 ≤ count p l
  unfolding exists count
  exists-count p [] h = ground arith
  exists-count p (x ∷ l) h = ground (arith, exists-count p l)

  -- A selected row meets the condition.
  pub select_holds : (p : A → Bool) (l : List A) {x : A} → select p l ≡ some x → p x ≡ true
  unfolding select
  select_holds p [] h = ground arith
  select_holds p (y ∷ l) {x} h = ground (arith, select_holds p l {x = x})

  pub select-All {κ} :
      (P : A → Type κ) (p : A → Bool) (l : List A) {x : A} → All P l → select p l ≡ some x → P x
  unfolding select
  select-All P p [] a h = absurd (ground arith)
  select-All P p (y ∷ l) {x} a h = elim (Bool-cases (p y)) [
    | inl e ↦ let q : some y ≡ some x = rw e at h in ground (arith, a.0, q)
    | inr e ↦ select-All P p l a.1 (rw e at h)
  ]

  -- An assignment that leaves the columns of `q` alone commutes with a select by `q`.
  pub select-update :
      (p q : A → Bool) (f : A → A) (l : List A)
      → ((x : A) → q (f x) ≡ q x)
      → select q (update p f l) ≡ touch_option p f (select q l)
  unfolding select update
  select-update p q f [] h = refl
  select-update p q f (x ∷ l) h = ground (arith, h x, select-update p q f l h)

  pub select-update_kept :
      (p q : A → Bool) (f : A → A) (l : List A)
      → ((x : A) → p x ≡ true → q (f x) ≡ q x)
      → select q (update p f l) ≡ touch_option p f (select q l)
  unfolding select update
  select-update_kept p q f [] h = refl
  select-update_kept p q f (x ∷ l) h = ground (arith, h x, select-update_kept p q f l h)

  pub exists-select : (p : A → Bool) (l : List A) → exists p l ≡ is_some (select p l)
  unfolding select exists
  exists-select p [] = refl
  exists-select p (x ∷ l) = ground (arith, exists-select p l)

  pub count_empty : (p : A → Bool) (l : List A) → select p l ≡ none → count p l ≡ 0
  unfolding select count
  count_empty p [] h = refl
  count_empty p (x ∷ l) h = ground (arith, count_empty p l)

  pub count_zero-select : (p : A → Bool) (l : List A) → count p l ≡ 0 → select p l ≡ none
  unfolding select count
  count_zero-select p [] h = refl
  count_zero-select p (x ∷ l) h = ground (arith, count_zero-select p l)

  -- An assignment that makes no row newly meet `q` does not raise the count of `q`.
  pub count-update-le :
      (p q : A → Bool) (f : A → A) (l : List A)
      → ((x : A) → p x ≡ true → q (f x) ≡ true → q x ≡ true)
      → count q (update p f l) ≤ count q l
  unfolding count update
  count-update-le p q f [] h = omega arith
  count-update-le p q f (x ∷ l) h = ground (arith, h x, count-update-le p q f l h)

  pub All-update {κ} :
      (P : A → Type κ) (p : A → Bool) (f : A → A) (l : List A)
      → ((x : A) → p x ≡ true → P x → P (f x))
      → All P l
      → All P (update p f l)
  unfolding update
  All-update P p f [] h a = tt
  All-update P p f (x ∷ l) h a = elim (Bool-cases (p x)) [
    | inl e ↦ rw e (h x e a.0, All-update P p f l h a.1)
    | inr e ↦ rw e (a.0, All-update P p f l h a.1)
  ]

  -- An update that no row meets changes nothing.
  pub update_none : (p : A → Bool) (f : A → A) (l : List A) → count p l ≡ 0 → update p f l ≡ l
  unfolding count update
  update_none p f [] h = refl
  update_none p f (x ∷ l) h = ground (arith, update_none p f l)

  -- A row that is selected, and meets `p`, makes `p` exist.
  pub exists_of_select :
      (p q : A → Bool) (l : List A) {x : A} → select q l ≡ some x → p x ≡ true → exists p l ≡ true
  unfolding select exists
  exists_of_select p q [] {x} h e = ground arith
  exists_of_select p q (y ∷ l) {x} h e = ground (arith, exists_of_select p q l {x = x})

  pub exists_false-update :
      (p : A → Bool) (f : A → A) (l : List A) → exists p l ≡ false → update p f l ≡ l
  unfolding exists update
  exists_false-update p f [] h = refl
  exists_false-update p f (x ∷ l) h = ground (arith, exists_false-update p f l)

  -- The first row of `p` is the first of a narrower `q` that it meets.
  pub select_narrower :
      (p q : A → Bool) (l : List A) {x : A}
      → select p l ≡ some x
      → q x ≡ true
      → ((y : A) → q y ≡ true → p y ≡ true)
      → select q l ≡ some x
  unfolding select
  select_narrower p q [] {x} h e n = ground arith
  select_narrower p q (y ∷ l) {x} h e n = ground (arith, n y, select_narrower p q l {x = x})

  -- An assignment that takes a selected row out of `q` lowers the count of `q`.
  pub count-update-lt :
      (p q : A → Bool) (f : A → A) (l : List A) {x : A}
      → select q l ≡ some x
      → p x ≡ true
      → ((y : A) → p y ≡ true → q (f y) ≡ false)
      → suc (count q (update p f l)) ≤ count q l
  unfolding select count update
  count-update-lt p q f [] {x} h e n = absurd (ground arith)
  count-update-lt p q f (y ∷ l) {x} h e n = ground (
    arith,
    n y,
    count-update-lt p q f l {x = x},
    count-update-le p q f l (λ z a b. ground (arith, n z)),
  )

  pub select_all-append :
      (p : A → Bool) (l m : List A) → select_all p (l ++ m) ≡ select_all p l ++ select_all p m
  unfolding select_all
  select_all-append p [] m = refl
  select_all-append p (x ∷ l) m = ground (arith, select_all-append p l m)

  pub select_all-map_all :
      (p : A → Bool) (f : A → A) (l : List A)
      → ((x : A) → p (f x) ≡ true)
      → select_all p (map f l) ≡ map f l
  unfolding select_all
  select_all-map_all p f [] h = refl
  select_all-map_all p f (x ∷ l) h = ground (arith, h x, select_all-map_all p f l h)

  -- A count of the rows of a key that an assignment leaves alone.
  pub count-update :
      (p q : A → Bool) (f : A → A) (l : List A)
      → ((x : A) → q (f x) ≡ q x)
      → count q (update p f l) ≡ count q l
  unfolding count update
  count-update p q f [] h = refl
  count-update p q f (x ∷ l) h = ground (arith, h x, count-update p q f l h)

  pub exists-update :
      (p q : A → Bool) (f : A → A) (l : List A)
      → ((x : A) → q (f x) ≡ q x)
      → exists q (update p f l) ≡ exists q l
  unfolding exists update
  exists-update p q f [] h = refl
  exists-update p q f (x ∷ l) h = ground (arith, h x, exists-update p q f l h)

  -- An assignment that makes no row newly meet `q` leaves `q` without a row.
  pub exists_none-update :
      (p q : A → Bool) (f : A → A) (l : List A)
      → ((x : A) → p x ≡ true → q (f x) ≡ true → q x ≡ true)
      → exists q l ≡ false
      → exists q (update p f l) ≡ false
  unfolding exists update
  exists_none-update p q f [] h e = refl
  exists_none-update p q f (x ∷ l) h e = ground (arith, h x, exists_none-update p q f l h)

  -- An assignment to every row of a wider condition that takes each out of `q` empties `q`.
  pub exists-emptied :
      (p q : A → Bool) (f : A → A) (l : List A)
      → ((x : A) → p x ≡ true → q (f x) ≡ false)
      → ((x : A) → q x ≡ true → p x ≡ true)
      → exists q (update p f l) ≡ false
  unfolding exists update
  exists-emptied p q f [] h n = refl
  exists-emptied p q f (x ∷ l) h n = ground (arith, h x, n x, exists-emptied p q f l h n)

  -- An update of rows that are and stay outside of `q` does not change what `q` finds.
  pub select-update_apart :
      (p q : A → Bool) (f : A → A) (l : List A)
      → ((x : A) → p x ≡ true → q x ≡ false)
      → ((x : A) → p x ≡ true → q (f x) ≡ false)
      → select q (update p f l) ≡ select q l
  unfolding select update
  select-update_apart p q f [] h k = refl
  select-update_apart p q f (x ∷ l) h k = ground (arith, h x, k x, select-update_apart p q f l h k)
