-- ===== src/Common/Table/Keys.antt =====
-- Updates through a key: a condition that at most one row meets.
use Prim.Native.Nat.{◌≤◌}
use mathlib.Core.Path.{◌≡◌, refl}
use mathlib.Core.Logic.{inl, inr}
use mathlib.Core.Bool.{Bool, true, false}
use mathlib.Core.Option.{some}
use mathlib.Core.List.{List, [], ◌∷◌}
use native.Mathlib.Omega.{arith}
use avtosh.Common.Tests.{Bool-cases}
use avtosh.Common.Lists.{All}
use avtosh.Common.Table.{select, exists, count, update}
use avtosh.Common.Table.Laws.{update_none}

module _ {ℓ} {A : Type ℓ} where
  -- The one row of a key decides what an update by the key does to a count,
  pub count-update_key :
      (p q : A → Bool) (f : A → A) (l : List A) {x : A}
      → count p l ≤ 1
      → select p l ≡ some x
      → (q (f x) ≡ true → q x ≡ true)
      → count q (update p f l) ≤ count q l
  unfolding select count update
  count-update_key p q f [] u h k = absurd (ground arith)
  count-update_key p q f (y ∷ l) {x} u h k =
      ground (arith, k, update_none p f l, count-update_key p q f l {x = x})

  -- and to a property of every row.
  pub All-update_key {κ} :
      (P : A → Type κ) (p : A → Bool) (f : A → A) (l : List A) {x : A}
      → count p l ≤ 1
      → select p l ≡ some x
      → ((y : A) → y ≡ x → p y ≡ true → P y → P (f y))
      → All P l
      → All P (update p f l)
  unfolding select count update
  All-update_key P p f [] u h k a = tt
  All-update_key P p f (y ∷ l) {x} u h k a = elim (Bool-cases (p y)) [
    | inl e ↦
        let same : some y ≡ some x = rw e at h in
        let rest : count p l ≡ 0 = ground (arith, u, e) in
        rw e (k y (ground (arith, same)) e a.0, rw (update_none p f l rest) a.1)
    | inr e ↦ rw e (a.0, All-update_key P p f l (ground (arith, u, e)) (rw e at h) k a.1)
  ]

  -- The one row of a key decides whether a narrower condition has a row.
  pub exists_key :
      (p q : A → Bool) (l : List A) {x : A}
      → count p l ≤ 1
      → select p l ≡ some x
      → q x ≡ false
      → ((y : A) → q y ≡ true → p y ≡ true)
      → exists q l ≡ false
  unfolding select count exists
  exists_key p q [] u h k n = refl
  exists_key p q (y ∷ l) {x} u h k n = ground (arith, n y, none_of_key l, exists_key p q l {x = x})
    where
      none_of_key : (m : List A) → count p m ≡ 0 → exists q m ≡ false
      none_of_key [] z = refl
      none_of_key (w ∷ m) z = ground (arith, n w, none_of_key m)
