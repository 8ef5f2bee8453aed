-- ===== src/Common/Table.antt =====
-- A database table as the list of its rows, newest first, with the statements that the
-- repositories issue: `select`, `exists`, `count`, and a guarded `update`.
pub mod Laws
pub mod Keys
pub mod Sorted
pub mod Batch
use Prim.Native.Nat.{ℕ, suc, max}
use mathlib.Core.Bool.{Bool, true, false, ◌||◌}
use mathlib.Core.Option.{Option, none, some}
use mathlib.Core.List.{List, [], ◌∷◌}
use avtosh.Common.Tests.{ltb, if◌then◌else◌}

module _ {ℓ} {A : Type ℓ} where
  -- `rows[0]` of a select with the condition `p`.
  unfoldable pub select : (A → Bool) → List A → Option A
  select p [] = none
  select p (x ∷ xs) = if p x then some x else select p xs

  unfoldable pub select_all : (A → Bool) → List A → List A
  select_all p [] = []
  select_all p (x ∷ xs) = let rest = select_all p xs in if p x then x ∷ rest else rest

  unfoldable pub exists : (A → Bool) → List A → Bool
  exists p [] = false
  exists p (x ∷ xs) = p x || exists p xs

  unfoldable pub count : (A → Bool) → List A → ℕ
  count p [] = 0
  count p (x ∷ xs) = let rest = count p xs in if p x then suc rest else rest

  -- One row of an update: `set f where p`.
  abbrev pub touch : (A → Bool) → (A → A) → A → A
  touch p f x = if p x then f x else x

  unfoldable pub update : (A → Bool) → (A → A) → List A → List A
  update p f [] = []
  update p f (x ∷ xs) = touch p f x ∷ update p f xs

  abbrev pub touch_option : (A → Bool) → (A → A) → Option A → Option A
  touch_option p f none = none
  touch_option p f (some x) = some (touch p f x)

  -- `max(f)` over the rows of a condition, which SQL gives as null where there is none; here 0.
  unfoldable pub max_of : (A → Bool) → (A → ℕ) → List A → ℕ
  max_of p f [] = 0
  max_of p f (x ∷ xs) = let rest = max_of p f xs in if p x then max (f x) rest else rest

  -- `delete from … where p`: the rows that stay.
  unfoldable pub delete : (A → Bool) → List A → List A
  delete p [] = []
  delete p (x ∷ xs) = let rest = delete p xs in if p x then rest else x ∷ rest

  abbrev pub later_of : (A → ℕ) → A → Option A → Option A
  later_of key x none = some x
  later_of key x (some y) = if ltb (key x) (key y) then some y else some x

  -- `order by key desc limit 1`.
  unfoldable pub select_latest : (A → Bool) → (A → ℕ) → List A → Option A
  select_latest p key [] = none
  select_latest p key (x ∷ xs) =
      let rest = select_latest p key xs in if p x then later_of key x rest else rest
