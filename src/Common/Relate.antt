-- ===== src/Common/Relate.antt =====
-- A relation between the rows of a table before and after.
use mathlib.Core.Path.{◌≡◌}
use mathlib.Core.Logic.{inl, inr}
use mathlib.Core.Bool.{Bool, true}
use mathlib.Core.List.{List, [], ◌∷◌}
use avtosh.Common.Tests.{Bool-cases}
use avtosh.Common.Table.{update}

-- Two tables agree row by row up to `R`.
abbrev pub Rows {ℓ} : {A : Type ℓ} → (A → A → Type 0) → List A → List A → Type 0
Rows R [] [] = Unit
Rows R (x ∷ xs) (y ∷ ys) = R x y × Rows R xs ys
Rows R _ _ = ⊥

module _ {ℓ} {A : Type ℓ} (R : A → A → Type 0) (reflexive : (x : A) → R x x) where
  pub Rows-refl : (l : List A) → Rows R l l
  Rows-refl [] = tt
  Rows-refl (x ∷ l) = (reflexive x, Rows-refl l)

  pub Rows-update :
      (p : A → Bool) (f : A → A) (l : List A)
      → ((x : A) → p x ≡ true → R x (f x))
      → Rows R l (update p f l)
  unfolding update
  Rows-update p f [] h = tt
  Rows-update p f (x ∷ l) h = elim (Bool-cases (p x)) [
    | inl e ↦ rw e (h x e, Rows-update p f l h)
    | inr e ↦ rw e (reflexive x, Rows-update p f l h)
  ]

pub Rows-trans {ℓ} :
    {A : Type ℓ} (R : A → A → Type 0)
    → ((x y z : A) → R x y → R y z → R x z)
    → (l m n : List A) → Rows R l m
    → Rows R m n
    → Rows R l n
Rows-trans R t [] [] [] h k = tt
Rows-trans R t [] [] (z ∷ n) h k = k
Rows-trans R t [] (y ∷ m) n h k = absurd h
Rows-trans R t (x ∷ l) [] n h k = absurd h
Rows-trans R t (x ∷ l) (y ∷ m) [] h k = absurd k
Rows-trans R t (x ∷ l) (y ∷ m) (z ∷ n) h k = (t x y z h.0 k.0, Rows-trans R t l m n h.1 k.1)
