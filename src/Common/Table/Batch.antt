-- ===== src/Common/Table/Batch.antt =====
-- A batch of a worker: `where id in (select id … where due order by key limit n)`.
use Prim.Native.Nat.{ℕ, ◌+◌, ◌≤◌, min}
use mathlib.Core.Path.{◌≡◌, refl, ap}
use mathlib.Core.Logic.{inl, inr}
use mathlib.Core.Bool.{Bool, true, ◌&&◌, not}
use mathlib.Core.List.{List, [], ◌∷◌}
use native.Mathlib.Omega.{arith}
use avtosh.Common.Tests.{◌==◌, Bool-cases}
use avtosh.Common.Relate.{Rows}
use avtosh.Common.Lists.{All, All-mono, length, take, drop, take-append-drop, length-take}
use avtosh.Common.Table.{select_all, exists, count, update}
use avtosh.Common.Table.Laws.{exists-count}
use avtosh.Common.Table.Sorted.{
  sort_by, count-sort_by, length-sort_by, count-append, count-select_all, length-select_all,
  count-split, count_mono,
}

module _ {ℓ} {A : Type ℓ} (id : A → ℕ) where
  abbrev pub with_id : ℕ → A → Bool
  with_id i x = id x == i

  -- `id in (…)`.
  abbrev pub in_rows : List A → A → Bool
  in_rows rows x = exists (with_id (id x)) rows

  abbrev pub Keyed : List A → Type 0
  Keyed l = (i : ℕ) → count (with_id i) l ≤ 1

  weaken : (y x : A) (l : List A) → in_rows l x ≡ true → in_rows (y ∷ l) x ≡ true
  unfolding exists
  weaken y x l h = ground arith

  members : (l : List A) → All (λ x. in_rows l x ≡ true) l
  unfolding exists
  members [] = tt
  members (y ∷ l) = (
    ground arith,
    All-mono (λ x. in_rows l x ≡ true) (λ x. in_rows (y ∷ l) x ≡ true) l (λ x. weaken y x l)
        (members l),
  )

  -- No row outside a set of rows has an id of theirs.
  apart :
      (s m : List A)
      → ((i : ℕ) → count (with_id i) s + count (with_id i) m ≤ 1)
      → count (in_rows s) m ≡ 0
  unfolding count
  apart s [] h = refl
  apart s (x ∷ m) h =
      ground
        (arith, h (id x), exists-count (with_id (id x)) s, apart s m (λ i. ground (arith, h i)))

  pub count-all_of : (p : A → Bool) (l : List A) → All (λ x. p x ≡ true) l → count p l ≡ length l
  unfolding count
  count-all_of p [] h = refl
  count-all_of p (x ∷ l) h = ground (arith, h.0, count-all_of p l h.1)

module _ {ℓ} {A : Type ℓ} (id key : A → ℕ) (n : ℕ) (due : A → Bool) where
  unfoldable pub batch : List A → List A
  batch l = take n (sort_by key (select_all due l))

  rest : List A → List A
  rest l = drop n (sort_by key (select_all due l))

  parts :
      (q : A → Bool) (l : List A)
      → count q (batch l) + count q (rest l) ≡ count (λ x. due x && q x) l
  unfolding batch rest
  parts q l = omega (
    arith,
    count-append q (take n s) (drop n s),
    ap (count q) (take-append-drop n s),
    count-sort_by key q (select_all due l),
    count-select_all due q l,
  )
    where
      s : List A
      s = sort_by key (select_all due l)

  pub length-batch : (l : List A) → length (batch l) ≡ min n (count due l)
  unfolding batch
  length-batch l = omega (
    arith,
    length-take n (sort_by key (select_all due l)),
    length-sort_by key (select_all due l),
    length-select_all due l,
  )

  module _ (l : List A) (keyed : Keyed id l) where
    others :
        (i : ℕ)
        → count (with_id id i) (select_all (λ x. not (due x)) l) + count (with_id id i) (batch l)
          ≤ 1
    others i = omega (
      arith,
      keyed i,
      count-split due (with_id id i) l,
      count-select_all (λ x. not (due x)) (with_id id i) l,
      parts (with_id id i) l,
    )

    -- The due rows with an id of the batch are those of the batch, and no other row has one.
    in_due : count (λ x. due x && in_rows id (batch l) x) l ≡ length (batch l)
    in_due = omega (
      arith,
      parts (in_rows id (batch l)) l,
      count-all_of id (in_rows id (batch l)) (batch l) (members id (batch l)),
      apart id (batch l) (rest l) (λ i. omega (
        arith,
        keyed i,
        parts (with_id id i) l,
        count_mono (λ x. due x && with_id id i x) (with_id id i) l (λ x h. ground arith),
      )),
    )

    pub in_not-due : count (λ x. not (due x) && in_rows id (batch l) x) l ≡ 0
    in_not-due = omega (
      arith,
      count-select_all (λ x. not (due x)) (in_rows id (batch l)) l,
      apart id (batch l) (select_all (λ x. not (due x)) l) (λ i. omega (arith, others i)),
    )

    -- So as many rows as the batch has meet any condition that its rows meet.
    pub count-batch :
        (r : A → Bool)
        → ((x : A) → due x ≡ true → r x ≡ true)
        → count (λ x. in_rows id (batch l) x && r x) l ≡ length (batch l)
    count-batch r h = omega (
      arith,
      in_due,
      in_not-due,
      count-split due (in_rows id (batch l)) l,
      count_mono (λ x. in_rows id (batch l) x && r x) (in_rows id (batch l)) l
          (λ x e. ground arith),
      count_mono (λ x. due x && in_rows id (batch l) x) (λ x. in_rows id (batch l) x && r x) l
          (λ x e. ground (arith, h x)),
    )

-- An update that only rows of `due` meet relates the rows by what it does to those.
pub Rows-update_due {ℓ} :
    {A : Type ℓ} (R : A → A → Type 0)
    → ((x : A) → R x x)
    → (due p : A → Bool) (f : A → A) (l : List A) → count (λ x. not (due x) && p x) l ≡ 0
    → ((x : A) → due x ≡ true → R x (f x))
    → Rows R l (update p f l)
unfolding count update
Rows-update_due R r due p f [] z h = tt
Rows-update_due R r due p f (x ∷ l) z h = elim (Bool-cases (p x)) [
  | inr e ↦ rw e (r x, Rows-update_due R r due p f l (ground (arith, z)) h)
  | inl e ↦ elim (Bool-cases (due x)) [
    | inl d ↦ rw e (h x d, Rows-update_due R r due p f l (ground (arith, z)) h)
    | inr d ↦ absurd (ground (arith, z))
  ]
]
