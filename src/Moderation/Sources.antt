-- ===== src/Moderation/Sources.antt =====
-- The set of the submitted sources, and lists that have the same numbers as often.
use avtosh.Common.{
  ℕ, suc, ◌≤◌, ◌<◌, ◌≡◌, refl, inl, inr, true, false, List, [], ◌∷◌, arith, ◌==◌, if◌then◌else◌,
  ltb, exists, count, length, Bool-cases,
}
use avtosh.Db.Moderation.{SubmittedImage}
use avtosh.Moderation.Plan.{known, is_id, source_set}

-- The members of a set of sources, each once.
pub source_set-known :
    (j : ℕ) (s : List SubmittedImage) → exists (is_id j) (source_set s) ≡ known s j
unfolding exists source_set
source_set-known j [] = refl
source_set-known j (x ∷ s) = elim (Bool-cases (exists (is_id x.source_id) (source_set s))) [
  | inl e ↦ rw e (ground (arith, e, source_set-known j s))
  | inr e ↦ rw e (ground (arith, e, source_set-known j s))
]

pub absent-count : (j : ℕ) (l : List ℕ) → exists (is_id j) l ≡ false → count (is_id j) l ≡ 0
unfolding exists count
absent-count j [] h = refl
absent-count j (x ∷ l) h = ground (arith, absent-count j l)

pub present-count : (j : ℕ) (l : List ℕ) → exists (is_id j) l ≡ true → 1 ≤ count (is_id j) l
unfolding exists count
present-count j [] h = absurd (ground arith)
present-count j (x ∷ l) h = ground (arith, present-count j l)

pub source_set-once : (j : ℕ) (s : List SubmittedImage) → count (is_id j) (source_set s) ≤ 1
unfolding count source_set
source_set-once j [] = omega arith
source_set-once j (x ∷ s) = elim (Bool-cases (exists (is_id x.source_id) (source_set s))) [
  | inl e ↦ rw e (source_set-once j s)
  | inr e ↦ rw e (ground (arith, source_set-once j s, absent-count x.source_id (source_set s) e))
]

-- Of two lists the one that has every number as often or more is as long or longer.
unfoldable without : ℕ → List ℕ → List ℕ
without x [] = []
without x (y ∷ ys) = let rest = without x ys in if y == x then ys else y ∷ rest

without-length :
    (x : ℕ) (ys : List ℕ) → 1 ≤ count (is_id x) ys → length ys ≡ suc (length (without x ys))
unfolding count without
without-length x [] h = absurd (omega (arith, h))
without-length x (y ∷ ys) h = ground (arith, without-length x ys)

without-count :
    (j x : ℕ) (ys : List ℕ)
    → 1 ≤ count (is_id x) ys
    → count (is_id j) ys ≡ count (is_id j) (x ∷ without x ys)
unfolding count without
without-count j x [] h = absurd (omega (arith, h))
without-count j x (y ∷ ys) h = ground (arith, without-count j x ys)

length-count_le :
    (xs ys : List ℕ) → ((j : ℕ) → count (is_id j) xs ≤ count (is_id j) ys) → length xs ≤ length ys
unfolding count
length-count_le [] ys h = omega arith
length-count_le (x ∷ xs) ys h = omega (
  arith,
  without-length x ys here,
  length-count_le xs (without x ys) (λ j. ground (arith, h j, without-count j x ys here)),
)
  where
    here : 1 ≤ count (is_id x) ys
    here = ground (arith, h x)

-- Of equally long ones it has every number exactly as often.
pub length-count_eq :
    (xs ys : List ℕ)
    → ((j : ℕ) → count (is_id j) xs ≤ count (is_id j) ys)
    → length xs ≡ length ys
    → (j : ℕ) → count (is_id j) xs ≡ count (is_id j) ys
length-count_eq xs ys h e j = elim (Bool-cases (ltb (count (is_id j) xs) (count (is_id j) ys))) [
  | inr n ↦ ground (arith, n, h j)
  | inl l ↦ absurd (omega (arith, e, length-count_le (j ∷ xs) ys (more (ground (arith, l)))))
]
  where
    more :
        count (is_id j) xs < count (is_id j) ys
        → (i : ℕ) → count (is_id i) (j ∷ xs) ≤ count (is_id i) ys
    more l i = unfold count in ground (arith, l, h i, h j)
