-- ===== src/Moderation/Staged.antt =====
-- What the approval of an edit makes of the staged features and images, apart from how the
-- statements make it.
use avtosh.Common.{
  ℕ, ◌+◌, ◌≡◌, refl, Bool, ◌&&◌, ◌||◌, not, List, [], ◌∷◌, ◌++◌, map, ◌==◌, arith, exists, delete,
  All, Bool-cases, inl, inr, if◌then◌else◌, ap,
}
use avtosh.Db.Listings.{Image}
use avtosh.Lifecycle.Store.{owned_by, staged_from}
use avtosh.Moderation.Apply.{features_of, feature_pair, insert_features}

-- The features of `i` are the given ones, and those of all others stay.
abbrev pub FeaturesAre : ℕ → List ℕ → List (ℕ × ℕ) → List (ℕ × ℕ) → Type 0
FeaturesAre i ids old new =
    (j f : ℕ)
    → exists (feature_pair j f) new
      ≡ (if j == i then exists (λ g. g == f) ids else exists (feature_pair j f) old)

abbrev pub appearance : Image → ℕ × ℕ × Bool
appearance i = (i.storage_path, i.sort_order, i.is_primary)

-- Copies of the given images that belong to `i`, in front of all images of others.
abbrev pub GalleryIs : ℕ → List Image → List Image → List Image → Type 0
GalleryIs i images old new =
    (copies : List Image) × (new ≡ copies ++ delete (owned_by i) old)
    × All (λ c. c.owner ≡ i) copies
    × (map appearance copies ≡ map appearance images)

insert-exists :
    (i j f : ℕ) (ids : List ℕ) (rows : List (ℕ × ℕ))
    → exists (feature_pair j f) (insert_features i ids rows)
      ≡ (((j == i) && exists (λ g. g == f) ids) || exists (feature_pair j f) rows)
unfolding insert_features exists
insert-exists i j f [] rows = ground arith
insert-exists i j f (g ∷ ids) rows =
    elim (Bool-cases (exists (feature_pair i g) (insert_features i ids rows))) [
      | inr e ↦ ground (arith, e, insert-exists i j f ids rows)
      | inl e ↦ elim (Bool-cases (j == i)) [
        | inr n ↦ ground (arith, e, n, insert-exists i j f ids rows)
        | inl n ↦ elim (Bool-cases (g == f)) [
          | inr m ↦ ground (arith, e, n, m, insert-exists i j f ids rows)
          | inl m ↦ ground (arith, e, n, m, insert-exists i j f ids rows)
        ]
      ]
    ]

delete-exists :
    (i j f : ℕ) (rows : List (ℕ × ℕ))
    → exists (feature_pair j f) (delete (features_of i) rows)
      ≡ (not (j == i) && exists (feature_pair j f) rows)
unfolding delete exists
delete-exists i j f [] = ground arith
delete-exists i j f ((k, g) ∷ rows) = ground (arith, delete-exists i j f rows)

pub insert_features-FeaturesAre :
    (i : ℕ) (ids : List ℕ) (rows : List (ℕ × ℕ))
    → FeaturesAre i ids rows (insert_features i ids (delete (features_of i) rows))
insert_features-FeaturesAre i ids rows j f =
    ground (arith, insert-exists i j f ids (delete (features_of i) rows), delete-exists i j f rows)

staged_from-owner :
    (i next : ℕ) (images : List Image) → All (λ c. c.owner ≡ i) (staged_from i next images)
staged_from-owner i next [] = tt
staged_from-owner i next (x ∷ xs) = (refl, staged_from-owner i (next + 1) xs)

staged_from-appearance :
    (i next : ℕ) (images : List Image)
    → map appearance (staged_from i next images) ≡ map appearance images
staged_from-appearance i next [] = refl
staged_from-appearance i next (x ∷ xs) =
    ap (λ t. appearance x ∷ t) (staged_from-appearance i (next + 1) xs)

pub staged_from-GalleryIs :
    (i next : ℕ) (images old : List Image)
    → GalleryIs i images old (staged_from i next images ++ delete (owned_by i) old)
staged_from-GalleryIs i next images old = (
  staged_from i next images,
  refl,
  staged_from-owner i next images,
  staged_from-appearance i next images,
)
