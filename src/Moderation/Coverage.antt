-- ===== src/Moderation/Coverage.antt =====
-- A plan that passes the checks names every submitted image once, and passes them again.
use avtosh.Common.{
  ℕ, suc, ◌≤◌, ◌≡◌, refl, sym, ap, ◌∙◌, inl, inr, Bool, true, false, List, [], ◌∷◌, map, arith,
  ◌==◌, exists, count, length, length-map, All, Result, ok, err, Result-cases, Bool-cases, sort_by,
  insert_by,
}
use avtosh.Db.Errors.{ApiErrorCode}
use avtosh.Db.Moderation.{SubmittedImage, ImagePlanRowEntry}
use avtosh.Moderation.Plan.{
  AdjustmentImagePlanEntry, known, is_id, source_set, planned, plan_entries, is_kept,
  is_kept_primary, check_plan, normalize_image_plan, as_entry, plan_order, plan_input, cons_entry,
}
use avtosh.Moderation.Sources.{
  source_set-known, absent-count, present-count, source_set-once, length-count_eq,
}

abbrev pub from : ℕ → ImagePlanRowEntry → Bool
from j entry = entry.source_id == j

abbrev numbered : ℕ → List AdjustmentImagePlanEntry → List ImagePlanRowEntry
numbered i [] = []
numbered i (x ∷ xs) = planned i x ∷ numbered (suc i) xs

cons_ok :
    (e : ImagePlanRowEntry) (r : Result ApiErrorCode (List ImagePlanRowEntry))
    {plan : List ImagePlanRowEntry}
    → cons_entry e r ≡ ok plan
    → (rest : List ImagePlanRowEntry) × (r ≡ ok rest) × (plan ≡ e ∷ rest)
cons_ok e (err x) h = absurd (ground arith)
cons_ok e (ok rest) h = (rest, refl, ground (arith, h))

module _ (submitted : List SubmittedImage) where
  -- What the loop says of one entry and of those after it.
  entry_ok :
      (i : ℕ) (seen : List ℕ) (x : AdjustmentImagePlanEntry) (xs : List AdjustmentImagePlanEntry)
      {plan : List ImagePlanRowEntry}
      → plan_entries submitted i seen (x ∷ xs) ≡ ok plan
      → (known submitted x.source_id ≡ true)
        × (exists (is_id x.source_id) seen ≡ false)
        × (x.removed ≡ true → x.is_primary ≡ false)
        × (cons_entry (planned i x) (plan_entries submitted (suc i) (x.source_id ∷ seen) xs)
            ≡ ok plan)
  unfolding plan_entries
  entry_ok i seen x xs h = ground (arith, h)

  -- The plan is the entries with their places.
  entries-numbered :
      (i : ℕ) (seen : List ℕ) (xs : List AdjustmentImagePlanEntry) {plan : List ImagePlanRowEntry}
      → plan_entries submitted i seen xs ≡ ok plan
      → plan ≡ numbered i xs
  unfolding plan_entries
  entries-numbered i seen [] h = ground (arith, h)
  entries-numbered i seen (x ∷ xs) h =
      let e = entry_ok i seen x xs h in
      let c = cons_ok (planned i x) (plan_entries submitted (suc i) (x.source_id ∷ seen) xs) e.3 in
      c.2 ∙ ap (λ t. planned i x ∷ t) (entries-numbered (suc i) (x.source_id ∷ seen) xs c.1)

  seen_absent :
      (j i : ℕ) (seen : List ℕ) (xs : List AdjustmentImagePlanEntry) {plan : List ImagePlanRowEntry}
      → plan_entries submitted i seen xs ≡ ok plan
      → exists (is_id j) seen ≡ true
      → count (from j) plan ≡ 0
  unfolding plan_entries count exists
  seen_absent j i seen [] h s = ground (arith, h)
  seen_absent j i seen (x ∷ xs) h s =
      let e = entry_ok i seen x xs h in
      let c = cons_ok (planned i x) (plan_entries submitted (suc i) (x.source_id ∷ seen) xs) e.3 in
      let rest = seen_absent j (suc i) (x.source_id ∷ seen) xs c.1 (ground (arith, s)) in
      rw (c.2) (ground (arith, rest, s, e.1))

  once :
      (j i : ℕ) (seen : List ℕ) (xs : List AdjustmentImagePlanEntry) {plan : List ImagePlanRowEntry}
      → plan_entries submitted i seen xs ≡ ok plan
      → (count (from j) plan ≤ 1) × (1 ≤ count (from j) plan → known submitted j ≡ true)
  unfolding plan_entries count
  once j i seen [] h = ground (arith, h)
  once j i seen (x ∷ xs) h =
      let e = entry_ok i seen x xs h in
      let c = cons_ok (planned i x) (plan_entries submitted (suc i) (x.source_id ∷ seen) xs) e.3 in
      let rest = once j (suc i) (x.source_id ∷ seen) xs c.1 in
      let none_after = seen_absent j (suc i) (x.source_id ∷ seen) xs c.1 in
      rw (c.2) (joined x _ rest none_after e.0)
    where
      joined :
          (y : AdjustmentImagePlanEntry) (l : List ImagePlanRowEntry)
          → (count (from j) l ≤ 1) × (1 ≤ count (from j) l → known submitted j ≡ true)
          → (exists (is_id j) (y.source_id ∷ seen) ≡ true → count (from j) l ≡ 0)
          → known submitted y.source_id ≡ true
          → (count (from j) (planned i y ∷ l) ≤ 1)
            × (1 ≤ count (from j) (planned i y ∷ l) → known submitted j ≡ true)
      joined y l r n k = unfold count exists in ground (arith, r, n, k)

  primaries_kept :
      (i : ℕ) (seen : List ℕ) (xs : List AdjustmentImagePlanEntry) {plan : List ImagePlanRowEntry}
      → plan_entries submitted i seen xs ≡ ok plan
      → All (λ e. e.removed ≡ true → e.is_primary ≡ false) plan
  unfolding plan_entries
  primaries_kept i seen [] {plan} h = let e : [] ≡ plan = ground (arith, h) in rw (sym e) tt
  primaries_kept i seen (x ∷ xs) {plan} h =
      let e = entry_ok i seen x xs h in
      let c = cons_ok (planned i x) (plan_entries submitted (suc i) (x.source_id ∷ seen) xs) e.3 in
      rw (c.2) (e.2, primaries_kept (suc i) (x.source_id ∷ seen) xs c.1)

abbrev sources : List ImagePlanRowEntry → List ℕ
sources plan = map (λ e. e.source_id) plan

count-sources :
    (j : ℕ) (plan : List ImagePlanRowEntry) → count (is_id j) (sources plan) ≡ count (from j) plan
unfolding count
count-sources j [] = refl
count-sources j (e ∷ plan) = ground (arith, count-sources j plan)

module _ (submitted : List SubmittedImage) (image_min : ℕ) (entries : List AdjustmentImagePlanEntry)
    {plan : List ImagePlanRowEntry} where
  plan_checked :
      normalize_image_plan entries submitted image_min ≡ ok plan
      → (plan_entries submitted 0 [] entries ≡ ok plan)
        × (length plan ≡ length (source_set submitted))
        × (image_min ≤ count is_kept plan)
        × (1 ≤ count is_kept plan → count is_kept_primary plan ≡ 1)
  unfolding normalize_image_plan
  plan_checked h = elim (Result-cases (plan_entries submitted 0 [] entries)) [
    | inl (e, pe) ↦ absurd (ground (arith, pe))
    | inr (p, pe) ↦
        let r : check_plan submitted image_min p ≡ ok plan = rw pe at h in ground (arith, pe, r)
  ]

  -- A plan that passes the checks names every submitted image exactly once and no other, keeps at
  -- least the minimum, has exactly one primary image among the kept ones, if any is kept, and no
  -- removed one that is primary.
  pub normalize_image_plan_covers :
      normalize_image_plan entries submitted image_min ≡ ok plan
      → ((j : ℕ) → known submitted j ≡ true → count (from j) plan ≡ 1)
        × ((j : ℕ) → known submitted j ≡ false → count (from j) plan ≡ 0)
        × (image_min ≤ count is_kept plan)
        × (1 ≤ count is_kept plan → count is_kept_primary plan ≡ 1)
        × All (λ e. e.removed ≡ true → e.is_primary ≡ false) plan
  normalize_image_plan_covers h = (
    λ j k. omega (
      arith,
      counted j,
      count-sources j plan,
      present-count j (source_set submitted) (source_set-known j submitted ∙ k),
      source_set-once j submitted,
    ),
    λ j k. omega (
      arith,
      counted j,
      count-sources j plan,
      absent-count j (source_set submitted) (source_set-known j submitted ∙ k),
    ),
    facts.2,
    facts.3,
    primaries_kept submitted 0 [] entries facts.0,
  )
    where
      facts :
          (plan_entries submitted 0 [] entries ≡ ok plan)
          × (length plan ≡ length (source_set submitted))
          × (image_min ≤ count is_kept plan)
          × (1 ≤ count is_kept plan → count is_kept_primary plan ≡ 1)
      facts = plan_checked h

      within : (j : ℕ) → count (is_id j) (sources plan) ≤ count (is_id j) (source_set submitted)
      within j = elim (Bool-cases (known submitted j)) [
        | inl k ↦ omega (
          arith,
          count-sources j plan,
          once submitted j 0 [] entries facts.0,
          present-count j (source_set submitted) (source_set-known j submitted ∙ k),
        )
        | inr k ↦ ground (arith, k, count-sources j plan, once submitted j 0 [] entries facts.0)
      ]

      counted : (j : ℕ) → count (is_id j) (sources plan) ≡ count (is_id j) (source_set submitted)
      counted =
          length-count_eq (sources plan) (source_set submitted) within
            (omega (arith, facts.1, length-map (λ e. e.source_id) plan))

numbered-sort :
    (i : ℕ) (xs : List AdjustmentImagePlanEntry)
    → sort_by plan_order (numbered i xs) ≡ numbered i xs
unfolding sort_by insert_by
numbered-sort i [] = refl
numbered-sort i (x ∷ []) = refl
numbered-sort i (x ∷ y ∷ xs) = rw (numbered-sort (suc i) (y ∷ xs)) (ground arith)

numbered-entries : (i : ℕ) (xs : List AdjustmentImagePlanEntry) → map as_entry (numbered i xs) ≡ xs
numbered-entries i [] = refl
numbered-entries i (x ∷ xs) = ap (λ t. x ∷ t) (numbered-entries (suc i) xs)

-- A plan that was saved passes the checks at the approval again, as the same plan, if the minimum
-- of images is still the same: sorted by its places it is what the client sent.
pub normalize_image_plan_again :
    (submitted : List SubmittedImage) (image_min : ℕ) (entries : List AdjustmentImagePlanEntry)
    {plan : List ImagePlanRowEntry}
    → normalize_image_plan entries submitted image_min ≡ ok plan
    → (plan_input plan ≡ entries)
      × (normalize_image_plan (plan_input plan) submitted image_min ≡ ok plan)
unfolding plan_input
normalize_image_plan_again submitted image_min entries {plan} h =
    (back, ap (λ t. normalize_image_plan t submitted image_min) back ∙ h)
  where
    places : plan ≡ numbered 0 entries
    places = entries-numbered submitted 0 [] entries (plan_checked submitted image_min entries h).0

    back : map as_entry (sort_by plan_order plan) ≡ entries
    back =
        ap (λ t. map as_entry (sort_by plan_order t)) places
        ∙ ap (map as_entry) (numbered-sort 0 entries)
        ∙ numbered-entries 0 entries
