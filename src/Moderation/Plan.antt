-- ===== src/Moderation/Plan.antt =====
-- normalizeImagePlan: a moderator's plan for the frozen images of a submission.
use avtosh.Common.{
  ℕ, suc, Bool, ◌&&◌, not, List, [], ◌∷◌, map, ltb, ◌==◌, if◌then◌else◌, exists, count, length,
  Result, ok, err, sort_by,
}
use avtosh.Db.Errors.{ApiErrorCode}
use avtosh.Db.Moderation.{SubmittedImage, ImagePlanRowEntry}

-- An entry as the client sends it; its place in the list is its order.
pub record AdjustmentImagePlanEntry : Type 0 where
  pub source_id : ℕ
  pub removed : Bool
  pub is_primary : Bool

abbrev pub has_source : ℕ → SubmittedImage → Bool
has_source source_id image = image.source_id == source_id

abbrev pub known : List SubmittedImage → ℕ → Bool
known submitted source_id = exists (has_source source_id) submitted

abbrev pub is_id : ℕ → ℕ → Bool
is_id a b = b == a

-- `new Set(submitted.map((image) => image.source_id))`, as the list of its members.
unfoldable pub source_set : List SubmittedImage → List ℕ
source_set [] = []
source_set (image ∷ images) =
    let rest = source_set images in
    if exists (is_id image.source_id) rest then rest else image.source_id ∷ rest

abbrev pub planned : ℕ → AdjustmentImagePlanEntry → ImagePlanRowEntry
planned index entry = record {
  source_id = entry.source_id;
  removed = entry.removed;
  sort_order = index;
  is_primary = entry.is_primary;
}

abbrev pub cons_entry :
    ImagePlanRowEntry
    → Result ApiErrorCode (List ImagePlanRowEntry)
    → Result ApiErrorCode (List ImagePlanRowEntry)
cons_entry entry (ok plan) = ok (entry ∷ plan)
cons_entry entry (err e) = err e

-- The loop over the entries, with the index and the sources seen so far.
unfoldable pub plan_entries :
    List SubmittedImage
    → ℕ
    → List ℕ
    → List AdjustmentImagePlanEntry
    → Result ApiErrorCode (List ImagePlanRowEntry)
plan_entries submitted index seen [] = ok []
plan_entries submitted index seen (entry ∷ entries) =
    let rest = plan_entries submitted (suc index) (entry.source_id ∷ seen) entries in
    if not (known submitted entry.source_id)
    then err ApiErrorCode.validation_error
    else if exists (is_id entry.source_id) seen
    then err ApiErrorCode.validation_error
    else if entry.removed && entry.is_primary
    then err ApiErrorCode.validation_error
    else cons_entry (planned index entry) rest

abbrev pub is_kept : ImagePlanRowEntry → Bool
is_kept entry = not entry.removed

abbrev pub is_kept_primary : ImagePlanRowEntry → Bool
is_kept_primary entry = is_kept entry && entry.is_primary

-- The checks of the whole plan. `seen.size` is the number of entries, which are distinct by now.
abbrev pub check_plan :
    List SubmittedImage → ℕ → List ImagePlanRowEntry → Result ApiErrorCode (List ImagePlanRowEntry)
check_plan submitted image_min plan =
    if not (length plan == length (source_set submitted))
    then err ApiErrorCode.validation_error
    else if ltb (count is_kept plan) image_min
    then err ApiErrorCode.listing_insufficient_images
    else if ltb 0 (count is_kept plan) && not (count is_kept_primary plan == 1)
    then err ApiErrorCode.validation_error
    else ok plan

checked :
    List SubmittedImage
    → ℕ
    → Result ApiErrorCode (List ImagePlanRowEntry)
    → Result ApiErrorCode (List ImagePlanRowEntry)
checked submitted image_min (ok plan) = check_plan submitted image_min plan
checked submitted image_min (err e) = err e

unfoldable pub normalize_image_plan :
    List AdjustmentImagePlanEntry
    → List SubmittedImage
    → ℕ
    → Result ApiErrorCode (List ImagePlanRowEntry)
unfolding plan_entries source_set checked
normalize_image_plan entries submitted image_min =
    checked submitted image_min (plan_entries submitted 0 [] entries)

abbrev pub as_entry : ImagePlanRowEntry → AdjustmentImagePlanEntry
as_entry entry = record {
  source_id = entry.source_id;
  removed = entry.removed;
  is_primary = entry.is_primary;
}

abbrev pub plan_order : ImagePlanRowEntry → ℕ
plan_order entry = entry.sort_order

-- A saved plan as the approval hands it to the checks again: in its order.
unfoldable pub plan_input : List ImagePlanRowEntry → List AdjustmentImagePlanEntry
plan_input plan = map as_entry (sort_by plan_order plan)
