-- ===== src/Content/Checks.antt =====
-- The checks of a snapshot before it goes into moderation (assertContentSubmittable,
-- assertRevisionSubmittable) and before a moderator's version of it is approved
-- (assertAdjustedContentApprovable), and what an approval writes (approvedContentSet).
use avtosh.Common.{
  ℕ, Bool, true, false, ◌&&◌, ◌||◌, not, Option, none, some, ltb, ◌==◌, is_none, count, Result, ok,
  err, if◌then◌else◌,
}
use avtosh.Db.{Db}
use avtosh.Db.Errors.{ApiErrorCode}
use avtosh.Db.Listings.{ListingContent, EditData, EditRevision, Image}
use avtosh.Lifecycle.Store.{owned_by}
use avtosh.Submission.Catalog.{
  Catalog, Check, ◌then_check◌, require, missing_field, found, valid_if_set, check_variant,
  references_valid, features_valid,
}

-- A text is a number, and the empty text is 0; `dataString` reads it as absent. Only these may be
-- empty: an id of a row is not.
abbrev pub data_string : Option ℕ → Option ℕ
data_string none = none
data_string (some text) = if text == 0 then none else some text

-- `SUBMIT_REQUIRED_FIELDS`, of which a text that is empty is missing, too.
unfoldable pub missing_content : ListingContent → Bool
unfolding missing_field
missing_content c =
    missing_field c
    || is_none (data_string c.contact_phone_e164)
    || is_none (data_string c.seller_name)

abbrev pub invalid : ApiErrorCode
invalid = ApiErrorCode.listing_invalid_catalog_selection

unfoldable pub assert_content_submittable : Catalog → EditData → Check
unfolding missing_content check_variant references_valid features_valid
assert_content_submittable catalog data' =
    require (not (missing_content c)) ApiErrorCode.listing_incomplete
    then_check require (catalog.category c.category_code) invalid
    then_check require (found (λ b. catalog.brand b c.category_code) c.brand_id) invalid
    then_check require
        (found (λ m. found (λ b. catalog.model m b c.category_code) c.brand_id) c.model_id) invalid
    then_check check_variant catalog c.model_id c.model_variant_id
    then_check require (found catalog.city c.city_id) invalid
    then_check require (references_valid catalog c) invalid
    then_check require (features_valid catalog c.category_code data'.feature_ids) invalid
  where
    c : ListingContent
    c = data'.content

-- `countEditImages` and `countPrimaryEditImages`.
unfoldable pub count_edit_images : ℕ → Db → ℕ
count_edit_images revision_id db = count (owned_by revision_id) db.edit_images

abbrev pub edit_primary_of : ℕ → Image → Bool
edit_primary_of revision_id i = (i.owner == revision_id) && i.is_primary

unfoldable pub count_primary_edit_images : ℕ → Db → ℕ
count_primary_edit_images revision_id db = count (edit_primary_of revision_id) db.edit_images

unfoldable pub assert_revision_submittable : Catalog → Db → EditRevision → ℕ → Check
unfolding assert_content_submittable count_edit_images count_primary_edit_images
assert_revision_submittable catalog db revision image_min =
    assert_content_submittable catalog revision.snapshot
    then_check require (not (ltb (count_edit_images revision.id db) image_min))
        ApiErrorCode.listing_insufficient_images
    then_check require (count_primary_edit_images revision.id db == 1)
        ApiErrorCode.listing_insufficient_images

-- Absent from the adjusted content, but present in what was submitted.
abbrev pub lost : Option ℕ → Option ℕ → Bool
lost adjusted submitted = is_none adjusted && not (is_none submitted)

unfoldable pub degraded : ListingContent → ListingContent → Bool
degraded submitted adjusted =
    lost adjusted.brand_id submitted.brand_id
    || lost adjusted.model_id submitted.model_id
    || lost adjusted.year submitted.year
    || lost adjusted.price_minor submitted.price_minor
    || lost adjusted.mileage submitted.mileage
    || lost adjusted.city_id submitted.city_id
    || lost (data_string adjusted.contact_phone_e164) (data_string submitted.contact_phone_e164)
    || lost (data_string adjusted.seller_name) (data_string submitted.seller_name)

-- A selection that is present is of the one above it.
abbrev pub selected_under : (ℕ → ℕ → Bool) → Option ℕ → Option ℕ → Bool
selected_under p above none = true
selected_under p none (some a) = false
selected_under p (some b) (some a) = p a b

unfoldable pub assert_adjusted_content_approvable : Catalog → EditData → EditData → Check
unfolding degraded references_valid features_valid
assert_adjusted_content_approvable catalog submitted adjusted =
    require (not (degraded submitted.content c)) ApiErrorCode.listing_incomplete
    then_check require (catalog.category c.category_code) invalid
    then_check require (valid_if_set (λ b. catalog.brand b c.category_code) c.brand_id) invalid
    then_check require
        (selected_under (λ m b. catalog.model m b c.category_code) c.brand_id c.model_id) invalid
    then_check require (selected_under catalog.variant c.model_id c.model_variant_id) invalid
    then_check require (valid_if_set catalog.city c.city_id) invalid
    then_check require (references_valid catalog c) invalid
    then_check require (features_valid catalog c.category_code adjusted.feature_ids) invalid
  where
    c : ListingContent
    c = adjusted.content

-- `data.no_accident === true ? true : null`.
abbrev pub only_true : Option Bool → Option Bool
only_true (some true) = some true
only_true _ = none

-- The columns that an approval writes: an empty text is written as null.
abbrev pub approved_columns : ListingContent → ListingContent
approved_columns c = record c {
  no_accident = only_true c.no_accident;
  not_repainted = only_true c.not_repainted;
  description = data_string c.description;
  contact_phone_e164 = data_string c.contact_phone_e164;
  seller_name = data_string c.seller_name;
}

-- The category must be active.
unfoldable pub approved_content_set : Catalog → EditData → Result ApiErrorCode ListingContent
approved_content_set catalog data' = elim (catalog.category data'.content.category_code) [
  | true ↦ ok (approved_columns data'.content)
  | false ↦ err invalid
]
