-- ===== src/Submission/Catalog.antt =====
-- Revalidation of a listing's references against the active catalog
-- (src/services/listing-submission.ts: assertComplete, revalidateCatalog).
use avtosh.Common.{
  ℕ, Bool, true, false, ◌&&◌, ◌||◌, not, Option, none, some, List, map, ltb, ◌==◌, is_none, count,
  select_all, length, Result, ok, err,
}
use avtosh.Db.{Db}
use avtosh.Db.Errors.{ApiErrorCode}
use avtosh.Db.Listings.{Listing, ListingContent}
use avtosh.Submission.Store.{count_listing_images, count_primary_images}

-- Whether the catalog's queries (src/repositories/catalog.ts) find an active row.
pub record Catalog : Type 0 where
  pub category : ℕ → Bool
  pub brand : ℕ → ℕ → Bool
  pub model : ℕ → ℕ → ℕ → Bool
  pub variant : ℕ → ℕ → Bool
  pub model_has_variants : ℕ → Bool
  pub city : ℕ → Bool
  pub option : ℕ → ℕ → ℕ → Bool
  pub feature : ℕ → ℕ → Bool

abbrev pub Check : Type 0
Check = Result ApiErrorCode (Unit {0})

infixl 5 ◌then_check◌
abbrev pub ◌then_check◌ : Check → Check → Check
ok u then_check k = k
err e then_check k = err e

abbrev pub require : Bool → ApiErrorCode → Check
require true e = ok tt
require false e = err e

-- `REQUIRED_FIELDS`: is one of them null?
unfoldable pub missing_field : ListingContent → Bool
missing_field c =
    is_none c.brand_id
    || is_none c.model_id
    || is_none c.year
    || is_none c.price_minor
    || is_none c.mileage
    || is_none c.city_id
    || is_none c.contact_phone_e164
    || is_none c.seller_name

-- Only processed images count, one of which is the primary.
unfoldable pub assert_complete : Db → Listing → ℕ → Check
unfolding missing_field count_listing_images count_primary_images
assert_complete db listing image_min =
    require (not (missing_field listing.content)) ApiErrorCode.listing_incomplete
    then_check require (not (ltb (count_listing_images listing.id db) image_min))
        ApiErrorCode.listing_insufficient_images
    then_check require (count_primary_images listing.id db == 1)
        ApiErrorCode.listing_insufficient_images

-- A query by a null finds nothing.
abbrev pub found : (ℕ → Bool) → Option ℕ → Bool
found p none = false
found p (some a) = p a

-- The references that may be null are checked where they are not.
abbrev pub valid_if_set : (ℕ → Bool) → Option ℕ → Bool
valid_if_set p none = true
valid_if_set p (some a) = p a

unfoldable pub check_variant : Catalog → Option ℕ → Option ℕ → Check
check_variant catalog model (some variant) =
    require (found (catalog.variant variant) model) ApiErrorCode.listing_invalid_catalog_selection
check_variant catalog model none =
    require (not (found catalog.model_has_variants model)) ApiErrorCode.listing_incomplete

-- `REFERENCE_COLUMNS`, in their order; the groups by number.
unfoldable pub references_valid : Catalog → ListingContent → Bool
references_valid catalog c =
    valid_if_set (λ v. catalog.option v 0 c.category_code) c.fuel_type_id
    && valid_if_set (λ v. catalog.option v 1 c.category_code) c.transmission_id
    && valid_if_set (λ v. catalog.option v 2 c.category_code) c.body_type_id
    && valid_if_set (λ v. catalog.option v 3 c.category_code) c.drive_type_id
    && valid_if_set (λ v. catalog.option v 4 c.category_code) c.motorcycle_type_id
    && valid_if_set (λ v. catalog.option v 5 c.category_code) c.color_id

abbrev feature_of : ℕ → ℕ × ℕ → Bool
feature_of listing_id (l, f) = l == listing_id

-- `valid.length !== featureIds.length`.
unfoldable pub features_valid : Catalog → ℕ → List ℕ → Bool
features_valid catalog category ids = count (λ f. catalog.feature f category) ids == length ids

unfoldable pub revalidate_catalog : Catalog → Db → Listing → Check
unfolding check_variant references_valid features_valid
revalidate_catalog catalog db listing =
    require (catalog.category c.category_code) invalid
    then_check require (found (λ b. catalog.brand b c.category_code) c.brand_id) invalid
    then_check require
        (found (λ m. found (λ b. catalog.model m b c.category_code) c.brand_id) c.model_id) invalid
    then_check check_variant catalog c.model_id c.model_variant_id
    then_check require (found catalog.city c.city_id) invalid
    then_check require (references_valid catalog c) invalid
    then_check require
        (features_valid catalog c.category_code
          (map (λ p. p.1) (select_all (feature_of listing.id) db.listing_features)))
        invalid
  where
    c : ListingContent
    c = listing.content

    invalid : ApiErrorCode
    invalid = ApiErrorCode.listing_invalid_catalog_selection
