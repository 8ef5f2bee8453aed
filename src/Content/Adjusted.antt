-- ===== src/Content/Adjusted.antt =====
-- What a resolved patch makes of a snapshot (resolveAdjustedData of
-- src/services/moderation-adjustments.ts).
use avtosh.Common.{ℕ, Bool, Option, none, some, List, if◌then◌else◌, Result, ok, err}
use avtosh.Db.Errors.{ApiErrorCode}
use avtosh.Db.Listings.{ListingContent, EditData}
use avtosh.Submission.Catalog.{Catalog}
use avtosh.Content.Selections.{SellerContentPatch, Texts, SellerPatchContext, cleared_if}
use avtosh.Content.Patch.{active_features, ResolvedSellerPatch, resolve_seller_content_patch}

-- `{ ...base, ...changes }` at one key.
abbrev pub set {ℓ} : {A : Type ℓ} → Option A → A → A
set none old = old
set (some new) old = new

-- A category change clears the body type and the motorcycle type, where the patch does not set them.
abbrev pub cleared_with_category : Bool → Option (Option ℕ) → Option (Option ℕ)
cleared_with_category changed none = cleared_if changed
cleared_with_category changed (some value) = some value

abbrev pub changed_content :
    SellerContentPatch → ResolvedSellerPatch → ListingContent → ListingContent
changed_content patch r base = record {
  category_code = r.target.category;
  brand_id = set r.brand_id base.brand_id;
  model_id = set r.model_id base.model_id;
  model_variant_id = set r.model_variant_id base.model_variant_id;
  year = set patch.year base.year;
  price_minor = set patch.price_minor base.price_minor;
  mileage = set patch.mileage base.mileage;
  engine_cc = set patch.engine_cc base.engine_cc;
  fuel_type_id = set patch.fuel_type_id base.fuel_type_id;
  transmission_id = set patch.transmission_id base.transmission_id;
  body_type_id =
      set (cleared_with_category r.target.category_changed patch.body_type_id) base.body_type_id;
  drive_type_id = set patch.drive_type_id base.drive_type_id;
  motorcycle_type_id =
      set (cleared_with_category r.target.category_changed patch.motorcycle_type_id)
        base.motorcycle_type_id;
  color_id = set patch.color_id base.color_id;
  city_id = set patch.city_id base.city_id;
  credit_available = set patch.credit_available base.credit_available;
  barter_available = set patch.barter_available base.barter_available;
  no_accident = set patch.no_accident base.no_accident;
  not_repainted = set patch.not_repainted base.not_repainted;
  description = set patch.description base.description;
  contact_phone_e164 = set r.contact_phone base.contact_phone_e164;
  seller_name = set r.seller_name base.seller_name;
}

-- The features: as supplied, or pruned by a category change.
abbrev pub changed_features : Catalog → SellerContentPatch → ResolvedSellerPatch → List ℕ → List ℕ
changed_features catalog patch r base = next patch.feature_ids
  where
    next : Option (List ℕ) → List ℕ
    next (some ids) = ids
    next none =
        if r.target.category_changed then active_features catalog r.target.category base else base

abbrev context_of : EditData → SellerPatchContext
context_of base = record {
  category = base.content.category_code;
  brand_id = base.content.brand_id;
  model_id = base.content.model_id;
}

changed_data :
    Catalog
    → SellerContentPatch
    → EditData
    → Result ApiErrorCode ResolvedSellerPatch
    → Result ApiErrorCode EditData
changed_data catalog patch base (err e) = err e
changed_data catalog patch base (ok r) = ok (record {
  content = changed_content patch r base.content;
  feature_ids = changed_features catalog patch r base.feature_ids;
})

-- A patch onto a snapshot, whose own category must still be active: the resolution of an edit
-- revision's update, and of a moderator's adjustment (resolveAdjustedData).
unfoldable pub resolve_adjusted_data :
    Catalog → Texts → EditData → SellerContentPatch → Result ApiErrorCode EditData
unfolding changed_data resolve_seller_content_patch
resolve_adjusted_data catalog texts base patch =
    if catalog.category base.content.category_code
    then changed_data catalog patch base
        (resolve_seller_content_patch catalog texts (context_of base) patch)
    else err ApiErrorCode.listing_invalid_catalog_selection
