-- ===== src/Content/Patch.antt =====
-- resolveSellerContentPatch: the one resolution of a content patch, for drafts, edit revisions and
-- moderator adjustments (src/services/listing-patch.ts).
use avtosh.Common.{
  ℕ, Bool, true, Option, none, some, List, ◌==◌, ◌&&◌, if◌then◌else◌, length, select_all, not,
  Result, ok, err,
}
use avtosh.Db.Errors.{ApiErrorCode}
use avtosh.Submission.Catalog.{Catalog}
use avtosh.Content.Selections.{
  SellerContentPatch, Texts, SellerPatchContext, Target, Selection, invalid_selection,
  resolve_target, resolve_brand, brand_clears, resolve_model, model_clears, resolve_variant,
}

-- A reference, the city: left, cleared, or found in the catalog.
abbrev pub reference_ok : (ℕ → Bool) → Option (Option ℕ) → Bool
reference_ok p none = true
reference_ok p (some none) = true
reference_ok p (some (some value)) = p value

-- `REFERENCE_FIELDS` in their order, the groups by number, then the city.
unfoldable pub references_ok : Catalog → ℕ → SellerContentPatch → Bool
references_ok catalog category patch =
    reference_ok (λ v. catalog.option v 0 category) patch.fuel_type_id
    && reference_ok (λ v. catalog.option v 1 category) patch.transmission_id
    && reference_ok (λ v. catalog.option v 2 category) patch.body_type_id
    && reference_ok (λ v. catalog.option v 3 category) patch.drive_type_id
    && reference_ok (λ v. catalog.option v 4 category) patch.motorcycle_type_id
    && reference_ok (λ v. catalog.option v 5 category) patch.color_id
    && reference_ok catalog.city patch.city_id

-- `filterActiveFeatureIdsForCategory`.
unfoldable pub active_features : Catalog → ℕ → List ℕ → List ℕ
active_features catalog category ids = select_all (λ f. catalog.feature f category) ids

unfoldable pub features_ok : Catalog → ℕ → Option (List ℕ) → Bool
unfolding active_features
features_ok catalog category none = true
features_ok catalog category (some ids) =
    length (active_features catalog category ids) == length ids

contact_change : Texts → Option (Option ℕ) → Result ApiErrorCode (Option (Option ℕ))
contact_change texts none = ok none
contact_change texts (some none) = ok (some none)
contact_change texts (some (some phone)) = normalized (texts.normalize_phone_e164 phone)
  where
    normalized : Option ℕ → Result ApiErrorCode (Option (Option ℕ))
    normalized none = err ApiErrorCode.validation_error
    normalized (some e164) = ok (some (some e164))

abbrev name_change : Texts → Option (Option ℕ) → Option (Option ℕ)
name_change texts none = none
name_change texts (some none) = some none
name_change texts (some (some name)) = some (texts.trimmed name)

pub record ResolvedSellerPatch : Type 0 where
  pub target : Target
  pub brand_id : Option (Option ℕ)
  pub model_id : Option (Option ℕ)
  pub model_variant_id : Option (Option ℕ)
  pub contact_phone : Option (Option ℕ)
  pub seller_name : Option (Option ℕ)

resolve_contact :
    Texts
    → SellerContentPatch
    → Target
    → Selection
    → Selection
    → Option (Option ℕ)
    → Result ApiErrorCode (Option (Option ℕ))
    → Result ApiErrorCode ResolvedSellerPatch
resolve_contact texts patch target brand model variant (err e) = err e
resolve_contact texts patch target brand model variant (ok contact) = ok (record {
  target = target;
  brand_id = brand.change;
  model_id = model.change;
  model_variant_id = variant;
  contact_phone = contact;
  seller_name = name_change texts patch.seller_name;
})

unfoldable pub resolve_rest :
    Catalog
    → Texts
    → SellerContentPatch
    → Target
    → Selection
    → Selection
    → Result ApiErrorCode (Option (Option ℕ))
    → Result ApiErrorCode ResolvedSellerPatch
unfolding references_ok features_ok resolve_contact contact_change
resolve_rest catalog texts patch target brand model (err e) = err e
resolve_rest catalog texts patch target brand model (ok variant) =
    if not (references_ok catalog target.category patch)
    then err invalid_selection
    else if not (features_ok catalog target.category patch.feature_ids)
    then err invalid_selection
    else resolve_contact texts patch target brand model variant
        (contact_change texts patch.contact_phone)

with_model :
    Catalog
    → Texts
    → SellerPatchContext
    → SellerContentPatch
    → Target
    → Selection
    → Result ApiErrorCode Selection
    → Result ApiErrorCode ResolvedSellerPatch
unfolding resolve_rest resolve_variant
with_model catalog texts current patch target brand (err e) = err e
with_model catalog texts current patch target brand (ok model) =
    resolve_rest catalog texts patch target brand model (
      resolve_variant catalog
        (model_clears current (brand_clears current target patch.brand_id) patch.model_id)
        model.effective patch.model_variant_id)

with_brand :
    Catalog
    → Texts
    → SellerPatchContext
    → SellerContentPatch
    → Target
    → Result ApiErrorCode Selection
    → Result ApiErrorCode ResolvedSellerPatch
unfolding with_model resolve_model
with_brand catalog texts current patch target (err e) = err e
with_brand catalog texts current patch target (ok brand) =
    with_model catalog texts current patch target brand (
      resolve_model catalog current target (brand_clears current target patch.brand_id)
        brand.effective patch.model_id)

with_target :
    Catalog
    → Texts
    → SellerPatchContext
    → SellerContentPatch
    → Result ApiErrorCode Target
    → Result ApiErrorCode ResolvedSellerPatch
unfolding with_brand resolve_brand
with_target catalog texts current patch (err e) = err e
with_target catalog texts current patch (ok target) =
    with_brand catalog texts current patch target
      (resolve_brand catalog current target patch.brand_id)

unfoldable pub resolve_seller_content_patch :
    Catalog
    → Texts
    → SellerPatchContext
    → SellerContentPatch
    → Result ApiErrorCode ResolvedSellerPatch
unfolding with_target resolve_target
resolve_seller_content_patch catalog texts current patch =
    with_target catalog texts current patch (resolve_target catalog current patch.category)
