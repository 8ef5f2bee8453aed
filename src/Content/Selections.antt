-- ===== src/Content/Selections.antt =====
-- The patch of a listing's content, and the steps of its resolution that select a category, a brand,
-- a model and a variant. The catalog's queries are the parameter of a submission too; a category
-- stands for its id and its code.
use avtosh.Common.{
  ℕ, Bool, true, false, Option, none, some, List, ◌==◌, if◌then◌else◌, not, Result, ok, err,
}
use avtosh.Db.Errors.{ApiErrorCode}
use avtosh.Submission.Catalog.{Catalog}

-- A key that is absent is `none`; a null is `some none`.
pub record SellerContentPatch : Type 0 where
  pub category : Option ℕ
  pub brand_id : Option (Option ℕ)
  pub model_id : Option (Option ℕ)
  pub model_variant_id : Option (Option ℕ)
  pub year : Option (Option ℕ)
  pub price_minor : Option (Option ℕ)
  pub mileage : Option (Option ℕ)
  pub engine_cc : Option (Option ℕ)
  pub fuel_type_id : Option (Option ℕ)
  pub transmission_id : Option (Option ℕ)
  pub body_type_id : Option (Option ℕ)
  pub drive_type_id : Option (Option ℕ)
  pub motorcycle_type_id : Option (Option ℕ)
  pub color_id : Option (Option ℕ)
  pub city_id : Option (Option ℕ)
  pub credit_available : Option Bool
  pub barter_available : Option Bool
  pub no_accident : Option (Option Bool)
  pub not_repainted : Option (Option Bool)
  pub description : Option (Option ℕ)
  pub contact_phone : Option (Option ℕ)
  pub seller_name : Option (Option ℕ)
  pub feature_ids : Option (List ℕ)

-- The library of phone numbers (src/auth/phone.ts wraps it), and `trim` with its test for "".
pub record Texts : Type 0 where
  pub normalize_phone_e164 : ℕ → Option ℕ
  pub trimmed : ℕ → Option ℕ

pub record SellerPatchContext : Type 0 where
  pub category : ℕ
  pub brand_id : Option ℕ
  pub model_id : Option ℕ

-- The category that the patch leads to, and the keys that a category change clears.
pub record Target : Type 0 where
  pub category : ℕ
  pub category_changed : Bool

-- The keys of `changes` that name a brand, a model or a variant; `effective` is what the next step
-- of the resolution goes by.
pub record Selection : Type 0 where
  pub change : Option (Option ℕ)
  pub effective : Option ℕ

abbrev pub invalid_selection : ApiErrorCode
invalid_selection = ApiErrorCode.listing_invalid_catalog_selection

abbrev pub same_option : Option ℕ → Option ℕ → Bool
same_option none none = true
same_option (some a) (some b) = a == b
same_option _ _ = false

unfoldable pub resolve_target : Catalog → SellerPatchContext → Option ℕ → Result ApiErrorCode Target
resolve_target catalog current none =
    ok (record { category = current.category; category_changed = false })
resolve_target catalog current (some category) =
    if category == current.category
    then ok (record { category = current.category; category_changed = false })
    else if catalog.category category
    then ok (record { category = category; category_changed = true })
    else err invalid_selection

-- `null` where a key is cleared, absent where it is left.
abbrev pub cleared_if : Bool → Option (Option ℕ)
cleared_if true = some none
cleared_if false = none

abbrev pub kept_unless : Bool → Option ℕ → Option ℕ
kept_unless true current = none
kept_unless false current = current

unfoldable pub resolve_brand :
    Catalog → SellerPatchContext → Target → Option (Option ℕ) → Result ApiErrorCode Selection
resolve_brand catalog current target none = ok (record {
  change = cleared_if target.category_changed;
  effective = kept_unless target.category_changed current.brand_id;
})
resolve_brand catalog current target (some none) =
    ok (record { change = some none; effective = none })
resolve_brand catalog current target (some (some brand)) =
    if catalog.brand brand target.category
    then ok (record { change = some (some brand); effective = some brand })
    else err invalid_selection

-- Does the brand step put `model_id = null` into the changes?
abbrev pub brand_clears : SellerPatchContext → Target → Option (Option ℕ) → Bool
brand_clears current target none = target.category_changed
brand_clears current target (some none) = true
brand_clears current target (some (some brand)) =
    if target.category_changed then true else not (same_option (some brand) current.brand_id)

model_of_brand : Catalog → Target → ℕ → Option ℕ → Result ApiErrorCode Selection
model_of_brand catalog target model none = err invalid_selection
model_of_brand catalog target model (some brand) =
    if catalog.model model brand target.category
    then ok (record { change = some (some model); effective = some model })
    else err invalid_selection

unfoldable pub resolve_model :
    Catalog
    → SellerPatchContext
    → Target
    → Bool
    → Option ℕ
    → Option (Option ℕ)
    → Result ApiErrorCode Selection
unfolding model_of_brand
resolve_model catalog current target clear brand none =
    ok (record { change = cleared_if clear; effective = kept_unless clear current.model_id })
resolve_model catalog current target clear brand (some none) =
    ok (record { change = some none; effective = none })
resolve_model catalog current target clear brand (some (some model)) =
    model_of_brand catalog target model brand

-- Does the model step put `model_variant_id = null` into the changes?
abbrev pub model_clears : SellerPatchContext → Bool → Option (Option ℕ) → Bool
model_clears current clear none = clear
model_clears current clear (some none) = true
model_clears current clear (some (some model)) =
    if clear then true else not (same_option (some model) current.model_id)

variant_of_model : Catalog → ℕ → Option ℕ → Result ApiErrorCode (Option (Option ℕ))
variant_of_model catalog variant none = err invalid_selection
variant_of_model catalog variant (some model) =
    if catalog.variant variant model then ok (some (some variant)) else err invalid_selection

unfoldable pub resolve_variant :
    Catalog → Bool → Option ℕ → Option (Option ℕ) → Result ApiErrorCode (Option (Option ℕ))
unfolding variant_of_model
resolve_variant catalog clear model none = ok (cleared_if clear)
resolve_variant catalog clear model (some none) = ok (some none)
resolve_variant catalog clear model (some (some variant)) = variant_of_model catalog variant model
