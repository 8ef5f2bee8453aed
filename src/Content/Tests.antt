-- ===== src/Content/Tests.antt =====
-- A patch of a car's brand.
use avtosh.Common.{◌≡◌, refl, some, none, true, [], ◌∷◌, ok, select_all}
use avtosh.Db.Listings.{EditData}
use avtosh.Samples.{car, everything, same_texts, no_change}
use avtosh.Content.Selections.{SellerContentPatch}
use avtosh.Content.Patch.{active_features}
use avtosh.Content.Adjusted.{resolve_adjusted_data}
use avtosh.Content.Coherence.{coherent, FeaturesFit, resolve_adjusted_data-coherent}

abbrev base : EditData
base = record { content = car; feature_ids = 30 ∷ 31 ∷ [] }

-- To brand 6, which clears the model.
abbrev other_brand : SellerContentPatch
other_brand = record no_change { brand_id = some (some 6) }

abbrev rebranded : EditData
rebranded = record {
  content = record car { brand_id = some 6; model_id = none; model_variant_id = none };
  feature_ids = 30 ∷ 31 ∷ [];
}

patched : resolve_adjusted_data everything same_texts base other_brand ≡ ok rebranded
unfolding resolve_adjusted_data
patched = refl

resolve_adjusted_data-coherent_example :
    (coherent everything rebranded.content ≡ true)
    × FeaturesFit everything rebranded.content.category_code rebranded.feature_ids
unfolding active_features select_all
resolve_adjusted_data-coherent_example =
    resolve_adjusted_data-coherent everything same_texts base other_brand refl refl patched
