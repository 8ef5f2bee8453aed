-- ===== src/Content/Approved.antt =====
-- The content that an approval writes (approvedContentSet), field by field.
use avtosh.Common.{
  ℕ, ◌≡◌, refl, sym, Bool, true, false, Option, none, some, arith, Bool-cases, inl, inr, ◌⊎◌, ◌==◌,
  ok,
}
use avtosh.Db.Listings.{ListingContent, EditData}
use avtosh.Submission.Catalog.{Catalog}
use avtosh.Content.Checks.{approved_content_set, approved_columns, data_string, only_true}

-- A text is written as it was staged; the empty one becomes none.
abbrev pub TextOf : Option ℕ → Option ℕ → Type 0
TextOf staged written =
    ((staged ≡ some 0) × (written ≡ none)) ⊎ ((¬ (staged ≡ some 0)) × (written ≡ staged))

-- Only a claim that is made is written.
abbrev pub ClaimOf : Option Bool → Option Bool → Type 0
ClaimOf staged written =
    ((staged ≡ some true) × (written ≡ some true)) ⊎ ((¬ (staged ≡ some true)) × (written ≡ none))

-- The content that is written for what was staged.
pub record ContentOf (staged written : ListingContent) : Type 0 where
  pub category_code : written.category_code ≡ staged.category_code
  pub brand_id : written.brand_id ≡ staged.brand_id
  pub model_id : written.model_id ≡ staged.model_id
  pub model_variant_id : written.model_variant_id ≡ staged.model_variant_id
  pub year : written.year ≡ staged.year
  pub price_minor : written.price_minor ≡ staged.price_minor
  pub mileage : written.mileage ≡ staged.mileage
  pub engine_cc : written.engine_cc ≡ staged.engine_cc
  pub fuel_type_id : written.fuel_type_id ≡ staged.fuel_type_id
  pub transmission_id : written.transmission_id ≡ staged.transmission_id
  pub body_type_id : written.body_type_id ≡ staged.body_type_id
  pub drive_type_id : written.drive_type_id ≡ staged.drive_type_id
  pub motorcycle_type_id : written.motorcycle_type_id ≡ staged.motorcycle_type_id
  pub color_id : written.color_id ≡ staged.color_id
  pub city_id : written.city_id ≡ staged.city_id
  pub credit_available : written.credit_available ≡ staged.credit_available
  pub barter_available : written.barter_available ≡ staged.barter_available
  pub no_accident : ClaimOf staged.no_accident written.no_accident
  pub not_repainted : ClaimOf staged.not_repainted written.not_repainted
  pub description : TextOf staged.description written.description
  pub contact_phone_e164 : TextOf staged.contact_phone_e164 written.contact_phone_e164
  pub seller_name : TextOf staged.seller_name written.seller_name

data_string-TextOf : (o : Option ℕ) → TextOf o (data_string o)
data_string-TextOf none = inr ((λ e. absurd (ground (arith, e))), refl)
data_string-TextOf (some a) = elim (Bool-cases (a == 0)) [
  | inl z ↦ rw z (inl (ground (arith, z), refl))
  | inr z ↦ rw z (inr ((λ e. absurd (ground (arith, e, z))), refl))
]

only_true-ClaimOf : (o : Option Bool) → ClaimOf o (only_true o)
only_true-ClaimOf none = inr ((λ e. absurd (ground (arith, e))), refl)
only_true-ClaimOf (some true) = inl (refl, refl)
only_true-ClaimOf (some false) = inr ((λ e. absurd (ground (arith, e))), refl)

pub approved_content_set-ContentOf :
    (catalog : Catalog) (staged : EditData) {written : ListingContent}
    → approved_content_set catalog staged ≡ ok written
    → (catalog.category staged.content.category_code ≡ true) × ContentOf staged.content written
unfolding approved_content_set
approved_content_set-ContentOf catalog staged {written} h =
    elim (Bool-cases (catalog.category staged.content.category_code)) [
      | inr k ↦ absurd (ground (arith, h, k))
      | inl k ↦
          let same : (approved_columns staged.content ≡ written) = ground (arith, h, k) in
          (
            k,
            rw (sym same) (record {
              category_code = refl;
              brand_id = refl;
              model_id = refl;
              model_variant_id = refl;
              year = refl;
              price_minor = refl;
              mileage = refl;
              engine_cc = refl;
              fuel_type_id = refl;
              transmission_id = refl;
              body_type_id = refl;
              drive_type_id = refl;
              motorcycle_type_id = refl;
              color_id = refl;
              city_id = refl;
              credit_available = refl;
              barter_available = refl;
              no_accident = only_true-ClaimOf staged.content.no_accident;
              not_repainted = only_true-ClaimOf staged.content.not_repainted;
              description = data_string-TextOf staged.content.description;
              contact_phone_e164 = data_string-TextOf staged.content.contact_phone_e164;
              seller_name = data_string-TextOf staged.content.seller_name;
            }),
          )
    ]
