-- ===== src/Content/Coherence.antt =====
-- A content patch keeps the brand, the model and the variant together.
use avtosh.Common.{
  ℕ, ◌≡◌, refl, sym, ap, inl, inr, Bool, true, false, ◌&&◌, Option, none, some, List, [], ◌∷◌,
  arith, length, select_all, ok, Bool-cases, Option-cases, Result-cases,
}
use avtosh.Db.Listings.{ListingContent, EditData}
use avtosh.Submission.Catalog.{Catalog}
use avtosh.Content.Selections.{
  SellerContentPatch, SellerPatchContext, Target, Selection, Texts, resolve_target, resolve_brand,
  resolve_model, resolve_variant, brand_clears, model_clears, same_option,
}
use avtosh.Content.Patch.{
  ResolvedSellerPatch, resolve_rest, active_features, features_ok, resolve_seller_content_patch,
}
use avtosh.Content.Adjusted.{set, changed_content, changed_features, resolve_adjusted_data}

-- Each selection is of the one above it: the brand of the category, the model of the brand in the
-- category, the variant of the model.
abbrev pub brand_fits : Catalog → ℕ → Option ℕ → Bool
brand_fits catalog category none = true
brand_fits catalog category (some brand) = catalog.brand brand category

abbrev pub model_fits : Catalog → ℕ → Option ℕ → Option ℕ → Bool
model_fits catalog category brand none = true
model_fits catalog category none (some model) = false
model_fits catalog category (some brand) (some model) = catalog.model model brand category

abbrev pub variant_fits : Catalog → Option ℕ → Option ℕ → Bool
variant_fits catalog model none = true
variant_fits catalog none (some variant) = false
variant_fits catalog (some model) (some variant) = catalog.variant variant model

same_option_eq : (a b : Option ℕ) → same_option a b ≡ true → a ≡ b
same_option_eq none none h = refl
same_option_eq none (some b) h = absurd (ground arith)
same_option_eq (some a) none h = absurd (ground arith)
same_option_eq (some a) (some b) h = ground arith

module _ (catalog : Catalog) (current : SellerPatchContext) where
  target_same :
      (p : Option ℕ) {t : Target}
      → resolve_target catalog current p ≡ ok t
      → t.category_changed ≡ false
      → t.category ≡ current.category
  unfolding resolve_target
  target_same none h u = ground (arith, h)
  target_same (some c) h u = ground (arith, h)

  module _ (t : Target) (same : t.category_changed ≡ false → t.category ≡ current.category) where
    brand_step :
        (p : Option (Option ℕ)) {s : Selection}
        → resolve_brand catalog current t p ≡ ok s
        → brand_fits catalog current.category current.brand_id ≡ true
        → (brand_fits catalog t.category (set s.change current.brand_id) ≡ true)
          × (s.effective ≡ set s.change current.brand_id)
          × (brand_clears current t p ≡ false
              → (t.category ≡ current.category) × (s.effective ≡ current.brand_id))
    unfolding resolve_brand
    brand_step none {s} h f = elim (Bool-cases t.category_changed) [
      | inl e ↦ ground (arith, e, h)
      | inr e ↦ ground (arith, e, h, f, same e)
    ]
    brand_step (some none) {s} h f = ground (arith, h)
    brand_step (some (some b)) {s} h f = elim (Bool-cases t.category_changed) [
      | inl e ↦ ground (arith, e, h)
      | inr e ↦ ground (arith, e, h, same e, same_option_eq (some b) current.brand_id)
    ]

    model_step :
        (clear : Bool) (brand : Option ℕ) (p : Option (Option ℕ)) {s : Selection}
        → (clear ≡ false → (t.category ≡ current.category) × (brand ≡ current.brand_id))
        → resolve_model catalog current t clear brand p ≡ ok s
        → model_fits catalog current.category current.brand_id current.model_id ≡ true
        → (model_fits catalog t.category brand (set s.change current.model_id) ≡ true)
          × (s.effective ≡ set s.change current.model_id)
          × (model_clears current clear p ≡ false → s.effective ≡ current.model_id)
    unfolding resolve_model
    model_step true brand none {s} k h f = ground (arith, h)
    model_step false brand none {s} k h f = ground (arith, h, f, k refl)
    model_step clear brand (some none) {s} k h f = ground (arith, h)
    model_step clear none (some (some m)) {s} k h f = absurd (ground (arith, h))
    model_step clear (some b) (some (some m)) {s} k h f =
        ground (arith, h, same_option_eq (some m) current.model_id)

  variant_step :
      (clear : Bool) (model old : Option ℕ) (p : Option (Option ℕ)) {v : Option (Option ℕ)}
      → (clear ≡ false → model ≡ current.model_id)
      → resolve_variant catalog clear model p ≡ ok v
      → variant_fits catalog current.model_id old ≡ true
      → variant_fits catalog model (set v old) ≡ true
  unfolding resolve_variant
  variant_step true model old none {v} k h f = ground (arith, h)
  variant_step false model old none {v} k h f = ground (arith, h, f, k refl)
  variant_step clear model old (some none) {v} k h f = ground (arith, h)
  variant_step clear none old (some (some w)) {v} k h f = absurd (ground (arith, h))
  variant_step clear (some m) old (some (some w)) {v} k h f = ground (arith, h)

-- The three together, and the features, for a snapshot.
abbrev pub coherent : Catalog → ListingContent → Bool
coherent catalog c =
    brand_fits catalog c.category_code c.brand_id
    && model_fits catalog c.category_code c.brand_id c.model_id
    && variant_fits catalog c.model_id c.model_variant_id

abbrev pub FeaturesFit : Catalog → ℕ → List ℕ → Type 0
FeaturesFit catalog category ids = length (active_features catalog category ids) ≡ length ids

module _ (catalog : Catalog) (texts : Texts) (current : SellerPatchContext)
    (patch : SellerContentPatch) where
  abbrev Fits : Option ℕ → ResolvedSellerPatch → Type 0
  Fits old r =
      (brand_fits catalog r.target.category (set r.brand_id current.brand_id) ≡ true)
      × (model_fits catalog r.target.category (set r.brand_id current.brand_id)
            (set r.model_id current.model_id)
          ≡ true)
      × (variant_fits catalog (set r.model_id current.model_id) (set r.model_variant_id old) ≡ true)
      × (features_ok catalog r.target.category patch.feature_ids ≡ true)
      × (r.target.category_changed ≡ false → r.target.category ≡ current.category)

  rest_parts :
      (t : Target) (b m : Selection) (v : Option (Option ℕ)) {r : ResolvedSellerPatch}
      → resolve_rest catalog texts patch t b m (ok v) ≡ ok r
      → (r.target ≡ t)
        × (r.brand_id ≡ b.change)
        × (r.model_id ≡ m.change)
        × (r.model_variant_id ≡ v)
        × (features_ok catalog t.category patch.feature_ids ≡ true)
  unfolding resolve_rest
  rest_parts t b m v h = ground (arith, h)

  resolved-Fits :
      (old : Option ℕ) {r : ResolvedSellerPatch}
      → brand_fits catalog current.category current.brand_id ≡ true
      → model_fits catalog current.category current.brand_id current.model_id ≡ true
      → variant_fits catalog current.model_id old ≡ true
      → resolve_seller_content_patch catalog texts current patch ≡ ok r
      → Fits old r
  unfolding resolve_seller_content_patch
  resolved-Fits old {r} fb fm fv h =
      elim (Result-cases (resolve_target catalog current patch.category)) [
        | inl (e, te) ↦ absurd (ground (arith, te))
        | inr (t, te) ↦ elim (Result-cases (resolve_brand catalog current t patch.brand_id)) [
          | inl (e, be) ↦ absurd (ground (arith, te, be))
          | inr (b, be) ↦
              let clear = brand_clears current t patch.brand_id in
              elim (Result-cases
                (resolve_model catalog current t clear b.effective patch.model_id)) [
                  | inl (e, me) ↦ absurd (ground (arith, te, be, me))
                  | inr (m, me) ↦
                      let clear_variant = model_clears current clear patch.model_id in
                      elim (Result-cases (
                        resolve_variant catalog clear_variant m.effective patch.model_variant_id)) [
                          | inl (e, ve) ↦ absurd (ground (arith, te, be, me, ve))
                          | inr (v, ve) ↦
                              let same = target_same catalog current patch.category te in
                              let bs = brand_step catalog current t same patch.brand_id be fb in
                              let ms =
                                model_step catalog current t same clear b.effective patch.model_id
                                  bs.2 me fm in
                              let vs =
                                variant_step catalog current clear_variant m.effective old
                                  patch.model_variant_id ms.2 ve fv in
                              let parts = rest_parts t b m v (rw (te, be, me, ve) at h) in
                              rw (parts.0, parts.1, parts.2, parts.3)
                                (bs.0, rw (bs.1) at ms.0, rw (ms.1) at vs, parts.4, same)
                        ]
                ]
        ]
      ]

select_all_twice : (p : ℕ → Bool) (l : List ℕ) → select_all p (select_all p l) ≡ select_all p l
unfolding select_all
select_all_twice p [] = refl
select_all_twice p (x ∷ l) = ground (arith, select_all_twice p l)

module _ (catalog : Catalog) (texts : Texts) (base : EditData) (patch : SellerContentPatch) where
  abbrev start : SellerPatchContext
  start = record {
    category = base.content.category_code;
    brand_id = base.content.brand_id;
    model_id = base.content.model_id;
  }

  features_after :
      (r : ResolvedSellerPatch)
      → features_ok catalog r.target.category patch.feature_ids ≡ true
      → (r.target.category_changed ≡ false → r.target.category ≡ base.content.category_code)
      → FeaturesFit catalog base.content.category_code base.feature_ids
      → FeaturesFit catalog r.target.category (changed_features catalog patch r base.feature_ids)
  unfolding features_ok active_features
  features_after r k same f = elim (Option-cases patch.feature_ids) [
    | inr (ids, e) ↦ ground (arith, e, k)
    | inl e ↦ elim (Bool-cases r.target.category_changed) [
      | inl c ↦
          rw (e, c)
            (ap length
              (select_all_twice (λ f. catalog.feature f r.target.category) base.feature_ids))
      | inr c ↦ rw (e, c) (rw (same c) f)
    ]
  ]

  -- A patch that goes through on a snapshot whose brand is of its category, whose model is of that
  -- brand, whose variant is of that model and whose features are all of that category, gives a
  -- snapshot of which all this holds again.
  pub resolve_adjusted_data-coherent :
      {data' : EditData}
      → coherent catalog base.content ≡ true
      → FeaturesFit catalog base.content.category_code base.feature_ids
      → resolve_adjusted_data catalog texts base patch ≡ ok data'
      → (coherent catalog data'.content ≡ true)
        × FeaturesFit catalog data'.content.category_code data'.feature_ids
  unfolding resolve_adjusted_data
  resolve_adjusted_data-coherent {data'} c f h =
      elim (Result-cases (resolve_seller_content_patch catalog texts start patch)) [
        | inl (e, re) ↦ absurd (ground (arith, re))
        | inr (r, re) ↦
            let fits =
              resolved-Fits catalog texts start patch base.content.model_variant_id
                (ground (arith, c)) (ground (arith, c)) (ground (arith, c)) re in
            rw (sym (changed r re h))
              (ground (arith, fits.0, fits.1, fits.2), features_after r fits.3 fits.4 f)
      ]
    where
      changed :
          (r : ResolvedSellerPatch)
          → resolve_seller_content_patch catalog texts start patch ≡ ok r
          → resolve_adjusted_data catalog texts base patch ≡ ok data'
          → (record {
            content = changed_content patch r base.content;
            feature_ids = changed_features catalog patch r base.feature_ids;
          })
            ≡ data'
      changed r re h = ground (arith, re)
