-- ===== src/Moderation/Applied.antt =====
-- What the application of a saved adjustment does.
use avtosh.Common.{
  ℕ, ◌+◌, ◌≡◌, inl, inr, Option, none, some, List, arith, select, update, ok, Result-cases,
  Option-cases, select_all, delete,
}
use avtosh.Db.{Db, Clock}
use avtosh.Db.Listings.{Listing, ListingContent}
use avtosh.Db.Moderation.{Adjustment}
use avtosh.Db.Settings.{get_submission_settings}
use avtosh.Submission.Catalog.{Catalog}
use avtosh.Content.Checks.{assert_adjusted_content_approvable, approved_content_set}
use avtosh.Lifecycle.Store.{owned_by}
use avtosh.Moderation.Plan.{normalize_image_plan, plan_input}
use avtosh.Moderation.Adjustments.{
  Kept, at_revision, applied_row, kept_rows, materialize_image_plan_for_listing,
  materialize_image_plan_from_staged,
}
use avtosh.Moderation.Apply.{
  Materialize, apply_adjustment, content_target, with_content, kept_of, features_of,
  insert_features,
}

-- All that an application and a materialization leave alone.
abbrev pub Alike : Db → Db → Type 0
Alike d e =
    (e.periods ≡ d.periods)
    × (e.promotions ≡ d.promotions)
    × (e.payments ≡ d.payments)
    × (e.reviews ≡ d.reviews)
    × (e.claims ≡ d.claims)
    × (e.settings ≡ d.settings)
    × (e.revisions ≡ d.revisions)

-- A materialization changes the gallery, and takes ids.
abbrev pub Gallery : Db → Db → Type 0
Gallery d e =
    Alike d e
    × (e.listings ≡ d.listings)
    × (e.adjustments ≡ d.adjustments)
    × (e.listing_features ≡ d.listing_features)

abbrev pub Tame : Materialize → Type 0
Tame m =
    (kept : List Kept) (d : Db) (o : Option (List ℕ)) (e : Db) → m kept d ≡ ok (o, e) → Gallery d e

pub materialize_for_listing-Tame : (i : ℕ) → Tame (materialize_image_plan_for_listing i)
unfolding materialize_image_plan_for_listing
materialize_for_listing-Tame i kept d o e h =
    elim (Option-cases (kept_rows i d.next_id 0 (select_all (owned_by i) d.listing_images) kept)) [
      | inl z ↦ ground (arith, h, z)
      | inr (g, z) ↦ ground (arith, h, z)
    ]

pub materialize_from_staged-Tame : (i k : ℕ) → Tame (materialize_image_plan_from_staged i k)
unfolding materialize_image_plan_from_staged
materialize_from_staged-Tame i k kept d o e h =
    elim (Option-cases (kept_rows i d.next_id 0 (select_all (owned_by k) d.edit_images) kept)) [
      | inl z ↦ ground (arith, h, z)
      | inr (g, z) ↦ ground (arith, h, z)
    ]

module _ (clock : Clock) (catalog : Catalog) (moderator : ℕ) (l : Listing) (a : Adjustment)
    (m : Materialize) (tame : Tame m) (d : Db) where
  -- The database before the gallery is made, and the settled one.
  abbrev copied : ListingContent → Db
  copied content = record d {
    listings = update (content_target l.id l.revision) (with_content content) d.listings;
    listing_features =
        insert_features l.id a.adjusted_data.feature_ids
          (delete (features_of l.id) d.listing_features);
  }

  pub record Applied (n : ℕ) (e : Db) : Type 0 where
    pub content : ListingContent
    pub checked :
        assert_adjusted_content_approvable catalog a.submitted_data a.adjusted_data ≡ ok tt
    pub approved : approved_content_set catalog a.adjusted_data ≡ ok content
    pub row : Listing
    pub target : select (content_target l.id l.revision) d.listings ≡ some row
    pub number : n ≡ row.revision + 1
    pub listings :
        e.listings ≡ update (content_target l.id l.revision) (with_content content) d.listings
    pub features :
        e.listing_features
        ≡ insert_features l.id a.adjusted_data.feature_ids
            (delete (features_of l.id) d.listing_features)
    pub adjustments :
        e.adjustments
        ≡ update (at_revision a.id a.revision) (applied_row clock.db_now) d.adjustments
    pub alike : Alike d e

  pub apply_adjustment-Applied :
      {n : ℕ} {e : Db} → apply_adjustment clock catalog moderator l a m d ≡ ok (n, e) → Applied n e
  unfolding apply_adjustment
  apply_adjustment-Applied {n} {e} h = elim (Option-cases (get_submission_settings d.settings)) [
    | inl z ↦ absurd (ground (arith, h, z))
    | inr (s, z) ↦
        elim (Result-cases
          (assert_adjusted_content_approvable catalog a.submitted_data a.adjusted_data)) [
            | inl (x, c) ↦ absurd (ground (arith, h, z, c))
            | inr (u, c) ↦
                elim (Result-cases
                  (normalize_image_plan (plan_input a.image_plan) a.submitted_images s.image_min)) [
                    | inl (x, p) ↦ absurd (ground (arith, h, z, c, p))
                    | inr (plan, p) ↦
                        elim (Result-cases (approved_content_set catalog a.adjusted_data)) [
                          | inl (x, k) ↦ absurd (ground (arith, h, z, c, p, k))
                          | inr (content, k) ↦
                              elim (Option-cases
                                (select (content_target l.id l.revision) d.listings)) [
                                  | inl t ↦ absurd (ground (arith, h, z, c, p, k, t))
                                  | inr (row, t) ↦
                                      elim (Result-cases (m (kept_of plan) (copied content))) [
                                        | inl (x, g) ↦ absurd (ground (arith, h, z, c, p, k, t, g))
                                        | inr ((none, f), g) ↦
                                            absurd (ground (arith, h, z, c, p, k, t, g))
                                        | inr ((some paths, f), g) ↦
                                            let same =
                                              tame (kept_of plan) (copied content) (some paths) f
                                                g in
                                            elim (Option-cases (
                                              select (at_revision a.id a.revision) f.adjustments)) [
                                                | inl o ↦
                                                    absurd (ground (arith, h, z, c, p, k, t, g, o))
                                                | inr (adj, o) ↦ record {
                                                  content = content;
                                                  checked = c;
                                                  approved = k;
                                                  row = row;
                                                  target = t;
                                                  number = (ground (arith, h, z, c, p, k, t, g, o));
                                                  listings =
                                                      (ground
                                                        (arith, h, z, c, p, k, t, g, o, same));
                                                  features =
                                                      (ground
                                                        (arith, h, z, c, p, k, t, g, o, same));
                                                  adjustments =
                                                      (ground
                                                        (arith, h, z, c, p, k, t, g, o, same));
                                                  alike =
                                                      (ground
                                                        (arith, h, z, c, p, k, t, g, o, same));
                                                }
                                              ]
                                      ]
                                ]
                        ]
                  ]
          ]
  ]
