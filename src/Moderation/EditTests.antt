-- ===== src/Moderation/EditTests.antt =====
-- A submitted edit of a published car: its rejection and its approval.
use avtosh.Common.{
  ℕ, ◌≡◌, refl, Bool, true, false, none, some, [], ◌∷◌, ◌++◌, select, select_all, exists, update,
  delete, count, ok,
}
use avtosh.Db.{Db, after}
use avtosh.Db.Listings.{Image, Listing, ListingContent, ListingStatus, EditRevision, EditStatus}
use avtosh.Db.Moderation.{Decision, ModerationClaim}
use avtosh.Db.Settings.{get_submission_settings}
use avtosh.Samples.{car, no_rows, shown, clock, everything}
use avtosh.Content.Checks.{assert_revision_submittable, approved_content_set}
use avtosh.Content.Approved.{ContentOf}
use avtosh.Lifecycle.Store.{of_id, open_of, owned_by, staged_from, lock_listing_for_lifecycle}
use avtosh.Lifecycle.Visibility.{try_finalize_seller_reactivation}
use avtosh.Moderation.Claims.{require_owned_live_claim}
use avtosh.Moderation.Adjustments.{open_adjustment_of}
use avtosh.Moderation.Apply.{features_of, insert_features}
use avtosh.Moderation.Reviews.{new_review}
use avtosh.Moderation.Staged.{FeaturesAre, GalleryIs}
use avtosh.Moderation.EditDecide.{
  EditDecisionInput, EditDecisionResultDto, decide_edit, decide_open_edit, decide_pending_edit,
  check_edit_adjustment, apply_decision, apply_edit, withdraw, finalize_decision, decidable,
  decided_edit,
}
use avtosh.Moderation.EditPublication.{PublishedAs, decide_edit_publishes}

-- Hidden by its owner, who has asked to show it again.
abbrev listing : Listing
listing = record shown {
  seller_deactivated_at = some 20;
  seller_reactivation_requested_at = some 30;
}

abbrev content : ListingContent
content = record car { price_minor = some 800000; no_accident = some false; description = some 0 }

abbrev edit : EditRevision
edit = record {
  id = 70;
  listing_id = 1;
  status = EditStatus.pending_moderation;
  snapshot = record { content = content; feature_ids = 31 ∷ [] };
  revision = 4;
  submitted_at = some 35;
  decided_at = none;
}

abbrev photo : ℕ → ℕ → ℕ → Image
photo id owner path = record {
  id = id;
  owner = owner;
  storage_path = path;
  sort_order = 0;
  is_primary = true;
}

abbrev claim : ModerationClaim
claim = record {
  id = 60;
  listing_id = 1;
  moderator_id = 20;
  claimed_at = 40;
  expires_at = 90;
  released_at = none;
}

abbrev edited : Db
edited = record no_rows {
  listings = listing ∷ [];
  listing_features = (1, 30) ∷ [];
  listing_images = photo 1 1 101 ∷ [];
  revisions = edit ∷ [];
  edit_images = photo 2 70 102 ∷ [];
  claims = claim ∷ [];
  settings = record (no_rows.settings) { image_min = some 1 };
}

found_listing : select (of_id 1) edited.listings ≡ some listing
unfolding select
found_listing = refl

found_edit : select (open_of 1) edited.revisions ≡ some edit
unfolding select
found_edit = refl

no_adjustment : select (open_adjustment_of 1) edited.adjustments ≡ none
unfolding select
no_adjustment = refl

abbrev input : Decision → EditDecisionInput
input decision = record {
  expected_edit_revision = 4;
  decision = decision;
  expected_adjustment_revision = none;
}

abbrev answer : Decision → EditStatus → ℕ → Bool → EditDecisionResultDto
answer decision status revision reactivated = record {
  status = ListingStatus.active;
  revision = revision;
  edit_revision = decided_edit status 50 edit;
  review = new_review 100 50 1 20 3 decision (some 70) (some 4) none;
  reactivated = reactivated;
}

abbrev refused : Db
refused = after edited (decide_edit clock everything 20 1 (input Decision.rejected) edited)

abbrev published : Db
published = after edited (decide_edit clock everything 20 1 (input Decision.approved) edited)

-- Published again, at the second revision after that of the review.
publishes :
    decide_edit clock everything 20 1 (input Decision.approved) edited
    ≡ ok (answer Decision.approved EditStatus.approved 5 true, published)
unfolding decide_edit decide_open_edit decide_pending_edit require_owned_live_claim
    check_edit_adjustment apply_decision apply_edit withdraw finalize_decision
    try_finalize_seller_reactivation lock_listing_for_lifecycle select update exists
    get_submission_settings assert_revision_submittable approved_content_set count select_all
publishes = refl

decide_edit_publishes_example :
    (m : Listing) × (c : ListingContent) × (next : ℕ) × (true ≡ true)
    × ContentOf content c
    × (select (of_id 1) published.listings ≡ some m)
    × (ListingStatus.active ≡ m.status)
    × (5 ≡ m.revision)
    × (published.listing_features
        ≡ insert_features 1 (31 ∷ []) (delete (features_of 1) edited.listing_features))
    × (published.listing_images
        ≡ staged_from 1 next (select_all (owned_by 70) edited.edit_images)
          ++ delete (owned_by 1) edited.listing_images)
    × FeaturesAre 1 (31 ∷ []) edited.listing_features published.listing_features
    × GalleryIs 1
        (select_all (owned_by 70) edited.edit_images)
        edited.listing_images
        published.listing_images
    × (published.revisions
        ≡ update (decidable 70 4) (decided_edit EditStatus.approved 50) edited.revisions)
    × (published.periods ≡ edited.periods)
    × (published.promotions ≡ edited.promotions)
    × (published.payments ≡ edited.payments)
    × PublishedAs c listing m
decide_edit_publishes_example =
    decide_edit_publishes clock everything 20 1 (input Decision.approved) edited listing edit
      found_listing found_edit refl refl no_adjustment publishes
