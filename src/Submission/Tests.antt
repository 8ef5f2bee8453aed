-- ===== src/Submission/Tests.antt =====
-- A seller with one publication and two drafts, and the submission theorems at them.
use avtosh.Common.{
  ℕ, ◌≡◌, select_all, refl, true, false, none, some, [], ◌∷◌, ok, err, select, count, update,
  max_of, exists, arith,
}
use avtosh.Db.{Db, after}
use avtosh.Db.Errors.{ApiErrorCode}
use avtosh.Db.Listings.{Listing, ListingStatus, Image}
use avtosh.Db.Settings.{get_submission_settings, SubmissionSettings}
use avtosh.Db.Payments.{Publication, BillingType}
use avtosh.Samples.{shown, no_rows, clock, late}
use avtosh.Lifecycle.Store.{of_owner}
use avtosh.Submission.Store.{publication_of}
use avtosh.Submission.Catalog.{Catalog, assert_complete, revalidate_catalog}
use avtosh.Submission.Submit.{SubmissionResultDto, get_listing_quota, submit_listing, quota_of}
use avtosh.Submission.Resubmit.{ResubmissionResultDto, resubmit_listing}
use avtosh.Submission.Ops.{Op, run_all}
use avtosh.Submission.Numbering.{Consecutive, Numbered, run_all-Numbered}
use avtosh.Submission.Results.{
  Submittable, outcome, submit_listing_follows_quota, submit_listing_again,
}

abbrev all_active : Catalog
all_active = record {
  category = λ c. true;
  brand = λ b c. true;
  model = λ m b c. true;
  variant = λ v m. true;
  model_has_variants = λ m. false;
  city = λ c. true;
  option = λ o g c. true;
  feature = λ f c. true;
}

abbrev draft : ℕ → Listing
draft i = record shown { id = i; status = ListingStatus.draft; submitted_at = none }

abbrev photo : ℕ → ℕ → Image
photo i path = record {
  id = path;
  owner = i;
  storage_path = path;
  sort_order = path;
  is_primary = false;
}

abbrev free1 : Publication
free1 = record {
  listing_id = 1;
  user_id = 7;
  publication_number = 1;
  billing_type = BillingType.free;
  payment_id = none;
}

-- Listing 1 was published free of charge and came back for correction; 3 and 4 are drafts.
abbrev drafts : Db
drafts = record no_rows {
  listings = record shown { status = ListingStatus.correction_required } ∷ draft 3 ∷ draft 4 ∷ [];
  listing_images =
      record (photo 3 0) { is_primary = true }
      ∷ photo 3 1
      ∷ photo 3 2
      ∷ record (photo 4 0) { is_primary = true }
      ∷ photo 4 1
      ∷ photo 4 2
      ∷ record (photo 1 0) { is_primary = true }
      ∷ photo 1 1
      ∷ photo 1 2
      ∷ [];
  publications = free1 ∷ [];
}

abbrev settings : SubmissionSettings
settings = record { free_limit = 2; fee_minor = 200; image_min = 3 }

drafts-Numbered : Numbered drafts
unfolding Consecutive count
drafts-Numbered = record { consecutive = (refl, tt); one_each = λ i. ground arith }

-- The second publication is free, the third is paid.
abbrev first : SubmissionResultDto
first = outcome 100 7 2 true settings (draft 3)

abbrev submitted : Db
submitted = after drafts (submit_listing all_active clock 7 3 3 drafts)

submits_free : submit_listing all_active clock 7 3 3 drafts ≡ ok (first, submitted)
unfolding submit_listing assert_complete revalidate_catalog select count update exists max_of
    select_all
submits_free = refl

submits_paid :
    run_all ((clock, Op.submit all_active 7 3 3) ∷ (late, Op.submit all_active 7 4 3) ∷ []) drafts
    ≡ after submitted (submit_listing all_active late 7 4 3 submitted)
submits_paid = refl

paid_result :
    submit_listing all_active late 7 4 3 submitted
    ≡ ok (
      outcome 100 7 3 false settings (draft 4),
      after submitted (submit_listing all_active late 7 4 3 submitted),
    )
unfolding submit_listing assert_complete revalidate_catalog select count update exists max_of
    select_all
paid_result = refl

-- The second draft is short of images once the settings ask for four.
needs_images :
    submit_listing all_active clock 7 3 3
      (record drafts { settings = record drafts.settings { image_min = some 4 } })
    ≡ err ApiErrorCode.listing_insufficient_images
unfolding submit_listing assert_complete select count exists
needs_images = refl

settings_read : get_submission_settings drafts.settings ≡ some settings
unfolding get_submission_settings
settings_read = refl

row3 : select (of_owner 3 7) drafts.listings ≡ some (draft 3)
unfolding select
row3 = refl

unpublished3 : select (publication_of 3) drafts.publications ≡ none
unfolding select
unpublished3 = refl

quota_read : get_listing_quota 7 drafts ≡ ok (quota_of settings 1, drafts)
unfolding get_listing_quota count
quota_read = refl

ready3 : Submittable all_active drafts 3 (draft 3) 3
unfolding assert_complete revalidate_catalog count select_all
ready3 = record { draft = refl; current = refl; complete = refl; valid = refl }

run_all-Numbered_example :
    Numbered (
      run_all
        ((clock, Op.submit all_active 7 3 3) ∷ (late, Op.submit all_active 7 4 3) ∷ [])
        drafts)
run_all-Numbered_example =
    run_all-Numbered ((clock, Op.submit all_active 7 3 3) ∷ (late, Op.submit all_active 7 4 3) ∷ [])
      drafts drafts-Numbered

submit_listing_follows_quota_example : first.number ≡ 2
submit_listing_follows_quota_example =
    (submit_listing_follows_quota all_active clock drafts 7 3 3 drafts-Numbered quota_read
      unpublished3 submits_free).0

submit_listing_again_example :
    submit_listing all_active late 7 3 9 submitted ≡ ok (first, submitted)
submit_listing_again_example =
    submit_listing_again all_active clock drafts 7 3 3 submits_free all_active late 9

abbrev resubmitted : Db
resubmitted = after drafts (resubmit_listing all_active clock 7 1 3 drafts)

abbrev answer : ResubmissionResultDto
answer = record { revision = 3; number = 1; billing_type = BillingType.free }

resubmits : resubmit_listing all_active clock 7 1 3 drafts ≡ ok (answer, resubmitted)
unfolding resubmit_listing assert_complete revalidate_catalog select count update exists select_all
resubmits = refl

row1 :
    select (of_owner 1 7) drafts.listings
    ≡ some (record shown { status = ListingStatus.correction_required })
unfolding select
row1 = refl

publication1 : select (publication_of 1) drafts.publications ≡ some free1
unfolding select
publication1 = refl

abbrev row_again : Listing
row_again = record shown { status = ListingStatus.pending_moderation; submitted_at = some 50 }

row1_again : select (of_owner 1 7) resubmitted.listings ≡ some row_again
unfolding resubmit_listing assert_complete revalidate_catalog select count update exists select_all
row1_again = refl
