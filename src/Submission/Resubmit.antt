-- ===== src/Submission/Resubmit.antt =====
-- Resubmission after a rejection or a request for correction (src/services/listing-submission.ts:
-- resubmitListing).
use avtosh.Common.{ℕ, ◌&&◌, not, Option, none, some, ◌==◌, if◌then◌else◌}
use avtosh.Db.{Clock, Tx, ◌>>=◌, ◌>>◌, return, throw, read, insert_status_history}
use avtosh.Db.Errors.{ApiErrorCode}
use avtosh.Db.Settings.{SubmissionSettings}
use avtosh.Db.Listings.{Listing, ListingStatus, is_pending_moderation}
use avtosh.Db.Payments.{Publication, BillingType}
use avtosh.Db.Logs.{EventType, ReasonCode}
use avtosh.Lifecycle.Visibility.{event_of}
use avtosh.Submission.Store.{
  get_owned_listing_row_for_update, get_publication_by_listing, expire_pending_uploads_for_listing,
  resubmit_listing_row, is_resubmittable,
}
use avtosh.Submission.Catalog.{Catalog, assert_complete, revalidate_catalog}
use avtosh.Submission.Submit.{require_settings, check}

-- The seller's result of a resubmission: always moderation.
pub record ResubmissionResultDto : Type 0 where
  pub revision : ℕ
  pub number : ℕ
  pub billing_type : BillingType

abbrev resubmission : Listing → Publication → ResubmissionResultDto
resubmission listing publication = record {
  revision = listing.revision;
  number = publication.publication_number;
  billing_type = publication.billing_type;
}

resubmit_returned :
    Catalog
    → Clock
    → ℕ
    → ℕ
    → Listing
    → ℕ
    → SubmissionSettings
    → Publication
    → Tx ResubmissionResultDto
unfolding resubmit_listing_row expire_pending_uploads_for_listing
resubmit_returned catalog clock user_id listing_id listing expected_revision settings publication =
    do
      complete ← read (λ db. assert_complete db listing settings.image_min)
      check complete
      valid ← read (λ db. revalidate_catalog catalog db listing)
      check valid
      done ← resubmit_listing_row clock listing_id expected_revision
      if not done then throw ApiErrorCode.listing_revision_conflict else do
        expire_pending_uploads_for_listing listing_id
        insert_status_history (record {
          listing_id = listing_id;
          from_status = listing.status;
          to_status = ListingStatus.pending_moderation;
          actor_user_id = some user_id;
          reason_code = ReasonCode.resubmission;
        })
        event_of EventType.listing_entered_moderation listing_id
        return (resubmission listing publication)

resubmit_published :
    Catalog
    → Clock
    → ℕ
    → ℕ
    → Listing
    → ℕ
    → SubmissionSettings
    → Option Publication
    → Tx ResubmissionResultDto
unfolding resubmit_returned
resubmit_published catalog clock user_id listing_id listing expected_revision settings none =
    throw ApiErrorCode.listing_not_editable
resubmit_published catalog clock user_id listing_id listing expected_revision settings
      (some publication) =
    if is_pending_moderation listing.status && (listing.revision == expected_revision)
    then return (resubmission listing publication)
    else if not (is_resubmittable listing.status)
    then throw ApiErrorCode.listing_not_editable
    else if not (listing.revision == expected_revision)
    then throw ApiErrorCode.listing_revision_conflict
    else resubmit_returned catalog clock user_id listing_id listing expected_revision settings
        publication

resubmit_row :
    Catalog → Clock → ℕ → ℕ → ℕ → SubmissionSettings → Option Listing → Tx ResubmissionResultDto
unfolding get_publication_by_listing resubmit_published
resubmit_row catalog clock user_id listing_id expected_revision settings none =
    throw ApiErrorCode.listing_not_found
resubmit_row catalog clock user_id listing_id expected_revision settings (some listing) = do
  publication ← get_publication_by_listing listing_id
  resubmit_published catalog clock user_id listing_id listing expected_revision settings publication

unfoldable pub resubmit_listing : Catalog → Clock → ℕ → ℕ → ℕ → Tx ResubmissionResultDto
unfolding require_settings get_owned_listing_row_for_update resubmit_row
resubmit_listing catalog clock user_id listing_id expected_revision = do
  settings ← require_settings
  row ← get_owned_listing_row_for_update listing_id user_id
  resubmit_row catalog clock user_id listing_id expected_revision settings row
