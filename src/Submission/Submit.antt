-- ===== src/Submission/Submit.antt =====
-- Submission of a listing, and the seller's quota (src/services/listing-submission.ts:
-- getListingQuota, submitListing).
use avtosh.Common.{
  ℕ, ◌+◌, ◌-◌, min, Bool, true, false, not, Option, none, some, ltb, leb, ◌==◌, if◌then◌else◌, ok,
  err,
}
use avtosh.Db.{Db, Clock, Tx, ◌>>=◌, ◌>>◌, return, throw, read, insert_status_history}
use avtosh.Db.Errors.{ApiErrorCode}
use avtosh.Db.Settings.{SubmissionSettings, get_submission_settings}
use avtosh.Db.Listings.{Listing, ListingStatus, is_draft}
use avtosh.Db.Payments.{Payment, Publication, BillingType}
use avtosh.Db.Logs.{EventType, ReasonCode}
use avtosh.Lifecycle.Visibility.{event_of}
use avtosh.Submission.Store.{
  get_owned_listing_row_for_update, get_publication_by_listing, count_publications,
  next_publication_number, insert_publication, insert_listing_fee_intent, get_payment_by_id,
  transition_listing_from_draft, expire_pending_uploads_for_listing,
}
use avtosh.Submission.Catalog.{Catalog, Check, assert_complete, revalidate_catalog}

unfoldable pub require_settings : Tx SubmissionSettings
unfolding get_submission_settings
require_settings db = elim (get_submission_settings db.settings) [
  | none ↦ err ApiErrorCode.listing_payment_configuration_error
  | some s ↦ ok (s, db)
]

pub record ListingQuotaDto : Type 0 where
  pub free_limit : ℕ
  pub lifetime_publications : ℕ
  pub free_used : ℕ
  pub free_remaining : ℕ
  pub next_publication_number : ℕ
  pub next_publication_is_paid : Bool
  pub listing_fee_minor : ℕ

abbrev pub quota_of : SubmissionSettings → ℕ → ListingQuotaDto
quota_of settings lifetime = record {
  free_limit = settings.free_limit;
  lifetime_publications = lifetime;
  free_used = min lifetime settings.free_limit;
  free_remaining = settings.free_limit - min lifetime settings.free_limit;
  next_publication_number = lifetime + 1;
  next_publication_is_paid = ltb settings.free_limit (lifetime + 1);
  listing_fee_minor = settings.fee_minor;
}

unfoldable pub get_listing_quota : ℕ → Tx ListingQuotaDto
unfolding require_settings count_publications
get_listing_quota user_id = do
  settings ← require_settings
  lifetime ← read (count_publications user_id)
  return (quota_of settings lifetime)

pub data NextAction : Type 0 where
  to_moderation to_payment : NextAction

pub record SubmissionResultDto : Type 0 where
  pub status : ListingStatus
  pub revision : ℕ
  pub number : ℕ
  pub billing_type : BillingType
  pub payment : Option Payment
  pub next_action : NextAction

abbrev pub action_of : BillingType → NextAction
action_of BillingType.free = NextAction.to_moderation
action_of BillingType.paid = NextAction.to_payment

abbrev pub to_result : ListingStatus → ℕ → Publication → Option Payment → SubmissionResultDto
to_result status revision publication payment = record {
  status = status;
  revision = revision;
  number = publication.publication_number;
  billing_type = publication.billing_type;
  payment = payment;
  next_action = action_of publication.billing_type;
}

abbrev pub check : Check → Tx (Unit {0})
check (ok u) = return u
check (err e) = throw e

abbrev payment_for : Option ℕ → Db → Option Payment
payment_for none db = none
payment_for (some id) db = get_payment_by_id id db

-- The listing enters moderation or waits for its fee; the draft's uploads are closed.
record_submission :
    Clock
    → ℕ
    → ℕ
    → Listing
    → ℕ
    → Publication
    → ListingStatus
    → Bool
    → Option Payment
    → Tx SubmissionResultDto
unfolding insert_publication transition_listing_from_draft expire_pending_uploads_for_listing
record_submission clock user_id listing_id listing expected_revision publication to_status is_free
      payment =
    do
      insert_publication publication
      transitioned ←
          transition_listing_from_draft clock listing_id to_status expected_revision is_free
      if not transitioned then throw ApiErrorCode.listing_revision_conflict else do
        expire_pending_uploads_for_listing listing_id
        insert_status_history (record {
          listing_id = listing_id;
          from_status = ListingStatus.draft;
          to_status = to_status;
          actor_user_id = some user_id;
          reason_code = ReasonCode.initial_submission;
        })
        event_of
            (if is_free
              then EventType.listing_entered_moderation
              else EventType.listing_payment_required)
            listing_id
        return (to_result to_status listing.revision publication payment)

-- Allocation of the number; the fee's intent is made where the free limit is used up.
unfoldable pub allocate :
    Clock → ℕ → ℕ → Listing → ℕ → SubmissionSettings → ℕ → Bool → Tx SubmissionResultDto
unfolding record_submission insert_listing_fee_intent
allocate clock user_id listing_id listing expected_revision settings number true =
    record_submission clock user_id listing_id listing expected_revision
      (record {
        listing_id = listing_id;
        user_id = user_id;
        publication_number = number;
        billing_type = BillingType.free;
        payment_id = none;
      })
      ListingStatus.pending_moderation true none
allocate clock user_id listing_id listing expected_revision settings number false = do
  payment ← insert_listing_fee_intent user_id listing_id settings.fee_minor
  record_submission clock user_id listing_id listing expected_revision
      (record {
        listing_id = listing_id;
        user_id = user_id;
        publication_number = number;
        billing_type = BillingType.paid;
        payment_id = some payment.id;
      })
      ListingStatus.payment_required false (some payment)

submit_draft : Catalog → Clock → ℕ → ℕ → Listing → ℕ → SubmissionSettings → Tx SubmissionResultDto
unfolding next_publication_number allocate
submit_draft catalog clock user_id listing_id listing expected_revision settings =
    if not (is_draft listing.status)
    then throw ApiErrorCode.listing_not_editable
    else if not (listing.revision == expected_revision)
    then throw ApiErrorCode.listing_revision_conflict
    else do
      complete ← read (λ db. assert_complete db listing settings.image_min)
      check complete
      valid ← read (λ db. revalidate_catalog catalog db listing)
      check valid
      number ← read (next_publication_number user_id)
      allocate clock user_id listing_id listing expected_revision settings number
          (leb number settings.free_limit)

submit_or_repeat :
    Catalog
    → Clock
    → ℕ
    → ℕ
    → Listing
    → ℕ
    → SubmissionSettings
    → Option Publication
    → Tx SubmissionResultDto
unfolding submit_draft get_payment_by_id
submit_or_repeat catalog clock user_id listing_id listing expected_revision settings
      (some existing) =
    do
      payment ← read (payment_for existing.payment_id)
      return (to_result listing.status listing.revision existing payment)
submit_or_repeat catalog clock user_id listing_id listing expected_revision settings none =
    submit_draft catalog clock user_id listing_id listing expected_revision settings

submit_row :
    Catalog → Clock → ℕ → ℕ → ℕ → SubmissionSettings → Option Listing → Tx SubmissionResultDto
unfolding get_publication_by_listing submit_or_repeat
submit_row catalog clock user_id listing_id expected_revision settings none =
    throw ApiErrorCode.listing_not_found
submit_row catalog clock user_id listing_id expected_revision settings (some listing) = do
  existing ← get_publication_by_listing listing_id
  submit_or_repeat catalog clock user_id listing_id listing expected_revision settings existing

unfoldable pub submit_listing : Catalog → Clock → ℕ → ℕ → ℕ → Tx SubmissionResultDto
unfolding require_settings get_owned_listing_row_for_update submit_row
submit_listing catalog clock user_id listing_id expected_revision = do
  settings ← require_settings
  row ← get_owned_listing_row_for_update listing_id user_id
  submit_row catalog clock user_id listing_id expected_revision settings row
