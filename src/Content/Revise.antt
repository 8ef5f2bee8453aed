-- ===== src/Content/Revise.antt =====
-- The seller's changes of an edit revision, and its submission (updateEditRevision and
-- submitEditRevision of src/services/listing-edit.ts). The view that an update answers with is read
-- after the transaction.
use avtosh.Common.{
  ℕ, ◌+◌, Bool, true, false, ◌&&◌, not, Option, none, some, ◌==◌, ltb, if◌then◌else◌, is_some,
  select, update, ok,
}
use avtosh.Db.{Clock, Tx, ◌>>=◌, ◌>>◌, read, return, throw, lift, require_some, guard}
use avtosh.Db.Errors.{ApiErrorCode}
use avtosh.Db.Listings.{
  Listing, EditRevision, EditStatus, EditData, is_active, is_editable, is_edit_pending,
}
use avtosh.Db.Logs.{AuditAction, EventType}
use avtosh.Db.Settings.{get_submission_settings}
use avtosh.Submission.Catalog.{Catalog}
use avtosh.Submission.Store.{expire_pending_uploads_for_listing}
use avtosh.Lifecycle.Store.{
  map_option, lock_owned_listing_for_lifecycle, lock_open_edit_revision,
  record_reactivation_request,
}
use avtosh.Lifecycle.Edits.{assert_lifecycle_visible, editable_lifecycle}
use avtosh.Lifecycle.Visibility.{audit_of, event_of}
use avtosh.Content.Selections.{SellerContentPatch, Texts}
use avtosh.Content.Adjusted.{resolve_adjusted_data}
use avtosh.Content.Checks.{assert_revision_submittable}

-- `where id = … and revision = … and status in ('EDIT_DRAFT', 'CORRECTION_REQUIRED')`.
abbrev pub editable_at : ℕ → ℕ → EditRevision → Bool
editable_at revision_id expected_revision e =
    (e.id == revision_id) && (e.revision == expected_revision) && is_editable e.status

-- `data || changes`, the whole snapshot as it is then.
abbrev pub revised : EditData → EditRevision → EditRevision
revised data' e = record e { snapshot = data'; revision = e.revision + 1 }

abbrev pub submitted_edit : ℕ → EditRevision → EditRevision
submitted_edit now e = record e { status = EditStatus.pending_moderation; submitted_at = some now }

abbrev pub change_editable : (EditRevision → EditRevision) → ℕ → ℕ → Tx (Option EditRevision)
change_editable f revision_id expected_revision db = ok (
  map_option f (select (editable_at revision_id expected_revision) db.revisions),
  record db { revisions = update (editable_at revision_id expected_revision) f db.revisions },
)

unfoldable pub update_edit_revision_data : ℕ → ℕ → EditData → Tx (Option EditRevision)
update_edit_revision_data revision_id expected_revision data' =
    change_editable (revised data') revision_id expected_revision

unfoldable pub submit_edit_revision_row : Clock → ℕ → ℕ → Tx (Option EditRevision)
submit_edit_revision_row clock revision_id expected_revision =
    change_editable (submitted_edit clock.db_now) revision_id expected_revision

unfoldable pub update_open :
    Catalog → Texts → ℕ → SellerContentPatch → Option EditRevision → Tx EditRevision
unfolding update_edit_revision_data
update_open catalog texts expected_revision patch none =
    throw ApiErrorCode.listing_lifecycle_conflict
update_open catalog texts expected_revision patch (some edit) = do
  guard (not (is_edit_pending edit.status)) ApiErrorCode.listing_lifecycle_conflict
  data' ← lift (resolve_adjusted_data catalog texts edit.snapshot patch)
  row ← update_edit_revision_data edit.id expected_revision data'
  require_some ApiErrorCode.listing_revision_conflict row

unfoldable pub update_edit_revision :
    Catalog → Texts → ℕ → ℕ → ℕ → SellerContentPatch → Tx EditRevision
unfolding lock_owned_listing_for_lifecycle assert_lifecycle_visible lock_open_edit_revision
    update_open
update_edit_revision catalog texts user_id listing_id expected_revision patch = do
  row ← lock_owned_listing_for_lifecycle listing_id user_id
  listing ← assert_lifecycle_visible row
  edit ← lock_open_edit_revision listing_id
  update_open catalog texts expected_revision patch edit

pub record EditSubmissionResultDto : Type 0 where
  pub edit_revision_id : ℕ
  pub edit_status : EditStatus
  pub edit_revision : ℕ
  pub reactivation_requested : Bool

abbrev pub edit_submission_of : Bool → EditRevision → EditSubmissionResultDto
edit_submission_of requested e = record {
  edit_revision_id = e.id;
  edit_status = e.status;
  edit_revision = e.revision;
  reactivation_requested = requested;
}

abbrev pub valid_until : ℕ → Option ℕ → Bool
valid_until now none = false
valid_until now (some t) = ltb now t

-- `activate` with nothing requested yet, on a hidden listing that is ACTIVE and time-valid.
abbrev pub asks_to_show : Clock → Bool → Listing → Bool
asks_to_show clock activate listing =
    activate
    && not (is_some listing.seller_reactivation_requested_at)
    && is_some listing.seller_deactivated_at
    && is_active listing.status
    && valid_until clock.js_now listing.current_expires_at

-- Is a request to show the listing on record after this?
unfoldable pub record_activation : Clock → ℕ → ℕ → Listing → Bool → Tx Bool
unfolding record_reactivation_request
record_activation clock user_id listing_id listing activate =
    if not (asks_to_show clock activate listing)
    then return (is_some listing.seller_reactivation_requested_at)
    else (do
      recorded ← record_reactivation_request clock listing_id listing.revision
      noted recorded)
  where
    noted : Bool → Tx Bool
    noted false = return (is_some listing.seller_reactivation_requested_at)
    noted true = do
      audit_of (some user_id) AuditAction.listing_seller_reactivation_requested listing_id
      return true

unfoldable pub submit_editable :
    Clock → Catalog → ℕ → ℕ → ℕ → Bool → ℕ → Listing → EditRevision → Tx EditSubmissionResultDto
unfolding submit_edit_revision_row expire_pending_uploads_for_listing
submit_editable clock catalog user_id listing_id expected activate image_min listing edit = do
  guard (edit.revision == expected) ApiErrorCode.listing_revision_conflict
  (λ db. lift (assert_revision_submittable catalog db edit image_min) db)
  row ← submit_edit_revision_row clock edit.id expected
  submitted ← require_some ApiErrorCode.listing_revision_conflict row
  expire_pending_uploads_for_listing listing_id
  requested ← record_activation clock user_id listing_id listing activate
  audit_of (some user_id) AuditAction.listing_edit_submitted listing_id
  event_of EventType.listing_edit_submitted listing_id
  return (edit_submission_of requested submitted)

-- A retry of a submission is answered as the edit is; other requests find it under moderation.
unfoldable pub submit_open :
    Clock
    → Catalog
    → ℕ
    → ℕ
    → ℕ
    → Bool
    → ℕ
    → Listing
    → Option EditRevision
    → Tx EditSubmissionResultDto
submit_open clock catalog user_id listing_id expected activate image_min listing none =
    throw ApiErrorCode.listing_lifecycle_conflict
submit_open clock catalog user_id listing_id expected activate image_min listing (some edit) =
    if is_edit_pending edit.status && (edit.revision == expected)
    then return (edit_submission_of (is_some listing.seller_reactivation_requested_at) edit)
    else if is_edit_pending edit.status
    then throw ApiErrorCode.listing_lifecycle_conflict
    else submit_editable clock catalog user_id listing_id expected activate image_min listing edit

unfoldable pub submit_edit_revision :
    Clock → Catalog → ℕ → ℕ → ℕ → Bool → Tx EditSubmissionResultDto
unfolding lock_owned_listing_for_lifecycle assert_lifecycle_visible lock_open_edit_revision
    submit_open
submit_edit_revision clock catalog user_id listing_id expected activate = do
  configured ← read (λ db. get_submission_settings db.settings)
  settings ← require_some ApiErrorCode.listing_payment_configuration_error configured
  row ← lock_owned_listing_for_lifecycle listing_id user_id
  listing ← assert_lifecycle_visible row
  guard (editable_lifecycle listing.status) ApiErrorCode.listing_lifecycle_conflict
  edit ← lock_open_edit_revision listing_id
  submit_open clock catalog user_id listing_id expected activate settings.image_min listing edit
