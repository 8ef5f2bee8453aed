-- ===== src/Moderation/EditDecide.antt =====
-- decideEdit: the approval, the rejection and the correction request of a submitted edit
-- (src/services/moderation-edit.ts). The reason and the note go into texts.
use avtosh.Common.{
  ℕ, Bool, true, false, ◌&&◌, not, Option, none, some, List, [], ◌==◌, if◌then◌else◌, is_none,
  select, select_all, select_latest, exists, update, ok,
}
use avtosh.Db.{
  Db, Clock, Tx, ◌>>=◌, ◌>>◌, read, return, throw, lift, require_some, guard, insert_outbox_event,
}
use avtosh.Db.Errors.{ApiErrorCode}
use avtosh.Db.Listings.{Listing, ListingStatus, EditRevision, EditStatus, Image, is_edit_pending}
use avtosh.Db.Logs.{AuditAction, EventType}
use avtosh.Db.Moderation.{Adjustment, Decision, Review, same_decision}
use avtosh.Db.Settings.{get_submission_settings}
use avtosh.Content.Selections.{same_option}
use avtosh.Content.Checks.{assert_revision_submittable, approved_content_set}
use avtosh.Submission.Catalog.{Catalog}
use avtosh.Lifecycle.Store.{
  map_option, owned_by, staged_from, lock_listing_for_lifecycle, lock_open_edit_revision,
  list_edit_revision_images, clear_reactivation_request,
}
use avtosh.Lifecycle.Edits.{assert_lifecycle_visible}
use avtosh.Lifecycle.Visibility.{
  FinalizeResult, present, audit_of, try_finalize_seller_reactivation,
}
use avtosh.Moderation.Claims.{require_owned_live_claim, release_claim}
use avtosh.Moderation.Adjustments.{lock_open_adjustment, path_is, paths_of, rewrite_gallery}
use avtosh.Moderation.Apply.{
  apply_approved_edit_content, replace_listing_features, apply_adjustment_on_edit_approval,
  discard_adjustment_on_decision,
}
use avtosh.Moderation.Reviews.{review_order, insert_review}

pub record EditDecisionInput : Type 0 where
  pub expected_edit_revision : ℕ
  pub decision : Decision
  pub expected_adjustment_revision : Option ℕ

pub record EditDecisionResultDto : Type 0 where
  pub status : ListingStatus
  pub revision : ℕ
  pub edit_revision : EditRevision
  pub review : Review
  pub reactivated : Bool

-- The listing as the answer shows it.
pub record FinalListing : Type 0 where
  pub status : ListingStatus
  pub revision : ℕ

-- `mr.moderator_id`, `mr.edit_revision_no` and `mr.decision` are those of the request.
abbrev pub repeats : ℕ → ℕ → Decision → Review → Bool
repeats moderator edit_revision_no decision r =
    (r.moderator_id == moderator)
    && same_option r.edit_revision_no (some edit_revision_no)
    && same_decision r.decision decision

abbrev pub reviewed_edit : ℕ → Review → EditRevision → Bool
reviewed_edit listing_id r e =
    same_option r.edit_revision_id (some e.id) && (e.listing_id == listing_id)

-- The join of reviews and edit revisions: the latest review of an edit of the listing.
abbrev pub reviewed_as : ℕ → ℕ → ℕ → Decision → Db → Review → Bool
reviewed_as listing_id moderator edit_revision_no decision db r =
    repeats moderator edit_revision_no decision r
    && exists (reviewed_edit listing_id r) db.revisions

edit_of : ℕ → List EditRevision → Option Review → Option EditRevision
edit_of listing_id revisions none = none
edit_of listing_id revisions (some r) = select (reviewed_edit listing_id r) revisions

unfoldable pub find_decided_edit : ℕ → ℕ → ℕ → Decision → Tx (Option EditRevision)
unfolding edit_of
find_decided_edit listing_id moderator edit_revision_no decision = read (λ db.
    edit_of listing_id db.revisions (
      select_latest (reviewed_as listing_id moderator edit_revision_no decision db) review_order
        db.reviews))

abbrev pub same_edit_review : ℕ → ℕ → ℕ → Decision → Review → Bool
same_edit_review edit_revision_id moderator edit_revision_no decision r =
    same_option r.edit_revision_id (some edit_revision_id)
    && repeats moderator edit_revision_no decision r

unfoldable pub find_matching_edit_review : ℕ → ℕ → ℕ → Decision → Tx (Option Review)
find_matching_edit_review edit_revision_id moderator edit_revision_no decision = read (λ db.
    select_latest (same_edit_review edit_revision_id moderator edit_revision_no decision)
      review_order db.reviews)

answer_again : Listing → EditRevision → Option Review → Tx EditDecisionResultDto
answer_again listing edit none = throw ApiErrorCode.moderation_invalid_state
answer_again listing edit (some review) = return (record {
  status = listing.status;
  revision = listing.revision;
  edit_revision = edit;
  review = review;
  reactivated = false;
})

-- No edit is pending: the answer of a retry.
unfoldable pub repeated_edit :
    ℕ → Listing → EditDecisionInput → Option EditRevision → Tx EditDecisionResultDto
unfolding find_matching_edit_review answer_again
repeated_edit moderator listing input none = throw ApiErrorCode.moderation_invalid_state
repeated_edit moderator listing input (some edit) = do
  review ← find_matching_edit_review edit.id moderator input.expected_edit_revision input.decision
  answer_again listing edit review

unfoldable pub check_edit_adjustment :
    Listing → EditRevision → Option ℕ → Option Adjustment → Tx (Unit {0})
check_edit_adjustment listing edit expected none =
    guard (is_none expected) ApiErrorCode.moderation_adjustment_conflict
check_edit_adjustment listing edit expected (some a) = do
  guard
      (same_option a.edit_revision_id (some edit.id)
        && same_option a.submitted_edit_revision_no (some edit.revision)
        && (a.submitted_listing_revision == listing.revision))
      ApiErrorCode.moderation_subject_changed
  guard (same_option expected (some a.revision)) ApiErrorCode.moderation_adjustment_conflict

-- The public gallery becomes the staged one, with new ids; the paths that it had.
unfoldable pub replace_listing_images_from_staged : ℕ → ℕ → Tx (List ℕ)
replace_listing_images_from_staged listing_id revision_id db = ok (
  paths_of (select_all (owned_by listing_id) db.listing_images),
  rewrite_gallery listing_id
      (staged_from listing_id db.next_id (select_all (owned_by revision_id) db.edit_images)) db,
)

abbrev pub not_in : List Image → ℕ → Bool
not_in images path = not (exists (path_is path) images)

-- The effects of an approval on content, with the paths that may be orphans. With an adjustment
-- its own event carries them.
unfoldable pub apply_edit :
    Clock → Catalog → ℕ → Listing → EditRevision → Option Adjustment → Tx (List ℕ)
unfolding apply_approved_edit_content replace_listing_features replace_listing_images_from_staged
    list_edit_revision_images
apply_edit clock catalog moderator listing edit (some adjustment) = do
  new_listing_revision ←
      apply_adjustment_on_edit_approval clock catalog moderator listing edit.id adjustment
  return []
apply_edit clock catalog moderator listing edit none = do
  settings ← read (λ db. get_submission_settings db.settings)
  configured ← require_some ApiErrorCode.listing_configuration_error settings
  (λ db. lift (assert_revision_submittable catalog db edit configured.image_min) db)
  content ← lift (approved_content_set catalog edit.snapshot)
  changed ← apply_approved_edit_content listing.id listing.revision content
  new_revision ← require_some ApiErrorCode.moderation_invalid_state changed
  replace_listing_features listing.id edit.snapshot.feature_ids
  removed_paths ← replace_listing_images_from_staged listing.id edit.id
  staged ← list_edit_revision_images edit.id
  return (select_all (not_in staged) removed_paths)

unfoldable pub apply_decision :
    Clock → Catalog → ℕ → Listing → EditRevision → Option Adjustment → Decision → Tx (List ℕ)
apply_decision clock catalog moderator listing edit adjustment Decision.approved =
    apply_edit clock catalog moderator listing edit adjustment
apply_decision clock catalog moderator listing edit adjustment _ = return []

abbrev pub edit_status_after : Decision → EditStatus
edit_status_after Decision.approved = EditStatus.approved
edit_status_after Decision.rejected = EditStatus.rejected
edit_status_after Decision.correction_requested = EditStatus.correction_required

abbrev pub decidable : ℕ → ℕ → EditRevision → Bool
decidable revision_id expected_revision e =
    (e.id == revision_id) && (e.revision == expected_revision) && is_edit_pending e.status

abbrev pub decided_edit : EditStatus → ℕ → EditRevision → EditRevision
decided_edit to_status now e = record e { status = to_status; decided_at = some now }

unfoldable pub decide_edit_revision_row : Clock → ℕ → ℕ → EditStatus → Tx (Option EditRevision)
decide_edit_revision_row clock revision_id expected_revision to_status db = ok (
  map_option (decided_edit to_status clock.db_now)
      (select (decidable revision_id expected_revision) db.revisions),
  record db {
    revisions =
        update (decidable revision_id expected_revision) (decided_edit to_status clock.db_now)
          db.revisions;
  },
)

-- A rejection withdraws the request to publish; no refusal leaves an adjustment open.
unfoldable pub withdraw : Clock → ℕ → ℕ → Option Adjustment → Decision → Tx (Unit {0})
unfolding clear_reactivation_request
withdraw clock moderator listing_id adjustment Decision.approved = return tt
withdraw clock moderator listing_id none Decision.rejected = clear_reactivation_request listing_id
withdraw clock moderator listing_id (some a) Decision.rejected = do
  clear_reactivation_request listing_id
  discard_adjustment_on_decision clock moderator listing_id a
withdraw clock moderator listing_id none Decision.correction_requested = return tt
withdraw clock moderator listing_id (some a) Decision.correction_requested =
    discard_adjustment_on_decision clock moderator listing_id a

abbrev pub edit_action : Decision → AuditAction
edit_action Decision.approved = AuditAction.listing_edit_approved
edit_action Decision.rejected = AuditAction.listing_edit_rejected
edit_action Decision.correction_requested = AuditAction.listing_edit_correction_requested

abbrev pub edit_event : Decision → EventType
edit_event Decision.approved = EventType.listing_edit_approved
edit_event Decision.rejected = EventType.listing_edit_rejected
edit_event Decision.correction_requested = EventType.listing_edit_correction_requested

abbrev pub is_finalized : FinalizeResult → Bool
is_finalized FinalizeResult.finalized = true
is_finalized (FinalizeResult.blocked reason) = false

-- An approval ends with the central finalizer; the rest leaves the listing as it was.
unfoldable pub finalize_decision : Clock → Listing → Decision → Tx (FinalListing × Bool)
unfolding lock_listing_for_lifecycle
finalize_decision clock listing Decision.approved = do
  row ← lock_listing_for_lifecycle listing.id
  fresh ← present row
  result ← try_finalize_seller_reactivation clock fresh
  row_after ← lock_listing_for_lifecycle listing.id
  final ← present row_after
  return ((record { status = final.status; revision = final.revision }), is_finalized result)
finalize_decision clock listing _ =
    return ((record { status = listing.status; revision = listing.revision }), false)

unfoldable pub decide_pending_edit :
    Clock → Catalog → ℕ → Listing → EditDecisionInput → EditRevision → Tx EditDecisionResultDto
unfolding lock_open_adjustment insert_review decide_edit_revision_row release_claim
decide_pending_edit clock catalog moderator listing input edit = do
  guard (edit.revision == input.expected_edit_revision) ApiErrorCode.listing_revision_conflict
  claim ← (λ db. lift (require_owned_live_claim clock listing.id moderator db) db)
  open_adjustment ← lock_open_adjustment listing.id
  check_edit_adjustment listing edit input.expected_adjustment_revision open_adjustment
  review ←
      insert_review clock listing.id moderator listing.revision input.decision (some edit.id)
        (some edit.revision) open_adjustment
  cleanup_paths ← apply_decision clock catalog moderator listing edit open_adjustment input.decision
  row ← decide_edit_revision_row clock edit.id edit.revision (edit_status_after input.decision)
  decided ← require_some ApiErrorCode.moderation_invalid_state row
  withdraw clock moderator listing.id open_adjustment input.decision
  audit_of (some moderator) (edit_action input.decision) listing.id
  insert_outbox_event (record {
    event_type = edit_event input.decision;
    aggregate_id = listing.id;
    cleanup_candidate_paths = cleanup_paths;
  })
  final ← finalize_decision clock listing input.decision
  release_claim clock claim.id
  return (record {
    status = (final.0).status;
    revision = (final.0).revision;
    edit_revision = decided;
    review = review;
    reactivated = final.1;
  })

abbrev again : ℕ → ℕ → Listing → EditDecisionInput → Tx EditDecisionResultDto
again moderator listing_id listing input = do
  edit ← find_decided_edit listing_id moderator input.expected_edit_revision input.decision
  repeated_edit moderator listing input edit

unfoldable pub decide_open_edit :
    Clock
    → Catalog
    → ℕ
    → ℕ
    → EditDecisionInput
    → Listing
    → Option EditRevision
    → Tx EditDecisionResultDto
unfolding find_decided_edit
decide_open_edit clock catalog moderator listing_id input listing none =
    again moderator listing_id listing input
decide_open_edit clock catalog moderator listing_id input listing (some edit) =
    if not (is_edit_pending edit.status)
    then again moderator listing_id listing input
    else decide_pending_edit clock catalog moderator listing input edit

-- The listing's id is the one it was found by.
unfoldable pub decide_edit : Clock → Catalog → ℕ → ℕ → EditDecisionInput → Tx EditDecisionResultDto
unfolding lock_listing_for_lifecycle assert_lifecycle_visible lock_open_edit_revision
decide_edit clock catalog moderator listing_id input = do
  row ← lock_listing_for_lifecycle listing_id
  listing ← assert_lifecycle_visible row
  edit ← lock_open_edit_revision listing_id
  decide_open_edit clock catalog moderator listing_id input listing edit
