-- ===== src/Lifecycle/Edits.antt =====
-- Create-or-get and cancel of the open edit revision
-- (src/services/listing-lifecycle.ts: buildEditSnapshot, getOrCreateEditRevision,
-- cancelOpenEditRevision).
use avtosh.Common.{
  ℕ, Bool, true, ◌||◌, not, Option, none, some, List, [], map, if◌then◌else◌, is_some, length,
}
use avtosh.Db.{Clock, Tx, ◌>>=◌, ◌>>◌, return, throw, insert_audit, insert_outbox_event}
use avtosh.Db.Errors.{ApiErrorCode}
use avtosh.Db.Listings.{
  Listing, ListingStatus, EditRevision, EditStatus, EditData, is_active, is_expired, is_deleted,
  is_edit_pending,
}
use avtosh.Db.Logs.{AuditAction, EventType}
use avtosh.Lifecycle.Store.{
  lock_owned_listing_for_lifecycle, lock_open_edit_revision, list_edit_revision_images,
  get_listing_feature_ids, insert_edit_revision, snapshot_approved_images, cancel_edit_revision,
  clear_reactivation_request,
}

abbrev claim_only : Option Bool → Option Bool
claim_only (some true) = some true
claim_only _ = none

-- Positive condition claims only: `no_accident === true ? true : null`.
unfoldable pub build_edit_snapshot : Listing → List ℕ → EditData
build_edit_snapshot listing feature_ids = record {
  content = record content {
    no_accident = claim_only content.no_accident;
    not_repainted = claim_only content.not_repainted;
  };
  feature_ids = feature_ids;
}
  where
    open listing use {content}

unfoldable pub assert_lifecycle_visible : Option Listing → Tx Listing
assert_lifecycle_visible none = throw ApiErrorCode.listing_not_found
assert_lifecycle_visible (some l) =
    if is_some l.deleted_at || is_deleted l.status
    then throw ApiErrorCode.listing_not_found
    else return l

pub record EditRevisionDto : Type 0 where
  pub id : ℕ
  pub listing_id : ℕ
  pub status : EditStatus
  pub snapshot : EditData
  pub revision : ℕ
  pub submitted_at : Option ℕ
  pub image_count : ℕ

abbrev pub to_revision_dto : EditRevision → ℕ → EditRevisionDto
to_revision_dto row image_count = record {
  id = row.id;
  listing_id = row.listing_id;
  status = row.status;
  snapshot = row.snapshot;
  revision = row.revision;
  submitted_at = row.submitted_at;
  image_count = image_count;
}

-- The open revision with the number of its staged images.
unfoldable pub existing_dto : EditRevision → Tx EditRevisionDto
unfolding list_edit_revision_images
existing_dto existing = do
  images ← list_edit_revision_images existing.id
  return (to_revision_dto existing (length images))

unfoldable pub winner_dto : Option EditRevision → Tx EditRevisionDto
unfolding existing_dto
winner_dto none = throw ApiErrorCode.internal_error
winner_dto (some winner) = existing_dto winner

unfoldable pub created_dto : ℕ → ℕ → Option EditRevision → Tx EditRevisionDto
unfolding winner_dto lock_open_edit_revision snapshot_approved_images
created_dto user_id listing_id none = do
  winner ← lock_open_edit_revision listing_id
  winner_dto winner
created_dto user_id listing_id (some inserted) = do
  copied ← snapshot_approved_images listing_id inserted.id
  insert_audit (record {
    actor_user_id = some user_id;
    action = AuditAction.listing_edit_revision_created;
    entity_id = listing_id;
  })
  insert_outbox_event (record {
    event_type = EventType.listing_edit_revision_created;
    aggregate_id = listing_id;
    cleanup_candidate_paths = [];
  })
  return (to_revision_dto inserted copied)

unfoldable pub open_or_create : ℕ → Listing → Option EditRevision → Tx EditRevisionDto
unfolding existing_dto created_dto get_listing_feature_ids insert_edit_revision build_edit_snapshot
open_or_create user_id listing (some existing) = existing_dto existing
open_or_create user_id listing none = do
  feature_ids ← get_listing_feature_ids listing.id
  inserted ← insert_edit_revision listing.id (build_edit_snapshot listing feature_ids)
  created_dto user_id listing.id inserted

-- `EDITABLE_LIFECYCLE_STATUSES`.
abbrev pub editable_lifecycle : ListingStatus → Bool
editable_lifecycle s = is_active s || is_expired s

unfoldable pub get_or_create_edit_revision : ℕ → ℕ → Tx EditRevisionDto
unfolding lock_owned_listing_for_lifecycle assert_lifecycle_visible lock_open_edit_revision
    open_or_create
get_or_create_edit_revision user_id listing_id = do
  row ← lock_owned_listing_for_lifecycle listing_id user_id
  listing ← assert_lifecycle_visible row
  if not (editable_lifecycle listing.status)
      then throw ApiErrorCode.listing_lifecycle_conflict
      else do existing ← lock_open_edit_revision listing_id; open_or_create user_id listing existing

unfoldable pub cancel_open : Clock → ℕ → ℕ → ℕ → Option EditRevision → Tx (ℕ × EditStatus)
unfolding cancel_edit_revision clear_reactivation_request list_edit_revision_images
cancel_open clock user_id listing_id expected none = throw ApiErrorCode.listing_lifecycle_conflict
cancel_open clock user_id listing_id expected (some current) =
    if is_edit_pending current.status
    then throw ApiErrorCode.listing_lifecycle_conflict
    else do cancelled ← cancel_edit_revision clock current.id expected; finish cancelled
  where
    finish : Option EditRevision → Tx (ℕ × EditStatus)
    finish none = throw ApiErrorCode.listing_revision_conflict
    finish (some done) = do
      clear_reactivation_request listing_id
      staged ← list_edit_revision_images current.id
      insert_audit (record {
        actor_user_id = some user_id;
        action = AuditAction.listing_edit_cancelled;
        entity_id = listing_id;
      })
      insert_outbox_event (record {
        event_type = EventType.listing_edit_cancelled;
        aggregate_id = listing_id;
        cleanup_candidate_paths = map (λ i. i.storage_path) staged;
      })
      return (done.id, done.status)

unfoldable pub cancel_open_edit_revision : Clock → ℕ → ℕ → ℕ → Tx (ℕ × EditStatus)
unfolding lock_owned_listing_for_lifecycle assert_lifecycle_visible lock_open_edit_revision
    cancel_open
cancel_open_edit_revision clock user_id listing_id expected_edit_revision = do
  row ← lock_owned_listing_for_lifecycle listing_id user_id
  listing ← assert_lifecycle_visible row
  current ← lock_open_edit_revision listing_id
  cancel_open clock user_id listing_id expected_edit_revision current
