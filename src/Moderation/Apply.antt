-- ===== src/Moderation/Apply.antt =====
-- A saved adjustment at a decision: it becomes the approved content, or is discarded
-- (applyAdjustmentOnNewApproval, applyAdjustmentOnEditApproval, discardAdjustmentOnDecision), with
-- the statements that copy approved content into the listing.
use avtosh.Common.{
  ℕ, ◌+◌, Bool, ◌&&◌, Option, some, List, [], ◌∷◌, map, ◌==◌, is_none, select, select_all, exists,
  delete, update, ok, if◌then◌else◌,
}
use avtosh.Db.{Clock, Tx, ◌>>=◌, ◌>>◌, read, write, return, lift, require_some, insert_outbox_event}
use avtosh.Db.Errors.{ApiErrorCode}
use avtosh.Db.Listings.{Listing, ListingContent}
use avtosh.Db.Logs.{AuditAction, EventType}
use avtosh.Db.Moderation.{Adjustment, ImagePlanRowEntry}
use avtosh.Db.Settings.{get_submission_settings}
use avtosh.Content.Checks.{assert_adjusted_content_approvable, approved_content_set}
use avtosh.Submission.Catalog.{Catalog}
use avtosh.Lifecycle.Store.{map_option}
use avtosh.Lifecycle.Visibility.{audit_of}
use avtosh.Moderation.Plan.{is_kept, normalize_image_plan, plan_input}
use avtosh.Moderation.Adjustments.{
  Kept, apply_adjustment_row, discard_adjustment_row, materialize_image_plan_for_listing,
  materialize_image_plan_from_staged,
}

-- `where id = … and revision = … and deleted_at is null`.
abbrev pub content_target : ℕ → ℕ → Listing → Bool
content_target listing_id expected_revision l =
    (l.id == listing_id) && (l.revision == expected_revision) && is_none l.deleted_at

abbrev pub with_content : ListingContent → Listing → Listing
with_content content l = record l { content = content; revision = l.revision + 1 }

-- `update … returning revision`.
unfoldable pub apply_approved_edit_content : ℕ → ℕ → ListingContent → Tx (Option ℕ)
apply_approved_edit_content listing_id expected_revision content db = ok (
  map_option (λ l. l.revision + 1)
      (select (content_target listing_id expected_revision) db.listings),
  record db {
    listings =
        update (content_target listing_id expected_revision) (with_content content) db.listings;
  },
)

abbrev pub features_of : ℕ → ℕ × ℕ → Bool
features_of listing_id (l, f) = l == listing_id

abbrev pub feature_pair : ℕ → ℕ → ℕ × ℕ → Bool
feature_pair listing_id feature (l, f) = (l == listing_id) && (f == feature)

-- `insert … on conflict do nothing`; the ids are of features that the catalog has.
unfoldable pub insert_features : ℕ → List ℕ → List (ℕ × ℕ) → List (ℕ × ℕ)
insert_features listing_id [] rows = rows
insert_features listing_id (f ∷ fs) rows =
    let rest = insert_features listing_id fs rows in
    if exists (feature_pair listing_id f) rest then rest else (listing_id, f) ∷ rest

unfoldable pub replace_listing_features : ℕ → List ℕ → Tx (Unit {0})
unfolding insert_features
replace_listing_features listing_id feature_ids = write (λ db. record db {
  listing_features =
      insert_features listing_id feature_ids (delete (features_of listing_id) db.listing_features);
})

abbrev pub as_kept : ImagePlanRowEntry → Kept
as_kept e = record { source_id = e.source_id; is_primary = e.is_primary }

abbrev pub kept_of : List ImagePlanRowEntry → List Kept
kept_of plan = map as_kept (select_all is_kept plan)

-- How the gallery is made of the kept sources: from the listing's own rows, or from the staged ones.
abbrev pub Materialize : Type 0
Materialize = List Kept → Tx (Option (List ℕ))

-- What both approvals do, once they differ in the source of the gallery only.
unfoldable pub apply_adjustment : Clock → Catalog → ℕ → Listing → Adjustment → Materialize → Tx ℕ
unfolding apply_approved_edit_content replace_listing_features apply_adjustment_row
apply_adjustment clock catalog moderator listing adjustment materialize = do
  settings ← read (λ db. get_submission_settings db.settings)
  configured ← require_some ApiErrorCode.listing_configuration_error settings
  checked ← lift (
      assert_adjusted_content_approvable catalog adjustment.submitted_data adjustment.adjusted_data)
  plan ← lift (
      normalize_image_plan (plan_input adjustment.image_plan) adjustment.submitted_images
        configured.image_min)
  content ← lift (approved_content_set catalog adjustment.adjusted_data)
  changed ← apply_approved_edit_content listing.id listing.revision content
  new_listing_revision ← require_some ApiErrorCode.moderation_invalid_state changed
  replace_listing_features listing.id adjustment.adjusted_data.feature_ids
  materialized ← materialize (kept_of plan)
  removed_paths ← require_some ApiErrorCode.moderation_subject_changed materialized
  row ← apply_adjustment_row clock adjustment.id adjustment.revision
  applied ← require_some ApiErrorCode.moderation_adjustment_conflict row
  audit_of (some moderator) AuditAction.moderation_adjustment_applied listing.id
  insert_outbox_event (record {
    event_type = EventType.moderation_adjustment_applied;
    aggregate_id = listing.id;
    cleanup_candidate_paths = removed_paths;
  })
  return new_listing_revision

unfoldable pub apply_adjustment_on_new_approval : Clock → Catalog → ℕ → Listing → Adjustment → Tx ℕ
unfolding apply_adjustment materialize_image_plan_for_listing
apply_adjustment_on_new_approval clock catalog moderator listing adjustment =
    apply_adjustment clock catalog moderator listing adjustment
      (materialize_image_plan_for_listing listing.id)

unfoldable pub apply_adjustment_on_edit_approval :
    Clock → Catalog → ℕ → Listing → ℕ → Adjustment → Tx ℕ
unfolding apply_adjustment materialize_image_plan_from_staged
apply_adjustment_on_edit_approval clock catalog moderator listing edit_revision_id adjustment =
    apply_adjustment clock catalog moderator listing adjustment
      (materialize_image_plan_from_staged listing.id edit_revision_id)

unfoldable pub discard_adjustment_on_decision : Clock → ℕ → ℕ → Adjustment → Tx (Unit {0})
unfolding discard_adjustment_row
discard_adjustment_on_decision clock moderator listing_id adjustment = do
  row ← discard_adjustment_row clock adjustment.id adjustment.revision
  discarded ← require_some ApiErrorCode.moderation_adjustment_conflict row
  audit_of (some moderator) AuditAction.moderation_adjustment_discarded listing_id
