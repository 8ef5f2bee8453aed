-- ===== src/Moderation/Save.antt =====
-- saveAdjustment and discardAdjustment: a moderator's private working copy of a submission.
use avtosh.Common.{ℕ, Bool, ◌&&◌, Option, none, some, List, map, ◌==◌, is_none, sort_by, select_all}
use avtosh.Db.{Clock, Tx, ◌>>=◌, ◌>>◌, read, return, throw, lift, require_some, guard}
use avtosh.Db.Errors.{ApiErrorCode}
use avtosh.Db.Listings.{
  Listing, EditRevision, EditData, Image, is_pending_moderation, is_edit_pending,
}
use avtosh.Db.Logs.{AuditAction}
use avtosh.Db.Moderation.{Adjustment, SubmittedImage}
use avtosh.Db.Settings.{get_submission_settings}
use avtosh.Content.Selections.{SellerContentPatch, Texts, same_option}
use avtosh.Content.Adjusted.{resolve_adjusted_data}
use avtosh.Submission.Catalog.{Catalog}
use avtosh.Lifecycle.Store.{
  owned_by, lock_listing_for_lifecycle, lock_open_edit_revision, list_edit_revision_images,
  get_listing_feature_ids,
}
use avtosh.Lifecycle.Edits.{build_edit_snapshot, assert_lifecycle_visible}
use avtosh.Lifecycle.Visibility.{audit_of}
use avtosh.Moderation.Claims.{require_owned_live_claim}
use avtosh.Moderation.Plan.{AdjustmentImagePlanEntry, normalize_image_plan}
use avtosh.Moderation.Adjustments.{
  lock_open_adjustment, insert_adjustment, update_adjustment_working_state, discard_adjustment_row,
  find_discarded_adjustment,
}

abbrev pub frozen : Image → SubmittedImage
frozen row = record {
  source_id = row.id;
  storage_path = row.storage_path;
  sort_order = row.sort_order;
  is_primary = row.is_primary;
}

abbrev pub gallery_order : Image → ℕ
gallery_order i = i.sort_order

-- The rows of a gallery, `order by sort_order`, as they are frozen.
unfoldable pub freeze_images : List Image → List SubmittedImage
freeze_images rows = map frozen (sort_by gallery_order rows)

unfoldable pub list_listing_images : ℕ → Tx (List Image)
list_listing_images listing_id = read (λ db. select_all (owned_by listing_id) db.listing_images)

pub record ResolvedSubject : Type 0 where
  pub listing_revision : ℕ
  pub edit_revision_id : Option ℕ
  pub edit_revision_no : Option ℕ
  pub submitted_data : EditData
  pub submitted_images : List SubmittedImage

-- The subject that the client has in mind.
pub record SubjectInput : Type 0 where
  pub expected_listing_revision : ℕ
  pub edit_revision_id : Option ℕ
  pub expected_edit_revision : Option ℕ

unfoldable pub new_subject : ℕ → Listing → ℕ → Tx ResolvedSubject
unfolding get_listing_feature_ids list_listing_images build_edit_snapshot freeze_images
new_subject listing_id listing expected_listing_revision = do
  guard (is_pending_moderation listing.status) ApiErrorCode.moderation_subject_changed
  guard (listing.revision == expected_listing_revision) ApiErrorCode.moderation_subject_changed
  feature_ids ← get_listing_feature_ids listing_id
  images ← list_listing_images listing_id
  return (record {
    listing_revision = listing.revision;
    edit_revision_id = none;
    edit_revision_no = none;
    submitted_data = build_edit_snapshot listing feature_ids;
    submitted_images = freeze_images images;
  })

unfoldable pub edit_subject :
    ℕ → Listing → ℕ → Option ℕ → ℕ → Option EditRevision → Tx ResolvedSubject
unfolding list_edit_revision_images freeze_images
edit_subject listing_id listing edit_revision_id expected_edit_revision expected_listing_revision
      none =
    throw ApiErrorCode.moderation_subject_changed
edit_subject listing_id listing edit_revision_id expected_edit_revision expected_listing_revision
      (some revision) =
    do
      guard ((revision.id == edit_revision_id) && is_edit_pending revision.status)
          ApiErrorCode.moderation_subject_changed
      guard (same_option (some revision.revision) expected_edit_revision)
          ApiErrorCode.moderation_subject_changed
      guard (listing.revision == expected_listing_revision) ApiErrorCode.moderation_subject_changed
      images ← list_edit_revision_images revision.id
      return (record {
        listing_revision = listing.revision;
        edit_revision_id = some revision.id;
        edit_revision_no = some revision.revision;
        submitted_data = revision.snapshot;
        submitted_images = freeze_images images;
      })

unfoldable pub subject_of : ℕ → Listing → SubjectInput → Option ℕ → Tx ResolvedSubject
unfolding new_subject edit_subject lock_open_edit_revision
subject_of listing_id listing input none =
    new_subject listing_id listing input.expected_listing_revision
subject_of listing_id listing input (some edit_revision_id) = do
  revision ← lock_open_edit_revision listing_id
  edit_subject listing_id listing edit_revision_id input.expected_edit_revision
      input.expected_listing_revision revision

unfoldable pub resolve_current_subject : ℕ → SubjectInput → Tx ResolvedSubject
unfolding lock_listing_for_lifecycle assert_lifecycle_visible subject_of
resolve_current_subject listing_id input = do
  row ← lock_listing_for_lifecycle listing_id
  listing ← assert_lifecycle_visible row
  subject_of listing_id listing input input.edit_revision_id

abbrev pub matches_subject : Adjustment → ResolvedSubject → Bool
matches_subject a s =
    same_option a.edit_revision_id s.edit_revision_id
    && same_option a.submitted_edit_revision_no s.edit_revision_no
    && (a.submitted_listing_revision == s.listing_revision)

pub record AdjustmentSaveInput : Type 0 where
  pub subject : SubjectInput
  pub expected_adjustment_revision : Option ℕ
  pub content : SellerContentPatch
  pub image_plan : List AdjustmentImagePlanEntry

-- The first save freezes the pass and creates the working copy. The changed fields of the audit
-- payload and of the answer are texts.
unfoldable pub first_save :
    Catalog
    → Texts
    → ℕ
    → ℕ
    → AdjustmentSaveInput
    → ResolvedSubject
    → ℕ
    → Option Adjustment
    → Tx Adjustment
unfolding insert_adjustment
first_save catalog texts moderator listing_id input subject image_min existing = do
  guard (is_none existing) ApiErrorCode.moderation_adjustment_conflict
  adjusted_data ← lift (resolve_adjusted_data catalog texts subject.submitted_data input.content)
  image_plan ← lift (normalize_image_plan input.image_plan subject.submitted_images image_min)
  row ← insert_adjustment (record {
    listing_id = listing_id;
    edit_revision_id = subject.edit_revision_id;
    submitted_listing_revision = subject.listing_revision;
    submitted_edit_revision_no = subject.edit_revision_no;
    submitted_data = subject.submitted_data;
    submitted_images = subject.submitted_images;
    adjusted_data = adjusted_data;
    image_plan = image_plan;
    moderator_id = moderator;
  })
  inserted ← require_some ApiErrorCode.moderation_adjustment_conflict row
  audit_of (some moderator) AuditAction.moderation_adjustment_saved listing_id
  return inserted

unfoldable pub update_save :
    Catalog
    → Texts
    → ℕ
    → ℕ
    → AdjustmentSaveInput
    → ResolvedSubject
    → ℕ
    → ℕ
    → Option Adjustment
    → Tx Adjustment
unfolding update_adjustment_working_state
update_save catalog texts moderator listing_id input subject image_min expected current = do
  existing ← require_some ApiErrorCode.moderation_adjustment_conflict current
  guard (matches_subject existing subject) ApiErrorCode.moderation_subject_changed
  guard (existing.revision == expected) ApiErrorCode.moderation_adjustment_conflict
  adjusted_data ← lift (resolve_adjusted_data catalog texts existing.adjusted_data input.content)
  image_plan ← lift (normalize_image_plan input.image_plan existing.submitted_images image_min)
  row ←
      update_adjustment_working_state existing.id existing.revision adjusted_data image_plan
        moderator
  updated ← require_some ApiErrorCode.moderation_adjustment_conflict row
  audit_of (some moderator) AuditAction.moderation_adjustment_saved listing_id
  return updated

unfoldable pub save_onto :
    Catalog
    → Texts
    → ℕ
    → ℕ
    → AdjustmentSaveInput
    → ResolvedSubject
    → ℕ
    → Option ℕ
    → Option Adjustment
    → Tx Adjustment
unfolding first_save update_save
save_onto catalog texts moderator listing_id input subject image_min none existing =
    first_save catalog texts moderator listing_id input subject image_min existing
save_onto catalog texts moderator listing_id input subject image_min (some expected) existing =
    update_save catalog texts moderator listing_id input subject image_min expected existing

unfoldable pub save_adjustment :
    Clock → Catalog → Texts → ℕ → ℕ → AdjustmentSaveInput → Tx Adjustment
unfolding lock_open_adjustment save_onto
save_adjustment clock catalog texts moderator listing_id input = do
  subject ← resolve_current_subject listing_id input.subject
  claim ← (λ db. lift (require_owned_live_claim clock listing_id moderator db) db)
  settings ← read (λ db. get_submission_settings db.settings)
  configured ← require_some ApiErrorCode.listing_configuration_error settings
  existing ← lock_open_adjustment listing_id
  save_onto catalog texts moderator listing_id input subject configured.image_min
      input.expected_adjustment_revision existing

-- Where none is open, the discarded one at the same counter is the answer of a retry.
unfoldable pub retry_discard : ℕ → ℕ → Tx Adjustment
unfolding find_discarded_adjustment
retry_discard listing_id expected = do
  terminal ← find_discarded_adjustment listing_id expected
  require_some ApiErrorCode.moderation_adjustment_conflict terminal

unfoldable pub discard_open : Clock → ℕ → ℕ → ℕ → Option Adjustment → Tx Adjustment
unfolding retry_discard discard_adjustment_row
discard_open clock moderator listing_id expected none = retry_discard listing_id expected
discard_open clock moderator listing_id expected (some existing) = do
  guard (existing.revision == expected) ApiErrorCode.moderation_adjustment_conflict
  row ← discard_adjustment_row clock existing.id existing.revision
  discarded ← require_some ApiErrorCode.moderation_adjustment_conflict row
  audit_of (some moderator) AuditAction.moderation_adjustment_discarded listing_id
  return discarded

unfoldable pub discard_adjustment : Clock → ℕ → ℕ → ℕ → Tx Adjustment
unfolding lock_listing_for_lifecycle assert_lifecycle_visible lock_open_adjustment discard_open
discard_adjustment clock moderator listing_id expected_adjustment_revision = do
  row ← lock_listing_for_lifecycle listing_id
  listing ← assert_lifecycle_visible row
  claim ← (λ db. lift (require_owned_live_claim clock listing_id moderator db) db)
  existing ← lock_open_adjustment listing_id
  discard_open clock moderator listing_id expected_adjustment_revision existing
