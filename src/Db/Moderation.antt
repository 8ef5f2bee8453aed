-- ===== src/Db/Moderation.antt =====
-- The rows of `moderation_claims` (src/repositories/moderation.ts), and of `listing_image_uploads`
-- as far as a submission writes them.
use avtosh.Common.{ℕ, Bool, true, false, Option, List}
use avtosh.Db.Listings.{EditData}

pub record ModerationClaim : Type 0 where
  pub id : ℕ
  pub listing_id : ℕ
  pub moderator_id : ℕ
  pub claimed_at : ℕ
  pub expires_at : ℕ
  pub released_at : Option ℕ

-- `pending` is `status = 'PENDING'`; otherwise the upload is EXPIRED or done.
pub record Upload : Type 0 where
  pub listing_id : ℕ
  pub pending : Bool

-- A frozen image of a submission, without its display metadata.
pub record SubmittedImage : Type 0 where
  pub source_id : ℕ
  pub storage_path : ℕ
  pub sort_order : ℕ
  pub is_primary : Bool

pub record ImagePlanRowEntry : Type 0 where
  pub source_id : ℕ
  pub removed : Bool
  pub sort_order : ℕ
  pub is_primary : Bool

pub data AdjustmentStatus : Type 0 where
  opened discarded applied : AdjustmentStatus

-- A row of `moderation_adjustments` (src/repositories/moderation-adjustments.ts).
pub record Adjustment : Type 0 where
  pub id : ℕ
  pub listing_id : ℕ
  pub edit_revision_id : Option ℕ
  pub status : AdjustmentStatus
  pub submitted_listing_revision : ℕ
  pub submitted_edit_revision_no : Option ℕ
  pub submitted_data : EditData
  pub submitted_images : List SubmittedImage
  pub adjusted_data : EditData
  pub image_plan : List ImagePlanRowEntry
  pub moderator_id : ℕ
  pub revision : ℕ
  pub discarded_at : Option ℕ
  pub applied_at : Option ℕ

pub data Decision : Type 0 where
  approved rejected correction_requested : Decision

-- A row of `moderation_reviews`; the reason and the note are texts.
pub record Review : Type 0 where
  pub id : ℕ
  pub listing_id : ℕ
  pub moderator_id : ℕ
  pub listing_revision : ℕ
  pub decision : Decision
  pub edit_revision_id : Option ℕ
  pub edit_revision_no : Option ℕ
  pub adjustment_id : Option ℕ
  pub adjustment_revision : Option ℕ
  pub reviewed_at : ℕ

abbrev pub is_open_adjustment : AdjustmentStatus → Bool
is_open_adjustment AdjustmentStatus.opened = true
is_open_adjustment _ = false

abbrev pub is_discarded_adjustment : AdjustmentStatus → Bool
is_discarded_adjustment AdjustmentStatus.discarded = true
is_discarded_adjustment _ = false

abbrev pub same_decision : Decision → Decision → Bool
same_decision Decision.approved Decision.approved = true
same_decision Decision.rejected Decision.rejected = true
same_decision Decision.correction_requested Decision.correction_requested = true
same_decision _ _ = false
