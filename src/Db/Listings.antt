-- ===== src/Db/Listings.antt =====
-- The rows of `listings`, `listing_edit_revisions` and the two galleries
-- (src/repositories/listing-lifecycle.ts, src/repositories/listing-edit-revisions.ts). Ids, texts
-- and storage paths stand as numbers, instants as numbers of milliseconds.
use avtosh.Common.{ℕ, Bool, true, false, Option, List}

pub data ListingStatus : Type 0 where
  draft payment_required payment_completed pending_moderation : ListingStatus
  correction_required rejected active suspended sold expired deleted : ListingStatus

-- The seller-editable columns of a listing.
pub record ListingContent : Type 0 where
  pub category_code : ℕ
  pub brand_id : Option ℕ
  pub model_id : Option ℕ
  pub model_variant_id : Option ℕ
  pub year : Option ℕ
  pub price_minor : Option ℕ
  pub mileage : Option ℕ
  pub engine_cc : Option ℕ
  pub fuel_type_id : Option ℕ
  pub transmission_id : Option ℕ
  pub body_type_id : Option ℕ
  pub drive_type_id : Option ℕ
  pub motorcycle_type_id : Option ℕ
  pub color_id : Option ℕ
  pub city_id : Option ℕ
  pub credit_available : Bool
  pub barter_available : Bool
  pub no_accident : Option Bool
  pub not_repainted : Option Bool
  pub description : Option ℕ
  pub contact_phone_e164 : Option ℕ
  pub seller_name : Option ℕ

pub record Listing : Type 0 where
  pub id : ℕ
  pub public_id : ℕ
  pub owner_id : ℕ
  pub content : ListingContent
  pub status : ListingStatus
  pub revision : ℕ
  pub current_expires_at : Option ℕ
  pub seller_deactivated_at : Option ℕ
  pub seller_reactivation_requested_at : Option ℕ
  pub submitted_at : Option ℕ
  pub published_at : Option ℕ
  pub sold_at : Option ℕ
  pub deleted_at : Option ℕ

pub data EditStatus : Type 0 where
  edit_draft pending_moderation correction_required approved rejected cancelled : EditStatus

-- `revision.data`: the snapshot of the editable fields.
pub record EditData : Type 0 where
  pub content : ListingContent
  pub feature_ids : List ℕ

pub record EditRevision : Type 0 where
  pub id : ℕ
  pub listing_id : ℕ
  pub status : EditStatus
  pub snapshot : EditData
  pub revision : ℕ
  pub submitted_at : Option ℕ
  pub decided_at : Option ℕ

-- A row of `listing_images` (owned by a listing) or `listing_edit_images` (by a revision).
pub record Image : Type 0 where
  pub id : ℕ
  pub owner : ℕ
  pub storage_path : ℕ
  pub sort_order : ℕ
  pub is_primary : Bool

-- `status = 'ACTIVE'` and the like.
abbrev pub is_active : ListingStatus → Bool
is_active ListingStatus.active = true
is_active _ = false

abbrev pub is_expired : ListingStatus → Bool
is_expired ListingStatus.expired = true
is_expired _ = false

abbrev pub is_suspended : ListingStatus → Bool
is_suspended ListingStatus.suspended = true
is_suspended _ = false

abbrev pub is_sold : ListingStatus → Bool
is_sold ListingStatus.sold = true
is_sold _ = false

abbrev pub is_deleted : ListingStatus → Bool
is_deleted ListingStatus.deleted = true
is_deleted _ = false

abbrev pub is_draft : ListingStatus → Bool
is_draft ListingStatus.draft = true
is_draft _ = false

abbrev pub is_payment_required : ListingStatus → Bool
is_payment_required ListingStatus.payment_required = true
is_payment_required _ = false

abbrev pub is_pending_moderation : ListingStatus → Bool
is_pending_moderation ListingStatus.pending_moderation = true
is_pending_moderation _ = false

-- `status in ('EDIT_DRAFT', 'PENDING_MODERATION', 'CORRECTION_REQUIRED')`.
abbrev pub is_open : EditStatus → Bool
is_open EditStatus.edit_draft = true
is_open EditStatus.pending_moderation = true
is_open EditStatus.correction_required = true
is_open _ = false

-- `status in ('EDIT_DRAFT', 'CORRECTION_REQUIRED')`.
abbrev pub is_editable : EditStatus → Bool
is_editable EditStatus.edit_draft = true
is_editable EditStatus.correction_required = true
is_editable _ = false

abbrev pub is_edit_draft : EditStatus → Bool
is_edit_draft EditStatus.edit_draft = true
is_edit_draft _ = false

abbrev pub is_edit_pending : EditStatus → Bool
is_edit_pending EditStatus.pending_moderation = true
is_edit_pending _ = false
