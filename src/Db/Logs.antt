-- ===== src/Db/Logs.antt =====
-- The append-only tables: `audit_logs`, `outbox_events` and `listing_status_history`
-- (src/repositories/seller-audit.ts, src/repositories/listing-publications.ts,
-- src/repositories/payment-checkout.ts). Of a payload the storage paths are kept.
use avtosh.Common.{ℕ, Option, List}
use avtosh.Db.Listings.{ListingStatus}

pub data AuditAction : Type 0 where
  listing_edit_revision_created listing_edit_cancelled listing_seller_deactivated : AuditAction
  listing_seller_reactivated listing_seller_reactivation_requested : AuditAction
  promotion_activated listing_suspended : AuditAction
  moderation_adjustment_saved moderation_adjustment_applied moderation_adjustment_discarded :
      AuditAction
  campaign_premium_granted listing_edit_submitted : AuditAction
  listing_edit_approved listing_edit_rejected listing_edit_correction_requested : AuditAction

-- `none` is the SYSTEM actor.
pub record Audit : Type 0 where
  pub actor_user_id : Option ℕ
  pub action : AuditAction
  pub entity_id : ℕ

pub data EventType : Type 0 where
  listing_edit_revision_created listing_edit_cancelled listing_seller_deactivated : EventType
  listing_seller_reactivated listing_entered_moderation listing_payment_required : EventType
  payment_succeeded listing_renewed promotion_activated listing_expired : EventType
  listing_activated listing_rejected listing_correction_requested : EventType
  listing_suspended moderation_adjustment_applied listing_edit_submitted : EventType
  listing_edit_approved listing_edit_rejected listing_edit_correction_requested : EventType

pub record OutboxEvent : Type 0 where
  pub event_type : EventType
  pub aggregate_id : ℕ
  pub cleanup_candidate_paths : List ℕ

pub data ReasonCode : Type 0 where
  initial_submission resubmission payment_confirmed renewal listing_expired : ReasonCode
  moderation : ReasonCode

pub record StatusHistory : Type 0 where
  pub listing_id : ℕ
  pub from_status : ListingStatus
  pub to_status : ListingStatus
  pub actor_user_id : Option ℕ
  pub reason_code : ReasonCode
