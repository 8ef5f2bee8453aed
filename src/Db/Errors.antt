-- ===== src/Db/Errors.antt =====
-- src/lib/api/errors.ts: the machine-readable codes of an `ApiError`. Messages and details are
-- text for the response body and are left out.
pub data ApiErrorCode : Type 0 where
  validation_error internal_error catalog_invalid_category service_read_only : ApiErrorCode
  catalog_invalid_brand catalog_invalid_model catalog_invalid_group : ApiErrorCode
  auth_required auth_invalid_phone otp_invalid otp_expired otp_locked : ApiErrorCode
  otp_resend_too_soon otp_rate_limited forbidden_origin user_blocked : ApiErrorCode
  listing_not_found listing_not_editable listing_revision_conflict : ApiErrorCode
  listing_invalid_catalog_selection listing_image_limit_reached : ApiErrorCode
  image_upload_rate_limited image_upload_not_found image_upload_expired : ApiErrorCode
  image_invalid_format image_too_large image_processing_failed : ApiErrorCode
  listing_incomplete listing_insufficient_images : ApiErrorCode
  listing_payment_configuration_error listing_configuration_error : ApiErrorCode
  staff_role_required moderation_invalid_state moderation_claim_required : ApiErrorCode
  moderation_claimed_by_other moderation_adjustment_conflict : ApiErrorCode
  moderation_subject_changed moderation_adjustment_pending : ApiErrorCode
  listing_contact_unavailable contact_rate_limited payment_not_required : ApiErrorCode
  payment_checkout_unavailable promotion_not_available promotion_package_not_found : ApiErrorCode
  promotion_payment_pending report_rate_limited listing_lifecycle_conflict : ApiErrorCode
  guest_rate_limited guest_draft_limit : ApiErrorCode
