-- ===== src/Payment/Fulfil.antt =====
-- What a verified success does (src/services/payment-checkout.ts: fulfillPayment and the
-- fulfilments of the listing fee, a promotion and a renewal). Log lines are left out.
use avtosh.Common.{
  ℕ, ◌+◌, ◌*◌, max, Bool, ◌&&◌, not, Option, none, some, ◌==◌, if◌then◌else◌, update,
}
use avtosh.Db.{Clock, Tx, ◌>>=◌, ◌>>◌, return, write, insert_status_history}
use avtosh.Db.Listings.{Listing, ListingStatus, is_expired}
use avtosh.Db.Payments.{Payment, PaymentType, PromotionType, PeriodSource}
use avtosh.Db.Logs.{AuditAction, EventType, ReasonCode}
use avtosh.Lifecycle.Store.{of_id, lock_listing_for_lifecycle}
use avtosh.Lifecycle.Visibility.{try_finalize_seller_reactivation_by_id, event_of, audit_of}
use avtosh.Payment.Store.{transition_listing_payment_completed}
use avtosh.Payment.Periods.{
  ms_per_day, next_period_number, insert_listing_period, insert_promotion_period,
}

-- A history row of the SYSTEM actor.
abbrev pub system_history : ℕ → ListingStatus → ListingStatus → ReasonCode → Tx (Unit {0})
system_history listing_id from_status to_status reason_code = insert_status_history (record {
  listing_id = listing_id;
  from_status = from_status;
  to_status = to_status;
  actor_user_id = none;
  reason_code = reason_code;
})

unfoldable pub fulfill_listing_fee : Clock → Option ℕ → Tx (Unit {0})
unfolding transition_listing_payment_completed
fulfill_listing_fee clock none = return tt
fulfill_listing_fee clock (some listing_id) = do
  transitioned ← transition_listing_payment_completed clock listing_id
  if not transitioned then return tt else do
    system_history listing_id ListingStatus.payment_required ListingStatus.payment_completed
        ReasonCode.payment_confirmed
    system_history listing_id ListingStatus.payment_completed ListingStatus.pending_moderation
        ReasonCode.payment_confirmed
    event_of EventType.listing_entered_moderation listing_id

abbrev pub renewable : ℕ → Listing → Bool
renewable listing_id l = (l.id == listing_id) && is_expired l.status

abbrev pub renewed : ℕ → Listing → Listing
renewed ends_at l = record l { status = ListingStatus.active; current_expires_at = some ends_at }

-- `greatest(coalesce(current_expires_at, ends), ends)`.
abbrev pub later : Option ℕ → ℕ → ℕ
later none ends_at = ends_at
later (some t) ends_at = max t ends_at

abbrev pub prolonged : ℕ → Listing → Listing
prolonged ends_at l = record l { current_expires_at = some (later l.current_expires_at ends_at) }

abbrev update_listing : (Listing → Bool) → (Listing → Listing) → Tx (Unit {0})
update_listing p f = write (λ db. record db { listings = update p f db.listings })

extend_listing : Clock → ℕ → ℕ → Listing → Tx (Unit {0})
unfolding try_finalize_seller_reactivation_by_id
extend_listing clock listing_id ends_at listing =
    if is_expired listing.status
    then (do
      update_listing (renewable listing_id) (renewed ends_at)
      system_history listing_id ListingStatus.expired ListingStatus.active ReasonCode.renewal
      finalize ← try_finalize_seller_reactivation_by_id clock listing_id
      return tt)
    else update_listing (of_id listing_id) (prolonged ends_at)

renew_listing : Clock → ℕ → ℕ → ℕ → Option Listing → Tx (Unit {0})
unfolding next_period_number insert_listing_period extend_listing
renew_listing clock payment_id listing_id days none = return tt
renew_listing clock payment_id listing_id days (some listing) = do
  let ends_at = clock.js_now + days * ms_per_day
  number ← next_period_number listing_id
  insert_listing_period listing_id number PeriodSource.renewal clock.js_now ends_at
      (some payment_id)
  extend_listing clock listing_id ends_at listing
  event_of EventType.listing_renewed listing_id

renew_for : Clock → ℕ → Option ℕ → Option ℕ → Tx (Unit {0})
unfolding lock_listing_for_lifecycle renew_listing
renew_for clock payment_id (some listing_id) (some days) = do
  row ← lock_listing_for_lifecycle listing_id
  renew_listing clock payment_id listing_id days row
renew_for clock payment_id _ _ = return tt

unfoldable pub fulfill_renewal : Clock → Payment → Tx (Unit {0})
unfolding renew_for
fulfill_renewal clock payment =
    renew_for clock payment.id payment.listing_id payment.renewal_duration_days

promote_for : Clock → Payment → PromotionType → Option ℕ → Option ℕ → Tx (Unit {0})
unfolding insert_promotion_period
promote_for clock payment type (some listing_id) (some days) = do
  period ← insert_promotion_period clock (record {
    listing_id = listing_id;
    type = type;
    package_id = payment.promotion_package_id;
    payment_id = some payment.id;
    duration_days = days;
    price_minor = payment.amount_minor;
  })
  event_of EventType.promotion_activated listing_id
  audit_of none AuditAction.promotion_activated listing_id
promote_for clock payment type _ _ = return tt

unfoldable pub fulfill_promotion : Clock → Payment → PromotionType → Tx (Unit {0})
unfolding promote_for
fulfill_promotion clock payment type =
    promote_for clock payment type payment.listing_id payment.package_duration_days

unfoldable pub fulfill_as : PaymentType → Clock → Payment → Tx (Unit {0})
unfolding fulfill_listing_fee fulfill_promotion fulfill_renewal
fulfill_as PaymentType.listing_fee clock payment = fulfill_listing_fee clock payment.listing_id
fulfill_as PaymentType.premium clock payment = fulfill_promotion clock payment PromotionType.premium
fulfill_as PaymentType.boost clock payment = fulfill_promotion clock payment PromotionType.boost
fulfill_as PaymentType.renewal clock payment = fulfill_renewal clock payment

-- The one place where a verified success turns into a business effect.
unfoldable pub fulfill_payment : Clock → Payment → Tx (Unit {0})
unfolding fulfill_as
fulfill_payment clock payment = fulfill_as payment.type clock payment
