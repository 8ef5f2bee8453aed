-- ===== src/Payment/Verify.antt =====
-- Verification of a provider payment (src/services/payment-checkout.ts:
-- outcomeFromPaymentStatus, verifyProviderPayment, reconcileProviderPayments). The provider's
-- `getOrderDetails` is a parameter: `none` is a call that threw.
use avtosh.Common.{ℕ, true, false, ◌||◌, not, Option, none, some, [], ◌==◌, if◌then◌else◌, select}
use avtosh.Db.{Db, Clock, Tx, ◌>>=◌, ◌>>◌, return, read, insert_outbox_event}
use avtosh.Db.Listings.{Listing}
use avtosh.Db.Payments.{Payment, PaymentStatus, Attempt, ProviderStatus, is_settled}
use avtosh.Db.Logs.{EventType}
use avtosh.Lifecycle.Store.{of_id}
use avtosh.Payment.Store.{
  lock_payment, find_active_attempt, record_attempt_status, terminalize_attempt,
  mark_payment_succeeded, mark_payment_refunded,
}
use avtosh.Payment.Fulfil.{fulfill_payment}

pub record OrderDetails : Type 0 where
  pub provider_order_id : ℕ
  pub status : ProviderStatus
  pub amount_minor : ℕ
  pub currency : ℕ
  pub provider_transaction_id : Option ℕ

pub data VerificationOutcome : Type 0 where
  success : Option ℕ → VerificationOutcome
  pending retryable refunded mismatch check_failed : VerificationOutcome

unfoldable pub outcome_from_payment_status : PaymentStatus → Option ℕ → VerificationOutcome
outcome_from_payment_status PaymentStatus.success public_id = VerificationOutcome.success public_id
outcome_from_payment_status PaymentStatus.refunded public_id = VerificationOutcome.refunded
outcome_from_payment_status PaymentStatus.created public_id = VerificationOutcome.retryable
outcome_from_payment_status _ public_id = VerificationOutcome.pending

-- `payment.listing_id ?? paymentId`.
abbrev target_of : Option ℕ → ℕ → ℕ
target_of none payment_id = payment_id
target_of (some listing_id) payment_id = listing_id

unfoldable pub settle_paid :
    Clock → Payment → Attempt → OrderDetails → Option ℕ → Tx VerificationOutcome
unfolding record_attempt_status terminalize_attempt mark_payment_succeeded
settle_paid clock payment attempt details public_id =
    if not (details.amount_minor == payment.amount_minor)
      || not (details.currency == payment.currency)
    then (do record_attempt_status attempt.id details.status; return VerificationOutcome.mismatch)
    else do
      terminalize_attempt attempt.id details.status true
      mark_payment_succeeded payment.id details.provider_transaction_id
      insert_outbox_event (record {
        event_type = EventType.payment_succeeded;
        aggregate_id = target_of payment.listing_id payment.id;
        cleanup_candidate_paths = [];
      })
      fulfill_payment clock payment
      return (VerificationOutcome.success public_id)

-- By the status that the provider reports; anything not known is recorded and stays pending.
unfoldable pub settle_status :
    ProviderStatus → Clock → Payment → Attempt → OrderDetails → Option ℕ → Tx VerificationOutcome
unfolding settle_paid record_attempt_status terminalize_attempt mark_payment_refunded
settle_status ProviderStatus.fully_paid clock payment attempt details public_id =
    settle_paid clock payment attempt details public_id
settle_status ProviderStatus.refunded clock payment attempt details public_id = do
  terminalize_attempt attempt.id details.status false
  mark_payment_refunded payment.id
  return VerificationOutcome.refunded
settle_status _ clock payment attempt details public_id = do
  record_attempt_status attempt.id details.status
  return VerificationOutcome.pending

unfoldable pub settle_attempt :
    Clock → Payment → Attempt → Option Attempt → OrderDetails → Option ℕ → Tx VerificationOutcome
unfolding outcome_from_payment_status
settle_attempt clock payment attempt none details public_id =
    return (outcome_from_payment_status payment.status public_id)
settle_attempt clock payment attempt (some locked) details public_id =
    if not (locked.id == attempt.id)
    then return (outcome_from_payment_status payment.status public_id)
    else settle_status details.status clock payment locked details public_id

unfoldable pub settle_payment :
    Clock → ℕ → Option Payment → Attempt → OrderDetails → Option ℕ → Tx VerificationOutcome
unfolding settle_attempt find_active_attempt outcome_from_payment_status
settle_payment clock payment_id none attempt details public_id =
    return VerificationOutcome.check_failed
settle_payment clock payment_id (some payment) attempt details public_id =
    if is_settled payment.status
    then return (outcome_from_payment_status payment.status public_id)
    else do
      locked ← find_active_attempt payment_id
      settle_attempt clock payment attempt locked details public_id

-- The transaction that follows the provider's answer.
unfoldable pub settle_verification :
    Clock → ℕ → Attempt → OrderDetails → Option ℕ → Tx VerificationOutcome
unfolding lock_payment settle_payment
settle_verification clock payment_id attempt details public_id = do
  payment ← lock_payment payment_id
  settle_payment clock payment_id payment attempt details public_id

-- `getPaymentSummary`: the listing's public id by the left join.
public_id_of : Option Listing → Option ℕ
public_id_of none = none
public_id_of (some l) = some l.public_id

summary_public_id : Option ℕ → Db → Option ℕ
unfolding public_id_of
summary_public_id none db = none
summary_public_id (some listing_id) db = public_id_of (select (of_id listing_id) db.listings)

verify_details : Clock → ℕ → Attempt → ℕ → Option OrderDetails → Option ℕ → Tx VerificationOutcome
unfolding settle_verification
verify_details clock payment_id attempt order_id none public_id =
    return VerificationOutcome.check_failed
verify_details clock payment_id attempt order_id (some details) public_id =
    if not (details.provider_order_id == order_id)
    then return VerificationOutcome.check_failed
    else settle_verification clock payment_id attempt details public_id

verify_order :
    Clock → (ℕ → Option OrderDetails) → ℕ → Attempt → Option ℕ → Option ℕ → Tx VerificationOutcome
unfolding verify_details
verify_order clock details payment_id attempt none public_id = return VerificationOutcome.pending
verify_order clock details payment_id attempt (some order_id) public_id =
    verify_details clock payment_id attempt order_id (details order_id) public_id

verify_attempt :
    Clock → (ℕ → Option OrderDetails) → Payment → Option Attempt → Option ℕ → Tx VerificationOutcome
unfolding verify_order outcome_from_payment_status
verify_attempt clock details payment none public_id =
    return (outcome_from_payment_status payment.status public_id)
verify_attempt clock details payment (some attempt) public_id =
    verify_order clock details payment.id attempt attempt.provider_order_id public_id

verify_summary : Clock → (ℕ → Option OrderDetails) → ℕ → Option Payment → Tx VerificationOutcome
unfolding verify_attempt find_active_attempt summary_public_id
verify_summary clock details payment_id none = return VerificationOutcome.check_failed
verify_summary clock details payment_id (some payment) = do
  public_id ← read (summary_public_id payment.listing_id)
  attempt ← find_active_attempt payment_id
  verify_attempt clock details payment attempt public_id

-- The whole run, when nothing else writes between its reads and its transaction.
unfoldable pub verify_provider_payment :
    Clock → (ℕ → Option OrderDetails) → ℕ → Tx VerificationOutcome
unfolding lock_payment verify_summary
verify_provider_payment clock details payment_id = do
  summary ← lock_payment payment_id
  verify_summary clock details payment_id summary
