-- ===== src/Payment/Once.antt =====
-- A verified payment is fulfilled once, and a doubtful one not at all.
use avtosh.Common.{
  ℕ, ◌≡◌, ◌≢◌, refl, ◌⊎◌, true, false, Option, some, arith, ok, select, update, select-update,
  select_holds, ==_refl,
}
use avtosh.Db.{Db, Clock, after}
use avtosh.Db.Payments.{Payment, Attempt, ProviderStatus, is_settled}
use avtosh.Payment.Store.{of_payment_id, active_of, succeeded_with}
use avtosh.Payment.Fulfilment.{fulfill_payment-Settles}
use avtosh.Payment.Verify.{
  OrderDetails, VerificationOutcome, settle_verification, settle_status,
  outcome_from_payment_status,
}

-- The provider reports this order as fully paid, at the price and in the currency of the payment.
pub record PaidInFull (p : Payment) (d : OrderDetails) : Type 0 where
  pub status : d.status ≡ ProviderStatus.fully_paid
  pub amount : d.amount_minor ≡ p.amount_minor
  pub currency : d.currency ≡ p.currency

-- A settled payment answers every later verification with its state, and nothing is written.
pub settle_verification_settled :
    (clock : Clock) (db : Db) (i : ℕ) (a : Attempt) (d : OrderDetails) (public_id : Option ℕ)
    (p : Payment)
    → select (of_payment_id i) db.payments ≡ some p
    → is_settled p.status ≡ true
    → settle_verification clock i a d public_id db
      ≡ ok (outcome_from_payment_status p.status public_id, db)
unfolding settle_verification
settle_verification_settled clock db i a d public_id p found settled = ground (arith, found)

module _ (clock : Clock) (db : Db) (i : ℕ) (a : Attempt) (d : OrderDetails) (public_id : Option ℕ)
    (p : Payment) where
  paid_result :
      d.status ≡ ProviderStatus.fully_paid
      → d.amount_minor ≡ p.amount_minor
      → d.currency ≡ p.currency
      → let r = settle_status d.status clock p a d public_id db in
        (r ≡ ok (VerificationOutcome.success public_id, after db r))
        × ((after db r).payments
            ≡ update (of_payment_id p.id) (succeeded_with d.provider_transaction_id) db.payments)
  unfolding settle_status
  paid_result e m c = grind (arith, fulfill_payment-Settles clock)

  pub settle_verification_paid :
      select (of_payment_id i) db.payments ≡ some p
      → select (active_of i) db.attempts ≡ some a
      → is_settled p.status ≡ false
      → PaidInFull p d
      → let r = settle_verification clock i a d public_id db in
        (r ≡ ok (VerificationOutcome.success public_id, after db r))
        × (select (of_payment_id i) (after db r).payments
            ≡ some (succeeded_with d.provider_transaction_id p))
  unfolding settle_verification
  settle_verification_paid found current unsettled full = ground (
    arith,
    paid_result full.status full.amount full.currency,
    ==_refl a.id,
    select_holds (of_payment_id i) db.payments found,
    select-update (of_payment_id p.id) (of_payment_id i) (succeeded_with d.provider_transaction_id)
        db.payments (λ x. refl),
  )

  -- FullyPaid at another amount or in another currency is a MISMATCH: no payment, listing, period
  -- or promotion is touched, and no event is sent.
  pub settle_verification_mismatch :
      select (of_payment_id i) db.payments ≡ some p
      → select (active_of i) db.attempts ≡ some a
      → is_settled p.status ≡ false
      → d.status ≡ ProviderStatus.fully_paid
      → (d.amount_minor ≢ p.amount_minor) ⊎ (d.currency ≢ p.currency)
      → let r = settle_verification clock i a d public_id db in
        (r ≡ ok (VerificationOutcome.mismatch, after db r))
        × ((after db r).payments ≡ db.payments)
        × ((after db r).listings ≡ db.listings)
        × ((after db r).periods ≡ db.periods)
        × ((after db r).promotions ≡ db.promotions)
        × ((after db r).outbox ≡ db.outbox)
  unfolding settle_verification settle_status
  settle_verification_mismatch found current unsettled paid differs = ground (arith, ==_refl a.id)
