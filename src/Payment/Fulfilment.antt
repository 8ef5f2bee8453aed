-- ===== src/Payment/Fulfilment.antt =====
-- The fulfilment of a payment never throws, and writes neither payments nor attempts.
use avtosh.Common.{ℕ, ◌≡◌, refl, Option, none, some, arith, ok, Result}
use avtosh.Db.{Db, Clock, after}
use avtosh.Db.Errors.{ApiErrorCode}
use avtosh.Db.Payments.{Payment, PaymentType, PromotionType}
use avtosh.Payment.Fulfil.{fulfill_listing_fee, fulfill_promotion, fulfill_renewal, fulfill_payment}

-- The transaction returns, with the payments and the attempts as they were.
pub record Settles (db : Db) (r : Result ApiErrorCode (Unit {0} × Db)) : Type 0 where
  pub returns : r ≡ ok (tt, after db r)
  pub payments : (after db r).payments ≡ db.payments
  pub attempts : (after db r).attempts ≡ db.attempts

module _ (clock : Clock) (db : Db) where
  fee-Settles : (o : Option ℕ) → Settles db (fulfill_listing_fee clock o db)
  unfolding fulfill_listing_fee
  fee-Settles none = ground arith
  fee-Settles (some i) = ground arith

  promotion-Settles :
      (payment : Payment) (type : PromotionType)
      → Settles db (fulfill_promotion clock payment type db)
  unfolding fulfill_promotion
  promotion-Settles payment type = ground arith

  renewal-Settles : (payment : Payment) → Settles db (fulfill_renewal clock payment db)
  unfolding fulfill_renewal
  renewal-Settles payment = ground arith

  fulfill_as-Settles :
      (type : PaymentType) (payment : Payment)
      → payment.type ≡ type
      → Settles db (fulfill_payment clock payment db)
  unfolding fulfill_payment
  fulfill_as-Settles PaymentType.listing_fee payment e =
      ground (arith, fee-Settles payment.listing_id)
  fulfill_as-Settles PaymentType.premium payment e =
      ground (arith, promotion-Settles payment PromotionType.premium)
  fulfill_as-Settles PaymentType.boost payment e =
      ground (arith, promotion-Settles payment PromotionType.boost)
  fulfill_as-Settles PaymentType.renewal payment e = ground (arith, renewal-Settles payment)

  pub fulfill_payment-Settles : (payment : Payment) → Settles db (fulfill_payment clock payment db)
  fulfill_payment-Settles payment = fulfill_as-Settles payment.type payment refl
