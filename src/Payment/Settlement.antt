-- ===== src/Payment/Settlement.antt =====
-- What a verification may do to the rows of `payments`.
use avtosh.Common.{◌≡◌, ◌⊎◌, true, false, List, update}
use avtosh.Db.{Db}
use avtosh.Db.Payments.{Payment, PaymentStatus, ProviderStatus, is_settled}
use avtosh.Payment.Store.{of_payment_id, succeeded_with, refunded}
use avtosh.Payment.Verify.{OrderDetails}

-- The price, the purpose and the snapshots of a payment never move; a settled payment stays; and a
-- payment becomes SUCCESS only on the provider's FullyPaid with its own amount and currency, and
-- REFUNDED only on Refunded.
pub record PaymentStep (details : OrderDetails) (p p' : Payment) : Type 0 where
  pub same_id : p'.id ≡ p.id
  pub same_type : p'.type ≡ p.type
  pub same_listing : p'.listing_id ≡ p.listing_id
  pub same_amount : p'.amount_minor ≡ p.amount_minor
  pub same_currency : p'.currency ≡ p.currency
  pub same_package : p'.package_duration_days ≡ p.package_duration_days
  pub same_renewal : p'.renewal_duration_days ≡ p.renewal_duration_days
  pub settled : is_settled p.status ≡ true → p' ≡ p
  pub paid :
      is_settled p.status ≡ false
      → p'.status ≡ PaymentStatus.success
      → (details.status ≡ ProviderStatus.fully_paid)
        × (details.amount_minor ≡ p.amount_minor)
        × (details.currency ≡ p.currency)
  pub refund :
      is_settled p.status ≡ false
      → p'.status ≡ PaymentStatus.refunded
      → details.status ≡ ProviderStatus.refunded

-- The payments after a verification: as they were, or with payment `p` paid or refunded.
abbrev Moved : OrderDetails → Payment → List Payment → List Payment → Type 0
Moved details p before table =
    (table ≡ before)
    ⊎ ((details.status ≡ ProviderStatus.fully_paid)
        × (details.amount_minor ≡ p.amount_minor)
        × (details.currency ≡ p.currency)
        × (table
            ≡ update (of_payment_id p.id) (succeeded_with details.provider_transaction_id) before))
    ⊎ ((details.status ≡ ProviderStatus.refunded)
        × (table ≡ update (of_payment_id p.id) refunded before))
