-- ===== src/Payment/Store.antt =====
-- The statements of src/repositories/payment-checkout.ts. The provider column is left out: there
-- is one provider.
use avtosh.Common.{
  ℕ, ◌+◌, Bool, true, false, ◌&&◌, not, Option, none, some, ◌∷◌, ◌==◌, is_none, select, exists,
  update, ok,
}
use avtosh.Db.{Clock, Tx, read, write}
use avtosh.Db.Listings.{Listing, ListingStatus, is_payment_required}
use avtosh.Db.Payments.{Payment, PaymentStatus, Attempt, ProviderStatus}
use avtosh.Lifecycle.Store.{update_listings}

abbrev pub of_payment_id : ℕ → Payment → Bool
of_payment_id payment_id p = p.id == payment_id

unfoldable pub lock_payment : ℕ → Tx (Option Payment)
lock_payment payment_id = read (λ db. select (of_payment_id payment_id) db.payments)

abbrev pub active_of : ℕ → Attempt → Bool
active_of payment_id a = (a.payment_id == payment_id) && not a.is_terminal

unfoldable pub find_active_attempt : ℕ → Tx (Option Attempt)
find_active_attempt payment_id = read (λ db. select (active_of payment_id) db.attempts)

abbrev pub new_claim : ℕ → ℕ → ℕ → Attempt
new_claim id payment_id now = record {
  id = id;
  payment_id = payment_id;
  provider_order_id = none;
  hpp_url = none;
  hpp_secret = none;
  provider_status = ProviderStatus.initiating;
  is_terminal = false;
  succeeded = false;
  created_at = now;
}

-- The partial unique index allows one active attempt of a payment: `on conflict do nothing`.
unfoldable pub claim_initiation : Clock → ℕ → Tx (Option Attempt)
claim_initiation clock payment_id db = elim (exists (active_of payment_id) db.attempts) [
  | true ↦ ok (none, db)
  | false ↦ ok (some row, record db { attempts = row ∷ db.attempts; next_id = db.next_id + 1 })
]
  where
    row : Attempt
    row = new_claim db.next_id payment_id clock.db_now

-- The order that the provider created.
pub record ProviderOrder : Type 0 where
  pub provider_order_id : ℕ
  pub hpp_url : ℕ
  pub hpp_secret : ℕ
  pub status : ProviderStatus

abbrev pub unfilled : ℕ → Attempt → Bool
unfilled attempt_id a = (a.id == attempt_id) && is_none a.provider_order_id

abbrev pub filled : ProviderOrder → Attempt → Attempt
filled order a = record a {
  provider_order_id = some order.provider_order_id;
  hpp_url = some order.hpp_url;
  hpp_secret = some order.hpp_secret;
  provider_status = order.status;
}

unfoldable pub complete_initiation : ℕ → ProviderOrder → Tx (Unit {0})
complete_initiation attempt_id order =
    write (λ db. record db { attempts = update (unfilled attempt_id) (filled order) db.attempts })

abbrev pub of_attempt_id : ℕ → Attempt → Bool
of_attempt_id attempt_id a = a.id == attempt_id

abbrev pub observed : ProviderStatus → Attempt → Attempt
observed status a = record a { provider_status = status }

unfoldable pub record_attempt_status : ℕ → ProviderStatus → Tx (Unit {0})
record_attempt_status attempt_id status =
    write (λ db. record db {
      attempts = update (of_attempt_id attempt_id) (observed status) db.attempts;
    })

-- The secret is cleared with the attempt.
abbrev pub terminalized : ProviderStatus → Bool → Attempt → Attempt
terminalized status succeeded a = record a {
  provider_status = status;
  is_terminal = true;
  succeeded = succeeded;
  hpp_secret = none;
}

unfoldable pub terminalize_attempt : ℕ → ProviderStatus → Bool → Tx (Unit {0})
terminalize_attempt attempt_id status succeeded = write (λ db. record db {
  attempts = update (of_attempt_id attempt_id) (terminalized status succeeded) db.attempts;
})

abbrev pub pending_with : ℕ → Payment → Payment
pending_with order_id p = record p {
  status = PaymentStatus.pending;
  provider_order_id = some order_id;
}

unfoldable pub mark_payment_pending : ℕ → ℕ → Tx (Unit {0})
mark_payment_pending payment_id order_id = write (λ db. record db {
  payments = update (of_payment_id payment_id) (pending_with order_id) db.payments;
})

-- `coalesce(new, old)`.
abbrev pub coalesce_option : Option ℕ → Option ℕ → Option ℕ
coalesce_option none old = old
coalesce_option (some a) old = some a

abbrev pub succeeded_with : Option ℕ → Payment → Payment
succeeded_with transaction_id p = record p {
  status = PaymentStatus.success;
  fulfilled = true;
  provider_transaction_id = coalesce_option transaction_id p.provider_transaction_id;
}

-- The constraint that no other payment has the transaction id is not checked.
unfoldable pub mark_payment_succeeded : ℕ → Option ℕ → Tx (Unit {0})
mark_payment_succeeded payment_id transaction_id = write (λ db. record db {
  payments = update (of_payment_id payment_id) (succeeded_with transaction_id) db.payments;
})

abbrev pub refunded : Payment → Payment
refunded p = record p { status = PaymentStatus.refunded }

unfoldable pub mark_payment_refunded : ℕ → Tx (Unit {0})
mark_payment_refunded payment_id =
    write (λ db. record db { payments = update (of_payment_id payment_id) refunded db.payments })

abbrev pub payable : ℕ → Listing → Bool
payable listing_id l = (l.id == listing_id) && is_payment_required l.status

abbrev pub entered : ℕ → Listing → Listing
entered now l = record l { status = ListingStatus.pending_moderation; submitted_at = some now }

unfoldable pub transition_listing_payment_completed : Clock → ℕ → Tx Bool
transition_listing_payment_completed clock listing_id =
    update_listings (payable listing_id) (entered clock.db_now)
