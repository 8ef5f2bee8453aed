-- ===== src/Payment/Purchases.antt =====
-- createPromotionCheckout up to the provider checkout (src/services/promotion-purchases.ts over
-- src/repositories/promotions.ts). The active packages are a parameter.
use avtosh.Common.{
  ℕ, ◌+◌, Bool, true, false, ◌&&◌, not, Option, none, some, ◌∷◌, ◌==◌, if◌then◌else◌, select,
  exists, update, ok,
}
use avtosh.Db.{Clock, Tx, ◌>>=◌, ◌>>◌, read, write, return, throw, require_some, guard}
use avtosh.Db.Errors.{ApiErrorCode}
use avtosh.Db.Listings.{Listing, is_active}
use avtosh.Db.Payments.{
  Payment, PaymentType, PaymentStatus, PromotionType, is_open_payment, is_created,
}
use avtosh.Lifecycle.Store.{of_owner, valid_after}
use avtosh.Renewals.Intents.{is_for}

-- A row of `promotion_packages` that is active.
pub record PromotionPackage : Type 0 where
  pub id : ℕ
  pub price_minor : ℕ
  pub currency : ℕ
  pub duration_days : ℕ

abbrev pub promotable : ℕ → Listing → Bool
promotable now l = is_active l.status && valid_after now l.current_expires_at

unfoldable pub find_promotable_listing : ℕ → ℕ → Tx (Option Listing)
find_promotable_listing listing_id owner_id =
    read (λ db. select (of_owner listing_id owner_id) db.listings)

abbrev pub is_payment_type : PromotionType → PaymentType → Bool
is_payment_type PromotionType.premium PaymentType.premium = true
is_payment_type PromotionType.boost PaymentType.boost = true
is_payment_type _ _ = false

abbrev pub payment_type : PromotionType → PaymentType
payment_type PromotionType.premium = PaymentType.premium
payment_type PromotionType.boost = PaymentType.boost

abbrev pub open_promotion : ℕ → PromotionType → Payment → Bool
open_promotion listing_id type p =
    is_for listing_id p.listing_id && is_payment_type type p.type && is_open_payment p.status

unfoldable pub lock_open_promotion_intent : ℕ → PromotionType → Tx (Option Payment)
lock_open_promotion_intent listing_id type =
    read (λ db. select (open_promotion listing_id type) db.payments)

abbrev pub cancellable_intent : ℕ → Payment → Bool
cancellable_intent payment_id p = (p.id == payment_id) && is_created p.status

abbrev pub cancelled_intent : Payment → Payment
cancelled_intent p = record p { status = PaymentStatus.cancelled }

unfoldable pub cancel_promotion_intent : ℕ → Tx (Unit {0})
cancel_promotion_intent payment_id = write (λ db. record db {
  payments = update (cancellable_intent payment_id) cancelled_intent db.payments;
})

abbrev pub promotion_intent : ℕ → ℕ → ℕ → PromotionType → PromotionPackage → Payment
promotion_intent id user_id listing_id type pkg = record {
  id = id;
  user_id = user_id;
  listing_id = some listing_id;
  type = payment_type type;
  amount_minor = pkg.price_minor;
  currency = pkg.currency;
  status = PaymentStatus.created;
  fulfilled = false;
  provider_order_id = none;
  provider_transaction_id = none;
  promotion_package_id = some pkg.id;
  package_duration_days = some pkg.duration_days;
  renewal_duration_days = none;
}

-- The partial unique index allows one open intent of a listing and a type.
unfoldable pub insert_promotion_intent :
    ℕ → ℕ → PromotionType → PromotionPackage → Tx (Option Payment)
insert_promotion_intent user_id listing_id type pkg db =
    elim (exists (open_promotion listing_id type) db.payments) [
      | true ↦ ok (none, db)
      | false ↦ ok (some row, record db { payments = row ∷ db.payments; next_id = db.next_id + 1 })
    ]
  where
    row : Payment
    row = promotion_intent db.next_id user_id listing_id type pkg

-- The new intent, or the concurrent winner.
unfoldable pub new_intent : ℕ → ℕ → PromotionType → PromotionPackage → Tx Payment
unfolding insert_promotion_intent lock_open_promotion_intent
new_intent user_id listing_id type pkg = do
  inserted ← insert_promotion_intent user_id listing_id type pkg
  winner ← lock_open_promotion_intent listing_id type
  first_of inserted winner
  where
    first_of : Option Payment → Option Payment → Tx Payment
    first_of (some p) w = return p
    first_of none (some w) = return w
    first_of none none = throw ApiErrorCode.payment_checkout_unavailable

abbrev pub is_package : ℕ → Option ℕ → Bool
is_package package_id none = false
is_package package_id (some p) = p == package_id

-- The same purchase is reused; an unstarted one of another package is replaced, one that is in
-- flight is not.
unfoldable pub reuse_or_replace :
    ℕ → ℕ → PromotionType → PromotionPackage → Option Payment → Tx Payment
unfolding cancel_promotion_intent
reuse_or_replace user_id listing_id type pkg none = new_intent user_id listing_id type pkg
reuse_or_replace user_id listing_id type pkg (some existing) =
    if is_package pkg.id existing.promotion_package_id
    then return existing
    else if not (is_created existing.status)
    then throw ApiErrorCode.promotion_payment_pending
    else (do cancel_promotion_intent existing.id; new_intent user_id listing_id type pkg)

-- `packages` looks an active package up by its id and type; the intent is what the provider
-- checkout then runs on.
unfoldable pub create_promotion_intent :
    (PromotionType → ℕ → Option PromotionPackage) → Clock → ℕ → ℕ → PromotionType → ℕ → Tx Payment
unfolding find_promotable_listing lock_open_promotion_intent reuse_or_replace
create_promotion_intent packages clock user_id listing_id type package_id = do
  row ← find_promotable_listing listing_id user_id
  listing ← require_some ApiErrorCode.listing_not_found row
  guard (promotable clock.db_now listing) ApiErrorCode.promotion_not_available
  pkg ← require_some ApiErrorCode.promotion_package_not_found (packages type package_id)
  existing ← lock_open_promotion_intent listing_id type
  reuse_or_replace user_id listing_id type pkg existing
