-- ===== src/Renewals/Intents.antt =====
-- renewalState and createRenewalCheckout up to the provider checkout, which `Payment` models.
use avtosh.Common.{
  ℕ, ◌+◌, Bool, true, false, ◌&&◌, ◌||◌, not, Option, none, some, ◌∷◌, ◌==◌, if◌then◌else◌, is_none,
  is_some, select, exists, ok, err,
}
use avtosh.Db.{Db, Clock, Tx, ◌>>=◌, ◌>>◌, read, return, throw}
use avtosh.Db.Errors.{ApiErrorCode}
use avtosh.Db.Settings.{RenewalSettings, get_renewal_settings}
use avtosh.Db.Listings.{Listing, ListingStatus, is_deleted, is_expired}
use avtosh.Db.Payments.{Payment, PaymentType, PaymentStatus, is_open_payment}
use avtosh.Db.Logs.{AuditAction}
use avtosh.Lifecycle.Store.{
  of_owner, get_open_edit_revision, lock_owned_listing_for_lifecycle, record_reactivation_request,
}
use avtosh.Lifecycle.Visibility.{audit_of}
use avtosh.Submission.Store.{azn}

abbrev pub owned_kept : ℕ → ℕ → Listing → Bool
owned_kept listing_id owner_id l = of_owner listing_id owner_id l && not (is_deleted l.status)

-- The names of the brand and the model, which make the title, are left out.
unfoldable pub find_owner_listing_for_renewal : ℕ → ℕ → Db → Option Listing
find_owner_listing_for_renewal listing_id owner_id db =
    select (owned_kept listing_id owner_id) db.listings

abbrev pub is_renewal : PaymentType → Bool
is_renewal PaymentType.renewal = true
is_renewal _ = false

abbrev pub is_for : ℕ → Option ℕ → Bool
is_for listing_id none = false
is_for listing_id (some i) = i == listing_id

abbrev pub open_renewal : ℕ → Payment → Bool
open_renewal listing_id p =
    is_for listing_id p.listing_id && is_renewal p.type && is_open_payment p.status

unfoldable pub lock_open_renewal_intent : ℕ → Tx (Option Payment)
lock_open_renewal_intent listing_id = read (λ db. select (open_renewal listing_id) db.payments)

unfoldable pub find_open_renewal_intent : ℕ → Db → Option Payment
find_open_renewal_intent listing_id db = select (open_renewal listing_id) db.payments

abbrev pub renewal_intent : ℕ → ℕ → ℕ → RenewalSettings → Payment
renewal_intent id user_id listing_id settings = record {
  id = id;
  user_id = user_id;
  listing_id = some listing_id;
  type = PaymentType.renewal;
  amount_minor = settings.fee_minor;
  currency = azn;
  status = PaymentStatus.created;
  fulfilled = false;
  provider_order_id = none;
  provider_transaction_id = none;
  promotion_package_id = none;
  package_duration_days = none;
  renewal_duration_days = some settings.duration_days;
}

-- The partial unique index allows one open renewal intent of a listing.
unfoldable pub insert_renewal_intent : ℕ → ℕ → RenewalSettings → Tx (Option Payment)
insert_renewal_intent user_id listing_id settings db =
    if exists (open_renewal listing_id) db.payments
    then ok (none, db)
    else ok (
      some (renewal_intent db.next_id user_id listing_id settings),
      record db {
        payments = renewal_intent db.next_id user_id listing_id settings ∷ db.payments;
        next_id = db.next_id + 1;
      },
    )

pub record RenewalStateDto : Type 0 where
  pub status : ListingStatus
  pub eligible : Bool
  pub current_expires_at : Option ℕ
  pub offer : Option RenewalSettings
  pub open_intent : Option Payment

unfoldable pub renewal_state : ℕ → ℕ → Tx RenewalStateDto
unfolding find_owner_listing_for_renewal find_open_renewal_intent get_open_edit_revision
renewal_state user_id listing_id db = elim (find_owner_listing_for_renewal listing_id user_id db) [
  | none ↦ err ApiErrorCode.listing_not_found
  | some listing ↦
      (do
        open_edit ← get_open_edit_revision listing_id
        return (record {
          status = listing.status;
          eligible =
              is_expired listing.status
              && is_some (get_renewal_settings db.settings)
              && is_none open_edit;
          current_expires_at = listing.current_expires_at;
          offer = get_renewal_settings db.settings;
          open_intent = find_open_renewal_intent listing_id db;
        }))
        db
]

-- A seller who hid the listing asks for it back by renewing it.
record_intent_to_show : Clock → ℕ → ℕ → Listing → Tx (Unit {0})
unfolding record_reactivation_request
record_intent_to_show clock user_id listing_id locked =
    if is_some locked.seller_deactivated_at && is_none locked.seller_reactivation_requested_at
    then (do
      recorded ← record_reactivation_request clock listing_id locked.revision
      if recorded
          then audit_of (some user_id) AuditAction.listing_seller_reactivation_requested listing_id
          else return tt)
    else return tt

-- An open intent is kept as it is: it is never priced again.
intent_or_new : ℕ → ℕ → RenewalSettings → Option Payment → Tx Payment
unfolding insert_renewal_intent find_open_renewal_intent
intent_or_new user_id listing_id settings (some existing) = return existing
intent_or_new user_id listing_id settings none = do
  inserted ← insert_renewal_intent user_id listing_id settings
  winner ← read (find_open_renewal_intent listing_id)
  first_of inserted winner
  where
    first_of : Option Payment → Option Payment → Tx Payment
    first_of (some p) w = return p
    first_of none (some w) = return w
    first_of none none = throw ApiErrorCode.payment_checkout_unavailable

intent_row : Clock → ℕ → ℕ → RenewalSettings → Option Payment → Option Listing → Tx Payment
unfolding get_open_edit_revision record_intent_to_show intent_or_new
intent_row clock user_id listing_id settings existing none = throw ApiErrorCode.listing_not_found
intent_row clock user_id listing_id settings existing (some locked) =
    if is_some locked.deleted_at || is_deleted locked.status
    then throw ApiErrorCode.listing_not_found
    else if not (is_expired locked.status)
    then throw ApiErrorCode.payment_not_required
    else do
      open_edit ← get_open_edit_revision listing_id
      if is_some open_edit then throw ApiErrorCode.listing_lifecycle_conflict else do
        record_intent_to_show clock user_id listing_id locked
        intent_or_new user_id listing_id settings existing

-- The transaction; `intent` is what the provider checkout then runs on.
unfoldable pub obtain_intent : Clock → ℕ → ℕ → RenewalSettings → Tx Payment
unfolding lock_open_renewal_intent lock_owned_listing_for_lifecycle intent_row
obtain_intent clock user_id listing_id settings = do
  existing ← lock_open_renewal_intent listing_id
  locked ← lock_owned_listing_for_lifecycle listing_id user_id
  intent_row clock user_id listing_id settings existing locked

unfoldable pub create_renewal_intent : Clock → ℕ → ℕ → Tx Payment
unfolding find_owner_listing_for_renewal obtain_intent
create_renewal_intent clock user_id listing_id db =
    elim (find_owner_listing_for_renewal listing_id user_id db) [
      | none ↦ err ApiErrorCode.listing_not_found
      | some listing ↦ elim (get_renewal_settings db.settings) [
        | none ↦ err ApiErrorCode.listing_payment_configuration_error
        | some settings ↦ obtain_intent clock user_id listing_id settings db
      ]
    ]
