-- ===== src/Renewals/Tests.antt =====
-- A hidden, expired listing that its seller renews, and the theorems at it.
use avtosh.Common.{
  ℕ, ◌≤◌, ◌≡◌, refl, true, false, none, some, [], ◌∷◌, arith, select, exists, count, update, ok,
  err,
}
use avtosh.Db.{Db, after}
use avtosh.Db.Errors.{ApiErrorCode}
use avtosh.Db.Settings.{Settings, RenewalSettings, get_renewal_settings}
use avtosh.Db.Listings.{Listing, ListingStatus}
use avtosh.Samples.{shown, hidden, no_rows, clock, late}
use avtosh.Lifecycle.Store.{of_owner, open_of}
use avtosh.Renewals.Intents.{
  RenewalStateDto, open_renewal, renewal_intent, renewal_state, create_renewal_intent,
}
use avtosh.Renewals.Convergence.{is_granted, create_renewal_intent_again, renewal_state_eligible}

abbrev over : Listing
over = record hidden { status = ListingStatus.expired }

abbrev lapsed : Db
lapsed = record no_rows { listings = record shown { status = ListingStatus.sold } ∷ over ∷ [] }

abbrev offer : RenewalSettings
offer = record { fee_minor = 200; duration_days = 30 }

abbrev dearer : Settings
dearer = record lapsed.settings { renewal_fee_minor = some 500 }

abbrev asked : Db
asked = after lapsed (create_renewal_intent clock 7 2 lapsed)

asks : create_renewal_intent clock 7 2 lapsed ≡ ok (renewal_intent 100 7 2 offer, asked)
unfolding create_renewal_intent get_renewal_settings select exists update
asks = refl

-- The hidden listing's return is asked for.
records_request :
    select (of_owner 2 7) asked.listings
    ≡ some (record over { seller_reactivation_requested_at = some 50; revision = 4 })
unfolding create_renewal_intent get_renewal_settings select exists update
records_request = refl

not_expired : create_renewal_intent clock 7 1 lapsed ≡ err ApiErrorCode.payment_not_required
unfolding create_renewal_intent get_renewal_settings select
not_expired = refl

found2 : select (of_owner 2 7) lapsed.listings ≡ some over
unfolding select
found2 = refl

dearer_offer : get_renewal_settings dearer ≡ some (record offer { fee_minor = 500 })
unfolding get_renewal_settings
dearer_offer = refl

offered : get_renewal_settings lapsed.settings ≡ some offer
unfolding get_renewal_settings
offered = refl

-- Later the fee is higher, and another listing is gone.
abbrev meanwhile : Db
meanwhile = record asked {
  settings = dearer;
  listings = record over { seller_reactivation_requested_at = some 50; revision = 4 } ∷ [];
}

row_stays : select (of_owner 2 7) meanwhile.listings ≡ select (of_owner 2 7) asked.listings
unfolding create_renewal_intent get_renewal_settings select exists update
row_stays = refl

none_edited : exists (open_of 2) meanwhile.revisions ≡ false
unfolding create_renewal_intent get_renewal_settings select exists update
none_edited = refl

create_renewal_intent_again_example :
    create_renewal_intent late 7 2 meanwhile ≡ ok (renewal_intent 100 7 2 offer, meanwhile)
create_renewal_intent_again_example =
    create_renewal_intent_again clock late 7 2 lapsed meanwhile asks found2 row_stays refl
      none_edited dearer_offer

none_open : (j : ℕ) → count (open_renewal j) lapsed.payments ≤ 1
unfolding count
none_open j = omega arith

abbrev state : RenewalStateDto
state = record {
  status = ListingStatus.expired;
  eligible = true;
  current_expires_at = some 1000;
  offer = some offer;
  open_intent = none;
}

reads : renewal_state 7 2 lapsed ≡ ok (state, lapsed)
unfolding renewal_state get_renewal_settings select
reads = refl

renewal_state_eligible_example : true ≡ is_granted (create_renewal_intent clock 7 2 lapsed)
renewal_state_eligible_example = renewal_state_eligible clock 7 2 lapsed reads found2 refl refl
