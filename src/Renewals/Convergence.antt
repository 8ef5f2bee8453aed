-- ===== src/Renewals/Convergence.antt =====
-- All requests to renew a listing come to one open payment.
use avtosh.Common.{
  ℕ, ◌≤◌, ◌≡◌, ◌∙◌, refl, Bool, true, false, Option, none, some, List, arith, select, exists, count,
  ok, err, select_holds, select-update, exists_of_select, exists-select, select_narrower, Result,
  count_empty, is_some, is_none, if◌then◌else◌, ◌&&◌,
}
use avtosh.Db.{Db, Clock, after}
use avtosh.Db.Errors.{ApiErrorCode}
use avtosh.Db.Settings.{RenewalSettings, get_renewal_settings}
use avtosh.Db.Listings.{Listing, ListingStatus, is_deleted}
use avtosh.Db.Payments.{Payment}
use avtosh.Lifecycle.Store.{of_owner, open_of, requestable, requested}
use avtosh.Renewals.Intents.{
  RenewalStateDto, open_renewal, renewal_intent, owned_kept, renewal_state, create_renewal_intent,
}

-- The row after a renewal was asked for: a hidden listing has the request of its return.
abbrev asked : ℕ → Listing → Listing
asked now l =
    if is_some l.seller_deactivated_at && is_none l.seller_reactivation_requested_at
    then requested now l
    else l

abbrev pub coalesce_row : Option Payment → Payment → Payment
coalesce_row none p = p
coalesce_row (some e) p = e

abbrev pub is_granted : Result ApiErrorCode (Payment × Db) → Bool
is_granted (ok r) = true
is_granted (err e) = false

module _ (clock : Clock) (user i : ℕ) (db : Db) where
  intent-open :
      {p : Payment} {db' : Db}
      → create_renewal_intent clock user i db ≡ ok (p, db')
      → select (open_renewal i) db'.payments ≡ some p
  unfolding create_renewal_intent select
  intent-open h = ground (arith, exists-select (open_renewal i) db.payments)

  intent-priced :
      {p : Payment} {db' : Db} {s : RenewalSettings}
      → create_renewal_intent clock user i db ≡ ok (p, db')
      → get_renewal_settings db.settings ≡ some s
      → p ≡ coalesce_row (select (open_renewal i) db.payments) (renewal_intent db.next_id user i s)
  unfolding create_renewal_intent
  intent-priced h hs = ground (arith, exists-select (open_renewal i) db.payments)

  intent-one_open :
      ((j : ℕ) → count (open_renewal j) db.payments ≤ 1)
      → (j : ℕ)
      → count (open_renewal j) (after db (create_renewal_intent clock user i db)).payments ≤ 1
  unfolding create_renewal_intent count
  intent-one_open one j = ground (
    arith,
    one j,
    count_empty (open_renewal i) db.payments,
    exists-select (open_renewal i) db.payments,
  )

  -- The row of the listing stays expired and kept, with its request recorded if it is hidden.
  intent-row :
      {p : Payment} {db' : Db} {l : Listing}
      → create_renewal_intent clock user i db ≡ ok (p, db')
      → select (of_owner i user) db.listings ≡ some l
      → (l.status ≡ ListingStatus.expired)
        × (l.deleted_at ≡ none)
        × (exists (open_of i) db.revisions ≡ false)
        × (select (of_owner i user) db'.listings ≡ some (asked clock.db_now l))
        × (db'.revisions ≡ db.revisions)
        × (db'.settings ≡ db.settings)
  unfolding create_renewal_intent
  intent-row {p} {db'} {l} h found = ground (
    arith,
    exists-select (open_of i) db.revisions,
    select_holds (of_owner i user) db.listings found,
    select-update (requestable i l.revision) (of_owner i user) (requested clock.db_now) db.listings
        (λ x. refl),
    exists_of_select (requestable i l.revision) (of_owner i user) db.listings found,
  )

-- A kept row of the owner is the one that the renewal's first look finds.
kept_row :
    (user i : ℕ) (rows : List Listing) (l : Listing)
    → select (of_owner i user) rows ≡ some l
    → is_deleted l.status ≡ false
    → select (owned_kept i user) rows ≡ some l
kept_row user i rows l found kept =
    select_narrower (of_owner i user) (owned_kept i user) rows found
      (ground (arith, kept, select_holds (of_owner i user) rows found)) (λ y q. ground arith)

-- On a listing whose request is recorded, if it needs one, an open intent is returned as it is.
reuse_intent :
    (clock : Clock) (user i : ℕ) (db : Db) (l : Listing) (p : Payment) (s : RenewalSettings)
    → get_renewal_settings db.settings ≡ some s
    → select (of_owner i user) db.listings ≡ some l
    → l.status ≡ ListingStatus.expired
    → l.deleted_at ≡ none
    → (is_some l.seller_deactivated_at ≡ true → is_some l.seller_reactivation_requested_at ≡ true)
    → exists (open_of i) db.revisions ≡ false
    → select (open_renewal i) db.payments ≡ some p
    → create_renewal_intent clock user i db ≡ ok (p, db)
unfolding create_renewal_intent
reuse_intent clock user i db l p s hs found e d asked_for closed open_now =
    ground (arith, kept_row user i db.listings l found, exists-select (open_of i) db.revisions)

-- All requests to renew come to one payment. After one that was granted, a later one by the owner,
-- on any database that still has that row of the listing, that open renewal payment and no open edit
-- of the listing, and where the fee and the term are set, is answered with the same payment, at the
-- price and the term of the first, and changes nothing: whenever it comes, whatever the fee and the
-- term are by then, and whatever else has changed.
pub create_renewal_intent_again :
    (clock later : Clock) (user i : ℕ) (db e : Db) {p : Payment} {db' : Db} {l : Listing}
    {s : RenewalSettings}
    → create_renewal_intent clock user i db ≡ ok (p, db')
    → select (of_owner i user) db.listings ≡ some l
    → select (of_owner i user) e.listings ≡ select (of_owner i user) db'.listings
    → select (open_renewal i) e.payments ≡ select (open_renewal i) db'.payments
    → exists (open_of i) e.revisions ≡ false
    → get_renewal_settings e.settings ≡ some s
    → create_renewal_intent later user i e ≡ ok (p, e)
create_renewal_intent_again clock later user i db e {p} {db'} {l} {s} h found row_kept intent_kept
      closed hs =
    let row = intent-row clock user i db h found in
    reuse_intent later user i e (asked clock.db_now l) p s hs (row_kept ∙ row.3)
      (ground (arith, row.0)) (ground (arith, row.1)) (λ hidden. ground (arith, hidden)) closed
      (intent_kept ∙ intent-open clock user i db h)

-- A renewal leaves the listing with one open renewal payment at most, if none had two before.
-- Where there was none, the new one carries the fee and the term that are set; where there was one,
-- that is what is returned. It is granted only of an EXPIRED listing without an open edit.
pub create_renewal_intent_prices :
    (clock : Clock) (user i : ℕ) (db : Db) {p : Payment} {db' : Db} {l : Listing}
    → {s : RenewalSettings} → create_renewal_intent clock user i db ≡ ok (p, db')
    → select (of_owner i user) db.listings ≡ some l
    → get_renewal_settings db.settings ≡ some s
    → ((j : ℕ) → count (open_renewal j) db.payments ≤ 1)
    → (p ≡ coalesce_row (select (open_renewal i) db.payments) (renewal_intent db.next_id user i s))
      × (l.status ≡ ListingStatus.expired)
      × (exists (open_of i) db.revisions ≡ false)
      × ((j : ℕ) → count (open_renewal j) db'.payments ≤ 1)
create_renewal_intent_prices clock user i db h found hs one =
    let row = intent-row clock user i db h found in
    (
      intent-priced clock user i db h hs,
      row.0,
      row.2,
      λ j. ground (arith, h, intent-one_open clock user i db one j),
    )

-- What the seller's page promises: where nothing but the status marks a deleted listing, the state
-- says `eligible` exactly if a renewal is granted.
pub renewal_state_eligible :
    (clock : Clock) (user i : ℕ) (db : Db) {st : RenewalStateDto} {d : Db} {l : Listing}
    → renewal_state user i db ≡ ok (st, d)
    → select (of_owner i user) db.listings ≡ some l
    → l.deleted_at ≡ none
    → is_deleted l.status ≡ false
    → st.eligible ≡ is_granted (create_renewal_intent clock user i db)
unfolding renewal_state create_renewal_intent
renewal_state_eligible clock user i db {st} {d} {l} h found kept_at kept = ground (
  arith,
  kept_row user i db.listings l found kept,
  exists-select (open_of i) db.revisions,
  exists-select (open_renewal i) db.payments,
)
