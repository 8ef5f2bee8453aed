-- ===== src/Moderation/Suspension.antt =====
-- Suspension of an ACTIVE listing (suspendListing).
use avtosh.Common.{
  ℕ, ◌==◌, ◌≡◌, refl, true, not, Option, none, some, arith, if◌then◌else◌, select, update, ok,
  select_holds, select-update,
}
use avtosh.Db.{Db, Tx, ◌>>=◌, ◌>>◌, write, return, throw, insert_audit, insert_status_history}
use avtosh.Db.Errors.{ApiErrorCode}
use avtosh.Db.Listings.{Listing, ListingStatus, is_active, is_suspended}
use avtosh.Db.Logs.{AuditAction, EventType, ReasonCode}
use avtosh.Lifecycle.Store.{of_id}
use avtosh.Lifecycle.Visibility.{event_of}
use avtosh.Moderation.Claims.{lock_listing_for_moderation}

pub record SuspensionResultDto : Type 0 where
  pub status : ListingStatus
  pub revision : ℕ

abbrev pub suspended : Listing → Listing
suspended l = record l { status = ListingStatus.suspended }

suspend_row : ℕ → ℕ → ℕ → Option Listing → Tx SuspensionResultDto
suspend_row moderator listing_id expected_revision none = throw ApiErrorCode.listing_not_found
suspend_row moderator listing_id expected_revision (some listing) =
    if is_suspended listing.status
    then return (record { status = listing.status; revision = listing.revision })
    else if not (is_active listing.status)
    then throw ApiErrorCode.moderation_invalid_state
    else if not (listing.revision == expected_revision)
    then throw ApiErrorCode.listing_revision_conflict
    else do
      write (λ db. record db { listings = update (of_id listing_id) suspended db.listings })
      insert_status_history (record {
        listing_id = listing_id;
        from_status = ListingStatus.active;
        to_status = ListingStatus.suspended;
        actor_user_id = some moderator;
        reason_code = ReasonCode.moderation;
      })
      insert_audit (record {
        actor_user_id = some moderator;
        action = AuditAction.listing_suspended;
        entity_id = listing_id;
      })
      event_of EventType.listing_suspended listing_id
      return (record { status = ListingStatus.suspended; revision = listing.revision })

-- The reason and the note go into texts and payloads.
unfoldable pub suspend_listing : ℕ → ℕ → ℕ → Tx SuspensionResultDto
unfolding lock_listing_for_moderation suspend_row
suspend_listing moderator listing_id expected_revision = do
  row ← lock_listing_for_moderation listing_id
  suspend_row moderator listing_id expected_revision row

-- A suspension that succeeds leaves the listing SUSPENDED with its content, its revision and its
-- paid time as they were. It was ACTIVE at the revision that the moderator names, or SUSPENDED
-- already. Repeated by anyone, at any expected revision, it gives the same result and changes
-- nothing; and no promotion, period or payment is touched.
pub suspend_listing_suspends :
    (moderator i e : ℕ) (db : Db) {r : SuspensionResultDto} {db' : Db} {l : Listing}
    → suspend_listing moderator i e db ≡ ok (r, db')
    → select (of_id i) db.listings ≡ some l
    → (select (of_id i) db'.listings ≡ some (suspended l))
      × ((is_active l.status ≡ true → l.revision ≡ e))
      × ((other e' : ℕ) → suspend_listing other i e' db' ≡ ok (r, db'))
      × (db'.promotions ≡ db.promotions)
      × (db'.periods ≡ db.periods)
      × (db'.payments ≡ db.payments)
unfolding suspend_listing
suspend_listing_suspends moderator i e db {r} {db'} {l} h found = grind (
  arith,
  select_holds (of_id i) db.listings found,
  select-update (of_id i) (of_id i) suspended db.listings (λ x. refl),
)
