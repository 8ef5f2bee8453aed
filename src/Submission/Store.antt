-- ===== src/Submission/Store.antt =====
-- The statements of src/repositories/listing-publications.ts, and the row reads of
-- src/repositories/listings.ts and src/repositories/listing-images.ts that a submission makes.
use avtosh.Common.{
  ℕ, ◌+◌, Bool, true, false, ◌&&◌, Option, none, some, ◌∷◌, ◌==◌, select, count, update, max_of, ok,
}
use avtosh.Db.{Db, Clock, Tx, read, write}
use avtosh.Db.Moderation.{Upload}
use avtosh.Db.Listings.{Listing, ListingStatus, Image, is_draft}
use avtosh.Db.Payments.{Payment, PaymentStatus, PaymentType, Publication}
use avtosh.Lifecycle.Store.{of_owner, owned_by, update_listings}
use avtosh.Payment.Store.{of_payment_id}

unfoldable pub get_owned_listing_row_for_update : ℕ → ℕ → Tx (Option Listing)
get_owned_listing_row_for_update listing_id owner_id =
    read (λ db. select (of_owner listing_id owner_id) db.listings)

abbrev pub publication_of : ℕ → Publication → Bool
publication_of listing_id p = p.listing_id == listing_id

abbrev pub published_by : ℕ → Publication → Bool
published_by user_id p = p.user_id == user_id

unfoldable pub get_publication_by_listing : ℕ → Tx (Option Publication)
get_publication_by_listing listing_id =
    read (λ db. select (publication_of listing_id) db.publications)

unfoldable pub count_publications : ℕ → Db → ℕ
count_publications user_id db = count (published_by user_id) db.publications

unfoldable pub next_publication_number : ℕ → Db → ℕ
next_publication_number user_id db =
    max_of (published_by user_id) (λ p. p.publication_number) db.publications + 1

unfoldable pub insert_publication : Publication → Tx (Unit {0})
insert_publication p = write (λ db. record db { publications = p ∷ db.publications })

-- AZN, by its ISO 4217 number.
abbrev pub azn : ℕ
azn = 944

abbrev pub fee_intent : ℕ → ℕ → ℕ → ℕ → Payment
fee_intent id user_id listing_id amount_minor = record {
  id = id;
  user_id = user_id;
  listing_id = some listing_id;
  type = PaymentType.listing_fee;
  amount_minor = amount_minor;
  currency = azn;
  status = PaymentStatus.created;
  fulfilled = false;
  provider_order_id = none;
  provider_transaction_id = none;
  promotion_package_id = none;
  package_duration_days = none;
  renewal_duration_days = none;
}

unfoldable pub insert_listing_fee_intent : ℕ → ℕ → ℕ → Tx Payment
insert_listing_fee_intent user_id listing_id amount_minor db =
    ok (row, record db { payments = row ∷ db.payments; next_id = db.next_id + 1 })
  where
    row : Payment
    row = fee_intent db.next_id user_id listing_id amount_minor

unfoldable pub get_payment_by_id : ℕ → Db → Option Payment
get_payment_by_id payment_id db = select (of_payment_id payment_id) db.payments

unfoldable pub count_listing_images : ℕ → Db → ℕ
count_listing_images listing_id db = count (owned_by listing_id) db.listing_images

abbrev primary_of : ℕ → Image → Bool
primary_of listing_id i = (i.owner == listing_id) && i.is_primary

unfoldable pub count_primary_images : ℕ → Db → ℕ
count_primary_images listing_id db = count (primary_of listing_id) db.listing_images

abbrev pub from_draft : ℕ → ℕ → Listing → Bool
from_draft listing_id expected_revision l =
    (l.id == listing_id) && is_draft l.status && (l.revision == expected_revision)

-- `set_submitted_at` chooses between the two statements of the source.
abbrev pub submitted_as : ListingStatus → Bool → ℕ → Listing → Listing
submitted_as to_status true now l = record l { status = to_status; submitted_at = some now }
submitted_as to_status false now l = record l { status = to_status }

unfoldable pub transition_listing_from_draft : Clock → ℕ → ListingStatus → ℕ → Bool → Tx Bool
transition_listing_from_draft clock listing_id to_status expected_revision set_submitted_at =
    update_listings (from_draft listing_id expected_revision)
      (submitted_as to_status set_submitted_at clock.db_now)

abbrev pub pending_of : ℕ → Upload → Bool
pending_of listing_id u = (u.listing_id == listing_id) && u.pending

abbrev pub expired_upload : Upload → Upload
expired_upload u = record u { pending = false }

unfoldable pub expire_pending_uploads_for_listing : ℕ → Tx (Unit {0})
expire_pending_uploads_for_listing listing_id =
    write (λ db. record db { uploads = update (pending_of listing_id) expired_upload db.uploads })

-- `RESUBMITTABLE_STATUSES`.
abbrev pub is_resubmittable : ListingStatus → Bool
is_resubmittable ListingStatus.correction_required = true
is_resubmittable ListingStatus.rejected = true
is_resubmittable _ = false

abbrev pub returned : ℕ → ℕ → Listing → Bool
returned listing_id expected_revision l =
    (l.id == listing_id) && is_resubmittable l.status && (l.revision == expected_revision)

unfoldable pub resubmit_listing_row : Clock → ℕ → ℕ → Tx Bool
resubmit_listing_row clock listing_id expected_revision =
    update_listings (returned listing_id expected_revision)
      (submitted_as ListingStatus.pending_moderation true clock.db_now)
