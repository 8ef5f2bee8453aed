-- ===== src/Moderation/Reviews.antt =====
-- Reviews, and the changes of a pending listing, of src/repositories/moderation.ts.
use avtosh.Common.{
  ℕ, ◌+◌, Bool, true, false, ◌&&◌, Option, none, some, ◌∷◌, ◌==◌, is_none, select_latest, exists,
  update, ok, max_of,
}
use avtosh.Db.{Clock, Tx, read, return, throw}
use avtosh.Db.Errors.{ApiErrorCode}
use avtosh.Db.Listings.{Listing, ListingStatus, is_pending_moderation}
use avtosh.Db.Moderation.{Adjustment, Decision, Review, same_decision}
use avtosh.Lifecycle.Store.{coalesce, map_option}
use avtosh.Payment.Periods.{period_of}

pub record Activation : Type 0 where
  pub published_at : ℕ
  pub current_expires_at : ℕ
  pub period_number : ℕ

abbrev pub new_review :
    ℕ → ℕ → ℕ → ℕ → ℕ → Decision → Option ℕ → Option ℕ → Option Adjustment → Review
new_review id now listing_id moderator listing_revision decision edit_revision_id edit_revision_no
      adjustment =
    record {
      id = id;
      listing_id = listing_id;
      moderator_id = moderator;
      listing_revision = listing_revision;
      decision = decision;
      edit_revision_id = edit_revision_id;
      edit_revision_no = edit_revision_no;
      adjustment_id = map_option (λ a. a.id) adjustment;
      adjustment_revision = map_option (λ a. a.revision) adjustment;
      reviewed_at = now;
    }

unfoldable pub insert_review :
    Clock → ℕ → ℕ → ℕ → Decision → Option ℕ → Option ℕ → Option Adjustment → Tx Review
insert_review clock listing_id moderator listing_revision decision edit_revision_id edit_revision_no
      adjustment db =
    ok (row, record db { reviews = row ∷ db.reviews; next_id = db.next_id + 1 })
  where
    row : Review
    row =
        new_review db.next_id clock.db_now listing_id moderator listing_revision decision
          edit_revision_id edit_revision_no adjustment

-- An identical decision on a new listing.
abbrev pub same_review : ℕ → ℕ → ℕ → Decision → Review → Bool
same_review listing_id moderator listing_revision decision r =
    (r.listing_id == listing_id)
    && (r.moderator_id == moderator)
    && (r.listing_revision == listing_revision)
    && same_decision r.decision decision
    && is_none r.edit_revision_id

abbrev pub review_order : Review → ℕ
review_order r = r.reviewed_at

unfoldable pub find_matching_review : ℕ → ℕ → ℕ → Decision → Tx (Option Review)
find_matching_review listing_id moderator listing_revision decision = read (λ db.
    select_latest (same_review listing_id moderator listing_revision decision) review_order
      db.reviews)

abbrev pub activatable : ℕ → ℕ → Listing → Bool
activatable listing_id expected_revision l =
    (l.id == listing_id) && is_pending_moderation l.status && (l.revision == expected_revision)

abbrev pub activated_listing : ℕ → ℕ → Listing → Listing
activated_listing activated_at expires_at l = record l {
  status = ListingStatus.active;
  published_at = some (coalesce l.published_at activated_at);
  current_expires_at = some expires_at;
}

-- The statement of an `update … returning id`.
abbrev pub change_listings : (Listing → Bool) → (Listing → Listing) → Tx Bool
change_listings p f db = ok (exists p db.listings, record db { listings = update p f db.listings })

unfoldable pub activate_listing : ℕ → ℕ → ℕ → ℕ → Tx Bool
activate_listing listing_id expected_revision activated_at expires_at =
    change_listings (activatable listing_id expected_revision)
      (activated_listing activated_at expires_at)

abbrev pub with_status : ListingStatus → Listing → Listing
with_status status l = record l { status = status }

unfoldable pub transition_from_pending_moderation : ℕ → ℕ → ListingStatus → Tx Bool
transition_from_pending_moderation listing_id expected_revision to_status =
    change_listings (activatable listing_id expected_revision) (with_status to_status)

-- The answer on a row of the join; without a publication or an end there is no text of it to make,
-- and the code trips over that.
abbrev pub described : Option ℕ → Option ℕ → ℕ → Tx (Option Activation)
described (some published_at) (some current_expires_at) period_number = return (
    some (record {
      published_at = published_at;
      current_expires_at = current_expires_at;
      period_number = period_number;
    }))
described _ _ period_number = throw ApiErrorCode.internal_error

-- The period with the highest number, if the listing has one.
unfoldable pub current_activation : ℕ → Listing → Tx (Option Activation)
current_activation listing_id listing db = elim (exists (period_of listing_id) db.periods) [
  | true ↦
      described listing.published_at listing.current_expires_at
        (max_of (period_of listing_id) (λ p. p.period_number) db.periods) db
  | false ↦ ok (none, db)
]
