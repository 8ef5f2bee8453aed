-- ===== src/Lifecycle/Behaviour.antt =====
-- The result of each lifecycle operation where its guards pass, and of a repeated call.
use avtosh.Common.{
  ℕ, ◌+◌, ◌<◌, ◌≡◌, refl, ◌⊎◌, inl, inr, true, false, ◌||◌, none, some, List, arith, select, exists,
  update, is_some, ok, err, select-update, select_narrower, exists_of_select, exists-select,
  select_holds, Option-cases,
}
use avtosh.Db.{Db, Clock, after}
use avtosh.Db.Errors.{ApiErrorCode}
use avtosh.Db.Listings.{Listing, ListingStatus, EditRevision, EditStatus, is_deleted}
use avtosh.Lifecycle.Store.{
  of_id, of_owner, open_of, valid_after, deactivatable, deactivated, requestable, requested,
  clearable, cleared,
}
use avtosh.Lifecycle.Edits.{get_or_create_edit_revision, cancel_open_edit_revision}
use avtosh.Lifecycle.Visibility.{deactivate_listing, reactivate_listing, ReactivationOutcome}

-- The listing is there for its owner: not deleted.
pub record Owned (db : Db) (user i : ℕ) (l : Listing) : Type 0 where
  pub found : select (of_id i) db.listings ≡ some l
  pub owner : l.owner_id ≡ user
  pub kept : l.deleted_at ≡ none
  pub not_deleted : is_deleted l.status ≡ false

module _ (db : Db) (user i : ℕ) (l : Listing) (owned : Owned db user i l) where
  pub owner_row : select (of_owner i user) db.listings ≡ some l
  owner_row =
      select_narrower (of_id i) (of_owner i user) db.listings owned.found
        (ground (arith, owned.owner, select_holds (of_id i) db.listings owned.found))
        (λ y h. ground arith)

module _ (clock : Clock) (db : Db) (user i : ℕ) (l : Listing) (owned : Owned db user i l) where
  found : select (of_owner i user) db.listings ≡ some l
  found = owner_row db user i l owned

  -- The owner of an ACTIVE, visible listing who names its current revision hides it: the result
  -- carries the time and the next revision, and the row gets the mark, no request, that revision
  -- and no other change.
  pub deactivate_listing_hides :
      l.status ≡ ListingStatus.active
      → l.seller_deactivated_at ≡ none
      → let r = deactivate_listing clock user i l.revision db in
        (r
          ≡ ok (
            record {
              seller_deactivated_at = clock.db_now;
              revision = l.revision + 1;
              already_deactivated = false;
            },
            after db r,
          ))
        × (select (of_owner i user) (after db r).listings ≡ some (deactivated clock.db_now l))
  unfolding deactivate_listing
  deactivate_listing_hides active visible = ground (
    arith,
    found,
    owned.kept,
    owned.not_deleted,
    select_holds (of_owner i user) db.listings found,
    exists_of_select (deactivatable i l.revision) (of_owner i user) db.listings found,
    select-update (deactivatable i l.revision) (of_owner i user) (deactivated clock.db_now)
        db.listings (λ x. refl),
  )

  -- Deactivating a hidden listing again, at any revision, answers with the first time and changes
  -- nothing.
  pub deactivate_listing_again :
      (e since : ℕ)
      → l.seller_deactivated_at ≡ some since
      → deactivate_listing clock user i e db
        ≡ ok (
          record {
            seller_deactivated_at = since;
            revision = l.revision;
            already_deactivated = true;
          },
          db,
        )
  unfolding deactivate_listing
  deactivate_listing_again e since hidden = ground (arith, found, owned.kept, owned.not_deleted)

  -- "Aktiv et" on a hidden, ACTIVE, unexpired, unsold listing without an open edit, at its current
  -- revision, publishes it at once: the hidden mark and the request are gone, the revision rises
  -- by two, and status, expiry and content stay.
  pub reactivate_listing_publishes :
      (since expiry : ℕ)
      → l.status ≡ ListingStatus.active
      → l.sold_at ≡ none
      → l.seller_deactivated_at ≡ some since
      → l.current_expires_at ≡ some expiry
      → clock.js_now < expiry
      → clock.db_now < expiry
      → exists (open_of i) db.revisions ≡ false
      → let r = reactivate_listing clock user i l.revision db in
        (r
          ≡ ok (
            record {
              outcome = ReactivationOutcome.reactivated;
              reactivation_requested = false;
              revision = l.revision + 2;
            },
            after db r,
          ))
        × (select (of_owner i user) (after db r).listings
            ≡ some (cleared (requested clock.db_now l)))
  unfolding reactivate_listing
  reactivate_listing_publishes since expiry active unsold hidden valid js dbn closed = ground (
    arith,
    found,
    owned.found,
    owned.kept,
    owned.not_deleted,
    exists-select (open_of i) db.revisions,
    select_holds (of_id i) db.listings owned.found,
    exists_of_select (requestable i l.revision) (of_id i) db.listings owned.found,
    mid,
    mid_owner,
    exists_of_select (clearable clock.db_now false i) (of_id i) table mid,
    select-update (clearable clock.db_now false i) (of_id i) cleared table (λ x. refl),
    select-update (clearable clock.db_now false i) (of_owner i user) cleared table (λ x. refl),
  )
    where
      table : List Listing
      table = update (requestable i l.revision) (requested clock.db_now) db.listings

      mid : select (of_id i) table ≡ some (requested clock.db_now l)
      mid = ground (
        arith,
        owned.found,
        select_holds (of_id i) db.listings owned.found,
        select-update (requestable i l.revision) (of_id i) (requested clock.db_now) db.listings
            (λ x. refl),
      )

      mid_owner : select (of_owner i user) table ≡ some (requested clock.db_now l)
      mid_owner = ground (
        arith,
        found,
        select_holds (of_id i) db.listings owned.found,
        select-update (requestable i l.revision) (of_owner i user) (requested clock.db_now)
            db.listings (λ x. refl),
      )

  -- A listing past its time, or EXPIRED, is sent to the renewal: "Aktiv et" changes nothing.
  pub reactivate_listing_expired :
      (since : ℕ)
      → l.status ≡ ListingStatus.expired
        ⊎ (l.status ≡ ListingStatus.active)
          × (valid_after clock.js_now l.current_expires_at ≡ false)
      → l.sold_at ≡ none
      → l.seller_deactivated_at ≡ some since
      → reactivate_listing clock user i l.revision db
        ≡ ok (
          record {
            outcome = ReactivationOutcome.renewal_required;
            reactivation_requested = is_some l.seller_reactivation_requested_at;
            revision = l.revision;
          },
          db,
        )
  unfolding reactivate_listing
  reactivate_listing_expired since past unsold hidden =
      ground (arith, found, owned.kept, owned.not_deleted)

  -- With an open edit, "Aktiv et" never publishes: an EDIT_DRAFT changes nothing, and otherwise the
  -- request is recorded on the listing, which stays hidden, and the outcome tells the edit's state.
  pub reactivate_listing_routes :
      (since expiry : ℕ) (edit : EditRevision)
      → l.status ≡ ListingStatus.active
      → l.sold_at ≡ none
      → l.seller_deactivated_at ≡ some since
      → l.current_expires_at ≡ some expiry
      → clock.js_now < expiry
      → select (open_of i) db.revisions ≡ some edit
      → let r = reactivate_listing clock user i l.revision db in
        ((edit.status ≡ EditStatus.edit_draft)
          × (r
              ≡ ok (
                record {
                  outcome = ReactivationOutcome.edit_incomplete;
                  reactivation_requested = false;
                  revision = l.revision;
                },
                db,
              )))
        ⊎ ((edit.status ≡ EditStatus.pending_moderation)
            × (r
                ≡ ok (
                  record {
                    outcome = ReactivationOutcome.awaiting_moderation;
                    reactivation_requested = true;
                    revision = l.revision + 1;
                  },
                  after db r,
                ))
            × (select (of_owner i user) (after db r).listings ≡ some (requested clock.db_now l)))
        ⊎ ((edit.status ≡ EditStatus.correction_required)
            × (r
                ≡ ok (
                  record {
                    outcome = ReactivationOutcome.correction_required;
                    reactivation_requested = true;
                    revision = l.revision + 1;
                  },
                  after db r,
                ))
            × (select (of_owner i user) (after db r).listings ≡ some (requested clock.db_now l)))
  unfolding reactivate_listing
  reactivate_listing_routes since expiry edit active unsold hidden valid js current = ground (
    arith,
    found,
    owned.kept,
    owned.not_deleted,
    select_holds (open_of i) db.revisions current,
    select_holds (of_id i) db.listings owned.found,
    exists_of_select (requestable i l.revision) (of_id i) db.listings owned.found,
    select-update (requestable i l.revision) (of_owner i user) (requested clock.db_now) db.listings
        (λ x. refl),
  )

-- A missing listing, another owner's and a deleted one are answered alike by every operation of
-- the seller: LISTING_NOT_FOUND, with the database as it was.
pub foreign_not_found :
    (clock : Clock) (db : Db) (user i e : ℕ)
    → ((row : Listing)
        → select (of_owner i user) db.listings ≡ some row
        → (is_some row.deleted_at || is_deleted row.status) ≡ true)
    → (deactivate_listing clock user i e db ≡ err ApiErrorCode.listing_not_found)
      × (reactivate_listing clock user i e db ≡ err ApiErrorCode.listing_not_found)
      × (get_or_create_edit_revision user i db ≡ err ApiErrorCode.listing_not_found)
      × (cancel_open_edit_revision clock user i e db ≡ err ApiErrorCode.listing_not_found)
unfolding deactivate_listing reactivate_listing get_or_create_edit_revision
    cancel_open_edit_revision
foreign_not_found clock db user i e gone =
    elim (Option-cases (select (of_owner i user) db.listings)) [
      | inl missing ↦ rw (missing) (refl, refl, refl, refl)
      | inr (row, found) ↦ let g = gone row found in ground (arith, found, g)
    ]
