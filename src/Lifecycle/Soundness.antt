-- ===== src/Lifecycle/Soundness.antt =====
-- What any lifecycle operation may do to the rows of `listings`.
use avtosh.Common.{
  ℕ, ◌<◌, ◌≡◌, ◌⊎◌, true, false, List, arith, exists, update, is_some, is_none, Rows, Rows-refl,
  Rows-update, Rows-trans,
}
use avtosh.Db.{Db, Clock, after}
use avtosh.Db.Listings.{Listing, ListingStatus, EditRevision}
use avtosh.Lifecycle.Store.{
  open_of, valid_after, deactivatable, deactivated, requestable, requested, clearable, cleared,
  request_pending, unrequested,
}
use avtosh.Lifecycle.Edits.{get_or_create_edit_revision, cancel_open_edit_revision}
use avtosh.Lifecycle.Visibility.{
  deactivate_listing, reactivate_listing, try_finalize_seller_reactivation_by_id,
}
use avtosh.Lifecycle.Ops.{Op, run}

-- A listing comes back to the public only while it is ACTIVE and time-valid, with no open edit.
pub record MayReappear (clock : Clock) (revisions : List EditRevision) (l : Listing) : Type 0 where
  pub active : l.status ≡ ListingStatus.active
  pub valid : valid_after clock.db_now l.current_expires_at ≡ true
  pub closed : exists (open_of l.id) revisions ≡ false

pub record RowStep (clock : Clock) (revisions : List EditRevision) (l l' : Listing) : Type 0 where
  pub same_id : l'.id ≡ l.id
  pub same_owner : l'.owner_id ≡ l.owner_id
  pub same_content : l'.content ≡ l.content
  pub same_status : l'.status ≡ l.status
  pub same_expiry : l'.current_expires_at ≡ l.current_expires_at
  pub same_deletion : l'.deleted_at ≡ l.deleted_at
  pub bumped : (l' ≡ l) ⊎ (l.revision < l'.revision)
  pub gate :
      is_some l.seller_deactivated_at ≡ true
      → is_none l'.seller_deactivated_at ≡ true
      → MayReappear clock revisions l

module _ (clock : Clock) (revisions : List EditRevision) where
  RowStep-refl : (l : Listing) → RowStep clock revisions l l
  RowStep-refl l = ground arith

  RowStep-trans :
      (l m n : Listing)
      → RowStep clock revisions l m
      → RowStep clock revisions m n
      → RowStep clock revisions l n
  RowStep-trans l m n h k = ground arith

  Kept : Db → List Listing → Type 0
  Kept db l = Rows (RowStep clock revisions) db.listings l

  unchanged : (l : List Listing) → Rows (RowStep clock revisions) l l
  unchanged l = Rows-refl (RowStep clock revisions) RowStep-refl l

  after_deactivation :
      (i e now : ℕ) (l : List Listing)
      → Rows (RowStep clock revisions) l (update (deactivatable i e) (deactivated now) l)
  after_deactivation i e now l =
      Rows-update (RowStep clock revisions) RowStep-refl _ _ l (λ x h. ground arith)

  after_request :
      (i e now : ℕ) (l : List Listing)
      → Rows (RowStep clock revisions) l (update (requestable i e) (requested now) l)
  after_request i e now l =
      Rows-update (RowStep clock revisions) RowStep-refl _ _ l (λ x h. ground arith)

  after_unrequest :
      (i : ℕ) (l : List Listing)
      → Rows (RowStep clock revisions) l (update (request_pending i) unrequested l)
  after_unrequest i l =
      Rows-update (RowStep clock revisions) RowStep-refl _ _ l (λ x h. ground arith)

  after_clear :
      (i : ℕ) (l : List Listing)
      → Rows
          (RowStep clock revisions)
          l
          (update (clearable clock.db_now (exists (open_of i) revisions) i) cleared l)
  after_clear i l = Rows-update (RowStep clock revisions) RowStep-refl _ _ l (λ x h. ground (arith))

  after_request_clear :
      (i e now j : ℕ) (l : List Listing)
      → Rows (RowStep clock revisions) l (
          update
            (clearable clock.db_now (exists (open_of j) revisions) j)
            cleared
            (update (requestable i e) (requested now) l))
  after_request_clear i e now j l =
      Rows-trans (RowStep clock revisions) RowStep-trans _ _ _ (after_request i e now l)
        (after_clear j _)

module _ (clock : Clock) (db : Db) where
  deactivate-Rows :
      (user i e : ℕ)
      → Rows
          (RowStep clock db.revisions)
          db.listings
          (after db (deactivate_listing clock user i e db)).listings
  unfolding deactivate_listing
  deactivate-Rows user i e = ground (
    arith,
    unchanged clock db.revisions db.listings,
    after_deactivation clock db.revisions i e clock.db_now db.listings,
  )

  finalize-Rows :
      (i : ℕ)
      → Rows
          (RowStep clock db.revisions)
          db.listings
          (after db (try_finalize_seller_reactivation_by_id clock i db)).listings
  unfolding try_finalize_seller_reactivation_by_id
  finalize-Rows i = grind (
    arith,
    unchanged clock db.revisions db.listings,
    λ (j : ℕ). after_clear clock db.revisions j db.listings,
  )

  reactivate-Rows :
      (user i e : ℕ)
      → Rows
          (RowStep clock db.revisions)
          db.listings
          (after db (reactivate_listing clock user i e db)).listings
  unfolding reactivate_listing
  reactivate-Rows user i e = grind (
    arith,
    unchanged clock db.revisions db.listings,
    λ (k : ℕ). after_request clock db.revisions i k clock.db_now db.listings,
    λ (k j : ℕ). after_request_clear clock db.revisions i k clock.db_now j db.listings,
  )

  edit-Rows :
      (user i : ℕ)
      → Rows
          (RowStep clock db.revisions)
          db.listings
          (after db (get_or_create_edit_revision user i db)).listings
  unfolding get_or_create_edit_revision
  edit-Rows user i = ground (arith, unchanged clock db.revisions db.listings)

  cancel-Rows :
      (user i e : ℕ)
      → Rows
          (RowStep clock db.revisions)
          db.listings
          (after db (cancel_open_edit_revision clock user i e db)).listings
  unfolding cancel_open_edit_revision
  cancel-Rows user i e = ground (
    arith,
    unchanged clock db.revisions db.listings,
    after_unrequest clock db.revisions i db.listings,
  )

  -- Every lifecycle operation keeps, in each row of `listings`, the id, the owner, the content, the
  -- status, the expiry and the deletion mark; it changes a row only with a rise of its revision
  -- counter; and it clears `seller_deactivated_at` only of a listing that is ACTIVE, not yet
  -- expired, and without an open edit revision.
  pub run-RowStep :
      (op : Op) → Rows (RowStep clock db.revisions) db.listings (run clock op db).listings
  run-RowStep (Op.get_or_create_edit user i) = edit-Rows user i
  run-RowStep (Op.cancel_edit user i e) = cancel-Rows user i e
  run-RowStep (Op.deactivate user i e) = deactivate-Rows user i e
  run-RowStep (Op.reactivate user i e) = reactivate-Rows user i e
  run-RowStep (Op.finalize i) = finalize-Rows i
