-- ===== src/Lifecycle/EditBehaviour.antt =====
-- Create-or-get and cancel of the open edit revision, where their guards pass.
use avtosh.Common.{
  ℕ, suc, ◌+◌, ◌≤◌, ◌≡◌, refl, ◌≢◌, Bool, true, false, none, some, List, [], ◌∷◌, ◌++◌, arith,
  select, select_all, exists, count, update, length, ok, select_narrower, exists-select,
  select_holds, select-update, count-update-lt, count_zero-select, ◌==◌,
}
use avtosh.Db.{Db, Clock, after}
use avtosh.Db.Listings.{Listing, EditRevision, EditStatus, Image}
use avtosh.Lifecycle.Store.{
  of_id, open_of, owned_by, staged_from, cancellable, cancelled, request_pending, unrequested,
  get_listing_feature_ids, new_revision,
}
use avtosh.Lifecycle.Edits.{
  get_or_create_edit_revision, cancel_open_edit_revision, to_revision_dto, build_edit_snapshot,
  editable_lifecycle,
}
use avtosh.Lifecycle.Behaviour.{Owned, owner_row}

-- The staged copies of a gallery are exactly the images of a revision that had none.
staged_images :
    (k n : ℕ) (approved images : List Image)
    → select_all (owned_by k) images ≡ []
    → length (select_all (owned_by k) (staged_from k n approved ++ images)) ≡ length approved
unfolding select_all
staged_images k n [] images fresh = rw fresh refl
staged_images k n (x ∷ approved) images fresh =
    ground (arith, staged_images k (n + 1) approved images fresh)

abbrev of_revision : ℕ → EditRevision → Bool
of_revision k r = r.id == k

module _ (db : Db) (user i : ℕ) (l : Listing) (owned : Owned db user i l) where
  -- On a published or expired listing without an open edit a new EDIT_DRAFT is made: at revision 1,
  -- with the snapshot of the listing's content and features, and as many staged images as the
  -- approved gallery has. The listings are left alone.
  pub get_or_create_edit_revision_creates :
      (features : List ℕ)
      → editable_lifecycle l.status ≡ true
      → exists (open_of i) db.revisions ≡ false
      → get_listing_feature_ids i db ≡ ok (features, db)
      → let r = get_or_create_edit_revision user i db in
        (r
          ≡ ok (
            to_revision_dto
                (new_revision db.next_id i (build_edit_snapshot l features))
                (length (select_all (owned_by i) db.listing_images)),
            after db r,
          ))
        × ((after db r).listings ≡ db.listings)
        × (select (open_of i) (after db r).revisions
            ≡ some (new_revision db.next_id i (build_edit_snapshot l features)))
  unfolding get_or_create_edit_revision select
  get_or_create_edit_revision_creates features editable closed f = ground (
    arith,
    owner_row db user i l owned,
    owned.kept,
    owned.not_deleted,
    f,
    closed,
    exists-select (open_of i) db.revisions,
    select_holds (of_id i) db.listings owned.found,
  )

  -- While an edit is open, create-or-get returns it, with the number of its staged images, and
  -- changes nothing.
  pub get_or_create_edit_revision_gets :
      (edit : EditRevision)
      → editable_lifecycle l.status ≡ true
      → select (open_of i) db.revisions ≡ some edit
      → get_or_create_edit_revision user i db
        ≡ ok (to_revision_dto edit (length (select_all (owned_by edit.id) db.edit_images)), db)
  unfolding get_or_create_edit_revision
  get_or_create_edit_revision_gets edit editable current =
      ground (arith, owner_row db user i l owned, owned.kept, owned.not_deleted)

  -- So a second call of create-or-get answers as the first did, and changes nothing more.
  pub get_or_create_edit_revision_twice :
      (features : List ℕ)
      → editable_lifecycle l.status ≡ true
      → exists (open_of i) db.revisions ≡ false
      → get_listing_feature_ids i db ≡ ok (features, db)
      → select_all (owned_by db.next_id) db.edit_images ≡ []
      → let r = get_or_create_edit_revision user i db in
        get_or_create_edit_revision user i (after db r) ≡ r
  unfolding get_or_create_edit_revision select
  get_or_create_edit_revision_twice features editable closed f fresh = ground (
    arith,
    owner_row db user i l owned,
    owned.kept,
    owned.not_deleted,
    f,
    closed,
    exists-select (open_of i) db.revisions,
    select_holds (of_id i) db.listings owned.found,
    staged_images db.next_id (db.next_id + 1) (select_all (owned_by i) db.listing_images)
        db.edit_images fresh,
  )

  -- Cancelling the open edit at its current revision, before it is under moderation, succeeds: the
  -- listing has no open edit any more, and no reactivation request.
  pub cancel_open_edit_revision_cancels :
      (clock : Clock) (edit : EditRevision)
      → select (open_of i) db.revisions ≡ some edit
      → count (open_of i) db.revisions ≤ 1
      → edit.status ≢ EditStatus.pending_moderation
      → select (of_revision edit.id) db.revisions ≡ some edit
      → let r = cancel_open_edit_revision clock user i edit.revision db in
        (r ≡ ok ((edit.id, EditStatus.cancelled), after db r))
        × (exists (open_of i) (after db r).revisions ≡ false)
        × ((row : Listing)
            → select (of_id i) (after db r).listings ≡ some row
            → row.seller_reactivation_requested_at ≡ none)
  unfolding cancel_open_edit_revision
  cancel_open_edit_revision_cancels clock edit current single ready only = ground (
    arith,
    owner_row db user i l owned,
    owned.kept,
    owned.not_deleted,
    owned.found,
    select_holds (of_id i) db.listings owned.found,
    select_holds (open_of i) db.revisions current,
    hit,
    select_narrower (of_revision edit.id) this db.revisions only hit (λ y h. ground arith),
    exists-select (open_of i) table,
    count_zero-select (open_of i) table (omega (arith, dropped, single)),
    select-update (request_pending i) (of_id i) unrequested db.listings (λ x. refl),
  )
    where
      this : EditRevision → Bool
      this = cancellable edit.id edit.revision

      table : List EditRevision
      table = update this (cancelled clock.db_now) db.revisions

      hit : this edit ≡ true
      hit = ground (arith, select_holds (open_of i) db.revisions current)

      dropped : suc (count (open_of i) table) ≤ count (open_of i) db.revisions
      dropped =
          count-update-lt this (open_of i) (cancelled clock.db_now) db.revisions current hit
            (λ y h. ground arith)
