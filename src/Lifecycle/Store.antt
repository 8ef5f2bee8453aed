-- ===== src/Lifecycle/Store.antt =====
-- The statements of src/repositories/listing-lifecycle.ts and
-- src/repositories/listing-edit-revisions.ts that the lifecycle service issues. A lock is a read:
-- the transactions of one listing run one after another.
use avtosh.Common.{
  ℕ, ◌+◌, Bool, true, false, ◌&&◌, not, Option, none, some, List, [], ◌∷◌, ◌++◌, map, ltb, ◌==◌,
  is_some, is_none, length, select, select_all, exists, update, ok,
}
use avtosh.Db.{Clock, Tx, read, write}
use avtosh.Db.Listings.{
  Listing, EditRevision, EditStatus, EditData, Image, is_active, is_open, is_editable,
}

abbrev pub of_id : ℕ → Listing → Bool
of_id listing_id l = l.id == listing_id

-- `where l.id = … and l.owner_id = …`.
abbrev pub of_owner : ℕ → ℕ → Listing → Bool
of_owner listing_id owner_id l = (l.id == listing_id) && (l.owner_id == owner_id)

abbrev pub open_of : ℕ → EditRevision → Bool
open_of listing_id r = (r.listing_id == listing_id) && is_open r.status

unfoldable pub lock_owned_listing_for_lifecycle : ℕ → ℕ → Tx (Option Listing)
lock_owned_listing_for_lifecycle listing_id owner_id =
    read (λ db. select (of_owner listing_id owner_id) db.listings)

unfoldable pub lock_listing_for_lifecycle : ℕ → Tx (Option Listing)
lock_listing_for_lifecycle listing_id = read (λ db. select (of_id listing_id) db.listings)

-- The statement of an `update … returning id`: was a row changed, and the new table.
abbrev pub update_listings : (Listing → Bool) → (Listing → Listing) → Tx Bool
update_listings p f db = ok (exists p db.listings, record db { listings = update p f db.listings })

abbrev pub deactivatable : ℕ → ℕ → Listing → Bool
deactivatable listing_id expected_revision l =
    (l.id == listing_id)
    && (l.revision == expected_revision)
    && is_active l.status
    && is_none l.seller_deactivated_at

abbrev pub deactivated : ℕ → Listing → Listing
deactivated now l = record l {
  seller_deactivated_at = some now;
  seller_reactivation_requested_at = none;
  revision = l.revision + 1;
}

unfoldable pub mark_seller_deactivated : Clock → ℕ → ℕ → Tx Bool
mark_seller_deactivated clock listing_id expected_revision =
    update_listings (deactivatable listing_id expected_revision) (deactivated clock.db_now)

abbrev pub requestable : ℕ → ℕ → Listing → Bool
requestable listing_id expected_revision l =
    (l.id == listing_id) && (l.revision == expected_revision) && is_some l.seller_deactivated_at

-- `coalesce(seller_reactivation_requested_at, now())`.
abbrev pub coalesce : Option ℕ → ℕ → ℕ
coalesce none d = d
coalesce (some a) d = a

abbrev pub requested : ℕ → Listing → Listing
requested now l = record l {
  seller_reactivation_requested_at = some (coalesce l.seller_reactivation_requested_at now);
  revision = l.revision + 1;
}

unfoldable pub record_reactivation_request : Clock → ℕ → ℕ → Tx Bool
record_reactivation_request clock listing_id expected_revision =
    update_listings (requestable listing_id expected_revision) (requested clock.db_now)

-- `current_expires_at > now()`, which is not true of a null.
abbrev pub valid_after : ℕ → Option ℕ → Bool
valid_after now none = false
valid_after now (some t) = ltb now t

abbrev pub clearable : ℕ → Bool → ℕ → Listing → Bool
clearable now has_open listing_id l =
    (l.id == listing_id)
    && is_some l.seller_deactivated_at
    && is_some l.seller_reactivation_requested_at
    && is_active l.status
    && valid_after now l.current_expires_at
    && not has_open

abbrev pub cleared : Listing → Listing
cleared l = record l {
  seller_deactivated_at = none;
  seller_reactivation_requested_at = none;
  revision = l.revision + 1;
}

unfoldable pub clear_seller_deactivation : Clock → ℕ → Tx Bool
clear_seller_deactivation clock listing_id db =
    update_listings (clearable clock.db_now (exists (open_of listing_id) db.revisions) listing_id)
      cleared db

abbrev pub request_pending : ℕ → Listing → Bool
request_pending listing_id l = (l.id == listing_id) && is_some l.seller_reactivation_requested_at

abbrev pub unrequested : Listing → Listing
unrequested l = record l { seller_reactivation_requested_at = none; revision = l.revision + 1 }

unfoldable pub clear_reactivation_request : ℕ → Tx (Unit {0})
clear_reactivation_request listing_id =
    write
      (λ db. record db { listings = update (request_pending listing_id) unrequested db.listings })

unfoldable pub get_open_edit_revision : ℕ → Tx (Option EditRevision)
get_open_edit_revision listing_id = read (λ db. select (open_of listing_id) db.revisions)

unfoldable pub lock_open_edit_revision : ℕ → Tx (Option EditRevision)
lock_open_edit_revision listing_id = read (λ db. select (open_of listing_id) db.revisions)

abbrev pub new_revision : ℕ → ℕ → EditData → EditRevision
new_revision id listing_id snapshot = record {
  id = id;
  listing_id = listing_id;
  status = EditStatus.edit_draft;
  snapshot = snapshot;
  revision = 1;
  submitted_at = none;
  decided_at = none;
}

-- The partial unique index refuses a second open revision: `on conflict do nothing`.
unfoldable pub insert_edit_revision : ℕ → EditData → Tx (Option EditRevision)
insert_edit_revision listing_id snapshot db = elim (exists (open_of listing_id) db.revisions) [
  | true ↦ ok (none, db)
  | false ↦ ok (some row, record db { revisions = row ∷ db.revisions; next_id = db.next_id + 1 })
]
  where
    row : EditRevision
    row = new_revision db.next_id listing_id snapshot

abbrev pub cancellable : ℕ → ℕ → EditRevision → Bool
cancellable revision_id expected_revision r =
    (r.id == revision_id) && (r.revision == expected_revision) && is_editable r.status

abbrev pub cancelled : ℕ → EditRevision → EditRevision
cancelled now r = record r {
  status = EditStatus.cancelled;
  decided_at = some now;
  revision = r.revision + 1;
}

abbrev pub map_option {ℓ κ} : {A : Type ℓ} {B : Type κ} → (A → B) → Option A → Option B
map_option f none = none
map_option f (some a) = some (f a)

-- `update … returning *`: the changed row.
unfoldable pub cancel_edit_revision : Clock → ℕ → ℕ → Tx (Option EditRevision)
cancel_edit_revision clock revision_id expected_revision db = ok (
  map_option (cancelled clock.db_now)
      (select (cancellable revision_id expected_revision) db.revisions),
  record db {
    revisions =
        update (cancellable revision_id expected_revision) (cancelled clock.db_now) db.revisions;
  },
)

abbrev pub owned_by : ℕ → Image → Bool
owned_by owner i = i.owner == owner

unfoldable pub list_edit_revision_images : ℕ → Tx (List Image)
list_edit_revision_images revision_id =
    read (λ db. select_all (owned_by revision_id) db.edit_images)

abbrev pub staged : ℕ → ℕ → Image → Image
staged revision_id id i = record i { id = id; owner = revision_id }

-- Copies with generated ids.
abbrev pub staged_from : ℕ → ℕ → List Image → List Image
staged_from revision_id next [] = []
staged_from revision_id next (i ∷ images) =
    staged revision_id next i ∷ staged_from revision_id (next + 1) images

-- Row copies of the approved gallery; `rows.length` of them.
unfoldable pub snapshot_approved_images : ℕ → ℕ → Tx ℕ
snapshot_approved_images listing_id revision_id db = ok (
  length approved,
  record db {
    edit_images = staged_from revision_id db.next_id approved ++ db.edit_images;
    next_id = db.next_id + length approved;
  },
)
  where
    approved : List Image
    approved = select_all (owned_by listing_id) db.listing_images

abbrev feature_of : ℕ → ℕ × ℕ → Bool
feature_of listing_id (l, f) = l == listing_id

unfoldable pub get_listing_feature_ids : ℕ → Tx (List ℕ)
get_listing_feature_ids listing_id =
    read (λ db. map (λ p. p.1) (select_all (feature_of listing_id) db.listing_features))
