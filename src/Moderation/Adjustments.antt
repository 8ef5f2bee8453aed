-- ===== src/Moderation/Adjustments.antt =====
-- The statements of src/repositories/moderation-adjustments.ts. The frozen `submitted_*` columns
-- are written by the insert and by nothing else.
use avtosh.Common.{
  ℕ, ◌+◌, Bool, true, false, ◌&&◌, not, Option, none, some, List, [], ◌∷◌, ◌++◌, map, ◌==◌,
  if◌then◌else◌, select, select_all, select_latest, delete, exists, update, length, Result, ok,
}
use avtosh.Db.{Db, Clock, Tx, read}
use avtosh.Db.Listings.{Image, EditData}
use avtosh.Db.Errors.{ApiErrorCode}
use avtosh.Db.Moderation.{
  Adjustment, AdjustmentStatus, SubmittedImage, ImagePlanRowEntry, is_open_adjustment,
  is_discarded_adjustment,
}
use avtosh.Lifecycle.Store.{owned_by, map_option, coalesce}

abbrev pub open_adjustment_of : ℕ → Adjustment → Bool
open_adjustment_of listing_id a = (a.listing_id == listing_id) && is_open_adjustment a.status

unfoldable pub lock_open_adjustment : ℕ → Tx (Option Adjustment)
lock_open_adjustment listing_id = read (λ db. select (open_adjustment_of listing_id) db.adjustments)

-- What the first save freezes, and what it works on.
pub record AdjustmentInput : Type 0 where
  pub listing_id : ℕ
  pub edit_revision_id : Option ℕ
  pub submitted_listing_revision : ℕ
  pub submitted_edit_revision_no : Option ℕ
  pub submitted_data : EditData
  pub submitted_images : List SubmittedImage
  pub adjusted_data : EditData
  pub image_plan : List ImagePlanRowEntry
  pub moderator_id : ℕ

abbrev pub new_adjustment : ℕ → AdjustmentInput → Adjustment
new_adjustment id input = record {
  id = id;
  listing_id = input.listing_id;
  edit_revision_id = input.edit_revision_id;
  status = AdjustmentStatus.opened;
  submitted_listing_revision = input.submitted_listing_revision;
  submitted_edit_revision_no = input.submitted_edit_revision_no;
  submitted_data = input.submitted_data;
  submitted_images = input.submitted_images;
  adjusted_data = input.adjusted_data;
  image_plan = input.image_plan;
  moderator_id = input.moderator_id;
  revision = 1;
  discarded_at = none;
  applied_at = none;
}

-- The one-OPEN partial unique index refuses a second open row: `on conflict do nothing`.
unfoldable pub insert_adjustment : AdjustmentInput → Tx (Option Adjustment)
insert_adjustment input db = elim (exists (open_adjustment_of input.listing_id) db.adjustments) [
  | true ↦ ok (none, db)
  | false ↦
      ok (some row, record db { adjustments = row ∷ db.adjustments; next_id = db.next_id + 1 })
]
  where
    row : Adjustment
    row = new_adjustment db.next_id input

-- `where id = … and revision = … and status = 'OPEN'`.
abbrev pub at_revision : ℕ → ℕ → Adjustment → Bool
at_revision adjustment_id expected_revision a =
    (a.id == adjustment_id) && (a.revision == expected_revision) && is_open_adjustment a.status

-- `update … returning *`: the first changed row, and the table.
abbrev pub update_adjustments :
    (Adjustment → Bool) → (Adjustment → Adjustment) → Tx (Option Adjustment)
update_adjustments p f db =
    ok (
      map_option f (select p db.adjustments),
      record db { adjustments = update p f db.adjustments },
    )

abbrev pub reworked : EditData → List ImagePlanRowEntry → ℕ → Adjustment → Adjustment
reworked adjusted_data image_plan moderator_id a = record a {
  adjusted_data = adjusted_data;
  image_plan = image_plan;
  moderator_id = moderator_id;
  revision = a.revision + 1;
}

unfoldable pub update_adjustment_working_state :
    ℕ → ℕ → EditData → List ImagePlanRowEntry → ℕ → Tx (Option Adjustment)
update_adjustment_working_state adjustment_id expected_revision adjusted_data image_plan
      moderator_id =
    update_adjustments (at_revision adjustment_id expected_revision)
      (reworked adjusted_data image_plan moderator_id)

abbrev pub applied_row : ℕ → Adjustment → Adjustment
applied_row now a = record a { status = AdjustmentStatus.applied; applied_at = some now }

unfoldable pub apply_adjustment_row : Clock → ℕ → ℕ → Tx (Option Adjustment)
apply_adjustment_row clock adjustment_id expected_revision =
    update_adjustments (at_revision adjustment_id expected_revision) (applied_row clock.db_now)

abbrev pub discarded_row : ℕ → Adjustment → Adjustment
discarded_row now a = record a { status = AdjustmentStatus.discarded; discarded_at = some now }

unfoldable pub discard_adjustment_row : Clock → ℕ → ℕ → Tx (Option Adjustment)
discard_adjustment_row clock adjustment_id expected_revision =
    update_adjustments (at_revision adjustment_id expected_revision) (discarded_row clock.db_now)

abbrev pub discarded_of : ℕ → ℕ → Adjustment → Bool
discarded_of listing_id expected_revision a =
    (a.listing_id == listing_id)
    && is_discarded_adjustment a.status
    && (a.revision == expected_revision)

abbrev pub discard_order : Adjustment → ℕ
discard_order a = coalesce a.discarded_at 0

unfoldable pub find_discarded_adjustment : ℕ → ℕ → Tx (Option Adjustment)
find_discarded_adjustment listing_id expected_revision =
    read
      (λ db. select_latest (discarded_of listing_id expected_revision) discard_order db.adjustments)

-- A kept source of a plan.
pub record Kept : Type 0 where
  pub source_id : ℕ
  pub is_primary : Bool

abbrev pub image_is : ℕ → Image → Bool
image_is id i = i.id == id

abbrev pub kept_is : ℕ → Kept → Bool
kept_is id k = k.source_id == id

abbrev pub path_is : ℕ → Image → Bool
path_is path i = i.storage_path == path

-- The kept sources as rows of the gallery in their new order; `none` where one is missing.
unfoldable pub kept_rows : ℕ → ℕ → ℕ → List Image → List Kept → Option (List Image)
kept_rows listing_id id index rows [] = some []
kept_rows listing_id id index rows (k ∷ ks) =
    placed (select (image_is k.source_id) rows) (kept_rows listing_id (id + 1) (index + 1) rows ks)
  where
    placed : Option Image → Option (List Image) → Option (List Image)
    placed (some source) (some rest) = some (
        (record {
          id = id;
          owner = listing_id;
          storage_path = source.storage_path;
          sort_order = index;
          is_primary = k.is_primary;
        })
        ∷ rest)
    placed _ _ = none

-- The paths of rows that are not kept, unless a kept row has the same path.
abbrev pub is_dropped : List Image → List Kept → Image → Bool
is_dropped gallery kept i =
    not (exists (kept_is i.id) kept) && not (exists (path_is i.storage_path) gallery)

abbrev pub paths_of : List Image → List ℕ
paths_of images = map (λ i. i.storage_path) images

-- The gallery of the listing becomes `gallery`: the rewrite of both materializations.
abbrev pub rewrite_gallery : ℕ → List Image → Db → Db
rewrite_gallery listing_id gallery db = record db {
  listing_images = gallery ++ delete (owned_by listing_id) db.listing_images;
  next_id = db.next_id + length gallery;
}

-- `none` where a kept source no longer exists.
unfoldable pub materialize_image_plan_for_listing : ℕ → List Kept → Tx (Option (List ℕ))
unfolding kept_rows
materialize_image_plan_for_listing listing_id kept db =
    written (kept_rows listing_id db.next_id 0 existing kept)
  where
    existing : List Image
    existing = select_all (owned_by listing_id) db.listing_images

    written : Option (List Image) → Result ApiErrorCode (Option (List ℕ) × Db)
    written none = ok (none, db)
    written (some gallery) = ok (
      some (paths_of (select_all (is_dropped gallery kept) existing)),
      rewrite_gallery listing_id gallery db,
    )

-- `[...new Set(…)]`, of which the order does not matter.
unfoldable pub distinct : List ℕ → List ℕ
distinct [] = []
distinct (x ∷ xs) = let rest = distinct xs in if exists (λ y. y == x) rest then rest else x ∷ rest

-- From the staged images of an edit revision, which stay as they are. Of the paths that leave the
-- public gallery, and of the staged ones that are dropped, those that the final gallery has not.
unfoldable pub materialize_image_plan_from_staged : ℕ → ℕ → List Kept → Tx (Option (List ℕ))
unfolding kept_rows distinct
materialize_image_plan_from_staged listing_id revision_id kept db =
    written (kept_rows listing_id db.next_id 0 staged kept)
  where
    staged : List Image
    staged = select_all (owned_by revision_id) db.edit_images

    unkept : Image → Bool
    unkept i = not (exists (kept_is i.id) kept)

    absent_from : List Image → ℕ → Bool
    absent_from gallery path = not (exists (path_is path) gallery)

    written : Option (List Image) → Result ApiErrorCode (Option (List ℕ) × Db)
    written none = ok (none, db)
    written (some gallery) = ok (
      some (
          select_all (absent_from gallery) (
            distinct (
              paths_of (select_all (owned_by listing_id) db.listing_images)
              ++ paths_of (select_all unkept staged)))),
      rewrite_gallery listing_id gallery db,
    )
