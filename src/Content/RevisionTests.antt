-- ===== src/Content/RevisionTests.antt =====
-- A seller changes an edit of a hidden car, and submits it.
use avtosh.Common.{
  ◌≡◌, refl, ◌≤◌, ◌≢◌, true, some, none, Bool, [], ◌∷◌, ℕ, arith, ok, err, select, update, count,
  exists,
}
use avtosh.Db.{Db, Clock, after}
use avtosh.Db.Errors.{ApiErrorCode}
use avtosh.Db.Listings.{Listing, EditRevision, EditStatus, EditData, Image}
use avtosh.Db.Settings.{get_submission_settings}
use avtosh.Samples.{car, no_rows, shown, clock, everything, same_texts, no_change}
use avtosh.Lifecycle.Store.{of_owner, open_of}
use avtosh.Content.Selections.{SellerContentPatch, Texts}
use avtosh.Content.Adjusted.{resolve_adjusted_data}
use avtosh.Content.Checks.{assert_revision_submittable}
use avtosh.Content.Revise.{
  editable_at, revised, submitted_edit, update_edit_revision, edit_submission_of,
  submit_edit_revision, submit_editable, record_activation,
}
use avtosh.Content.Revised.{update_edit_revision_claims, submit_edit_revision_again}

abbrev hidden_car : Listing
hidden_car = record shown { seller_deactivated_at = some 20 }

abbrev draft : EditRevision
draft = record {
  id = 70;
  listing_id = 1;
  status = EditStatus.edit_draft;
  snapshot = record { content = car; feature_ids = 30 ∷ [] };
  revision = 4;
  submitted_at = none;
  decided_at = none;
}

abbrev image : Image
image = record { id = 2; owner = 70; storage_path = 102; sort_order = 0; is_primary = true }

abbrev editing : Db
editing = record no_rows {
  listings = hidden_car ∷ [];
  revisions = draft ∷ [];
  edit_images = image ∷ [];
  settings = record (no_rows.settings) { image_min = some 1 };
}

abbrev cheaper : SellerContentPatch
cheaper = record no_change { price_minor = some (some 700000) }

abbrev new_data : EditData
new_data = record { content = record car { price_minor = some 700000 }; feature_ids = 30 ∷ [] }

found_draft : select (open_of 1) editing.revisions ≡ some draft
unfolding select
found_draft = refl

found_car : select (of_owner 1 7) editing.listings ≡ some hidden_car
unfolding select
found_car = refl

one_draft : count (editable_at 70 4) editing.revisions ≤ 1
unfolding count
one_draft = omega arith

abbrev changed : Db
changed = after editing (update_edit_revision everything same_texts 7 1 4 cheaper editing)

updates :
    update_edit_revision everything same_texts 7 1 4 cheaper editing
    ≡ ok (revised new_data draft, changed)
unfolding update_edit_revision resolve_adjusted_data select
updates = refl

update_edit_revision_claims_example :
    (d : EditData) × (resolve_adjusted_data everything same_texts draft.snapshot cheaper ≡ ok d)
    × (select (open_of 1) changed.revisions ≡ some (revised d draft))
    × (changed
        ≡ record editing { revisions = update (editable_at 70 4) (revised d) editing.revisions })
    × ((texts : Texts) (user : ℕ) (patch : SellerContentPatch) (r : EditRevision) (d' : Db)
        → update_edit_revision everything texts user 1 4 patch changed ≢ ok (r, d'))
update_edit_revision_claims_example =
    update_edit_revision_claims everything same_texts 7 1 4 cheaper editing draft found_draft refl
      one_draft updates

abbrev waiting : Db
waiting = after editing (submit_edit_revision clock everything 7 1 4 true editing)

submits :
    submit_edit_revision clock everything 7 1 4 true editing
    ≡ ok (edit_submission_of true (submitted_edit 50 draft), waiting)
unfolding submit_edit_revision submit_editable record_activation assert_revision_submittable
    get_submission_settings select update count exists
submits = refl

submit_edit_revision_again_example :
    (select (open_of 1) waiting.revisions ≡ some (submitted_edit 50 draft))
    × ((later : Clock) (again : Bool)
        → (r : Bool) × (submit_edit_revision later everything 7 1 4 again waiting
            ≡ ok (edit_submission_of r (submitted_edit 50 draft), waiting)))
    × ((later : Clock) (other : ℕ) (again : Bool)
        → other ≢ 4
        → submit_edit_revision later everything 7 1 other again waiting
          ≡ err ApiErrorCode.listing_lifecycle_conflict)
submit_edit_revision_again_example =
    submit_edit_revision_again clock everything 7 1 4 true editing hidden_car draft found_car
      found_draft refl submits
