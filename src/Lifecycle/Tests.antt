-- ===== src/Lifecycle/Tests.antt =====
-- Two listings of one seller, and the lifecycle theorems at them.
use avtosh.Common.{
  ◌&&◌, not, is_none, ◌≡◌, refl, true, none, some, List, [], ◌∷◌, arith, err, select, exists, count,
  update, Rows,
}
use avtosh.Db.{Db, Clock}
use avtosh.Db.Errors.{ApiErrorCode}
use avtosh.Db.Listings.{EditRevision, EditStatus}
use avtosh.Samples.{shown, hidden, car, two, clock, late}
use avtosh.Lifecycle.Store.{of_id, new_revision}
use avtosh.Lifecycle.Edits.{get_or_create_edit_revision, build_edit_snapshot}
use avtosh.Lifecycle.Visibility.{deactivate_listing, reactivate_listing}
use avtosh.Lifecycle.Ops.{Op, run, run_all}
use avtosh.Lifecycle.Soundness.{RowStep, run-RowStep}
use avtosh.Lifecycle.Invariant.{Inv, run_all-Inv}
use avtosh.Lifecycle.Management.{
  derive_owner_management, input_of, passed, succeeds, derive_owner_management_agrees,
}
use avtosh.Lifecycle.Behaviour.{Owned}

abbrev open_edit : EditRevision
open_edit = record (new_revision 60 2 (record { content = car; feature_ids = [] })) {
  status = EditStatus.correction_required;
}

abbrev editing : Db
editing = record two { revisions = open_edit ∷ [] }

shown-Owned : Owned two 7 1 shown
unfolding select
shown-Owned = record { found = refl; owner = refl; kept = refl; not_deleted = refl }

hidden-Owned : Owned two 7 2 hidden
unfolding select
hidden-Owned = record { found = refl; owner = refl; kept = refl; not_deleted = refl }

editing-Owned : Owned editing 7 2 hidden
unfolding select
editing-Owned = record { found = refl; owner = refl; kept = refl; not_deleted = refl }

run-RowStep_example :
    Rows (RowStep clock []) two.listings (run clock (Op.reactivate 7 2 3) two).listings
run-RowStep_example = run-RowStep clock two (Op.reactivate 7 2 3)

-- The reactivation shows the listing again, and a stale revision is refused.
reactivate_shows :
    select (of_id 2) (run clock (Op.reactivate 7 2 3) two).listings
    ≡ some (record shown { id = 2; revision = 5 })
unfolding reactivate_listing select exists update
reactivate_shows = refl

reactivate_stale : reactivate_listing clock 7 2 2 two ≡ err ApiErrorCode.listing_revision_conflict
unfolding reactivate_listing select
reactivate_stale = refl

editing-Inv : Inv editing
unfolding count
editing-Inv = record { requests = ground arith; one_open = λ i. ground arith }

abbrev history : List (Clock × Op)
history =
    (clock, Op.reactivate 7 2 3) ∷ (clock, Op.cancel_edit 7 2 1) ∷ (late, Op.deactivate 7 1 3) ∷ []

run_all-Inv_example : Inv (run_all history editing)
run_all-Inv_example = run_all-Inv history editing editing-Inv

-- Only the positive claim of the condition columns is kept in a snapshot.
snapshot_claims :
    ((build_edit_snapshot shown []).content.no_accident ≡ none)
    × ((build_edit_snapshot shown []).content.not_repainted ≡ some true)
unfolding build_edit_snapshot
snapshot_claims = (refl, refl)

derive_owner_management_agrees_example :
    let m = derive_owner_management (input_of shown none) 51 in
    (m.can_edit ≡ succeeds (get_or_create_edit_revision 7 1 two))
    × (m.can_deactivate ≡ (
        is_none shown.seller_deactivated_at
        && not (passed 51 shown.current_expires_at)
        && succeeds (deactivate_listing clock 7 1 3 two)))
derive_owner_management_agrees_example =
    derive_owner_management_agrees clock two 7 1 shown shown-Owned none
