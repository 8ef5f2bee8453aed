-- ===== src/Lifecycle/Ops.antt =====
-- The entry points of src/services/listing-lifecycle.ts as one type of operations, and histories
-- of them: each runs in a transaction of its own, at its own clock.
use avtosh.Common.{ℕ, List, [], ◌∷◌}
use avtosh.Db.{Db, Clock, after}
use avtosh.Lifecycle.Edits.{get_or_create_edit_revision, cancel_open_edit_revision}
use avtosh.Lifecycle.Visibility.{
  deactivate_listing, reactivate_listing, try_finalize_seller_reactivation_by_id,
}

pub data Op : Type 0 where
  get_or_create_edit : ℕ → ℕ → Op
  cancel_edit : ℕ → ℕ → ℕ → Op
  deactivate : ℕ → ℕ → ℕ → Op
  reactivate : ℕ → ℕ → ℕ → Op
  finalize : ℕ → Op

abbrev pub run : Clock → Op → Db → Db
run clock (get_or_create_edit user_id listing_id) db =
    after db (get_or_create_edit_revision user_id listing_id db)
run clock (cancel_edit user_id listing_id expected) db =
    after db (cancel_open_edit_revision clock user_id listing_id expected db)
run clock (deactivate user_id listing_id expected) db =
    after db (deactivate_listing clock user_id listing_id expected db)
run clock (reactivate user_id listing_id expected) db =
    after db (reactivate_listing clock user_id listing_id expected db)
run clock (finalize listing_id) db =
    after db (try_finalize_seller_reactivation_by_id clock listing_id db)

abbrev pub run_all : List (Clock × Op) → Db → Db
run_all [] db = db
run_all ((clock, op) ∷ ops) db = run_all ops (run clock op db)
