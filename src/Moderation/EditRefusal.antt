-- ===== src/Moderation/EditRefusal.antt =====
-- A rejection and a correction request of an edit publish nothing.
use avtosh.Common.{ℕ, ◌≡◌, Option, List, select, update}
use avtosh.Db.{Db, Clock}
use avtosh.Db.Listings.{Listing, EditRevision}
use avtosh.Db.Moderation.{Adjustment, Decision}
use avtosh.Submission.Catalog.{Catalog}
use avtosh.Lifecycle.Store.{request_pending, unrequested}
use avtosh.Moderation.Adjustments.{open_adjustment_of}
use avtosh.Moderation.EditDecide.{EditDecisionInput}
use avtosh.Moderation.EditDecided.{EditDecided}

-- A rejection withdraws a request to publish; a correction request keeps it.
abbrev pub refused_listings : Decision → ℕ → List Listing → List Listing
refused_listings Decision.rejected i rows = update (request_pending i) unrequested rows
refused_listings _ i rows = rows

-- All but the listings, the revisions and the adjustments.
abbrev pub ContentKept : Db → Db → Type 0
ContentKept d e =
    (e.listing_features ≡ d.listing_features)
    × (e.listing_images ≡ d.listing_images)
    × (e.edit_images ≡ d.edit_images)
    × (e.periods ≡ d.periods)
    × (e.promotions ≡ d.promotions)
    × (e.payments ≡ d.payments)

module _ (clock : Clock) (catalog : Catalog) (moderator i : ℕ) (input : EditDecisionInput) (db : Db)
    (l : Listing) (edit : EditRevision) where
  abbrev one : Option Adjustment
  one = select (open_adjustment_of l.id) db.adjustments
