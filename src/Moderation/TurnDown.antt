-- ===== src/Moderation/TurnDown.antt =====
-- A rejection and a correction request apply nothing.
use avtosh.Common.{
  ℕ, ◌≤◌, ◌≡◌, refl, sym, ap, ◌∙◌, inl, inr, true, false, Option, none, some, List, arith, select,
  exists, update, ok, Option-cases, count, select-update, select_holds, exists-select,
  count-update-lt, count_zero-select, touch_option,
}
use avtosh.Db.{Db, Clock}
use avtosh.Db.Listings.{Listing, ListingStatus, is_pending_moderation}
use avtosh.Db.Moderation.{Adjustment, Decision}
use avtosh.Submission.Catalog.{Catalog}
use avtosh.Lifecycle.Store.{of_id}
use avtosh.Moderation.Adjustments.{open_adjustment_of, at_revision, discarded_row}
use avtosh.Moderation.Reviews.{Activation, activatable, with_status}
use avtosh.Moderation.Decide.{
  DecisionInput, DecisionResultDto, decide, carry_out, status_after, is_approved, turn_down,
}
use avtosh.Moderation.Decided.{Decided, decided, reviewed}

-- The adjustments after a decision that turns down: an open one of the pass is discarded.
abbrev pub discarded_in : ℕ → Option Adjustment → List Adjustment → List Adjustment
discarded_in now none rows = rows
discarded_in now (some a) rows = update (at_revision a.id a.revision) (discarded_row now) rows

module _ (clock : Clock) (moderator i : ℕ) (l : Listing) (s : ListingStatus) (d : Db)
    {act : Option Activation} {d' : Db} where
  pub turned_down :
      (a : Option Adjustment)
      → turn_down clock moderator i l s a d ≡ ok (act, d')
      → (act ≡ none)
        × (d'.listings ≡ update (activatable i l.revision) (with_status s) d.listings)
        × (d'.adjustments ≡ discarded_in clock.db_now a d.adjustments)
        × (d'.reviews ≡ d.reviews)
        × (d'.claims ≡ d.claims)
        × (d'.listing_features ≡ d.listing_features)
        × (d'.listing_images ≡ d.listing_images)
        × (d'.periods ≡ d.periods)
        × (d'.promotions ≡ d.promotions)
        × (d'.payments ≡ d.payments)
  unfolding turn_down
  turned_down none h = ground (arith, h)
  turned_down (some a) h =
      elim (Option-cases (select (at_revision a.id a.revision) d.adjustments)) [
        | inl e ↦ absurd (ground (arith, h, e))
        | inr (x, e) ↦ ground (arith, h, e)
      ]

pub carried_down :
    (clock : Clock) (catalog : Catalog) (moderator i : ℕ) (l : Listing) (a : Option Adjustment)
    (v : Decision) (d : Db)
    → is_approved v ≡ false
    → carry_out clock catalog moderator i l a v d
      ≡ turn_down clock moderator i l (status_after v) a d
unfolding carry_out
carried_down clock catalog moderator i l a Decision.approved d h = absurd (ground arith)
carried_down clock catalog moderator i l a Decision.rejected d h = refl
carried_down clock catalog moderator i l a Decision.correction_requested d h = refl

pub none_open :
    (now i : ℕ) (rows : List Adjustment)
    → count (open_adjustment_of i) rows ≤ 1
    → exists (open_adjustment_of i) (discarded_in now (select (open_adjustment_of i) rows) rows)
      ≡ false
none_open now i rows one = elim (Option-cases (select (open_adjustment_of i) rows)) [
  | inl e ↦ rw e (ground (arith, e, exists-select (open_adjustment_of i) rows))
  | inr (a, e) ↦
      let table = update (at_revision a.id a.revision) (discarded_row now) rows in
      let fewer =
        count-update-lt (at_revision a.id a.revision) (open_adjustment_of i) (discarded_row now)
          rows e (ground (arith, select_holds (open_adjustment_of i) rows e))
          (λ y h. ground arith) in
      rw e (
        ground (
          arith,
          exists-select (open_adjustment_of i) table,
          count_zero-select (open_adjustment_of i) table (omega (arith, one, fewer)),
        ))
]

module _ (clock : Clock) (catalog : Catalog) (moderator i : ℕ) (input : DecisionInput) (db : Db)
    (l : Listing) where
  -- A rejection, or a correction request, that goes through on a pending listing changes nothing of
  -- it but its status, and leaves its features, images, periods, promotions and payments alone. The
  -- adjustment of the pass, if there is one, is applied nowhere and is open no more, where at most
  -- one was open.
  pub decide_turns_down :
      {r : DecisionResultDto} {db' : Db}
      → select (of_id i) db.listings ≡ some l
      → is_pending_moderation l.status ≡ true
      → is_approved input.decision ≡ false
      → count (open_adjustment_of i) db.adjustments ≤ 1
      → decide clock catalog moderator i input db ≡ ok (r, db')
      → (select (of_id i) db'.listings ≡ some (with_status (status_after input.decision) l))
        × (exists (open_adjustment_of i) db'.adjustments ≡ false)
        × (db'.listing_features ≡ db.listing_features)
        × (db'.listing_images ≡ db.listing_images)
        × (db'.periods ≡ db.periods)
        × (db'.promotions ≡ db.promotions)
        × (db'.payments ≡ db.payments)
  decide_turns_down {r} {db'} found pending down one h =
      let e =
        turned_down clock moderator i l (status_after input.decision)
          (reviewed clock catalog moderator i input db l a) a
          (sym (
              carried_down clock catalog moderator i l a input.decision
                (reviewed clock catalog moderator i input db l a) down)
            ∙ q.carried) in
      (
        ap (λ t. select (of_id i) t.listings) q.end
            ∙ ap (select (of_id i)) e.1
            ∙ select-update (activatable i l.revision) (of_id i)
                (with_status (status_after input.decision)) db.listings (λ x. refl)
            ∙ row,
        ap (λ t. exists (open_adjustment_of i) t.adjustments) q.end
            ∙ ap (exists (open_adjustment_of i)) e.2
            ∙ none_open clock.db_now i db.adjustments one,
        ap (λ t. t.listing_features) q.end ∙ e.5,
        ap (λ t. t.listing_images) q.end ∙ e.6,
        ap (λ t. t.periods) q.end ∙ e.7,
        ap (λ t. t.promotions) q.end ∙ e.8,
        ap (λ t. t.payments) q.end ∙ e.9,
      )
    where
      a : Option Adjustment
      a = select (open_adjustment_of i) db.adjustments

      q : Decided clock catalog moderator i input db l r db'
      q = decided clock catalog moderator i input db l found pending h

      row :
          touch_option
            (activatable i l.revision)
            (with_status (status_after input.decision))
            (select (of_id i) db.listings)
          ≡ some (with_status (status_after input.decision) l)
      row = ground (arith, found, pending, select_holds (of_id i) db.listings found)
