-- ===== src/Moderation/Approves.antt =====
-- An approval publishes the listing: as it was submitted, or as the moderator has adjusted it.
use avtosh.Common.{
  ℕ, ◌+◌, ◌*◌, ◌≡◌, refl, sym, ap, ◌∙◌, true, Option, none, some, ◌∷◌, arith, select, ok,
  select-update, select_holds, touch_option, max_of, Result-cases, inl, inr, ==_refl,
}
use avtosh.Db.{Db, Clock}
use avtosh.Db.Listings.{Listing, ListingContent, is_pending_moderation}
use avtosh.Db.Moderation.{Adjustment, Decision}
use avtosh.Db.Payments.{ListingPeriod, PeriodStatus}
use avtosh.Db.Settings.{get_validity_days}
use avtosh.Submission.Catalog.{Catalog}
use avtosh.Content.Checks.{approved_content_set}
use avtosh.Lifecycle.Store.{of_id}
use avtosh.Payment.Periods.{ms_per_day, period_of}
use avtosh.Moderation.Adjustments.{open_adjustment_of, materialize_image_plan_for_listing}
use avtosh.Moderation.Apply.{content_target, with_content}
use avtosh.Moderation.Reviews.{Activation, activatable, activated_listing}
use avtosh.Moderation.Decide.{
  DecisionInput, DecisionResultDto, decide, carry_out, apply_open, activate, source_of,
}
use avtosh.Moderation.Decided.{Decided, decided, reviewed}
use avtosh.Moderation.Applied.{Applied, apply_adjustment-Applied, materialize_for_listing-Tame}
use avtosh.Moderation.Approval.{Activated, activate-Activated}

-- The listing that becomes public: without an adjustment as it is, else with the content of the
-- adjustment, at the next revision.
abbrev pub ApprovedAs : Catalog → Option Adjustment → Listing → Listing → Type 0
ApprovedAs catalog none l m = m ≡ l
ApprovedAs catalog (some a) l m =
    (content : ListingContent) × (approved_content_set catalog a.adjusted_data ≡ ok content)
    × (m ≡ with_content content l)

module _ (clock : Clock) (catalog : Catalog) (moderator i : ℕ) (l : Listing) (d : Db) where
  abbrev pub Prepared : Option Adjustment → ℕ → Db → Type 0
  Prepared a rev e =
      (m : Listing) × ApprovedAs catalog a l m
      × (select (of_id i) e.listings ≡ some m)
      × (m.revision ≡ rev)
      × (m.id ≡ i)
      × (is_pending_moderation m.status ≡ true)
      × (e.periods ≡ d.periods)
      × (e.settings ≡ d.settings)
      × (e.reviews ≡ d.reviews)

  pub prepared :
      (a : Option Adjustment) {rev : ℕ} {e : Db}
      → select (of_id i) d.listings ≡ some l
      → is_pending_moderation l.status ≡ true
      → l.deleted_at ≡ none
      → apply_open clock catalog moderator l a d ≡ ok (rev, e)
      → Prepared a rev e
  unfolding apply_open
  prepared none {rev} {e} found pending kept h = (
    l,
    refl,
    ground (arith, h, found),
    ground (arith, h),
    ground (arith, select_holds (of_id i) d.listings found),
    pending,
    ground (arith, h),
    ground (arith, h),
    ground (arith, h),
  )
  prepared (some a) {rev} {e} found pending kept h =
      let f : Applied clock catalog moderator l a (materialize_image_plan_for_listing l.id)
          (materialize_for_listing-Tame l.id) d rev e =
        apply_adjustment-Applied clock catalog moderator l a
          (materialize_image_plan_for_listing l.id) (materialize_for_listing-Tame l.id) d h in
      (
        with_content f.content l,
        (f.content, f.approved, refl),
        ap (select (of_id i)) f.listings
            ∙ select-update (content_target l.id l.revision) (of_id i) (with_content f.content)
                d.listings (λ x. refl)
            ∙ ground (arith, found, kept, ==_refl l.id, ==_refl l.revision),
        ground (arith, f.number, select_holds (content_target l.id l.revision) d.listings f.target),
        ground (arith, select_holds (of_id i) d.listings found),
        pending,
        f.alike.0,
        f.alike.5,
        f.alike.3,
      )

  -- The two halves of an approval.
  abbrev pub Halves : Option Adjustment → Option Activation → Db → Type 0
  Halves a o e =
      (rev : ℕ) × (middle : Db) × (act : Activation) × (apply_open clock catalog moderator l a d
        ≡ ok (rev, middle))
      × (activate clock i l rev middle ≡ ok (act, e))
      × (o ≡ some act)

  pub halves :
      (a : Option Adjustment) {o : Option Activation} {e : Db}
      → carry_out clock catalog moderator i l a Decision.approved d ≡ ok (o, e)
      → Halves a o e
  unfolding carry_out
  halves a {o} {e} h = elim (Result-cases (apply_open clock catalog moderator l a d)) [
    | inl (x, p) ↦ absurd (ground (arith, h, p))
    | inr ((rev, middle), p) ↦ elim (Result-cases (activate clock i l rev middle)) [
      | inl (x, q) ↦ absurd (ground (arith, h, p, q))
      | inr ((act, f), q) ↦
          let both : (o ≡ some act) × (f ≡ e) = ground (arith, h, p, q) in
          (rev, middle, act, p, q ∙ ap (λ t. ok (act, t)) both.1, both.0)
    ]
  ]

-- The period that an approval begins.
abbrev pub first_period : Clock → ℕ → ℕ → ℕ → ℕ → ListingPeriod
first_period clock id i number days = record {
  id = id;
  listing_id = i;
  period_number = number;
  source = source_of number;
  status = PeriodStatus.active;
  starts_at = clock.js_now;
  ends_at = clock.js_now + days * ms_per_day;
  payment_id = none;
}

module _ (clock : Clock) (catalog : Catalog) (moderator i : ℕ) (input : DecisionInput) (db : Db)
    (l : Listing) where
  -- An approval that goes through on a pending listing that is not deleted makes it ACTIVE for the
  -- days of the settings from now, published for the first time now, or as it was before, in one
  -- new period with the next number. Without an open adjustment nothing else of the listing
  -- changes. With one its content becomes the approved content of the adjustment, at the next
  -- revision, although the answer names the revision that was reviewed.
  pub decide_approves :
      {r : DecisionResultDto} {db' : Db}
      → select (of_id i) db.listings ≡ some l
      → is_pending_moderation l.status ≡ true
      → l.deleted_at ≡ none
      → input.decision ≡ Decision.approved
      → decide clock catalog moderator i input db ≡ ok (r, db')
      → (m : Listing) × (days : ℕ) × (id : ℕ) × ApprovedAs catalog
          (select (open_adjustment_of i) db.adjustments)
          l
          m
        × (get_validity_days db.settings ≡ some days)
        × (select (of_id i) db'.listings
            ≡ some (activated_listing clock.js_now (clock.js_now + days * ms_per_day) m))
        × (db'.periods
            ≡ first_period clock id i
                (max_of (period_of i) (λ p. p.period_number) db.periods + 1)
                days
              ∷ db.periods)
        × (r.revision ≡ l.revision)
  decide_approves {r} {db'} found pending kept approved h =
      let (rev, middle, act, p, v, o) = halves clock catalog moderator i l start a carried in
      let (m, shape, row, revision, key, waits, periods, settings, reviews) =
        prepared clock catalog moderator i l start a found pending kept p in
      let f : Activated clock i l rev middle act q.effects =
        activate-Activated clock i l rev middle v in
      (
        m,
        f.days,
        middle.next_id,
        shape,
        ap get_validity_days (sym settings) ∙ f.configured,
        ap (λ t. select (of_id i) t.listings) q.end
            ∙ ap (select (of_id i)) f.listings
            ∙ select-update (activatable i rev) (of_id i)
                (activated_listing clock.js_now (clock.js_now + f.days * ms_per_day))
                middle.listings (λ x. refl)
            ∙ ap
                (touch_option (activatable i rev)
                  (activated_listing clock.js_now (clock.js_now + f.days * ms_per_day)))
                row
            ∙ ground (arith, revision, key, waits),
        ap (λ t. t.periods) q.end
            ∙ f.periods
            ∙ ap
                (λ t.
                  first_period clock middle.next_id i
                    (max_of (period_of i) (λ p. p.period_number) t + 1) f.days
                  ∷ t)
                periods,
        ap (λ t. t.revision) q.result,
      )
    where
      a : Option Adjustment
      a = select (open_adjustment_of i) db.adjustments

      start : Db
      start = reviewed clock catalog moderator i input db l a

      q : Decided clock catalog moderator i input db l r db'
      q = decided clock catalog moderator i input db l found pending h

      carried :
          carry_out clock catalog moderator i l a Decision.approved start
          ≡ ok (q.activation, q.effects)
      carried = ap (λ t. carry_out clock catalog moderator i l a t start) (sym approved) ∙ q.carried
