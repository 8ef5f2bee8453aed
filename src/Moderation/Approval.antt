-- ===== src/Moderation/Approval.antt =====
-- What an approval does.
use avtosh.Common.{
  ℕ, ◌+◌, ◌*◌, ◌≡◌, inl, inr, true, ◌&&◌, not, none, some, ◌∷◌, arith, select, exists, update, ok,
  Result-cases, Option-cases, Bool-cases, select_latest, max_of,
}
use avtosh.Db.{Db, Clock}
use avtosh.Db.Listings.{Listing}
use avtosh.Db.Payments.{PeriodStatus}
use avtosh.Db.Settings.{get_validity_days}
use avtosh.Lifecycle.Store.{coalesce}
use avtosh.Payment.Periods.{ms_per_day, period_of}
use avtosh.Payment.Campaigns.{
  enroll_approved_listing_in_open_campaign, enrolls, enrolls_as, enrollment_order, granted_to,
}
use avtosh.Moderation.Reviews.{Activation, activatable, activated_listing}
use avtosh.Moderation.Decide.{activate, source_of}

-- An enrollment grants a promotion or nothing; it cannot fail.
abbrev pub Grants : Db → Db → Type 0
Grants d e =
    (e.listings ≡ d.listings)
    × (e.periods ≡ d.periods)
    × (e.reviews ≡ d.reviews)
    × (e.claims ≡ d.claims)
    × (e.adjustments ≡ d.adjustments)
    × (e.listing_features ≡ d.listing_features)
    × (e.payments ≡ d.payments)
    × (e.revisions ≡ d.revisions)

enroll-Grants :
    (clock : Clock) (i : ℕ) (d : Db) {u : Unit {0}} {e : Db}
    → enroll_approved_listing_in_open_campaign clock i d ≡ ok (u, e)
    → Grants d e
unfolding enroll_approved_listing_in_open_campaign
enroll-Grants clock i d h =
    elim (Option-cases (select_latest (enrolls clock.db_now) enrollment_order d.campaigns)) [
      | inl z ↦ ground (arith, h, z)
      | inr (c, z) ↦ elim (Option-cases (select (enrolls_as clock.db_now c.id) d.campaigns)) [
        | inl y ↦ ground (arith, h, z, y)
        | inr (c', y) ↦
            elim (Bool-cases (
              exists (enrolls_as clock.db_now c'.id) d.campaigns
              && not (exists (granted_to i c'.id) d.promotions))) [
                | inl x ↦ ground (arith, h, z, y, x)
                | inr x ↦ ground (arith, h, z, y, x)
              ]
      ]
    ]

module _ (clock : Clock) (i : ℕ) (l : Listing) (rev : ℕ) (d : Db) where
  pub record Activated (act : Activation) (e : Db) : Type 0 where
    pub days : ℕ
    pub configured : get_validity_days d.settings ≡ some days
    pub current : exists (activatable i rev) d.listings ≡ true
    pub listings :
        e.listings
        ≡ update
            (activatable i rev)
            (activated_listing clock.js_now (clock.js_now + days * ms_per_day))
            d.listings
    pub periods :
        e.periods
        ≡ (record {
          id = d.next_id;
          listing_id = i;
          period_number = max_of (period_of i) (λ p. p.period_number) d.periods + 1;
          source = source_of (max_of (period_of i) (λ p. p.period_number) d.periods + 1);
          status = PeriodStatus.active;
          starts_at = clock.js_now;
          ends_at = clock.js_now + days * ms_per_day;
          payment_id = none;
        })
          ∷ d.periods
    pub answer : act ≡ record {
      published_at = coalesce l.published_at clock.js_now;
      current_expires_at = clock.js_now + days * ms_per_day;
      period_number = max_of (period_of i) (λ p. p.period_number) d.periods + 1;
    }
    pub reviews : e.reviews ≡ d.reviews
    pub features : e.listing_features ≡ d.listing_features
    pub adjustments : e.adjustments ≡ d.adjustments
    pub payments : e.payments ≡ d.payments

  abbrev with_period : ℕ → Db
  with_period days = record d {
    listings =
        update (activatable i rev)
          (activated_listing clock.js_now (clock.js_now + days * ms_per_day)) d.listings;
    periods =
        (record {
          id = d.next_id;
          listing_id = i;
          period_number = max_of (period_of i) (λ p. p.period_number) d.periods + 1;
          source = source_of (max_of (period_of i) (λ p. p.period_number) d.periods + 1);
          status = PeriodStatus.active;
          starts_at = clock.js_now;
          ends_at = clock.js_now + days * ms_per_day;
          payment_id = none;
        })
        ∷ d.periods;
    next_id = d.next_id + 1;
  }

  pub activate-Activated :
      {act : Activation} {e : Db} → activate clock i l rev d ≡ ok (act, e) → Activated act e
  unfolding activate
  activate-Activated {act} {e} h = elim (Option-cases (get_validity_days d.settings)) [
    | inl z ↦ absurd (ground (arith, h, z))
    | inr (days, z) ↦ elim (Bool-cases (exists (activatable i rev) d.listings)) [
      | inr x ↦ absurd (ground (arith, h, z, x))
      | inl x ↦
          elim (Result-cases
            (enroll_approved_listing_in_open_campaign clock i (with_period days))) [
              | inl (y, g) ↦ absurd (ground (arith, h, z, x, g))
              | inr ((u, f), g) ↦
                  let same = enroll-Grants clock i (with_period days) g in
                  record {
                    days = days;
                    configured = z;
                    current = x;
                    listings = (ground (arith, h, z, x, g, same));
                    periods = (ground (arith, h, z, x, g, same));
                    answer = (ground (arith, h, z, x, g));
                    reviews = (ground (arith, h, z, x, g, same));
                    features = (ground (arith, h, z, x, g, same));
                    adjustments = (ground (arith, h, z, x, g, same));
                    payments = (ground (arith, h, z, x, g, same));
                  }
            ]
    ]
  ]
