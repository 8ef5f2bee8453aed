-- ===== src/Payment/Renewal.antt =====
-- What a paid renewal does to the listing.
use avtosh.Common.{
  if◌then◌else◌, ltb, not, ◌&&◌, ℕ, ◌+◌, ◌*◌, ◌≤◌, ◌<◌, ◌≡◌, refl, false, some, List, [], ◌∷◌,
  arith, select, exists, update, select-update, select_holds, exists-select, exists_of_select,
  max_of, All, All-mono, is_some,
}
use avtosh.Db.{Db, Clock, after}
use avtosh.Db.Listings.{Listing, ListingStatus, is_expired}
use avtosh.Db.Payments.{Payment, ListingPeriod, PeriodSource, PeriodStatus}
use avtosh.Lifecycle.Store.{of_id, open_of, cleared, clearable}
use avtosh.Payment.Periods.{ms_per_day, period_of}
use avtosh.Payment.Fulfil.{fulfill_renewal, renewable, renewed, prolonged, later}

-- The paid term, counted from the process's clock.
abbrev pub paid_until : Clock → ℕ → ℕ
paid_until clock days = clock.js_now + days * ms_per_day

period_bound :
    (i : ℕ) (rows : List ListingPeriod) (b : ℕ)
    → max_of (period_of i) (λ q. q.period_number) rows ≤ b
    → All (λ p. p.listing_id ≡ i → p.period_number ≤ b) rows
unfolding max_of
period_bound i [] b h = tt
period_bound i (p ∷ rows) b h = (ground arith, period_bound i rows b (ground arith))

module _ (clock : Clock) (db : Db) (payment : Payment) (i days : ℕ) (l : Listing) where
  -- A renewal of an EXPIRED listing, paid for a day or more, makes it ACTIVE for that term from now
  -- on. Exactly where the seller hid the listing and asked for its reactivation, the term is ahead
  -- and no edit is open, the reactivation is finalized with it: the hidden mark and the request go,
  -- and the revision rises. Nothing else of the row changes.
  pub fulfill_renewal_expired :
      payment.listing_id ≡ some i
      → payment.renewal_duration_days ≡ some days
      → select (of_id i) db.listings ≡ some l
      → l.status ≡ ListingStatus.expired
      → 0 < days
      → select (of_id i) (after db (fulfill_renewal clock payment db)).listings
        ≡ some (
            if is_some l.seller_deactivated_at
              && is_some l.seller_reactivation_requested_at
              && ltb clock.db_now (paid_until clock days)
              && not (exists (open_of i) db.revisions)
            then cleared (renewed (paid_until clock days) l)
            else renewed (paid_until clock days) l)
  unfolding fulfill_renewal
  fulfill_renewal_expired target term found past paid = ground (
    arith,
    target,
    term,
    found,
    past,
    paid,
    select_holds (of_id i) db.listings found,
    exists-select (open_of i) db.revisions,
    mid,
    exists_of_select (clearable clock.db_now (exists (open_of i) db.revisions) i) (of_id i) table
        mid,
    select-update (clearable clock.db_now (exists (open_of i) db.revisions) i) (of_id i) cleared
        table (λ x. refl),
  )
    where
      table : List Listing
      table = update (renewable i) (renewed (paid_until clock days)) db.listings

      mid : select (of_id i) table ≡ some (renewed (paid_until clock days) l)
      mid = ground (
        arith,
        found,
        past,
        select_holds (of_id i) db.listings found,
        select-update (renewable i) (of_id i) (renewed (paid_until clock days)) db.listings
            (λ x. refl),
      )

  -- Of a listing that left EXPIRED otherwise the status is kept, and the paid time only ever adds
  -- to its expiry.
  pub fulfill_renewal_other :
      (old : ℕ)
      → payment.listing_id ≡ some i
      → payment.renewal_duration_days ≡ some days
      → select (of_id i) db.listings ≡ some l
      → is_expired l.status ≡ false
      → l.current_expires_at ≡ some old
      → (select (of_id i) (after db (fulfill_renewal clock payment db)).listings
          ≡ some (prolonged (paid_until clock days) l))
        × (old ≤ later l.current_expires_at (paid_until clock days))
        × (paid_until clock days ≤ later l.current_expires_at (paid_until clock days))
  unfolding fulfill_renewal
  fulfill_renewal_other old target term found other expiry = ground (
    arith,
    target,
    term,
    found,
    other,
    expiry,
    select_holds (of_id i) db.listings found,
    select-update (of_id i) (of_id i) (prolonged (paid_until clock days)) db.listings (λ x. refl),
  )

  -- Either way one period is added, for exactly the paid days, with a number above those of all
  -- the listing's periods before it.
  pub fulfill_renewal_period :
      payment.listing_id ≡ some i
      → payment.renewal_duration_days ≡ some days
      → select (of_id i) db.listings ≡ some l
      → let n = max_of (period_of i) (λ q. q.period_number) db.periods + 1 in
        ((after db (fulfill_renewal clock payment db)).periods
          ≡ (record {
            id = db.next_id;
            listing_id = i;
            period_number = n;
            source = PeriodSource.renewal;
            status = PeriodStatus.active;
            starts_at = clock.js_now;
            ends_at = clock.js_now + days * ms_per_day;
            payment_id = some payment.id;
          })
            ∷ db.periods)
        × All (λ p. p.listing_id ≡ i → p.period_number < n) db.periods
  unfolding fulfill_renewal
  fulfill_renewal_period target term found = (
    ground (arith, target, term, found),
    All-mono (λ p. p.listing_id ≡ i → p.period_number ≤ top)
        (λ p. p.listing_id ≡ i → p.period_number < top + 1) db.periods (λ p h e. omega (arith, h e))
        (period_bound i db.periods top (omega arith)),
  )
    where
      top : ℕ
      top = max_of (period_of i) (λ q. q.period_number) db.periods
