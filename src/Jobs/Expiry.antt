-- ===== src/Jobs/Expiry.antt =====
-- Overdue listings become EXPIRED: expireListingsBatch and runListingExpiry.
use avtosh.Common.{
  ℕ, zero, suc, ◌+◌, Bool, true, false, ◌&&◌, Option, none, some, List, [], ◌++◌, map, ltb, leb,
  ◌==◌, length, select_all, exists, update, batch, in_rows,
}
use avtosh.Db.{Db, Clock}
use avtosh.Db.Listings.{Listing, ListingStatus, is_active}
use avtosh.Db.Payments.{ListingPeriod, PeriodStatus, is_active_period}
use avtosh.Db.Logs.{EventType, OutboxEvent, ReasonCode, StatusHistory}

abbrev pub expiry_batch : ℕ
expiry_batch = 100

abbrev pub expiry_max_batches : ℕ
expiry_max_batches = 20

-- `current_expires_at <= now()`, which is not true of a null.
abbrev pub reached : ℕ → Option ℕ → Bool
reached now none = false
reached now (some t) = leb t now

abbrev pub overdue : ℕ → Listing → Bool
overdue now l = is_active l.status && reached now l.current_expires_at

-- `order by current_expires_at asc`: no overdue listing has a null.
abbrev pub expiry_order : Listing → ℕ
expiry_order l = expiry l.current_expires_at
  where
    expiry : Option ℕ → ℕ
    expiry none = 0
    expiry (some t) = t

abbrev pub listing_key : Listing → ℕ
listing_key l = l.id

abbrev pub due_listings : ℕ → ℕ → List Listing → List Listing
due_listings now limit rows = batch listing_key expiry_order limit (overdue now) rows

-- `l.id = due.id and l.status = 'ACTIVE'`.
abbrev pub flippable : List Listing → Listing → Bool
flippable due l = in_rows listing_key due l && is_active l.status

abbrev pub flipped : Listing → Listing
flipped l = record l { status = ListingStatus.expired }

abbrev pub expiry_history : Listing → StatusHistory
expiry_history l = record {
  listing_id = l.id;
  from_status = ListingStatus.active;
  to_status = ListingStatus.expired;
  actor_user_id = none;
  reason_code = ReasonCode.listing_expired;
}

abbrev pub period_over : ℕ → List Listing → ListingPeriod → Bool
period_over now rows p =
    exists (λ l. l.id == p.listing_id) rows && is_active_period p.status && leb p.ends_at now

abbrev pub period_expired : ListingPeriod → ListingPeriod
period_expired p = record p { status = PeriodStatus.expired }

abbrev pub expiry_event : Listing → OutboxEvent
expiry_event l = record {
  event_type = EventType.listing_expired;
  aggregate_id = l.id;
  cleanup_candidate_paths = [];
}

-- The one statement, and the ids that it returns.
unfoldable pub expire_listings_batch : Clock → ℕ → Db → List ℕ × Db
expire_listings_batch clock limit db = (
  map listing_key rows,
  record db {
    listings = update (flippable due) flipped db.listings;
    history = map expiry_history rows ++ db.history;
    periods = update (period_over clock.db_now rows) period_expired db.periods;
    outbox = map expiry_event rows ++ db.outbox;
  },
)
  where
    due : List Listing
    due = due_listings clock.db_now limit db.listings

    rows : List Listing
    rows = select_all (flippable due) db.listings

pub record ExpiryRunSummary : Type 0 where
  pub expired : ℕ
  pub batches : ℕ

-- The loop, with the batches that are left; a short batch is the last. A batch has its own clock.
unfoldable pub expire_batches : (ℕ → Clock) → ℕ → ExpiryRunSummary → Db → ExpiryRunSummary × Db
expire_batches clocks zero run db = (run, db)
expire_batches clocks (suc left) run db = elim (ltb (length ids) expiry_batch) [
  | true ↦ (counted, step.1)
  | false ↦ expire_batches clocks left counted step.1
]
  where
    step : List ℕ × Db
    step = expire_listings_batch (clocks run.batches) expiry_batch db

    ids : List ℕ
    ids = step.0

    counted : ExpiryRunSummary
    counted = record { expired = run.expired + length ids; batches = run.batches + 1 }

unfoldable pub run_listing_expiry : (ℕ → Clock) → Db → ExpiryRunSummary × Db
unfolding expire_batches
run_listing_expiry clocks =
    expire_batches clocks expiry_max_batches (record { expired = 0; batches = 0 })
