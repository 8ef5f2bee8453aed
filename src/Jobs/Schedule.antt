-- ===== src/Jobs/Schedule.antt =====
-- The rows of reminders before a period ends: scheduleExpiryReminders.
use avtosh.Common.{
  ℕ, ◌+◌, ◌-◌, ◌*◌, ◌/◌, Bool, true, false, ◌&&◌, Option, none, some, List, [], ◌∷◌, ◌++◌, ltb, leb,
  ◌==◌, if◌then◌else◌, select, exists, max_of,
}
use avtosh.Db.{Db, Clock}
use avtosh.Db.Listings.{Listing, is_active}
use avtosh.Db.Payments.{ListingPeriod, is_active_period}
use avtosh.Lifecycle.Store.{of_id}
use avtosh.Payment.Periods.{ms_per_day}
use avtosh.Jobs.Notifications.{Notification, NotificationStatus, same_instant}

-- `EXPIRY_REMINDER_OFFSETS_DAYS`.
abbrev pub offsets_days : List ℕ
offsets_days = 7 ∷ 5 ∷ 3 ∷ 1 ∷ []

abbrev pub ms_per_hour : ℕ
ms_per_hour = 3600000

-- `date_trunc('day', ends_at)` in Asia/Baku, which is UTC+4 all year, less the days, at 10 o'clock
-- there. A period that ends in the first days of 1970 would fall before instant 0.
unfoldable pub send_at : ℕ → ℕ → ℕ
send_at ends_at offset =
    (ends_at + 4 * ms_per_hour) / ms_per_day * ms_per_day
    + 10 * ms_per_hour
    - (offset * ms_per_day + 4 * ms_per_hour)

abbrev pub remindable : ℕ → Listing → ListingPeriod → Bool
remindable now l p =
    is_active l.status
    && is_active_period p.status
    && same_instant l.current_expires_at p.ends_at
    && ltb now p.ends_at
    && leb p.ends_at (now + 9 * ms_per_day)

-- A row that the select yields: whom, which period, how many days before.
pub record Reminder : Type 0 where
  pub owner_id : ℕ
  pub listing_id : ℕ
  pub period_id : ℕ
  pub offset_days : ℕ
  pub at : ℕ

abbrev pub reminder_key : Reminder → ℕ × ℕ
reminder_key r = (r.period_id, r.offset_days)

unfoldable pub period_reminders : ℕ → Listing → ListingPeriod → List ℕ → List Reminder
period_reminders now l p [] = []
period_reminders now l p (d ∷ ds) =
    let rest = period_reminders now l p ds in
    let at = send_at p.ends_at d in
    if remindable now l p && ltb now at && ltb at p.ends_at
    then (record {
      owner_id = l.owner_id;
      listing_id = l.id;
      period_id = p.id;
      offset_days = d;
      at = at;
    })
      ∷ rest
    else rest

pub joined : ℕ → Option Listing → ListingPeriod → List Reminder
unfolding period_reminders
joined now none p = []
joined now (some l) p = period_reminders now l p offsets_days

unfoldable pub reminders : ℕ → List Listing → List ListingPeriod → List Reminder
unfolding joined
reminders now listings [] = []
reminders now listings (p ∷ ps) =
    joined now (select (of_id p.listing_id) listings) p ++ reminders now listings ps

abbrev pub has_key : ℕ × ℕ → Notification → Bool
has_key (period_id, offset) n = (n.dedupe_key.0 == period_id) && (n.dedupe_key.1 == offset)

-- A generated id is one that no row has.
abbrev pub fresh_id : List Notification → ℕ
fresh_id rows = max_of (λ n. true) (λ n. n.id) rows + 1

abbrev pub new_notification : ℕ → ℕ → Reminder → Notification
new_notification now id r = record {
  id = id;
  user_id = r.owner_id;
  listing_id = some r.listing_id;
  listing_period_id = some r.period_id;
  scheduled_for = r.at;
  sent_at = none;
  status = NotificationStatus.scheduled;
  provider_message_id = none;
  provider_error_code = none;
  dedupe_key = reminder_key r;
  attempt_count = 0;
  next_retry_at = none;
  is_withdrawn = false;
  updated_at = now;
}

-- `on conflict (dedupe_key) do nothing`, and the number of rows inserted.
abbrev pub insert_one : ℕ → Reminder → List Notification → ℕ × List Notification
insert_one now r rows =
    if exists (has_key (reminder_key r)) rows
    then (0, rows)
    else (1, new_notification now (fresh_id rows) r ∷ rows)

unfoldable pub insert_reminders : ℕ → List Reminder → List Notification → ℕ × List Notification
insert_reminders now [] rows = (0, rows)
insert_reminders now (r ∷ rs) rows =
    let one = insert_one now r rows in
    let more = insert_reminders now rs one.1 in (one.0 + more.0, more.1)

unfoldable pub schedule_expiry_reminders : Clock → Db → List Notification → ℕ × List Notification
unfolding insert_reminders reminders
schedule_expiry_reminders clock db rows =
    insert_reminders clock.db_now (reminders clock.db_now db.listings db.periods) rows
