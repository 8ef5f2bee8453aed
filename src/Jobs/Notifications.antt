-- ===== src/Jobs/Notifications.antt =====
-- The rows of `notifications`, and the statements by which a reminder is claimed, delivered,
-- deferred, retried and closed (src/repositories/lifecycle-jobs.ts). The trigger of the table sets
-- `updated_at` on every update.
use avtosh.Common.{
  ℕ, ◌+◌, ◌-◌, ◌*◌, Bool, true, false, ◌&&◌, ◌||◌, Option, none, some, List, map, ltb, leb, ◌==◌,
  if◌then◌else◌, select, select_all, update, batch, in_rows,
}
use avtosh.Db.{Db, Clock}
use avtosh.Db.Listings.{Listing, is_active, is_suspended}
use avtosh.Db.Payments.{ListingPeriod}
use avtosh.Lifecycle.Store.{of_id}

pub data NotificationStatus : Type 0 where
  scheduled processing sent delivered read failed cancelled : NotificationStatus

pub data DeliveryError : Type 0 where
  provider_transient provider_permanent retries_exhausted : DeliveryError

-- `dedupe_key` is made of the period and the days before its end.
pub record Notification : Type 0 where
  pub id : ℕ
  pub user_id : ℕ
  pub listing_id : Option ℕ
  pub listing_period_id : Option ℕ
  pub scheduled_for : ℕ
  pub sent_at : Option ℕ
  pub status : NotificationStatus
  pub provider_message_id : Option ℕ
  pub provider_error_code : Option DeliveryError
  pub dedupe_key : ℕ × ℕ
  pub attempt_count : ℕ
  pub next_retry_at : Option ℕ
  pub is_withdrawn : Bool
  pub updated_at : ℕ

abbrev pub is_scheduled : NotificationStatus → Bool
is_scheduled NotificationStatus.scheduled = true
is_scheduled _ = false

abbrev pub is_processing : NotificationStatus → Bool
is_processing NotificationStatus.processing = true
is_processing _ = false

abbrev pub notification_key : Notification → ℕ
notification_key n = n.id

-- `NOTIFICATION_PROCESSING_LEASE_MINUTES`.
abbrev pub lease_ms : ℕ
lease_ms = 15 * 60000

-- `next_retry_at is null or next_retry_at <= now()`.
abbrev pub retry_reached : ℕ → Option ℕ → Bool
retry_reached now none = true
retry_reached now (some t) = leb t now

abbrev pub is_due : ℕ → Notification → Bool
is_due now n =
    (is_scheduled n.status && leb n.scheduled_for now && retry_reached now n.next_retry_at)
    || (is_processing n.status && ltb (n.updated_at + lease_ms) now)

abbrev pub send_order : Notification → ℕ
send_order n = n.scheduled_for

abbrev pub due_batch : ℕ → ℕ → List Notification → List Notification
due_batch now limit rows = batch notification_key send_order limit (is_due now) rows

abbrev pub claimed_row : ℕ → Notification → Notification
claimed_row now n = record n {
  status = NotificationStatus.processing;
  attempt_count = n.attempt_count + 1;
  updated_at = now;
}

-- The claimed rows as the statement returns them, and the table.
unfoldable pub claim_due_notifications :
    Clock → ℕ → List Notification → List Notification × List Notification
claim_due_notifications clock limit rows = (
  map (claimed_row clock.db_now) (select_all (in_rows notification_key picked) rows),
  update (in_rows notification_key picked) (claimed_row clock.db_now) rows,
)
  where
    picked : List Notification
    picked = due_batch clock.db_now limit rows

pub data ReminderEligibility : Type 0 where
  send defer cancel : ReminderEligibility

abbrev pub same_instant : Option ℕ → ℕ → Bool
same_instant none t = false
same_instant (some s) t = s == t

abbrev pub of_period : ℕ → ListingPeriod → Bool
of_period period_id p = p.id == period_id

abbrev pub verdict : ℕ → Option Listing → Option ListingPeriod → ReminderEligibility
verdict now (some l) (some p) =
    if is_suspended l.status && same_instant l.current_expires_at p.ends_at && ltb now p.ends_at
    then ReminderEligibility.defer
    else if is_active l.status && same_instant l.current_expires_at p.ends_at && ltb now p.ends_at
    then ReminderEligibility.send
    else ReminderEligibility.cancel
verdict now _ _ = ReminderEligibility.cancel

eligibility_of : Clock → Db → Option ℕ → Option ℕ → ReminderEligibility
eligibility_of clock db (some listing_id) (some period_id) =
    verdict clock.db_now (select (of_id listing_id) db.listings)
      (select (of_period period_id) db.periods)
eligibility_of clock db _ _ = ReminderEligibility.cancel

unfoldable pub reminder_eligibility : Clock → Db → Notification → ReminderEligibility
unfolding eligibility_of
reminder_eligibility clock db n = eligibility_of clock db n.listing_id n.listing_period_id

-- `where id = … and status = 'PROCESSING'`.
abbrev pub in_process : ℕ → Notification → Bool
in_process id n = (n.id == id) && is_processing n.status

abbrev pub delivered_at : ℕ → Option ℕ → Notification → Notification
delivered_at now message_id n = record n {
  status = NotificationStatus.sent;
  sent_at = some now;
  provider_message_id = message_id;
  provider_error_code = none;
  next_retry_at = none;
  updated_at = now;
}

unfoldable pub mark_notification_sent : Clock → ℕ → Option ℕ → List Notification → List Notification
mark_notification_sent clock id message_id =
    update (in_process id) (delivered_at clock.db_now message_id)

abbrev pub withdrawn : ℕ → Notification → Notification
withdrawn now n = record n {
  status = NotificationStatus.cancelled;
  is_withdrawn = true;
  next_retry_at = none;
  updated_at = now;
}

unfoldable pub mark_notification_cancelled : Clock → ℕ → List Notification → List Notification
mark_notification_cancelled clock id = update (in_process id) (withdrawn clock.db_now)

-- `greatest(attempt_count - 1, 0)`, as the difference of naturals is.
abbrev pub deferred_row : ℕ → ℕ → Notification → Notification
deferred_row now retry_at n = record n {
  status = NotificationStatus.scheduled;
  next_retry_at = some retry_at;
  attempt_count = n.attempt_count - 1;
  updated_at = now;
}

unfoldable pub defer_notification : Clock → ℕ → ℕ → List Notification → List Notification
defer_notification clock id retry_at = update (in_process id) (deferred_row clock.db_now retry_at)

abbrev pub retried_row : ℕ → ℕ → Notification → Notification
retried_row now retry_at n = record n {
  status = NotificationStatus.scheduled;
  next_retry_at = some retry_at;
  provider_error_code = some DeliveryError.provider_transient;
  updated_at = now;
}

unfoldable pub schedule_notification_retry : Clock → ℕ → ℕ → List Notification → List Notification
schedule_notification_retry clock id retry_at =
    update (in_process id) (retried_row clock.db_now retry_at)

abbrev pub given_up : ℕ → DeliveryError → Notification → Notification
given_up now error n = record n {
  status = NotificationStatus.failed;
  provider_error_code = some error;
  next_retry_at = none;
  updated_at = now;
}

unfoldable pub mark_notification_failed :
    Clock → ℕ → DeliveryError → List Notification → List Notification
mark_notification_failed clock id error = update (in_process id) (given_up clock.db_now error)
