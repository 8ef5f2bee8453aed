-- ===== src/Jobs/Reminders.antt =====
-- The delivery of reminders: the loop of runExpiryReminders. The provider is a parameter; the
-- statements that close a row do not fail, so no row error is counted.
use avtosh.Common.{
  ℕ, zero, suc, ◌+◌, ◌-◌, ◌*◌, ◌^◌, Bool, true, false, ◌||◌, Option, none, some, List, [], ◌∷◌, ltb,
  leb, length, if◌then◌else◌,
}
use avtosh.Db.{Db, Clock}
use avtosh.Jobs.Schedule.{schedule_expiry_reminders}
use avtosh.Jobs.Notifications.{
  Notification, DeliveryError, ReminderEligibility, reminder_eligibility, claim_due_notifications,
  mark_notification_sent, mark_notification_cancelled, defer_notification,
  schedule_notification_retry, mark_notification_failed,
}

abbrev pub notification_batch : ℕ
notification_batch = 50

abbrev pub notification_max_attempts : ℕ
notification_max_attempts = 5

abbrev pub suspended_defer_seconds : ℕ
suspended_defer_seconds = 3600

abbrev pub notification_retry_base_seconds : ℕ
notification_retry_base_seconds = 300

-- What `provider.sendTemplate` does with a notification: it returns the id of a message, or throws.
pub data Sending : Type 0 where
  message : Option ℕ → Sending
  permanent_error transient_error : Sending

pub record ReminderRunSummary : Type 0 where
  pub provider_configured : Bool
  pub scheduled : ℕ
  pub claimed : ℕ
  pub sent : ℕ
  pub cancelled : ℕ
  pub deferred : ℕ
  pub retried : ℕ
  pub failed : ℕ

-- `NOTIFICATION_RETRY_BASE_SECONDS * 2 ** Math.max(attempt_count - 1, 0)`.
abbrev pub backoff_seconds : ℕ → ℕ
backoff_seconds attempt_count = notification_retry_base_seconds * 2 ^ (attempt_count - 1)

-- The `catch` of a row.
abbrev pub finalize_failure :
    Clock
    → Notification
    → Bool
    → ReminderRunSummary
    → List Notification
    → ReminderRunSummary × List Notification
finalize_failure clock n permanent run rows =
    if permanent || leb notification_max_attempts n.attempt_count
    then (
      record run { failed = run.failed + 1 },
      mark_notification_failed clock n.id
          (if permanent then DeliveryError.provider_permanent else DeliveryError.retries_exhausted)
          rows,
    )
    else (
      record run { retried = run.retried + 1 },
      schedule_notification_retry clock n.id (clock.js_now + backoff_seconds n.attempt_count * 1000)
          rows,
    )

abbrev pub deliver :
    Clock
    → Notification
    → Sending
    → ReminderRunSummary
    → List Notification
    → ReminderRunSummary × List Notification
deliver clock n (Sending.message message_id) run rows =
    (record run { sent = run.sent + 1 }, mark_notification_sent clock n.id message_id rows)
deliver clock n Sending.permanent_error run rows = finalize_failure clock n true run rows
deliver clock n Sending.transient_error run rows = finalize_failure clock n false run rows

abbrev pub act :
    Clock
    → (Notification → Sending)
    → Notification
    → ReminderEligibility
    → ReminderRunSummary
    → List Notification
    → ReminderRunSummary × List Notification
act clock provider n ReminderEligibility.cancel run rows =
    (record run { cancelled = run.cancelled + 1 }, mark_notification_cancelled clock n.id rows)
act clock provider n ReminderEligibility.defer run rows = (
  record run { deferred = run.deferred + 1 },
  defer_notification clock n.id (clock.js_now + suspended_defer_seconds * 1000) rows,
)
act clock provider n ReminderEligibility.send run rows = deliver clock n (provider n) run rows

-- The body of the loop over the claimed rows.
unfoldable pub process_claimed :
    Clock
    → (Notification → Sending)
    → Db
    → List Notification
    → ReminderRunSummary
    → List Notification
    → ReminderRunSummary × List Notification
process_claimed clock provider db [] run rows = (run, rows)
process_claimed clock provider db (n ∷ ns) run rows =
    let r = act clock provider n (reminder_eligibility clock db n) run rows in
    process_claimed clock provider db ns r.0 r.1

-- `for (;;)`, on fuel: `none` is a run that is not over. Each batch has its own clock.
unfoldable pub deliver_reminders :
    ℕ
    → (ℕ → Clock)
    → (Notification → Sending)
    → Db
    → ReminderRunSummary
    → List Notification
    → Option (ReminderRunSummary × List Notification)
deliver_reminders zero clocks provider db run rows = none
deliver_reminders (suc fuel) clocks provider db run rows =
    elim (ltb (length claim.0) notification_batch) [
      | true ↦ some done
      | false ↦ deliver_reminders fuel (λ i. clocks (suc i)) provider db done.0 done.1
    ]
  where
    claim : List Notification × List Notification
    claim = claim_due_notifications (clocks 0) notification_batch rows

    done : ReminderRunSummary × List Notification
    done =
        process_claimed (clocks 0) provider db claim.0
          (record run { claimed = run.claimed + length claim.0 }) claim.1

abbrev pub blank_run : Bool → ℕ → ReminderRunSummary
blank_run provider_configured scheduled = record {
  provider_configured = provider_configured;
  scheduled = scheduled;
  claimed = 0;
  sent = 0;
  cancelled = 0;
  deferred = 0;
  retried = 0;
  failed = 0;
}

-- Without a provider rows are scheduled, and nothing is claimed. The first clock is that of the
-- scheduling statement.
unfoldable pub run_expiry_reminders :
    ℕ
    → (ℕ → Clock)
    → Option (Notification → Sending)
    → Db
    → List Notification
    → Option (ReminderRunSummary × List Notification)
unfolding deliver_reminders
run_expiry_reminders fuel clocks none db rows =
    let s = schedule_expiry_reminders (clocks 0) db rows in some (blank_run false s.0, s.1)
run_expiry_reminders fuel clocks (some provider) db rows =
    let s = schedule_expiry_reminders (clocks 0) db rows in
    deliver_reminders fuel (λ i. clocks (suc i)) provider db (blank_run true s.0) s.1
