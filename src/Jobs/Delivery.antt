-- ===== src/Jobs/Delivery.antt =====
-- The delivery of reminders ends, accounts for every claim, and leaves closed rows alone.
use avtosh.Common.{
  ℕ, zero, suc, ◌+◌, ◌-◌, ◌*◌, ◌^◌, ◌≤◌, ◌<◌, ◌≡◌, refl, inl, inr, Bool, true, false, ◌||◌, Option,
  List, ◌∷◌, [], arith, leb, length, count, update, with_id, Keyed, count-update, count-update-le,
  Bool-cases,
}
use avtosh.Db.{Db, Clock}
use avtosh.Jobs.Notifications.{
  Notification, DeliveryError, ReminderEligibility, reminder_eligibility, mark_notification_sent,
  mark_notification_cancelled, defer_notification, schedule_notification_retry,
  mark_notification_failed, is_due, notification_key, in_process, delivered_at, withdrawn,
  deferred_row, retried_row, given_up,
}
use avtosh.Jobs.Reminders.{
  Sending, ReminderRunSummary, backoff_seconds, finalize_failure, deliver, act, process_claimed,
}

two_pow : (k : ℕ) → 1 ≤ 2 ^ k
two_pow zero = omega arith
two_pow (suc k) = omega (arith, two_pow k)

backoff_least : (attempts : ℕ) → 300 ≤ backoff_seconds attempts
backoff_least attempts = omega (arith, two_pow (attempts - 1))

-- A relation on rows that every statement on one claimed row keeps is kept by the whole handling.
module _ (clock : Clock) (provider : Notification → Sending) where
  -- The five ways in which the handling of a claimed row ends.
  pub data Handled (n : Notification) (rows : List Notification) : List Notification → Type 0 where
    sends :
        (message_id : Option ℕ)
        → Handled n rows (update (in_process n.id) (delivered_at clock.db_now message_id) rows)
    withdraws : Handled n rows (update (in_process n.id) (withdrawn clock.db_now) rows)
    defers :
        Handled n rows
          (update (in_process n.id) (deferred_row clock.db_now (clock.js_now + 3600000)) rows)
    retries : Handled n rows (
        update
          (in_process n.id)
          (retried_row clock.db_now (clock.js_now + backoff_seconds n.attempt_count * 1000))
          rows)
    gives_up :
        (e : DeliveryError)
        → Handled n rows (update (in_process n.id) (given_up clock.db_now e) rows)

  finalize_failure-Handled :
      (n : Notification) (p : Bool) (run : ReminderRunSummary) (rows : List Notification)
      → Handled n rows (finalize_failure clock n p run rows).1
  unfolding mark_notification_failed schedule_notification_retry
  finalize_failure-Handled n true run rows = Handled.gives_up _
  finalize_failure-Handled n false run rows = elim (Bool-cases (leb 5 n.attempt_count)) [
    | inl e ↦ rw e (Handled.gives_up _)
    | inr e ↦ rw e Handled.retries
  ]

  pub act-Handled :
      (n : Notification) (v : ReminderEligibility) (run : ReminderRunSummary)
      (rows : List Notification)
      → Handled n rows (act clock provider n v run rows).1
  unfolding mark_notification_sent mark_notification_cancelled defer_notification
  act-Handled n ReminderEligibility.cancel run rows = Handled.withdraws
  act-Handled n ReminderEligibility.defer run rows = Handled.defers
  act-Handled n ReminderEligibility.send run rows = sending (provider n)
    where
      sending : (s : Sending) → Handled n rows (deliver clock n s run rows).1
      sending (Sending.message m) = Handled.sends m
      sending Sending.permanent_error = finalize_failure-Handled n true run rows
      sending Sending.transient_error = finalize_failure-Handled n false run rows

  -- Handled within five minutes of its claim, a row is not due again by `end`.
  Handled-is_due :
      (end : ℕ)
      → end < clock.js_now + 300000
      → (n : Notification) (rows rows' : List Notification) → Handled n rows rows'
      → count (is_due end) rows' ≤ count (is_due end) rows
  Handled-is_due end h n rows _ (Handled.sends m) =
      count-update-le (in_process n.id) (is_due end) (delivered_at clock.db_now m) rows
        (λ x p q. ground arith)
  Handled-is_due end h n rows _ Handled.withdraws =
      count-update-le (in_process n.id) (is_due end) (withdrawn clock.db_now) rows
        (λ x p q. ground arith)
  Handled-is_due end h n rows _ Handled.defers =
      count-update-le (in_process n.id) (is_due end)
        (deferred_row clock.db_now (clock.js_now + 3600000)) rows (λ x p q. ground arith)
  Handled-is_due end h n rows _ Handled.retries =
      count-update-le (in_process n.id) (is_due end)
        (retried_row clock.db_now (clock.js_now + backoff_seconds n.attempt_count * 1000)) rows
        (λ x p q. ground (arith, backoff_least n.attempt_count))
  Handled-is_due end h n rows _ (Handled.gives_up e) =
      count-update-le (in_process n.id) (is_due end) (given_up clock.db_now e) rows
        (λ x p q. ground arith)

  Handled-Keyed :
      (n : Notification) (rows rows' : List Notification)
      → Handled n rows rows'
      → Keyed notification_key rows
      → Keyed notification_key rows'
  Handled-Keyed n rows _ (Handled.sends m) k i = omega (
    arith,
    k i,
    count-update (in_process n.id) (with_id notification_key i) (delivered_at clock.db_now m) rows
        (λ x. refl),
  )
  Handled-Keyed n rows _ Handled.withdraws k i = omega (
    arith,
    k i,
    count-update (in_process n.id) (with_id notification_key i) (withdrawn clock.db_now) rows
        (λ x. refl),
  )
  Handled-Keyed n rows _ Handled.defers k i = omega (
    arith,
    k i,
    count-update (in_process n.id) (with_id notification_key i)
        (deferred_row clock.db_now (clock.js_now + 3600000)) rows (λ x. refl),
  )
  Handled-Keyed n rows _ Handled.retries k i = omega (
    arith,
    k i,
    count-update (in_process n.id) (with_id notification_key i)
        (retried_row clock.db_now (clock.js_now + backoff_seconds n.attempt_count * 1000)) rows
        (λ x. refl),
  )
  Handled-Keyed n rows _ (Handled.gives_up e) k i = omega (
    arith,
    k i,
    count-update (in_process n.id) (with_id notification_key i) (given_up clock.db_now e) rows
        (λ x. refl),
  )

-- What became of the claims.
abbrev pub outcomes : ReminderRunSummary → ℕ
outcomes run = run.sent + run.cancelled + run.deferred + run.retried + run.failed

module _ (clock : Clock) (provider : Notification → Sending) (db : Db) where
  act-outcomes :
      (n : Notification) (v : ReminderEligibility) (run : ReminderRunSummary)
      (rows : List Notification)
      → let r = act clock provider n v run rows in
        (outcomes r.0 ≡ outcomes run + 1) × (r.0.claimed ≡ run.claimed)
  act-outcomes n ReminderEligibility.cancel run rows = (omega arith, refl)
  act-outcomes n ReminderEligibility.defer run rows = (omega arith, refl)
  act-outcomes n ReminderEligibility.send run rows = sending (provider n)
    where
      closing :
          (p : Bool)
          → let r = finalize_failure clock n p run rows in
            (outcomes r.0 ≡ outcomes run + 1) × (r.0.claimed ≡ run.claimed)
      closing p = elim (Bool-cases (p || leb 5 n.attempt_count)) [
        | inl e ↦ rw e (omega arith, refl)
        | inr e ↦ rw e (omega arith, refl)
      ]

      sending :
          (s : Sending)
          → let r = deliver clock n s run rows in
            (outcomes r.0 ≡ outcomes run + 1) × (r.0.claimed ≡ run.claimed)
      sending (Sending.message m) = (omega arith, refl)
      sending Sending.permanent_error = closing true
      sending Sending.transient_error = closing false

  pub process-outcomes :
      (ns : List Notification) (run : ReminderRunSummary) (rows : List Notification)
      → let r = process_claimed clock provider db ns run rows in
        (outcomes r.0 ≡ outcomes run + length ns) × (r.0.claimed ≡ run.claimed)
  unfolding process_claimed
  process-outcomes [] run rows = (omega arith, refl)
  process-outcomes (n ∷ ns) run rows =
      let a = act-outcomes n (reminder_eligibility clock db n) run rows in
      let s = act clock provider n (reminder_eligibility clock db n) run rows in
      let t = process-outcomes ns s.0 s.1 in (omega (arith, a.0, t.0), omega (arith, a.1, t.1))

  pub process-is_due :
      (end : ℕ)
      → end < clock.js_now + 300000
      → (ns : List Notification) (run : ReminderRunSummary) (rows : List Notification)
      → count (is_due end) (process_claimed clock provider db ns run rows).1
        ≤ count (is_due end) rows
  unfolding process_claimed
  process-is_due end h [] run rows = omega arith
  process-is_due end h (n ∷ ns) run rows =
      let v = reminder_eligibility clock db n in
      let s = act clock provider n v run rows in
      omega (
        arith,
        process-is_due end h ns s.0 s.1,
        Handled-is_due clock provider end h n rows s.1 (act-Handled clock provider n v run rows),
      )

  pub process-Keyed :
      (ns : List Notification) (run : ReminderRunSummary) (rows : List Notification)
      → Keyed notification_key rows
      → Keyed notification_key (process_claimed clock provider db ns run rows).1
  unfolding process_claimed
  process-Keyed [] run rows k = k
  process-Keyed (n ∷ ns) run rows k =
      let v = reminder_eligibility clock db n in
      let s = act clock provider n v run rows in
      process-Keyed ns s.0 s.1
        (Handled-Keyed clock provider n rows s.1 (act-Handled clock provider n v run rows) k)
