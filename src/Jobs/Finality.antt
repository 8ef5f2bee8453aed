-- ===== src/Jobs/Finality.antt =====
-- A reminder that is closed stays as it is.
use avtosh.Common.{
  ℕ, zero, suc, ◌+◌, ◌*◌, ◌≡◌, refl, inl, inr, false, some, List, ◌∷◌, [], arith, ltb, sym, length,
  in_rows, in_not-due, Keyed, Rows, Rows-refl, Rows-trans, Rows-update, Rows-update_due, Bool-cases,
}
use avtosh.Db.{Db, Clock}
use avtosh.Jobs.Notifications.{
  Notification, claim_due_notifications, reminder_eligibility, is_due, due_batch, notification_key,
  send_order, claimed_row, in_process, delivered_at, withdrawn, deferred_row, retried_row, given_up,
  is_scheduled, is_processing,
}
use avtosh.Jobs.Reminders.{
  Sending, ReminderRunSummary, notification_batch, backoff_seconds, act, process_claimed,
  deliver_reminders,
}
use avtosh.Jobs.Delivery.{Handled, act-Handled, process-Keyed}
use avtosh.Jobs.Completion.{claim-Keyed}

-- One row before and after: its identity and its time stay, and a closed row stays altogether.
abbrev pub Kept : Notification → Notification → Type 0
Kept n m =
    (m.id ≡ n.id)
    × (m.dedupe_key ≡ n.dedupe_key)
    × (m.scheduled_for ≡ n.scheduled_for)
    × (is_scheduled n.status ≡ false → is_processing n.status ≡ false → m ≡ n)

Kept-refl : (n : Notification) → Kept n n
Kept-refl n = (refl, refl, refl, λ a b. refl)

Kept-trans : (l m n : Notification) → Kept l m → Kept m n → Kept l n
Kept-trans l m n h k = (
  ground (arith, h, k),
  ground (arith, h, k),
  ground (arith, h, k),
  λ a b. ground (arith, h.3 a b, k),
)

module _ (clock : Clock) (provider : Notification → Sending) where
  Handled-Kept :
      (n : Notification) (rows rows' : List Notification)
      → Handled clock provider n rows rows'
      → Rows Kept rows rows'
  Handled-Kept n rows _ (Handled.sends m) =
      Rows-update Kept Kept-refl (in_process n.id) (delivered_at clock.db_now m) rows
        (λ x p. (refl, refl, refl, λ a b. absurd (ground arith)))
  Handled-Kept n rows _ Handled.withdraws =
      Rows-update Kept Kept-refl (in_process n.id) (withdrawn clock.db_now) rows
        (λ x p. (refl, refl, refl, λ a b. absurd (ground arith)))
  Handled-Kept n rows _ Handled.defers =
      Rows-update Kept Kept-refl (in_process n.id)
        (deferred_row clock.db_now (clock.js_now + 3600000)) rows
        (λ x p. (refl, refl, refl, λ a b. absurd (ground arith)))
  Handled-Kept n rows _ Handled.retries =
      Rows-update Kept Kept-refl (in_process n.id)
        (retried_row clock.db_now (clock.js_now + backoff_seconds n.attempt_count * 1000)) rows
        (λ x p. (refl, refl, refl, λ a b. absurd (ground arith)))
  Handled-Kept n rows _ (Handled.gives_up e) =
      Rows-update Kept Kept-refl (in_process n.id) (given_up clock.db_now e) rows
        (λ x p. (refl, refl, refl, λ a b. absurd (ground arith)))

  process-Kept :
      (db : Db) (ns : List Notification) (run : ReminderRunSummary) (rows : List Notification)
      → Rows Kept rows (process_claimed clock provider db ns run rows).1
  unfolding process_claimed
  process-Kept db [] run rows = Rows-refl Kept Kept-refl rows
  process-Kept db (n ∷ ns) run rows =
      let v = reminder_eligibility clock db n in
      let s = act clock provider n v run rows in
      Rows-trans Kept Kept-trans rows s.1 _
        (Handled-Kept n rows s.1 (act-Handled clock provider n v run rows))
        (process-Kept db ns s.0 s.1)

claim-Kept :
    (clock : Clock) (limit : ℕ) (rows : List Notification)
    → Keyed notification_key rows
    → Rows Kept rows (claim_due_notifications clock limit rows).1
unfolding claim_due_notifications
claim-Kept clock limit rows keyed =
    Rows-update_due Kept Kept-refl (is_due clock.db_now)
      (in_rows notification_key (due_batch clock.db_now limit rows)) (claimed_row clock.db_now) rows
      (in_not-due notification_key send_order limit (is_due clock.db_now) rows keyed)
      (λ n h. (refl, refl, refl, λ a b. absurd (ground arith)))

module _ (provider : Notification → Sending) (db : Db) where
  -- However long the delivery of reminders takes, and whatever the provider does, it keeps the id,
  -- the dedupe key and the planned time of every row, and leaves a row that is neither SCHEDULED
  -- nor PROCESSING exactly as it is: a sent, failed or cancelled reminder is never sent again.
  pub deliver_reminders-Kept :
      (fuel : ℕ) (clocks : ℕ → Clock) (run : ReminderRunSummary) (rows : List Notification)
      → Keyed notification_key rows
      → {r : ReminderRunSummary × List Notification}
      → deliver_reminders fuel clocks provider db run rows ≡ some r
      → Rows Kept rows r.1
  unfolding deliver_reminders
  deliver_reminders-Kept zero clocks run rows keyed h = absurd (ground arith)
  deliver_reminders-Kept (suc fuel) clocks run rows keyed {r} h =
      elim (Bool-cases (ltb (length claim.0) notification_batch)) [
        | inl e ↦ over (rw (deliver_reminders, e) at h)
        | inr e ↦ Rows-trans Kept Kept-trans rows done.1 r.1 step (
            deliver_reminders-Kept fuel (λ i. clocks (suc i)) done.0 done.1 still {r = r}
              (rw (deliver_reminders, e) at h))
      ]
    where
      claim : List Notification × List Notification
      claim = claim_due_notifications (clocks 0) notification_batch rows

      counted : ReminderRunSummary
      counted = record run { claimed = run.claimed + length claim.0 }

      done : ReminderRunSummary × List Notification
      done = process_claimed (clocks 0) provider db claim.0 counted claim.1

      still : Keyed notification_key done.1
      still =
          process-Keyed (clocks 0) provider db claim.0 counted claim.1
            (claim-Keyed (clocks 0) notification_batch rows keyed)

      step : Rows Kept rows done.1
      step =
          Rows-trans Kept Kept-trans rows claim.1 done.1
            (claim-Kept (clocks 0) notification_batch rows keyed)
            (process-Kept (clocks 0) provider db claim.0 counted claim.1)

      over : some done ≡ some r → Rows Kept rows r.1
      over e = let same : done ≡ r = ground (arith, e) in rw (sym same) step
