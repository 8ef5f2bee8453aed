-- ===== src/Jobs/Completion.antt =====
-- The run of reminders ends with nothing due left and every claim accounted for.
use avtosh.Common.{
  ℕ, zero, suc, ◌+◌, ◌≤◌, ◌<◌, ◌≡◌, refl, subst, inl, inr, true, false, ◌&&◌, Option, none, some,
  List, ◌∷◌, [], arith, ltb, length, length-map, length-select_all, select_all, count, max_of,
  exists, in_rows, with_id, Keyed, count-batch, length-batch, count-update_out, count-update,
  count-ext, count_mono, Bool-cases, Option-cases,
}
use avtosh.Db.{Db, Clock}
use avtosh.Jobs.Notifications.{
  Notification, claim_due_notifications, is_due, due_batch, notification_key, send_order,
  claimed_row,
}
use avtosh.Jobs.Schedule.{
  Reminder, reminders, reminder_key, has_key, fresh_id, insert_one, insert_reminders,
  schedule_expiry_reminders,
}
use avtosh.Jobs.Reminders.{
  Sending, ReminderRunSummary, notification_batch, process_claimed, deliver_reminders,
  run_expiry_reminders, blank_run,
}
use avtosh.Jobs.Delivery.{outcomes, process-outcomes, process-is_due, process-Keyed}

later-is_due :
    (now end : ℕ) (n : Notification) → now ≤ end → is_due now n ≡ true → is_due end n ≡ true
later-is_due now end n h e = ground arith

module _ (clock : Clock) (limit : ℕ) (rows : List Notification)
    (keyed : Keyed notification_key rows) where
  abbrev picked : List Notification
  picked = due_batch clock.db_now limit rows

  claim-length : length (claim_due_notifications clock limit rows).0 ≡ length picked
  unfolding claim_due_notifications
  claim-length = omega (
    arith,
    length-map (claimed_row clock.db_now) (select_all (in_rows notification_key picked) rows),
    length-select_all (in_rows notification_key picked) rows,
    count-batch notification_key send_order limit (is_due clock.db_now) rows keyed (λ n. true)
        (λ n h. refl),
    count-ext (λ n. in_rows notification_key picked n && true) (in_rows notification_key picked)
        rows (λ n. ground arith),
  )

  claim-is_due :
      (end : ℕ)
      → clock.db_now ≤ end
      → end < clock.db_now + 300000
      → count (is_due end) (claim_due_notifications clock limit rows).1 + length picked
        ≡ count (is_due end) rows
  unfolding claim_due_notifications
  claim-is_due end h k = omega (
    arith,
    count-update_out (in_rows notification_key picked) (is_due end) (claimed_row clock.db_now) rows
        (λ n e. ground arith),
    count-batch notification_key send_order limit (is_due clock.db_now) rows keyed (is_due end)
        (λ n. later-is_due clock.db_now end n h),
  )

  pub claim-Keyed : Keyed notification_key (claim_due_notifications clock limit rows).1
  unfolding claim_due_notifications
  claim-Keyed i = omega (
    arith,
    keyed i,
    count-update (in_rows notification_key picked) (with_id notification_key i)
        (claimed_row clock.db_now) rows (λ n. refl),
  )

-- How a run ends that began with the summary `run`.
abbrev Ends : ℕ → ReminderRunSummary → Option (ReminderRunSummary × List Notification) → Type 0
Ends first run none = ⊥
Ends first run (some r) =
    (count (is_due first) r.1 ≡ 0) × (r.0.claimed + outcomes run ≡ run.claimed + outcomes r.0)

module _ (provider : Notification → Sending) (db : Db) (first end : ℕ) where
  -- The batches run from `first` to `end`, on both clocks.
  abbrev Within : (ℕ → Clock) → Type 0
  Within clocks =
      (i : ℕ)
      → (first ≤ (clocks i).db_now) × (first ≤ (clocks i).js_now) × ((clocks i).db_now ≤ end)

  deliver-Ends :
      end < first + 300000
      → (fuel : ℕ) (clocks : ℕ → Clock) (run : ReminderRunSummary) (rows : List Notification)
      → Within clocks
      → Keyed notification_key rows
      → count (is_due end) rows < fuel
      → Ends first run (deliver_reminders fuel clocks provider db run rows)
  unfolding deliver_reminders count
  deliver-Ends short zero clocks run rows within keyed h = absurd (omega (arith, h))
  deliver-Ends short (suc fuel) clocks run rows within keyed h =
      elim (Bool-cases (ltb (length claim.0) notification_batch)) [
        | inl e ↦ rw (deliver_reminders, e) (over (ground (arith, e)), tally)
        | inr e ↦
            rw (deliver_reminders, e)
              (continue _ (
                deliver-Ends short fuel (λ i. clocks (suc i)) done.0 done.1 (λ i. within (suc i))
                  still (less (full e))))
      ]
    where
      claim : List Notification × List Notification
      claim = claim_due_notifications (clocks 0) notification_batch rows

      counted : ReminderRunSummary
      counted = record run { claimed = run.claimed + length claim.0 }

      done : ReminderRunSummary × List Notification
      done = process_claimed (clocks 0) provider db claim.0 counted claim.1

      still : Keyed notification_key done.1
      still =
          process-Keyed (clocks 0) provider db claim.0 counted claim.1
            (claim-Keyed (clocks 0) notification_batch rows keyed)

      tally : done.0.claimed + outcomes run ≡ run.claimed + outcomes done.0
      tally = omega (arith, process-outcomes (clocks 0) provider db claim.0 counted claim.1)

      fewer :
          (t : ℕ)
          → (clocks 0).db_now ≤ t
          → t ≤ end
          → count (is_due t) done.1 + length claim.0 ≤ count (is_due t) rows
      fewer t a b = omega (
        arith,
        short,
        within 0,
        process-is_due (clocks 0) provider db t (omega (arith, short, within 0, b)) claim.0 counted
            claim.1,
        claim-is_due (clocks 0) notification_batch rows keyed t a
            (omega (arith, short, within 0, b)),
        claim-length (clocks 0) notification_batch rows keyed,
      )

      over : length claim.0 < 50 → count (is_due first) done.1 ≡ 0
      over small = omega (
        arith,
        small,
        fewer (clocks 0).db_now (omega arith) (within 0).2,
        claim-length (clocks 0) notification_batch rows keyed,
        length-batch notification_key send_order 50 (is_due (clocks 0).db_now) rows,
        count_mono (is_due first) (is_due (clocks 0).db_now) done.1
            (λ n. later-is_due first (clocks 0).db_now n (within 0).0),
      )

      full : ltb (length claim.0) 50 ≡ false → 50 ≤ length claim.0
      full e = ground (arith, e)

      less : 50 ≤ length claim.0 → count (is_due end) done.1 < fuel
      less f = omega (arith, f, h, fewer end (within 0).2 (omega arith))

      continue :
          (o : Option (ReminderRunSummary × List Notification))
          → Ends first done.0 o
          → Ends first run o
      continue none e = e
      continue (some r) e = (e.0, omega (arith, e.1, tally))

fresh_absent :
    (i : ℕ) (rows : List Notification)
    → max_of (λ n. true) (λ n. n.id) rows < i
    → count (with_id notification_key i) rows ≡ 0
unfolding count max_of
fresh_absent i [] h = refl
fresh_absent i (n ∷ rows) h = ground (arith, fresh_absent i rows)

insert_one-Keyed :
    (now : ℕ) (r : Reminder) (rows : List Notification)
    → Keyed notification_key rows
    → Keyed notification_key (insert_one now r rows).1
unfolding count
insert_one-Keyed now r rows keyed i = elim (Bool-cases (exists (has_key (reminder_key r)) rows)) [
  | inl e ↦ ground (arith, e, keyed i)
  | inr e ↦ ground (arith, e, keyed i, fresh_absent (fresh_id rows) rows (omega arith))
]

insert_reminders-Keyed :
    (now : ℕ) (rs : List Reminder) (rows : List Notification)
    → Keyed notification_key rows
    → Keyed notification_key (insert_reminders now rs rows).1
unfolding insert_reminders
insert_reminders-Keyed now [] rows keyed = keyed
insert_reminders-Keyed now (r ∷ rs) rows keyed =
    insert_reminders-Keyed now rs (insert_one now r rows).1 (insert_one-Keyed now r rows keyed)

schedule-Keyed :
    (clock : Clock) (db : Db) (rows : List Notification)
    → Keyed notification_key rows
    → Keyed notification_key (schedule_expiry_reminders clock db rows).1
unfolding schedule_expiry_reminders
schedule-Keyed clock db rows keyed =
    insert_reminders-Keyed clock.db_now (reminders clock.db_now db.listings db.periods) rows keyed

all_told : {a c : ℕ} → a + 0 ≡ 0 + c → c ≡ a
all_told h = omega (arith, h)

-- The loop of the run ends, whatever the provider does, where the run takes less than five minutes:
-- fuel for more batches than there are rows due by its end is enough. Then no row that was due when
-- it began is due any more, and every claimed row was sent, cancelled, deferred, retried or failed.
pub run_expiry_reminders_ends :
    (provider : Notification → Sending) (db : Db) (first end : ℕ) (clocks : ℕ → Clock)
    → Within provider db first end clocks
    → end < first + 300000
    → (rows : List Notification) → Keyed notification_key rows
    → (fuel : ℕ) → count (is_due end) (schedule_expiry_reminders (clocks 0) db rows).1 < fuel
    → (r : ReminderRunSummary × List Notification) × (run_expiry_reminders fuel clocks
          (some provider)
          db
          rows
        ≡ some r)
      × (count (is_due first) r.1 ≡ 0)
      × (outcomes r.0 ≡ r.0.claimed)
unfolding run_expiry_reminders
run_expiry_reminders_ends provider db first end clocks within short rows keyed fuel h =
    elim (Option-cases run) [
      | inl e ↦ absurd (subst (Ends first (blank_run true s.0)) e ends)
      | inr (r, e) ↦
          let d = subst (Ends first (blank_run true s.0)) e ends in (r, e, d.0, all_told d.1)
    ]
  where
    s : ℕ × List Notification
    s = schedule_expiry_reminders (clocks 0) db rows

    run : Option (ReminderRunSummary × List Notification)
    run = deliver_reminders fuel (λ i. clocks (suc i)) provider db (blank_run true s.0) s.1

    ends : Ends first (blank_run true s.0) run
    ends =
        deliver-Ends provider db first end short fuel (λ i. clocks (suc i)) (blank_run true s.0) s.1
          (λ i. within (suc i)) (schedule-Keyed (clocks 0) db rows keyed) h
