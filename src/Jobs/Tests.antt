-- ===== src/Jobs/Tests.antt =====
-- The workers on small tables.
use avtosh.Common.{
  ℕ, ◌≤◌, ◌≡◌, refl, true, false, none, some, List, [], ◌∷◌, arith, count, Keyed, exists, select,
  select_all, update, sort_by, insert_by, batch, Rows,
}
use avtosh.Db.{Db, Clock}
use avtosh.Db.Payments.{
  Promotion, PromotionStatus, PromotionType, ListingPeriod, PeriodSource, PeriodStatus,
}
use avtosh.Samples.{two, shown, clock, late}
use avtosh.Jobs.Expiry.{listing_key, overdue, expire_listings_batch, run_listing_expiry}
use avtosh.Jobs.Exhaustion.{run_listing_expiry_clears, run_listing_expiry-Rows, Expires}
use avtosh.Jobs.Promotions.{promotion_key, to_be_ended, run_promotion_housekeeping}
use avtosh.Jobs.Windows.{run_promotion_housekeeping_syncs}
use avtosh.Jobs.Notifications.{
  claim_due_notifications, reminder_eligibility, mark_notification_sent, Notification,
  NotificationStatus, notification_key, is_due,
}
use avtosh.Jobs.Schedule.{schedule_expiry_reminders, send_at}
use avtosh.Jobs.Scheduling.{about, schedule_expiry_reminders_again}
use avtosh.Jobs.Planned.{Due}
use mathlib.Core.List.{Memᴰ}
use avtosh.Db.Listings.{Listing}
use avtosh.Lifecycle.Store.{of_id}
use avtosh.Jobs.Reminders.{
  ReminderRunSummary, process_claimed, Sending, deliver_reminders, run_expiry_reminders, blank_run,
}
use avtosh.Jobs.Delivery.{outcomes}
use avtosh.Jobs.Completion.{run_expiry_reminders_ends}
use avtosh.Jobs.Finality.{deliver_reminders-Kept, Kept}
use avtosh.Jobs.Cleanup.{
  claim_cleanup_events, clean_events, clean_event, clean_paths, is_image_path_referenced,
  mark_cleanup_event_processed, CleanupEvent, OutboxStatus, event_key, run_image_cleanup,
}
use avtosh.Jobs.Orphans.{run_image_cleanup-Safe}

two-Keyed : Keyed listing_key two.listings
unfolding count
two-Keyed i = ground arith

run_listing_expiry_clears_example :
    count (overdue 1000) (run_listing_expiry (λ i. late) two).1.listings ≡ 0
unfolding count
run_listing_expiry_clears_example =
    (run_listing_expiry_clears (λ i. late) 1000 1000 (λ i. omega arith) (λ i. omega arith) two
      two-Keyed (omega arith)).0

-- Both listings end at 1000.
expires_both : (run_listing_expiry (λ i. late) two).0.expired ≡ 2
unfolding run_listing_expiry expire_listings_batch select_all batch exists sort_by insert_by
expires_both = refl

run_listing_expiry-Rows_example :
    Rows (Expires 1000) two.listings (run_listing_expiry (λ i. late) two).1.listings
run_listing_expiry-Rows_example =
    run_listing_expiry-Rows (λ i. late) 1000 (λ i. omega arith) two two-Keyed

abbrev waiting_boost : Promotion
waiting_boost = record {
  id = 5;
  listing_id = 1;
  type = PromotionType.boost;
  package_id = some 3;
  payment_id = some 60;
  starts_at = 40;
  ends_at = 400;
  status = PromotionStatus.scheduled;
  purchased_duration_days = 1;
  purchased_price_minor = 100;
  campaign_id = none;
}

-- One opens, one is over.
abbrev boosts : List Promotion
boosts =
    waiting_boost
    ∷ record waiting_boost { id = 6; ends_at = 45; status = PromotionStatus.active }
    ∷ []

boosts-Keyed : Keyed promotion_key boosts
unfolding count
boosts-Keyed i = ground arith

run_promotion_housekeeping_syncs_example :
    count (to_be_ended 50) (run_promotion_housekeeping (λ i. clock) boosts).1 ≡ 0
unfolding count
run_promotion_housekeeping_syncs_example =
    (run_promotion_housekeeping_syncs clock boosts boosts-Keyed (omega arith)).1

abbrev current : ListingPeriod
current = record {
  id = 9;
  listing_id = 1;
  period_number = 1;
  source = PeriodSource.initial;
  status = PeriodStatus.active;
  starts_at = 0;
  ends_at = 1000000000;
  payment_id = none;
}

-- The listing ends at 1000000000, eleven and a half days from the start.
abbrev reminding : Db
reminding = record two {
  listings = record shown { current_expires_at = some 1000000000 } ∷ [];
  periods = current ∷ [];
}

-- A day before its local day, at six o'clock UTC.
send_a_day_before : send_at 1000000000 1 ≡ 885600000
unfolding send_at
send_a_day_before = refl

abbrev at : ℕ → Clock
at t = record { db_now = t; js_now = t }

abbrev ending : Listing
ending = record shown { current_expires_at = some 1000000000 }

found_ending : select (of_id 1) reminding.listings ≡ some ending
unfolding select
found_ending = refl

a_day_before : Due 300000000 ending current 1
unfolding send_at
a_day_before = record {
  active = refl;
  running = refl;
  current = refl;
  ahead = (omega arith);
  near = (omega arith);
  upcoming = (omega arith);
  in_time = (omega arith);
}

none_twice : (k d : ℕ) → count (about k d) [] ≤ 1
unfolding count
none_twice k d = omega arith

schedule_expiry_reminders_again_example :
    count (about 9 1) (schedule_expiry_reminders (at 300000000) reminding []).1 ≡ 1
schedule_expiry_reminders_again_example =
    (schedule_expiry_reminders_again (at 300000000) reminding [] tt none_twice).2 current ending 1
      (Memᴰ.head refl) (Memᴰ.tail (Memᴰ.tail (Memᴰ.tail (Memᴰ.head refl)))) found_ending
      a_day_before

abbrev reminder : Notification
reminder = record {
  id = 1;
  user_id = 7;
  listing_id = some 1;
  listing_period_id = some 9;
  scheduled_for = 885600000;
  sent_at = none;
  status = NotificationStatus.scheduled;
  provider_message_id = none;
  provider_error_code = none;
  dedupe_key = (9, 1);
  attempt_count = 0;
  next_retry_at = none;
  is_withdrawn = false;
  updated_at = 300000000;
}

abbrev reminders_due : List Notification
reminders_due =
    reminder
    ∷ record reminder { id = 2; dedupe_key = (8, 1); status = NotificationStatus.sent }
    ∷ []

reminders_due-Keyed : Keyed notification_key reminders_due
unfolding count
reminders_due-Keyed i = ground arith

abbrev provider : Notification → Sending
provider n = Sending.message (some 3)

run_expiry_reminders_ends_example :
    (r : ReminderRunSummary × List Notification) × (run_expiry_reminders 3
        (λ i. at 900000000)
        (some provider)
        two
        reminders_due
      ≡ some r)
    × (count (is_due 900000000) r.1 ≡ 0)
    × (outcomes r.0 ≡ r.0.claimed)
unfolding schedule_expiry_reminders count
run_expiry_reminders_ends_example =
    run_expiry_reminders_ends provider two 900000000 900000000 (λ i. at 900000000)
      (λ i. (omega arith, omega arith, omega arith)) (omega arith) reminders_due reminders_due-Keyed
      3 (omega arith)

-- The sent reminder stays; the other is sent in its first attempt.
deliver_reminders-Kept_example : Rows Kept reminders_due (
    record reminder {
      status = NotificationStatus.sent;
      sent_at = some 900000000;
      provider_message_id = some 3;
      attempt_count = 1;
      updated_at = 900000000;
    }
    ∷ record reminder { id = 2; dedupe_key = (8, 1); status = NotificationStatus.sent }
    ∷ [])
unfolding deliver_reminders claim_due_notifications process_claimed reminder_eligibility
    mark_notification_sent select_all update exists batch sort_by insert_by select
deliver_reminders-Kept_example =
    deliver_reminders-Kept provider
      (record reminding { listings = record shown { current_expires_at = some 1000000000 } ∷ [] }) 1
      (λ i. at 900000000) (blank_run true 0) reminders_due reminders_due-Keyed
      {r = (record (blank_run true 0) { claimed = 1; sent = 1 }, _)} refl

abbrev removed : CleanupEvent
removed = record {
  id = 1;
  is_cleanup_type = true;
  status = OutboxStatus.pending;
  attempt_count = 0;
  available_at = 0;
  processed_at = none;
  created_at = 0;
  cleanup_candidate_paths = 70 ∷ 71 ∷ [];
}

abbrev galleries : Db
galleries = record two {
  listing_images =
      (record { id = 1; owner = 1; storage_path = 70; sort_order = 0; is_primary = true }) ∷ [];
}

-- Of the two candidates the gallery still names 70; a snapshot names 72.
deletes_the_orphan :
    (run_image_cleanup
      (λ i. clock)
      0
      (λ p. true)
      galleries
      ((72 ∷ []) ∷ [])
      (removed ∷ [])).requests
    ≡ 71 ∷ []
unfolding run_image_cleanup claim_cleanup_events clean_events clean_event clean_paths
    is_image_path_referenced mark_cleanup_event_processed select_all update exists batch sort_by
    insert_by
deletes_the_orphan = refl

removed-Keyed : Keyed event_key (removed ∷ [])
unfolding count
removed-Keyed i = ground arith

run_image_cleanup-Safe_example :
    (run_image_cleanup (λ i. clock) 0 (λ p. true) galleries [] (removed ∷ [])).summary.events ≤ 200
run_image_cleanup-Safe_example =
    (run_image_cleanup-Safe (λ p. true) galleries [] (λ i. clock) 0 (removed ∷ []) removed-Keyed).1
