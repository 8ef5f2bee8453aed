-- ===== src/Jobs/Planned.antt =====
-- Which reminders a scheduler plans: the conditions of the select, written out.
use mathlib.Core.List.{Memᴰ}
use avtosh.Common.{
  ℕ, ◌/◌, ◌+◌, ◌*◌, ◌≤◌, ◌<◌, ◌≡◌, refl, sym, ap, inl, inr, true, Option, none, some, List, [], ◌∷◌,
  ◌++◌, arith, ltb, ◌&&◌, exists, All, Bool-cases, Option-cases, select, ==_refl,
}
use avtosh.Db.{Db}
use avtosh.Db.Listings.{Listing, ListingStatus}
use avtosh.Db.Payments.{ListingPeriod, PeriodStatus}
use avtosh.Lifecycle.Store.{of_id}
use avtosh.Payment.Periods.{ms_per_day}
use avtosh.Jobs.Notifications.{Notification, NotificationStatus, same_instant}
use avtosh.Jobs.Schedule.{
  offsets_days, ms_per_hour, send_at, remindable, Reminder, reminder_key, period_reminders,
  reminders, new_notification, insert_one, insert_reminders, has_key, fresh_id, joined,
}

-- A reminder `d` days before the end of period `p` is to be planned now.
pub record Due (now : ℕ) (l : Listing) (p : ListingPeriod) (d : ℕ) : Type 0 where
  pub active : l.status ≡ ListingStatus.active
  pub running : p.status ≡ PeriodStatus.active
  pub current : l.current_expires_at ≡ some p.ends_at
  pub ahead : now < p.ends_at
  pub near : p.ends_at ≤ now + 9 * ms_per_day
  pub upcoming : now < send_at p.ends_at d
  pub in_time : send_at p.ends_at d < p.ends_at

abbrev pub due_reminder : Listing → ListingPeriod → ℕ → Reminder
due_reminder l p d = record {
  owner_id = l.owner_id;
  listing_id = l.id;
  period_id = p.id;
  offset_days = d;
  at = send_at p.ends_at d;
}

-- Ten o'clock, four hours ahead of UTC, of the day that is so many before the one of the end.
abbrev pub IsMorning : ℕ → ℕ → ℕ → Type 0
IsMorning ends_at offset at =
    at + offset * ms_per_day + 4 * ms_per_hour
    ≡ (ends_at + 4 * ms_per_hour) / ms_per_day * ms_per_day + 10 * ms_per_hour

send_at-IsMorning :
    (now ends_at offset : ℕ)
    → now < send_at ends_at offset
    → IsMorning ends_at offset (send_at ends_at offset)
unfolding send_at
send_at-IsMorning now ends_at offset h = omega (arith, h)

-- A row that a run has inserted, and why.
pub record Rightly (now : ℕ) (db : Db) (n : Notification) : Type 0 where
  pub period : ListingPeriod
  pub listing : Listing
  pub offset : ℕ
  pub known : Memᴰ period db.periods
  pub offered : Memᴰ offset offsets_days
  pub of_period : select (of_id period.listing_id) db.listings ≡ some listing
  pub due : Due now listing period offset
  pub recipient : n.user_id ≡ listing.owner_id
  pub about_listing : n.listing_id ≡ some listing.id
  pub about_period : n.listing_period_id ≡ some period.id
  pub planned_for : n.scheduled_for ≡ send_at period.ends_at offset
  pub morning : IsMorning period.ends_at offset n.scheduled_for
  pub keyed : n.dedupe_key ≡ (period.id, offset)
  pub waiting : n.status ≡ NotificationStatus.scheduled

abbrev Planned : ℕ → List Listing → List ListingPeriod → Reminder → Type 0
Planned now listings periods r =
    (p : ListingPeriod) × (l : Listing) × (d : ℕ) × Memᴰ p periods
    × Memᴰ d offsets_days
    × (select (of_id p.listing_id) listings ≡ some l)
    × Due now l p d
    × (r ≡ due_reminder l p d)

same_instant_eq : (o : Option ℕ) (t : ℕ) → same_instant o t ≡ true → o ≡ some t
same_instant_eq none t h = absurd (ground (arith, h))
same_instant_eq (some s) t h = ground (arith, h)

is-Due :
    (now : ℕ) (l : Listing) (p : ListingPeriod) (d : ℕ)
    → (remindable now l p && ltb now (send_at p.ends_at d) && ltb (send_at p.ends_at d) p.ends_at)
      ≡ true
    → Due now l p d
is-Due now l p d h = record {
  active = (ground (arith, h));
  running = (ground (arith, h));
  current = same_instant_eq l.current_expires_at p.ends_at (ground (arith, h));
  ahead = (ground (arith, h));
  near = (ground (arith, h));
  upcoming = (ground (arith, h));
  in_time = (ground (arith, h));
}

Due-test :
    (now : ℕ) (l : Listing) (p : ListingPeriod) (d : ℕ)
    → Due now l p d
    → (remindable now l p && ltb now (send_at p.ends_at d) && ltb (send_at p.ends_at d) p.ends_at)
      ≡ true
Due-test now l p d due = ground (
  arith,
  due.active,
  due.running,
  due.current,
  due.ahead,
  due.near,
  due.upcoming,
  due.in_time,
  ==_refl p.ends_at,
)

All-append : {A : Type 0} (P : A → Type 0) (xs ys : List A) → All P xs → All P ys → All P (xs ++ ys)
All-append P [] ys h k = k
All-append P (x ∷ xs) ys h k = (h.0, All-append P xs ys h.1 k)

Memᴰ-append : {A : Type 0} (x : A) (xs ys : List A) → Memᴰ x xs → Memᴰ x (xs ++ ys)
Memᴰ-append x [] ys m = elim m [ ]
Memᴰ-append x (y ∷ xs) ys (Memᴰ.head e) = Memᴰ.head e
Memᴰ-append x (y ∷ xs) ys (Memᴰ.tail m) = Memᴰ.tail (Memᴰ-append x xs ys m)

append-Memᴰ : {A : Type 0} (x : A) (xs ys : List A) → Memᴰ x ys → Memᴰ x (xs ++ ys)
append-Memᴰ x [] ys m = m
append-Memᴰ x (y ∷ xs) ys m = Memᴰ.tail (append-Memᴰ x xs ys m)

module _ (now : ℕ) (listings : List Listing) (all : List ListingPeriod) where
  period-Planned :
      (p : ListingPeriod) (l : Listing) (ds : List ℕ)
      → Memᴰ p all
      → select (of_id p.listing_id) listings ≡ some l
      → ((d : ℕ) → Memᴰ d ds → Memᴰ d offsets_days)
      → All (Planned now listings all) (period_reminders now l p ds)
  unfolding period_reminders
  period-Planned p l [] known found offered = tt
  period-Planned p l (d ∷ ds) known found offered =
      let rest = period-Planned p l ds known found (λ e m. offered e (Memᴰ.tail m)) in
      elim (Bool-cases (
        remindable now l p
        && ltb now (send_at p.ends_at d)
        && ltb (send_at p.ends_at d) p.ends_at)) [
          | inl t ↦
              rw t (
                (p, l, d, known, offered d (Memᴰ.head refl), found, is-Due now l p d t, refl),
                rest,
              )
          | inr t ↦ rw t rest
        ]

  all-Planned :
      (ps : List ListingPeriod)
      → ((p : ListingPeriod) → Memᴰ p ps → Memᴰ p all)
      → All (Planned now listings all) (reminders now listings ps)
  unfolding reminders
  all-Planned [] into = tt
  all-Planned (p ∷ ps) into =
      let rest = all-Planned ps (λ q m. into q (Memᴰ.tail m)) in
      elim (Option-cases (select (of_id p.listing_id) listings)) [
        | inl z ↦ rw z rest
        | inr (l, z) ↦ rw z (
            All-append (Planned now listings all) (period_reminders now l p offsets_days)
              (reminders now listings ps)
              (period-Planned p l offsets_days (into p (Memᴰ.head refl)) z (λ d m. m)) rest)
      ]

period-complete :
    (now : ℕ) (l : Listing) (p : ListingPeriod) (d : ℕ) (ds : List ℕ)
    → Memᴰ d ds
    → Due now l p d
    → Memᴰ (due_reminder l p d) (period_reminders now l p ds)
unfolding period_reminders
period-complete now l p d [] m due = elim m [ ]
period-complete now l p d (e ∷ ds) (Memᴰ.head q) due =
    rw (sym q) (rw (Due-test now l p d due) (Memᴰ.head refl))
period-complete now l p d (e ∷ ds) (Memᴰ.tail m) due =
    let rest = period-complete now l p d ds m due in
    elim (Bool-cases (
      remindable now l p && ltb now (send_at p.ends_at e) && ltb (send_at p.ends_at e) p.ends_at)) [
        | inl t ↦ rw t (Memᴰ.tail rest)
        | inr t ↦ rw t rest
      ]

pub reminders-complete :
    (now : ℕ) (listings : List Listing) (ps : List ListingPeriod) (p : ListingPeriod) (l : Listing)
    (d : ℕ)
    → Memᴰ p ps
    → Memᴰ d offsets_days
    → select (of_id p.listing_id) listings ≡ some l
    → Due now l p d
    → Memᴰ (due_reminder l p d) (reminders now listings ps)
unfolding reminders
reminders-complete now listings [] p l d k m found due = elim k [ ]
reminders-complete now listings (q ∷ ps) p l d (Memᴰ.head e) m found due = rw (sym e) (
    rw found (
      Memᴰ-append (due_reminder l p d) (period_reminders now l p offsets_days)
        (reminders now listings ps) (period-complete now l p d offsets_days m due)))
reminders-complete now listings (q ∷ ps) p l d (Memᴰ.tail k) m found due =
    append-Memᴰ (due_reminder l p d) (joined now (select (of_id q.listing_id) listings) q)
      (reminders now listings ps) (reminders-complete now listings ps p l d k m found due)

-- The rows of the run in front of those that were there.
abbrev pub Fresh : ℕ → Db → List Notification → List Notification → Type 0
Fresh now db rows after_it =
    (fresh : List Notification) × (after_it ≡ fresh ++ rows) × All (Rightly now db) fresh

-- What is inserted is planned.
insert-Fresh :
    (now : ℕ) (db : Db) (rs : List Reminder) (old rows : List Notification)
    → All (Planned now db.listings db.periods) rs
    → Fresh now db old rows
    → Fresh now db old (insert_reminders now rs rows).1
unfolding insert_reminders
insert-Fresh now db [] old rows h f = f
insert-Fresh now db (r ∷ rs) old rows h f =
    insert-Fresh now db rs old (insert_one now r rows).1 h.1 one
  where
    one : Fresh now db old (insert_one now r rows).1
    one = elim (Bool-cases (exists (has_key (reminder_key r)) rows)) [
      | inl e ↦ rw e f
      | inr e ↦
          let (p, l, d, known, offered, found, due, same) = h.0 in
          let (fresh, split, all) = f in
          rw e (
            new_notification now (fresh_id rows) r ∷ fresh,
            ap (λ t. new_notification now (fresh_id rows) r ∷ t) split,
            (
              record {
                period = p;
                listing = l;
                offset = d;
                known = known;
                offered = offered;
                of_period = found;
                due = due;
                recipient = ap (λ t. t.owner_id) same;
                about_listing = ap (λ t. some t.listing_id) same;
                about_period = ap (λ t. some t.period_id) same;
                planned_for = ap (λ t. t.at) same;
                morning = rw (ap (λ t. t.at) same) (send_at-IsMorning now p.ends_at d due.upcoming);
                keyed = ap (λ t. reminder_key t) same;
                waiting = refl;
              },
              all,
            ),
          )
    ]

pub reminders-Rightly :
    (now : ℕ) (db : Db) (rows : List Notification)
    → Fresh now db rows (insert_reminders now (reminders now db.listings db.periods) rows).1
reminders-Rightly now db rows =
    insert-Fresh now db (reminders now db.listings db.periods) rows rows
      (all-Planned now db.listings db.periods db.periods (λ p m. m)) ([], refl, tt)
