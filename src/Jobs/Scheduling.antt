-- ===== src/Jobs/Scheduling.antt =====
-- Reminders are scheduled, and once.
use avtosh.Common.{
  exists-count, ℕ, ◌≤◌, ◌≡◌, refl, true, false, List, [], ◌∷◌, arith, exists, count, All,
  Bool-cases, inl, inr, count_empty, exists-select, some, select, Bool, ◌&&◌, ◌==◌,
}
use mathlib.Core.List.{Memᴰ}
use avtosh.Lifecycle.Store.{of_id}
use avtosh.Jobs.Planned.{Due, due_reminder, Fresh, reminders-complete, reminders-Rightly}
use avtosh.Db.Listings.{Listing}
use avtosh.Db.Payments.{ListingPeriod}
use avtosh.Db.{Db, Clock}
use avtosh.Jobs.Notifications.{Notification, same_instant}
use avtosh.Jobs.Schedule.{
  Reminder, reminder_key, reminders, has_key, insert_one, insert_reminders,
  schedule_expiry_reminders, offsets_days,
}

abbrev Present : List Notification → Reminder → Type 0
Present rows r = exists (has_key (reminder_key r)) rows ≡ true

one-Present :
    (now : ℕ) (r : Reminder) (rows : List Notification) → Present (insert_one now r rows).1 r
unfolding exists
one-Present now r rows = ground arith

kept-Present :
    (now : ℕ) (r s : Reminder) (rows : List Notification)
    → Present rows s
    → Present (insert_one now r rows).1 s
unfolding exists
kept-Present now r s rows h = ground arith

all_kept :
    (now : ℕ) (rs : List Reminder) (s : Reminder) (rows : List Notification)
    → Present rows s
    → Present (insert_reminders now rs rows).1 s
unfolding insert_reminders
all_kept now [] s rows h = h
all_kept now (r ∷ rs) s rows h =
    all_kept now rs s (insert_one now r rows).1 (kept-Present now r s rows h)

all-Present :
    (now : ℕ) (rs : List Reminder) (rows : List Notification)
    → All (Present (insert_reminders now rs rows).1) rs
unfolding insert_reminders
all-Present now [] rows = tt
all-Present now (r ∷ rs) rows = (
  all_kept now rs r (insert_one now r rows).1 (one-Present now r rows),
  all-Present now rs (insert_one now r rows).1,
)

none_inserted :
    (now : ℕ) (rs : List Reminder) (rows : List Notification)
    → All (Present rows) rs
    → insert_reminders now rs rows ≡ (0, rows)
unfolding insert_reminders
none_inserted now [] rows h = refl
none_inserted now (r ∷ rs) rows h = ground (arith, h.0, none_inserted now rs rows h.1)

one-OneKey :
    (now : ℕ) (r : Reminder) (k : ℕ × ℕ) (rows : List Notification)
    → count (has_key k) rows ≤ 1
    → count (has_key k) (insert_one now r rows).1 ≤ 1
unfolding count
one-OneKey now r (a, b) rows h = elim (Bool-cases (exists (has_key (reminder_key r)) rows)) [
  | inl e ↦ ground (arith, e)
  | inr e ↦ ground (arith, e, absent)
]
  where
    absent : exists (has_key (a, b)) rows ≡ false → count (has_key (a, b)) rows ≡ 0
    absent z =
        count_empty (has_key (a, b)) rows (ground (arith, exists-select (has_key (a, b)) rows))

abbrev OneKey : List Notification → Type 0
OneKey rows = (k : ℕ × ℕ) → count (has_key k) rows ≤ 1

all-OneKey :
    (now : ℕ) (rs : List Reminder) (rows : List Notification)
    → OneKey rows
    → OneKey (insert_reminders now rs rows).1
unfolding insert_reminders
all-OneKey now [] rows h k = h k
all-OneKey now (r ∷ rs) rows h k =
    all-OneKey now rs (insert_one now r rows).1 (λ j. one-OneKey now r j rows (h j)) k

-- A row is keyed by the period that it reminds of.
abbrev pub KeyedRow : Notification → Type 0
KeyedRow n = n.listing_period_id ≡ some (n.dedupe_key.0)

-- A reminder that period `k` ends, `d` days before it does.
abbrev pub about : ℕ → ℕ → Notification → Bool
about k d n = same_instant n.listing_period_id k && (n.dedupe_key.1 == d)

insert-KeyedRow :
    (now : ℕ) (rs : List Reminder) (rows : List Notification)
    → All KeyedRow rows
    → All KeyedRow (insert_reminders now rs rows).1
unfolding insert_reminders
insert-KeyedRow now [] rows h = h
insert-KeyedRow now (r ∷ rs) rows h =
    insert-KeyedRow now rs (insert_one now r rows).1
      (elim (Bool-cases (exists (has_key (reminder_key r)) rows)) [
        | inl e ↦ rw e h
        | inr e ↦ rw e (refl, h)
      ])

about-has_key :
    (k d : ℕ) (rows : List Notification)
    → All KeyedRow rows
    → count (about k d) rows ≡ count (has_key (k, d)) rows
unfolding count
about-has_key k d [] h = refl
about-has_key k d (n ∷ ns) h = ground (arith, h.0, about-has_key k d ns h.1)

Present-Memᴰ :
    (rows : List Notification) (rs : List Reminder) (r : Reminder)
    → All (Present rows) rs
    → Memᴰ r rs
    → Present rows r
Present-Memᴰ rows [] r h m = elim m [ ]
Present-Memᴰ rows (s ∷ rs) r h (Memᴰ.head e) = rw e (h.0)
Present-Memᴰ rows (s ∷ rs) r h (Memᴰ.tail m) = Present-Memᴰ rows rs r h.1 m

module _ (clock : Clock) (db : Db) (rows : List Notification) where
  -- If the rows of reminders name the period of their key, and no period has two of one offset, a
  -- run of the scheduler leaves exactly one reminder of each period and offset that is due: one of
  -- an active listing's active period that is the listing's current term and ends within nine days,
  -- whose time of sending is ahead and before the end. The rows it adds are all of such a pair, go
  -- to the owner at ten o'clock, four hours ahead of UTC, of the day that is so many before the one
  -- of the end, and wait; the rows before stay as they were. No period has two of one offset then,
  -- and a run again over the same listings and periods at the same time inserts nothing.
  pub schedule_expiry_reminders_again :
      All KeyedRow rows
      → ((k d : ℕ) → count (about k d) rows ≤ 1)
      → let r = schedule_expiry_reminders clock db rows in
        (schedule_expiry_reminders clock db r.1 ≡ (0, r.1))
        × ((k d : ℕ) → count (about k d) r.1 ≤ 1)
        × ((p : ListingPeriod) (l : Listing) (d : ℕ)
            → Memᴰ p db.periods
            → Memᴰ d offsets_days
            → select (of_id p.listing_id) db.listings ≡ some l
            → Due clock.db_now l p d
            → count (about p.id d) r.1 ≡ 1)
        × Fresh clock.db_now db rows r.1
  unfolding schedule_expiry_reminders
  schedule_expiry_reminders_again keyed one = (
    none_inserted clock.db_now candidates _ present,
    single,
    λ p l d known offered found due.
        let there = exists-count (has_key (p.id, d)) done (
          Present-Memᴰ done candidates (due_reminder l p d) present (
            reminders-complete clock.db_now db.listings db.periods p l d known offered found
              due)) in
        omega (arith, single p.id d, there, about-has_key p.id d done keyed_done),
    reminders-Rightly clock.db_now db rows,
  )
    where
      candidates : List Reminder
      candidates = reminders clock.db_now db.listings db.periods

      done : List Notification
      done = (insert_reminders clock.db_now candidates rows).1

      present : All (Present done) candidates
      present = all-Present clock.db_now candidates rows

      keyed_done : All KeyedRow done
      keyed_done = insert-KeyedRow clock.db_now candidates rows keyed

      single : (k d : ℕ) → count (about k d) done ≤ 1
      single k d =
          let before : OneKey rows =
            λ (a, b). omega (arith, one a b, about-has_key a b rows keyed) in
          omega (
            arith,
            about-has_key k d done keyed_done,
            all-OneKey clock.db_now candidates rows before (k, d),
          )
