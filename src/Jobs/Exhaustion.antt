-- ===== src/Jobs/Exhaustion.antt =====
-- The expiry run clears the backlog, and expires nothing else.
use avtosh.Common.{
  ℕ, zero, suc, ◌+◌, ◌*◌, ◌≤◌, ◌<◌, ◌≡◌, refl, ◌⊎◌, inl, inr, true, false, ◌&&◌, not, List, arith,
  ltb, select_all, length, length-map, count, in_rows, with_id, Keyed, count-batch, length-batch,
  count-update_out, count-update, count-ext, count_mono, length-select_all, in_not-due, Rows,
  Rows-refl, Rows-trans, Rows-update_due, Bool-cases,
}
use avtosh.Db.{Db, Clock}
use avtosh.Db.Listings.{Listing, is_active}
use avtosh.Jobs.Expiry.{
  expire_listings_batch, expire_batches, run_listing_expiry, overdue, expiry_order, listing_key,
  due_listings, flippable, flipped, ExpiryRunSummary, expiry_batch,
}

later-overdue :
    (now end : ℕ) (l : Listing) → now ≤ end → overdue now l ≡ true → overdue end l ≡ true
later-overdue now end l h e = ground arith

module _ (clock : Clock) (limit : ℕ) (db : Db) (keyed : Keyed listing_key db.listings) where
  abbrev due : List Listing
  due = due_listings clock.db_now limit db.listings

  -- As many rows are returned as are due, up to the limit.
  length-batch_ids : length (expire_listings_batch clock limit db).0 ≡ length due
  unfolding expire_listings_batch
  length-batch_ids = ground (
    arith,
    length-map listing_key (select_all (flippable due) db.listings),
    length-select_all (flippable due) db.listings,
    count-batch listing_key expiry_order limit (overdue clock.db_now) db.listings keyed
        (λ l. is_active l.status) (λ l h. ground arith),
  )

  backlog :
      (end : ℕ)
      → clock.db_now ≤ end
      → count (overdue end) (expire_listings_batch clock limit db).1.listings + length due
        ≡ count (overdue end) db.listings
  unfolding expire_listings_batch
  backlog end h = omega (
    arith,
    count-update_out (flippable due) (overdue end) flipped db.listings (λ l e. ground arith),
    count-batch listing_key expiry_order limit (overdue clock.db_now) db.listings keyed
        (λ l. is_active l.status && overdue end l)
        (λ l e. ground (arith, later-overdue clock.db_now end l h)),
    count-ext (λ l. flippable due l && overdue end l)
        (λ l. in_rows listing_key due l && (is_active l.status && overdue end l)) db.listings
        (λ l. ground arith),
  )

  batch-Keyed : Keyed listing_key (expire_listings_batch clock limit db).1.listings
  unfolding expire_listings_batch
  batch-Keyed i = omega (
    arith,
    keyed i,
    count-update (flippable due) (with_id listing_key i) flipped db.listings (λ l. refl),
  )

-- What a run promises of a backlog that it starts with: none that was due at its start is left, the
-- count is of the rows that left the backlog, and the batches are within their number.
abbrev Cleared : ℕ → ℕ → ℕ → ExpiryRunSummary → Db → ExpiryRunSummary × Db → Type 0
Cleared first end left run db r =
    (count (overdue first) r.1.listings ≡ 0)
    × (r.0.expired + count (overdue end) r.1.listings
        ≡ run.expired + count (overdue end) db.listings)
    × (r.0.batches ≤ run.batches + left)

from_zero : {a b : ℕ} → a ≡ 0 + b → a ≡ b
from_zero h = omega (arith, h)

module _ (clocks : ℕ → Clock) (first end : ℕ) (from : (i : ℕ) → first ≤ (clocks i).db_now)
    (until : (i : ℕ) → (clocks i).db_now ≤ end) where
  clear_batches :
      (left : ℕ) (run : ExpiryRunSummary) (db : Db)
      → Keyed listing_key db.listings
      → count (overdue end) db.listings < left * expiry_batch
      → Cleared first end left run db (expire_batches clocks left run db)
  unfolding expire_batches count
  clear_batches zero run db keyed h = absurd (omega (arith, h))
  clear_batches (suc left) run db keyed h = elim (Bool-cases (ltb (length ids) expiry_batch)) [
    | inl e ↦
        rw (expire_batches, e)
          (omega (arith, cleared (ground (arith, e))), omega (arith, gone, size), omega arith)
    | inr e ↦
        rw (expire_batches, e)
          (let r =
              clear_batches left counted next (batch-Keyed clock expiry_batch db keyed)
                (omega (arith, h, gone, size, full e)) in
            (r.0, omega (arith, r.1, gone, size), omega (arith, r.2)))
  ]
    where
      clock : Clock
      clock = clocks run.batches

      ids : List ℕ
      ids = (expire_listings_batch clock expiry_batch db).0

      next : Db
      next = (expire_listings_batch clock expiry_batch db).1

      size : length ids ≡ length (due_listings clock.db_now expiry_batch db.listings)
      size = length-batch_ids clock expiry_batch db keyed

      gone :
          count (overdue end) next.listings
            + length (due_listings clock.db_now expiry_batch db.listings)
          ≡ count (overdue end) db.listings
      gone = backlog clock expiry_batch db keyed end (until run.batches)

      cleared : length ids < expiry_batch → count (overdue first) next.listings ≡ 0
      cleared short = omega (
        arith,
        short,
        size,
        length-batch listing_key expiry_order expiry_batch (overdue clock.db_now) db.listings,
        backlog clock expiry_batch db keyed clock.db_now (omega arith),
        count_mono (overdue first) (overdue clock.db_now) next.listings
            (λ l. later-overdue first clock.db_now l (from run.batches)),
      )

      counted : ExpiryRunSummary
      counted = record { expired = run.expired + length ids; batches = run.batches + 1 }

      full : ltb (length ids) expiry_batch ≡ false → expiry_batch ≤ length ids
      full e = ground (arith, e)

  -- A run over keyed listings, whose batches all start at or after `first` and by `end`, leaves no
  -- listing that was overdue at `first`, if fewer than 2000 are overdue by `end`. It reports exactly
  -- the listings that left the backlog, in at most 20 batches.
  pub run_listing_expiry_clears :
      (db : Db)
      → Keyed listing_key db.listings
      → count (overdue end) db.listings < 2000
      → let r = run_listing_expiry clocks db in
        (count (overdue first) r.1.listings ≡ 0)
        × (r.0.expired + count (overdue end) r.1.listings ≡ count (overdue end) db.listings)
        × (r.0.batches ≤ 20)
  unfolding run_listing_expiry
  run_listing_expiry_clears db keyed h =
      let r = clear_batches 20 (record { expired = 0; batches = 0 }) db keyed h in
      (r.0, from_zero r.1, r.2)

-- One listing over a run: left alone, or expired for good when it was ACTIVE and its time was over.
abbrev pub Expires : ℕ → Listing → Listing → Type 0
Expires end l m = (m ≡ l) ⊎ ((overdue end l ≡ true) × (m ≡ flipped l))

Expires-trans : (end : ℕ) (l m n : Listing) → Expires end l m → Expires end m n → Expires end l n
Expires-trans end l m n (inl e) k = ground (arith, e, k)
Expires-trans end l m n (inr e) (inl k) = inr (e.0, ground (arith, e, k))
Expires-trans end l m n (inr e) (inr k) = absurd (ground (arith, e, k))

batch-Expires :
    (clock : Clock) (limit end : ℕ) (db : Db)
    → Keyed listing_key db.listings
    → clock.db_now ≤ end
    → Rows (Expires end) db.listings (expire_listings_batch clock limit db).1.listings
unfolding expire_listings_batch
batch-Expires clock limit end db keyed h =
    Rows-update_due (Expires end) (λ l. inl refl) (overdue clock.db_now)
      (flippable (due_listings clock.db_now limit db.listings)) flipped db.listings
      (omega (
        arith,
        in_not-due listing_key expiry_order limit (overdue clock.db_now) db.listings keyed,
        count_mono
            (λ l.
              not (overdue clock.db_now l)
              && flippable (due_listings clock.db_now limit db.listings) l)
            (λ l.
              not (overdue clock.db_now l)
              && in_rows listing_key (due_listings clock.db_now limit db.listings) l)
            db.listings (λ l e. ground arith),
      ))
      (λ l e. inr (later-overdue clock.db_now end l h e, refl))

module _ (clocks : ℕ → Clock) (end : ℕ) (until : (i : ℕ) → (clocks i).db_now ≤ end) where
  batches-Expires :
      (left : ℕ) (run : ExpiryRunSummary) (db : Db)
      → Keyed listing_key db.listings
      → Rows (Expires end) db.listings (expire_batches clocks left run db).1.listings
  unfolding expire_batches
  batches-Expires zero run db keyed = Rows-refl (Expires end) (λ l. inl refl) db.listings
  batches-Expires (suc left) run db keyed =
      elim (Bool-cases
        (ltb (length (expire_listings_batch clock expiry_batch db).0) expiry_batch)) [
          | inl e ↦ rw (expire_batches, e) first
          | inr e ↦
              rw (expire_batches, e)
                (Rows-trans (Expires end) (Expires-trans end) db.listings next.listings _ first
                  (batches-Expires left counted next (batch-Keyed clock expiry_batch db keyed)))
        ]
    where
      clock : Clock
      clock = clocks run.batches

      next : Db
      next = (expire_listings_batch clock expiry_batch db).1

      counted : ExpiryRunSummary
      counted = record {
        expired = run.expired + length (expire_listings_batch clock expiry_batch db).0;
        batches = run.batches + 1;
      }

      first : Rows (Expires end) db.listings next.listings
      first = batch-Expires clock expiry_batch end db keyed (until run.batches)

  -- Over any number of batches by `end` each row of the keyed listings is either left exactly as it
  -- was, or was ACTIVE and overdue by `end` and changed nothing but its status, to EXPIRED.
  pub run_listing_expiry-Rows :
      (db : Db)
      → Keyed listing_key db.listings
      → Rows (Expires end) db.listings (run_listing_expiry clocks db).1.listings
  unfolding run_listing_expiry
  run_listing_expiry-Rows db keyed =
      batches-Expires 20 (record { expired = 0; batches = 0 }) db keyed
