-- ===== src/Jobs/Windows.antt =====
-- After the housekeeping the status of every promotion says what its window does.
use avtosh.Common.{
  ℕ, zero, suc, ◌+◌, ◌*◌, ◌≤◌, ◌<◌, ◌≡◌, refl, inl, inr, true, false, ◌&&◌, List, arith, ltb,
  length, length-select_all, select_all, count, update, in_rows, with_id, Keyed, count-batch,
  length-batch, count-update_out, count-update_same, count-update, count-update-le, count-ext,
  Bool-cases,
}
use avtosh.Db.{Clock}
use avtosh.Db.Payments.{Promotion, is_live}
use avtosh.Jobs.Promotions.{
  promotion_key, no_order, to_be_started, to_be_ended, activated_promotion, ended_promotion,
  to_start, to_end, still_waiting, still_live, is_waiting, PromotionHousekeepingSummary,
  promotion_housekeeping_batch, housekeeping_batches, run_promotion_housekeeping, promotion_batch,
}

module _ (now limit : ℕ) (rows : List Promotion) (keyed : Keyed promotion_key rows) where
  abbrev starts : List Promotion
  starts = to_start now limit rows

  abbrev ends : List Promotion
  ends = to_end now limit rows

  start-count :
      (length (select_all (still_waiting starts) rows) ≡ length starts)
      × (count (to_be_started now) (update (still_waiting starts) activated_promotion rows)
            + length starts
          ≡ count (to_be_started now) rows)
      × (count (to_be_ended now) (update (still_waiting starts) activated_promotion rows)
          ≡ count (to_be_ended now) rows)
      × Keyed promotion_key (update (still_waiting starts) activated_promotion rows)
  start-count = (
    omega (
      arith,
      length-select_all (still_waiting starts) rows,
      count-batch promotion_key no_order limit (to_be_started now) rows keyed
          (λ p. is_waiting p.status) (λ p h. ground arith),
    ),
    omega (
      arith,
      count-update_out (still_waiting starts) (to_be_started now) activated_promotion rows
          (λ p h. ground arith),
      count-batch promotion_key no_order limit (to_be_started now) rows keyed
          (λ p. is_waiting p.status && to_be_started now p) (λ p h. ground arith),
      count-ext (λ p. still_waiting starts p && to_be_started now p)
          (λ p. in_rows promotion_key starts p && (is_waiting p.status && to_be_started now p)) rows
          (λ p. ground arith),
    ),
    count-update_same (still_waiting starts) (to_be_ended now) activated_promotion rows
        (λ p h. ground arith),
    λ i. omega (
      arith,
      keyed i,
      count-update (still_waiting starts) (with_id promotion_key i) activated_promotion rows
          (λ p. refl),
    ),
  )

  end-count :
      (length (select_all (still_live ends) rows) ≡ length ends)
      × (count (to_be_ended now) (update (still_live ends) ended_promotion rows) + length ends
          ≡ count (to_be_ended now) rows)
      × (count (to_be_started now) (update (still_live ends) ended_promotion rows)
          ≤ count (to_be_started now) rows)
      × Keyed promotion_key (update (still_live ends) ended_promotion rows)
  end-count = (
    omega (
      arith,
      length-select_all (still_live ends) rows,
      count-batch promotion_key no_order limit (to_be_ended now) rows keyed (λ p. is_live p.status)
          (λ p h. ground arith),
    ),
    omega (
      arith,
      count-update_out (still_live ends) (to_be_ended now) ended_promotion rows
          (λ p h. ground arith),
      count-batch promotion_key no_order limit (to_be_ended now) rows keyed
          (λ p. is_live p.status && to_be_ended now p) (λ p h. ground arith),
      count-ext (λ p. still_live ends p && to_be_ended now p)
          (λ p. in_rows promotion_key ends p && (is_live p.status && to_be_ended now p)) rows
          (λ p. ground arith),
    ),
    count-update-le (still_live ends) (to_be_started now) ended_promotion rows
        (λ p h k. ground arith),
    λ i. omega (
      arith,
      keyed i,
      count-update (still_live ends) (with_id promotion_key i) ended_promotion rows (λ p. refl),
    ),
  )

-- What one transaction does to the rows that wait for a change of status.
module _ (clock : Clock) (rows : List Promotion) (keyed : Keyed promotion_key rows) where
  abbrev waiting : List Promotion → ℕ
  waiting l = count (to_be_started clock.db_now) l + count (to_be_ended clock.db_now) l

  step-waiting :
      let r = promotion_housekeeping_batch clock 200 rows in
      (waiting r.1 + (r.0.activated + r.0.expired) ≤ waiting rows)
      × (r.0.activated < 200 → r.0.expired < 200 → waiting r.1 ≡ 0)
      × Keyed promotion_key r.1
  unfolding promotion_housekeeping_batch
  step-waiting = (
    omega (arith, a.0, a.1, a.2, b.0, b.1, b.2),
    λ s t. omega (
      arith,
      s,
      t,
      a.0,
      a.1,
      a.2,
      b.0,
      b.1,
      b.2,
      length-batch promotion_key no_order 200 (to_be_started clock.db_now) rows,
      length-batch promotion_key no_order 200 (to_be_ended clock.db_now) middle,
    ),
    b.3,
  )
    where
      middle : List Promotion
      middle = update (still_waiting (to_start clock.db_now 200 rows)) activated_promotion rows

      a :
          (length (select_all (still_waiting (to_start clock.db_now 200 rows)) rows)
            ≡ length (to_start clock.db_now 200 rows))
          × (count (to_be_started clock.db_now) middle + length (to_start clock.db_now 200 rows)
              ≡ count (to_be_started clock.db_now) rows)
          × (count (to_be_ended clock.db_now) middle ≡ count (to_be_ended clock.db_now) rows)
          × Keyed promotion_key middle
      a = start-count clock.db_now 200 rows keyed

      b :
          (length (select_all (still_live (to_end clock.db_now 200 middle)) middle)
            ≡ length (to_end clock.db_now 200 middle))
          × (count
                  (to_be_ended clock.db_now)
                  (update (still_live (to_end clock.db_now 200 middle)) ended_promotion middle)
                + length (to_end clock.db_now 200 middle)
              ≡ count (to_be_ended clock.db_now) middle)
          × (count
                (to_be_started clock.db_now)
                (update (still_live (to_end clock.db_now 200 middle)) ended_promotion middle)
              ≤ count (to_be_started clock.db_now) middle)
          × Keyed promotion_key
              (update (still_live (to_end clock.db_now 200 middle)) ended_promotion middle)
      b = end-count clock.db_now 200 middle a.3

module _ (clock : Clock) where
  batches-waiting :
      (left : ℕ) (run : PromotionHousekeepingSummary) (rows : List Promotion)
      → Keyed promotion_key rows
      → count (to_be_started clock.db_now) rows + count (to_be_ended clock.db_now) rows < left * 200
      → let r = housekeeping_batches left (λ i. clock) run rows in
        count (to_be_started clock.db_now) r.1 + count (to_be_ended clock.db_now) r.1 ≡ 0
  unfolding housekeeping_batches
  batches-waiting zero run rows keyed h = absurd (omega (arith, h))
  batches-waiting (suc left) run rows keyed h =
      elim (Bool-cases (ltb r.0.activated promotion_batch && ltb r.0.expired promotion_batch)) [
        | inl e ↦ rw (housekeeping_batches, e) (short e)
        | inr e ↦
            rw (housekeeping_batches, e)
              (batches-waiting left summed r.1 step.2 (omega (arith, h, step.0, full e)))
      ]
    where
      r : PromotionHousekeepingSummary × List Promotion
      r = promotion_housekeeping_batch clock 200 rows

      summed : PromotionHousekeepingSummary
      summed = record {
        activated = run.activated + r.0.activated;
        expired = run.expired + r.0.expired;
      }

      step :
          (count (to_be_started clock.db_now) r.1
              + count (to_be_ended clock.db_now) r.1
              + (r.0.activated + r.0.expired)
            ≤ count (to_be_started clock.db_now) rows + count (to_be_ended clock.db_now) rows)
          × (r.0.activated < 200
              → r.0.expired < 200
              → count (to_be_started clock.db_now) r.1 + count (to_be_ended clock.db_now) r.1 ≡ 0)
          × Keyed promotion_key r.1
      step = step-waiting clock rows keyed

      short :
          ltb r.0.activated 200 && ltb r.0.expired 200 ≡ true
          → count (to_be_started clock.db_now) r.1 + count (to_be_ended clock.db_now) r.1 ≡ 0
      short e = step.1 (ground (arith, e)) (ground (arith, e))

      full :
          ltb r.0.activated 200 && ltb r.0.expired 200 ≡ false → 200 ≤ r.0.activated + r.0.expired
      full e = ground (arith, e)

  -- When fewer than 2000 keyed promotions wait for a change of status, a run whose batches see one
  -- time leaves none that does: no SCHEDULED one whose window is open, and no SCHEDULED or ACTIVE
  -- one whose window is over.
  pub run_promotion_housekeeping_syncs :
      (rows : List Promotion)
      → Keyed promotion_key rows
      → count (to_be_started clock.db_now) rows + count (to_be_ended clock.db_now) rows < 2000
      → let r = run_promotion_housekeeping (λ i. clock) rows in
        (count (to_be_started clock.db_now) r.1 ≡ 0) × (count (to_be_ended clock.db_now) r.1 ≡ 0)
  unfolding run_promotion_housekeeping
  run_promotion_housekeeping_syncs rows keyed h =
      both _ _ (batches-waiting 10 (record { activated = 0; expired = 0 }) rows keyed h)
    where
      both : (a b : ℕ) → a + b ≡ 0 → (a ≡ 0) × (b ≡ 0)
      both a b z = (omega (arith, z), omega (arith, z))
