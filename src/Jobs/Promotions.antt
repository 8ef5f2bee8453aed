-- ===== src/Jobs/Promotions.antt =====
-- The stored status of promotions follows their window: promotionHousekeepingBatch and
-- runPromotionHousekeeping.
use avtosh.Common.{
  ℕ, zero, suc, ◌+◌, Bool, true, false, ◌&&◌, List, ltb, leb, length, select_all, update, batch,
  in_rows,
}
use avtosh.Db.{Clock}
use avtosh.Db.Payments.{Promotion, PromotionStatus, is_live}

abbrev pub promotion_batch : ℕ
promotion_batch = 200

abbrev pub promotion_max_batches : ℕ
promotion_max_batches = 10

abbrev pub is_waiting : PromotionStatus → Bool
is_waiting PromotionStatus.scheduled = true
is_waiting _ = false

abbrev pub promotion_key : Promotion → ℕ
promotion_key p = p.id

-- The statements have no order; here it is that of the table.
abbrev pub no_order : Promotion → ℕ
no_order p = 0

abbrev pub to_be_started : ℕ → Promotion → Bool
to_be_started now p = is_waiting p.status && leb p.starts_at now && ltb now p.ends_at

abbrev pub to_be_ended : ℕ → Promotion → Bool
to_be_ended now p = is_live p.status && leb p.ends_at now

abbrev pub activated_promotion : Promotion → Promotion
activated_promotion p = record p { status = PromotionStatus.active }

abbrev pub ended_promotion : Promotion → Promotion
ended_promotion p = record p { status = PromotionStatus.expired }

abbrev pub to_start : ℕ → ℕ → List Promotion → List Promotion
to_start now limit rows = batch promotion_key no_order limit (to_be_started now) rows

abbrev pub to_end : ℕ → ℕ → List Promotion → List Promotion
to_end now limit rows = batch promotion_key no_order limit (to_be_ended now) rows

-- `p.id = due.id and p.status = 'SCHEDULED'`, and `p.status in ('SCHEDULED', 'ACTIVE')`.
abbrev pub still_waiting : List Promotion → Promotion → Bool
still_waiting due p = in_rows promotion_key due p && is_waiting p.status

abbrev pub still_live : List Promotion → Promotion → Bool
still_live due p = in_rows promotion_key due p && is_live p.status

pub record PromotionHousekeepingSummary : Type 0 where
  pub activated : ℕ
  pub expired : ℕ

unfoldable pub promotion_housekeeping_batch :
    Clock → ℕ → List Promotion → PromotionHousekeepingSummary × List Promotion
promotion_housekeeping_batch clock limit rows = (
  record {
    activated = length (select_all (still_waiting starts) rows);
    expired = length (select_all (still_live ends) after_start);
  },
  update (still_live ends) ended_promotion after_start,
)
  where
    starts : List Promotion
    starts = to_start clock.db_now limit rows

    after_start : List Promotion
    after_start = update (still_waiting starts) activated_promotion rows

    ends : List Promotion
    ends = to_end clock.db_now limit after_start

unfoldable pub housekeeping_batches :
    ℕ
    → (ℕ → Clock)
    → PromotionHousekeepingSummary
    → List Promotion
    → PromotionHousekeepingSummary × List Promotion
housekeeping_batches zero clocks run rows = (run, rows)
housekeeping_batches (suc left) clocks run rows =
    elim (ltb step.0.activated promotion_batch && ltb step.0.expired promotion_batch) [
      | true ↦ (summed, step.1)
      | false ↦ housekeeping_batches left (λ i. clocks (suc i)) summed step.1
    ]
  where
    step : PromotionHousekeepingSummary × List Promotion
    step = promotion_housekeeping_batch (clocks 0) promotion_batch rows

    summed : PromotionHousekeepingSummary
    summed = record {
      activated = run.activated + step.0.activated;
      expired = run.expired + step.0.expired;
    }

unfoldable pub run_promotion_housekeeping :
    (ℕ → Clock) → List Promotion → PromotionHousekeepingSummary × List Promotion
unfolding housekeeping_batches
run_promotion_housekeeping clocks rows =
    housekeeping_batches promotion_max_batches clocks (record { activated = 0; expired = 0 }) rows
