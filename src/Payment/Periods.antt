-- ===== src/Payment/Periods.antt =====
-- Publication periods and promotion periods (src/repositories/moderation.ts: nextPeriodNumber,
-- insertListingPeriod; src/repositories/promotions.ts: insertPromotionPeriod).
use avtosh.Common.{
  ℕ, ◌+◌, ◌*◌, max, Bool, ◌&&◌, Option, none, List, ◌∷◌, ltb, leb, ◌==◌, if◌then◌else◌, max_of, ok,
}
use avtosh.Db.{Clock, Tx, read, write}
use avtosh.Db.Payments.{
  ListingPeriod, PeriodSource, PeriodStatus, Promotion, PromotionStatus, PromotionType,
  same_promotion, is_live,
}

abbrev pub ms_per_day : ℕ
ms_per_day = 86400000

abbrev pub period_of : ℕ → ListingPeriod → Bool
period_of listing_id p = p.listing_id == listing_id

unfoldable pub next_period_number : ℕ → Tx ℕ
next_period_number listing_id =
    read (λ db. max_of (period_of listing_id) (λ p. p.period_number) db.periods + 1)

unfoldable pub insert_listing_period : ℕ → ℕ → PeriodSource → ℕ → ℕ → Option ℕ → Tx (Unit {0})
insert_listing_period listing_id number source starts_at ends_at payment_id = write (λ db.
    record db {
      periods =
          (record {
            id = db.next_id;
            listing_id = listing_id;
            period_number = number;
            source = source;
            status = PeriodStatus.active;
            starts_at = starts_at;
            ends_at = ends_at;
            payment_id = payment_id;
          })
          ∷ db.periods;
      next_id = db.next_id + 1;
    })

-- A same-type period that still runs or waits: the extension base.
abbrev pub running : ℕ → PromotionType → ℕ → Promotion → Bool
running listing_id type now p =
    (p.listing_id == listing_id)
    && same_promotion p.type type
    && is_live p.status
    && ltb now p.ends_at

-- `greatest(now(), coalesce((select max(ends_at) …), now()))`: every end in the select is past
-- now, so a select without rows, read as 0, gives now as well.
unfoldable pub extension_base : ℕ → PromotionType → ℕ → List Promotion → ℕ
extension_base listing_id type now rows =
    max now (max_of (running listing_id type now) (λ p. p.ends_at) rows)

pub record PromotionOrder : Type 0 where
  pub listing_id : ℕ
  pub type : PromotionType
  pub package_id : Option ℕ
  pub payment_id : Option ℕ
  pub duration_days : ℕ
  pub price_minor : ℕ

unfoldable pub new_period : ℕ → PromotionOrder → ℕ → ℕ → Promotion
new_period id order now base = record {
  id = id;
  listing_id = order.listing_id;
  type = order.type;
  package_id = order.package_id;
  payment_id = order.payment_id;
  campaign_id = none;
  starts_at = base;
  ends_at = base + order.duration_days * ms_per_day;
  status = if leb base now then PromotionStatus.active else PromotionStatus.scheduled;
  purchased_duration_days = order.duration_days;
  purchased_price_minor = order.price_minor;
}

unfoldable pub insert_promotion_period : Clock → PromotionOrder → Tx Promotion
unfolding new_period extension_base
insert_promotion_period clock order db =
    ok (row, record db { promotions = row ∷ db.promotions; next_id = db.next_id + 1 })
  where
    row : Promotion
    row =
        new_period db.next_id order clock.db_now
          (extension_base order.listing_id order.type clock.db_now db.promotions)
