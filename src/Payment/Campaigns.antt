-- ===== src/Payment/Campaigns.antt =====
-- Complimentary Premium: the grant of a campaign (src/services/premium-campaign.ts over
-- src/repositories/premium-campaigns.ts and insertCampaignPromotionPeriod of promotions.ts).
-- `clock_timestamp()` stands for the time of the statement, as `now()` does.
use avtosh.Common.{
  ℕ, ◌+◌, ◌*◌, Bool, true, false, ◌&&◌, not, Option, none, some, ◌∷◌, ltb, leb, ◌==◌, if◌then◌else◌,
  select, select_latest, exists, update, ok,
}
use avtosh.Db.{Clock, Tx, ◌>>=◌, ◌>>◌, read, return}
use avtosh.Db.Logs.{AuditAction, EventType}
use avtosh.Db.Payments.{
  Promotion, PromotionStatus, PromotionType, PremiumCampaign, CampaignStatus, is_enrolling,
}
use avtosh.Lifecycle.Visibility.{audit_of, event_of}
use avtosh.Payment.Periods.{ms_per_day, extension_base}

-- `status = 'ENROLLING'` and now within the window.
abbrev pub enrolls : ℕ → PremiumCampaign → Bool
enrolls now c =
    is_enrolling c.status && leb c.enrollment_starts_at now && ltb now c.enrollment_ends_at

abbrev pub enrolls_as : ℕ → ℕ → PremiumCampaign → Bool
enrolls_as now campaign_id c = (c.id == campaign_id) && enrolls now c

abbrev pub enrollment_order : PremiumCampaign → ℕ
enrollment_order c = c.enrollment_starts_at

unfoldable pub lock_open_premium_campaign : Clock → Tx (Option PremiumCampaign)
lock_open_premium_campaign clock =
    read (λ db. select_latest (enrolls clock.db_now) enrollment_order db.campaigns)

unfoldable pub lock_campaign_for_grant : Clock → ℕ → Tx (Option PremiumCampaign)
lock_campaign_for_grant clock campaign_id =
    read (λ db. select (enrolls_as clock.db_now campaign_id) db.campaigns)

abbrev pub of_campaign : Option ℕ → ℕ → Bool
of_campaign none campaign_id = false
of_campaign (some c) campaign_id = c == campaign_id

abbrev pub granted_to : ℕ → ℕ → Promotion → Bool
granted_to listing_id campaign_id p =
    (p.listing_id == listing_id) && of_campaign p.campaign_id campaign_id

abbrev pub campaign_period : ℕ → ℕ → ℕ → ℕ → ℕ → ℕ → Promotion
campaign_period id listing_id campaign_id grant_days now base = record {
  id = id;
  listing_id = listing_id;
  type = PromotionType.premium;
  package_id = none;
  payment_id = none;
  campaign_id = some campaign_id;
  starts_at = base;
  ends_at = base + grant_days * ms_per_day;
  status = if leb base now then PromotionStatus.active else PromotionStatus.scheduled;
  purchased_duration_days = grant_days;
  purchased_price_minor = 0;
}

-- Guarded by the window again and by the partial unique index: `on conflict do nothing`.
unfoldable pub insert_campaign_promotion_period : Clock → ℕ → ℕ → ℕ → Tx (Option Promotion)
unfolding extension_base
insert_campaign_promotion_period clock listing_id campaign_id grant_days db =
    elim (exists (enrolls_as clock.db_now campaign_id) db.campaigns
      && not (exists (granted_to listing_id campaign_id) db.promotions)) [
        | true ↦
            ok (some row, record db { promotions = row ∷ db.promotions; next_id = db.next_id + 1 })
        | false ↦ ok (none, db)
      ]
  where
    row : Promotion
    row =
        campaign_period db.next_id listing_id campaign_id grant_days clock.db_now
          (extension_base listing_id PromotionType.premium clock.db_now db.promotions)

pub data GrantResult : Type 0 where
  granted : ℕ → GrantResult
  campaign_closed already_granted : GrantResult

-- Why a guarded insert declined.
declined : ℕ → ℕ → Tx GrantResult
declined listing_id campaign_id db = ok (
  if exists (granted_to listing_id campaign_id) db.promotions
      then GrantResult.already_granted
      else GrantResult.campaign_closed,
  db,
)

finish_grant : ℕ → ℕ → Option Promotion → Tx GrantResult
unfolding declined
finish_grant listing_id campaign_id none = declined listing_id campaign_id
finish_grant listing_id campaign_id (some period) = do
  audit_of none AuditAction.campaign_premium_granted listing_id
  event_of EventType.promotion_activated listing_id
  return (GrantResult.granted period.ends_at)

grant_open : Clock → ℕ → Option PremiumCampaign → Tx GrantResult
unfolding insert_campaign_promotion_period finish_grant
grant_open clock listing_id none = return GrantResult.campaign_closed
grant_open clock listing_id (some campaign) = do
  period ← insert_campaign_promotion_period clock listing_id campaign.id campaign.grant_days
  finish_grant listing_id campaign.id period

unfoldable pub grant_campaign_premium : Clock → ℕ → ℕ → Tx GrantResult
unfolding lock_campaign_for_grant grant_open
grant_campaign_premium clock listing_id campaign_id = do
  campaign ← lock_campaign_for_grant clock campaign_id
  grant_open clock listing_id campaign

enroll_in : Clock → ℕ → Option PremiumCampaign → Tx (Unit {0})
unfolding grant_campaign_premium
enroll_in clock listing_id none = return tt
enroll_in clock listing_id (some campaign) = do
  result ← grant_campaign_premium clock listing_id campaign.id
  return tt

unfoldable pub enroll_approved_listing_in_open_campaign : Clock → ℕ → Tx (Unit {0})
unfolding lock_open_premium_campaign enroll_in
enroll_approved_listing_in_open_campaign clock listing_id = do
  campaign ← lock_open_premium_campaign clock
  enroll_in clock listing_id campaign

-- The only opening of a campaign. A campaign is found by its code, which is as much as its id.
abbrev pub is_draft_campaign : CampaignStatus → Bool
is_draft_campaign CampaignStatus.draft = true
is_draft_campaign _ = false

abbrev pub campaign_is : ℕ → PremiumCampaign → Bool
campaign_is campaign_id c = c.id == campaign_id

abbrev pub openable : ℕ → ℕ → PremiumCampaign → Bool
openable now campaign_id c =
    (c.id == campaign_id)
    && is_draft_campaign c.status
    && leb c.enrollment_starts_at now
    && ltb now c.enrollment_ends_at

abbrev pub enrolling_campaign : PremiumCampaign → PremiumCampaign
enrolling_campaign c = record c { status = CampaignStatus.enrolling }

pub data OpenResult : Type 0 where
  opened not_draft outside_window not_found : OpenResult

open_found : Clock → ℕ → Option PremiumCampaign → Tx OpenResult
open_found clock campaign_id none = return OpenResult.not_found
open_found clock campaign_id (some campaign) =
    if not (is_draft_campaign campaign.status) then return OpenResult.not_draft else λ db. ok (
      if exists (openable clock.db_now campaign_id) db.campaigns
          then OpenResult.opened
          else OpenResult.outside_window,
      record db {
        campaigns = update (openable clock.db_now campaign_id) enrolling_campaign db.campaigns;
      },
    )

unfoldable pub open_campaign_enrollment : Clock → ℕ → Tx OpenResult
unfolding open_found
open_campaign_enrollment clock campaign_id = do
  campaign ← read (λ db. select (campaign_is campaign_id) db.campaigns)
  open_found clock campaign_id campaign

abbrev pub is_stopped : CampaignStatus → Bool
is_stopped CampaignStatus.stopped = true
is_stopped _ = false

abbrev pub stoppable : ℕ → PremiumCampaign → Bool
stoppable campaign_id c = (c.id == campaign_id) && not (is_stopped c.status)

abbrev pub stopped_campaign : PremiumCampaign → PremiumCampaign
stopped_campaign c = record c { status = CampaignStatus.stopped }

unfoldable pub stop_campaign : ℕ → Tx Bool
stop_campaign campaign_id db = ok (
  exists (stoppable campaign_id) db.campaigns,
  record db { campaigns = update (stoppable campaign_id) stopped_campaign db.campaigns },
)
