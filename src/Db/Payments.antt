-- ===== src/Db/Payments.antt =====
-- The rows of `payments`, `payment_provider_attempts`, `listing_periods`, `listing_promotions`
-- and `listing_publications` (src/repositories/payment-checkout.ts, promotions.ts, renewals.ts,
-- moderation.ts, listing-publications.ts under src/repositories).
use avtosh.Common.{ℕ, Bool, true, false, Option}

pub data PaymentStatus : Type 0 where
  created pending success failed cancelled refunded : PaymentStatus

pub data PaymentType : Type 0 where
  listing_fee premium boost renewal : PaymentType

pub record Payment : Type 0 where
  pub id : ℕ
  pub user_id : ℕ
  pub listing_id : Option ℕ
  pub type : PaymentType
  pub amount_minor : ℕ
  pub currency : ℕ
  pub status : PaymentStatus
  pub fulfilled : Bool
  pub provider_order_id : Option ℕ
  pub provider_transaction_id : Option ℕ
  pub promotion_package_id : Option ℕ
  pub package_duration_days : Option ℕ
  pub renewal_duration_days : Option ℕ

-- What the provider reports, and the markers that the checkout records itself.
pub data ProviderStatus : Type 0 where
  initiating fully_paid preparing refunded : ProviderStatus
  initiation_abandoned initiation_ambiguous initiation_failed : ProviderStatus
  other : ℕ → ProviderStatus

-- `provider_order_id` is empty while the attempt is a claim.
pub record Attempt : Type 0 where
  pub id : ℕ
  pub payment_id : ℕ
  pub provider_order_id : Option ℕ
  pub hpp_url : Option ℕ
  pub hpp_secret : Option ℕ
  pub provider_status : ProviderStatus
  pub is_terminal : Bool
  pub succeeded : Bool
  pub created_at : ℕ

pub data PeriodSource : Type 0 where
  initial renewal : PeriodSource

-- `listing_period_status`.
pub data PeriodStatus : Type 0 where
  active expired : PeriodStatus

abbrev pub is_active_period : PeriodStatus → Bool
is_active_period PeriodStatus.active = true
is_active_period PeriodStatus.expired = false

pub record ListingPeriod : Type 0 where
  pub id : ℕ
  pub listing_id : ℕ
  pub period_number : ℕ
  pub source : PeriodSource
  pub status : PeriodStatus
  pub starts_at : ℕ
  pub ends_at : ℕ
  pub payment_id : Option ℕ

pub data PromotionStatus : Type 0 where
  scheduled active expired cancelled : PromotionStatus

pub data PromotionType : Type 0 where
  premium boost : PromotionType

pub record Promotion : Type 0 where
  pub id : ℕ
  pub listing_id : ℕ
  pub type : PromotionType
  pub package_id : Option ℕ
  pub payment_id : Option ℕ
  pub campaign_id : Option ℕ
  pub starts_at : ℕ
  pub ends_at : ℕ
  pub status : PromotionStatus
  pub purchased_duration_days : ℕ
  pub purchased_price_minor : ℕ

pub data CampaignStatus : Type 0 where
  draft enrolling stopped : CampaignStatus

abbrev pub is_enrolling : CampaignStatus → Bool
is_enrolling CampaignStatus.enrolling = true
is_enrolling _ = false

-- A row of `premium_campaigns` (src/repositories/premium-campaigns.ts).
pub record PremiumCampaign : Type 0 where
  pub id : ℕ
  pub grant_days : ℕ
  pub enrollment_starts_at : ℕ
  pub enrollment_ends_at : ℕ
  pub status : CampaignStatus

pub data BillingType : Type 0 where
  free paid : BillingType

pub record Publication : Type 0 where
  pub listing_id : ℕ
  pub user_id : ℕ
  pub publication_number : ℕ
  pub billing_type : BillingType
  pub payment_id : Option ℕ

-- `CHECKOUT_ELIGIBLE_STATUSES`, and `status in ('CREATED', 'PENDING')`.
abbrev pub is_open_payment : PaymentStatus → Bool
is_open_payment PaymentStatus.created = true
is_open_payment PaymentStatus.pending = true
is_open_payment _ = false

abbrev pub is_created : PaymentStatus → Bool
is_created PaymentStatus.created = true
is_created _ = false

-- `status === "SUCCESS" || status === "REFUNDED"`.
abbrev pub is_settled : PaymentStatus → Bool
is_settled PaymentStatus.success = true
is_settled PaymentStatus.refunded = true
is_settled _ = false

abbrev pub same_promotion : PromotionType → PromotionType → Bool
same_promotion PromotionType.premium PromotionType.premium = true
same_promotion PromotionType.boost PromotionType.boost = true
same_promotion _ _ = false

abbrev pub same_payment : PaymentType → PaymentType → Bool
same_payment PaymentType.listing_fee PaymentType.listing_fee = true
same_payment PaymentType.premium PaymentType.premium = true
same_payment PaymentType.boost PaymentType.boost = true
same_payment PaymentType.renewal PaymentType.renewal = true
same_payment _ _ = false

-- `status in ('SCHEDULED', 'ACTIVE')`.
abbrev pub is_live : PromotionStatus → Bool
is_live PromotionStatus.scheduled = true
is_live PromotionStatus.active = true
is_live _ = false
