-- ===== src/Payment.antt =====
-- Payments: the provider checkout, its verification, and the fulfilment of a verified success
-- (src/services/payment-checkout.ts and its repositories).
pub mod Store
pub mod Periods
pub mod Campaigns
pub mod Checkout
pub mod Fulfil
pub mod Verify
pub mod Fulfilment
pub mod Settlement
pub mod Once
pub mod Attempts
pub mod Promotions
pub mod Grants
pub mod Purchases
pub mod Purchased
pub mod Renewal
mod Tests
mod CampaignTests
mod PurchaseTests
