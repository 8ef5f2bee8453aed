-- ===== src/Renewals.antt =====
-- The purchase of a renewal: its state for the seller and its payment intent
-- (src/services/renewals.ts over src/repositories/renewals.ts).
pub mod Intents
pub mod Convergence
mod Tests
