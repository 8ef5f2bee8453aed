-- ===== src/Moderation.antt =====
-- The moderators' claims on listings and the suspension of a listing
-- (src/services/moderation.ts and src/services/moderation-shared.ts over
-- src/repositories/moderation.ts).
pub mod Claims
pub mod Exclusion
pub mod Suspension
mod Tests
mod DecisionTests
pub mod Plan
pub mod Sources
pub mod Coverage
pub mod Adjustments
pub mod Save
pub mod Apply
pub mod Reviews
pub mod Decide
pub mod Decided
pub mod TurnDown
pub mod Applied
pub mod Approval
pub mod Approves
pub mod Retry
pub mod Saved
pub mod Frozen
pub mod EditDecide
pub mod EditDecided
pub mod EditRefusal
pub mod Staged
pub mod EditPublication
mod EditTests
