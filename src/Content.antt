-- ===== src/Content.antt =====
-- What a seller may write into a listing: the resolution of a content patch and the checks of
-- content before moderation (src/services/listing-patch.ts, and those of
-- src/services/listing-edit.ts and src/services/moderation-adjustments.ts).
pub mod Approved
pub mod Selections
pub mod Patch
pub mod Adjusted
pub mod Coherence
pub mod Revise
pub mod Revised
pub mod Checks
mod Tests
mod RevisionTests
