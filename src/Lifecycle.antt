-- ===== src/Lifecycle.antt =====
-- Seller lifecycle of a published listing: deactivation, reactivation and its finalizer, and the
-- edit revisions (src/services/listing-lifecycle.ts over src/repositories/listing-lifecycle.ts and
-- src/repositories/listing-edit-revisions.ts).
pub mod Store
pub mod Edits
pub mod Visibility
pub mod Ops
pub mod Soundness
pub mod Invariant
pub mod Behaviour
pub mod EditBehaviour
pub mod Management
mod Tests
