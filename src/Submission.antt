-- ===== src/Submission.antt =====
-- Submission of a draft, the publication numbers and the quota
-- (src/services/listing-submission.ts over src/repositories/listing-publications.ts).
pub mod Store
pub mod Catalog
pub mod Submit
pub mod Resubmit
pub mod Ops
pub mod Numbering
pub mod Results
mod Tests
