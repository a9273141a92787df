-- ===== src/Finding.antt =====
-- `FindingService` of backend/app/services/finding_service.py over the rows of
-- backend/app/models/finding.py: the life of a non-conformity. The current time, the ids of new
-- rows and the row a caller has loaded are arguments.
mod Rows
mod Service
pub mod Lifecycle
pub mod Generation
mod Tests
unfoldable pub use Rows.*
unfoldable pub use Service.*
