-- ===== src/Campaign.antt =====
-- `AssessmentService` of backend/app/services/assessment_service.py: the campaigns of an audit,
-- their assessments and control results. The tables are lists of rows; `db.get` finds a row by its
-- id, and an assignment to a row's attributes updates the rows of that id. The id of a new row, its
-- `created_at` and the current time are arguments: the database and the clock supply them.
mod Rows
mod Service
mod Results
pub mod Access
pub mod Equipements
pub mod Creation
pub mod Editing
mod Tests
unfoldable pub use Rows.*
unfoldable pub use Service.*
unfoldable pub use Results.*
