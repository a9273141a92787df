-- ===== src/Agent.antt =====
-- The agents and their tasks: backend/app/services/agent_service.py, the dispatch of
-- backend/app/services/task_service.py and the heartbeat sweeper of
-- backend/app/core/heartbeat_sweeper.py. Times are `datetime`s in microseconds.
mod Rows
mod Service
mod Tasks
mod Link
pub mod Isolation
pub mod Revocation
pub mod Enrolment
pub mod Invariant
mod Tests
unfoldable pub use Rows.*
unfoldable pub use Service.*
unfoldable pub use Tasks.*
unfoldable pub use Link.*
