-- ===== src/Agent/Invariant.antt =====
-- What every operation on agents and tasks keeps: the rows of the agents stay, under their ids and
-- with their owners, a revoked one stays revoked, and a task belongs to the owner of its agent.
pub mod Rows
pub mod Service
pub mod Tasks
pub mod Link
pub mod Steps
