-- ===== src/Checklist.antt =====
-- `ChecklistService` of backend/app/services/checklist_service.py: the templates, their instances
-- in an audit, and the answers to their items. The writes and the reads of single rows are in
-- Checklist/Service, the progress of an instance in Checklist/Progress.
mod Rows
mod Service
mod Progress
mod Counted
mod Writes
mod Invariant
mod Reachable
mod Answers
mod Access
mod Tests
