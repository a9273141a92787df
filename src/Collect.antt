-- ===== src/Collect.antt =====
-- The collects from equipments: backend/app/services/collect. Collect/Linux and Collect/Windows
-- evaluate the checks on the collected facts, Collect/Findings turns them into findings and a
-- summary, Collect/Prefill into the results of an assessment, and Collect/Sweep ends the collects
-- that no agent answers.
pub mod Rows
mod LinuxMap
mod WindowsMap
mod Linux
mod Windows
mod Findings
pub mod Prefill
mod Stored
mod Agreement
mod Sweep
mod Tests
