-- ===== src/Pipeline.antt =====
-- backend/app/services/pipeline_service.py: a scan of a subnet by an agent, the equipments that it
-- finds, and a collect from each. Pipeline/Hosts reads a scan and picks the profile of a collect,
-- Pipeline/Prefill fills an assessment from it, Pipeline/Service creates a pipeline, Pipeline/Polling
-- waits for an agent, and Pipeline/Phases runs the phases in order. The other modules prove.
mod Hosts
mod Detection
mod Rows
mod Prefill
mod Service
mod Launch
mod Exposed
mod Polling
mod Phases
mod Collects
mod Visits
mod Sweeping
mod Counters
mod Outcome
mod Ending
mod Tests
mod PrefillTests
mod LaunchTests
