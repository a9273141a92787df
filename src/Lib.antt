-- ===== src/Lib.antt =====
-- AssistantAudit: the services behind the audits of an information system.
--
-- The backend (backend/app) keeps audits, campaigns, assessments, findings and agents in a
-- relational database. A technician opens a campaign in an audit, assesses equipments against
-- frameworks of controls, and the non-compliant controls become findings with a life cycle of their
-- own. Agents are programs on the technicians' machines: they are created with an enrolment code,
-- enrol, receive tasks, report on them, and are revoked or swept when they fall silent. A pipeline
-- has an agent scan a subnet, makes an equipment of each host and collects facts from it; the facts
-- are checked, and fill an assessment. A remediation plan orders the non-compliant controls of an
-- audit; checklists and tags go with an audit.
--
-- How the code is represented. A table is a list of rows in the order of insertion, a query is
-- `select` or `first`, an assignment to a row's attributes is `update`, `db.delete` is `delete`. A
-- service call takes the tables and returns them with its result, or an error; a service raises
-- before it writes and the caller rolls back, so an error carries no tables. The clock, the ids and
-- the uuids of new rows are arguments. A `datetime` is a natural number of microseconds. A loop
-- over rows is a recursion over a list. The polling of a task runs on fuel, 361 turns for a scan
-- and 181 for a collect: a turn more than the sleeps of five seconds that fit before the deadline,
-- which Pipeline/Polling shows to be enough for a clock that such a sleep moves by five seconds.
--
-- The files.
-- - Prelude: tests on numbers (Prelude/Tests), Python's operations on texts (Prelude/Text), lists
--   and tables (Prelude/Lists, Prelude/Tables) and tables without two rows of a key
--   (Prelude/Distinct).
-- - Errors: backend/app/core/errors.py and the results of service calls.
-- - Compliance: the rows of an assessment (backend/app/models/assessment.py and framework.py), and
--   in Compliance/Score `AssessmentService.compute_score` of
--   backend/app/services/assessment_service.py. The floating-point operations are the interface
--   Compliance/Float, whose laws are those of rounded arithmetic on small integers;
--   Compliance/Score/Tests has an instance.
-- - Campaign: `AssessmentService` on campaigns (Campaign/Service) and on assessments and results
--   (Campaign/Results), over the rows of Campaign/Rows.
-- - Finding: `FindingService` of backend/app/services/finding_service.py, over the rows of
--   backend/app/models/finding.py.
-- - RateLimit: `_RateLimiter` of backend/app/core/rate_limit.py, with floating-point seconds as
--   whole microseconds.
-- - Notify: the events for users of `ConnectionManager` in backend/app/core/websocket_manager.py.
--   Notify/Channel has the definitions; a coroutine runs to its end before the next one.
-- - Agent: `AgentService` of backend/app/services/agent_service.py (Agent/Service, Agent/Link),
--   `dispatch_task` of backend/app/services/task_service.py and the reports of agents
--   (Agent/Tasks), and the sweep of backend/app/core/heartbeat_sweeper.py (Agent/Link).
--   Agent/Invariant/Steps is the transition system of all these calls.
-- - Checklist: `ChecklistService` of backend/app/services/checklist_service.py, over the rows of
--   backend/app/models/checklist.py. Checklist/Service has the writes, Checklist/Progress the
--   progress; Checklist/Reachable is the transition system of the calls.
-- - Pipeline: backend/app/services/pipeline_service.py. Pipeline/Service creates a pipeline, with the
--   access check of backend/app/core/helpers.py. Pipeline/Hosts reads a scan and picks a
--   profile, Pipeline/Polling waits for a task, Pipeline/Phases has the scan and the equipments,
--   Pipeline/Collects the collects and the order of the phases, Pipeline/Prefill the prefilling of
--   an assessment. It calls `dispatch_task` of Agent/Tasks.
-- - Collect: backend/app/services/collect. Collect/Linux and Collect/Windows are the evaluators,
--   with their tables in Collect/LinuxMap and Collect/WindowsMap, Collect/Findings is findings.py,
--   Collect/Prefill the prefilling in dispatcher.py, Collect/Sweep
--   backend/app/core/collect_sweeper.py.
-- - Remediation: `RemediationPlanService` of backend/app/services/remediation_plan_service.py, with
--   the tables of backend/app/services/_severity.py and the access check of
--   backend/app/core/helpers.py.
-- - Tags: `TagService` of backend/app/services/tag_service.py, with the unique constraints of
--   backend/app/models/tag.py.
--
-- The parameters. SHA-256, the signing of certificates and the encoding of tokens are functions
-- that the definitions take; nothing is assumed of them. So are the parser of dates
-- (Collect/Windows), and what other sessions do while a pipeline runs: the clocks, the reads of
-- tasks, the results of collects. The checks of an OPNsense firewall are in the repository but not
-- modelled, and an argument too.
--
-- What is not modelled: the interleaving of coroutines; the paged listings; the import of
-- Microsoft 365 scans; the reports of agents over the websocket, with the hydration of collects,
-- and artifacts; the notifications of a pipeline; the checks of OPNsense; recommendations and
-- reports; network maps, framework synchronisation and configuration analyses; exceptions that
-- the database raises in the middle of a pipeline; authentication and cryptography, which are
-- calls of libraries; the HTTP routes and the frontend.
pub mod Prelude
pub mod Errors
pub mod Compliance
pub mod Campaign
pub mod Finding
pub mod Agent
pub mod RateLimit
pub mod Notify
pub mod Checklist
pub mod Pipeline
pub mod Collect
pub mod Remediation
pub mod Tags
