-- ===== src/Remediation.antt =====
-- `RemediationPlanService` of backend/app/services/remediation_plan_service.py: the non-compliant
-- controls of an audit, each as one action, grouped by horizon and sorted by occurrences.
mod Plan
mod Sorting
mod Entries
mod Counted
mod Tests
