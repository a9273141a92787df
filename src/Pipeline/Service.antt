-- ===== src/Pipeline/Service.antt =====
-- The creation of a pipeline and its reading, with the access to a site that
-- backend/app/core/helpers.py grants. Every refusal is a Python `ValueError`; the lines of the
-- access log are left out.
use assistant_audit.Prelude.{
  ℕ, String, Bool, not, ◌&&◌, ◌||◌, Option, none, some, List, [], ◌∷◌, ◌++◌, ◌==◌, nat_eq,
  string_eq, first, contains, false, true, if◌then◌else◌,
}
use assistant_audit.Errors.{value_error, Result, ok, ◌>>=◌, ◌>>◌, raise_if, require}
use assistant_audit.Agent.{active, agent_status_eq, AgentDb}
use assistant_audit.Pipeline.Rows.{PipelineStatus, StepStatus, CollectPipeline}

pub record Site : Type 0 where
  pub id : ℕ
  pub entreprise_id : ℕ

pub record Entreprise : Type 0 where
  pub id : ℕ
  pub owner_id : ℕ

-- `Audit`, with the company that it is of.
pub record SiteAudit : Type 0 where
  pub entreprise_id : ℕ
  pub owner_id : ℕ

pub record LaunchDb : Type 0 where
  pub sites : List Site
  pub entreprises : List Entreprise
  pub audits : List SiteAudit
  pub agents : AgentDb
  pub pipelines : List CollectPipeline

abbrev pub owns_company : ℕ → Option Entreprise → Bool
owns_company user_id none = false
owns_company user_id (some ent) = ent.owner_id == user_id

abbrev pub has_audit : Option SiteAudit → Bool
has_audit none = false
has_audit (some a) = true

unfoldable pub user_has_access_to_entreprise : LaunchDb → ℕ → ℕ → Bool
user_has_access_to_entreprise db entreprise_id user_id =
    owns_company user_id (first (λ e. e.id == entreprise_id) db.entreprises)
    || has_audit (first (λ a. a.entreprise_id == entreprise_id && a.owner_id == user_id) db.audits)

abbrev pub new_pipeline : ℕ → ℕ → ℕ → String → ℕ → CollectPipeline
new_pipeline new_id site_id agent_id target created_by = record {
  id = new_id;
  site_id = site_id;
  created_by = created_by;
  target = target;
  status = PipelineStatus.pending;
  error_message = none;
  agent_id = some agent_id;
  scan_task_uuid = none;
  scan_status = StepStatus.pending;
  hosts_discovered = 0;
  equipments_status = StepStatus.pending;
  equipments_created = 0;
  hosts_skipped = 0;
  collects_status = StepStatus.pending;
  collects_total = 0;
  collects_done = 0;
  collects_failed = 0;
  started_at = none;
  completed_at = none;
}

unfoldable pub create_pending_pipeline :
    LaunchDb → ℕ → ℕ → ℕ → String → ℕ → Bool → Result (LaunchDb × CollectPipeline)
unfolding user_has_access_to_entreprise
create_pending_pipeline db new_id site_id agent_id target created_by is_admin = do
  site ← require (first (λ s. s.id == site_id) db.sites) value_error
  raise_if (not is_admin && not (user_has_access_to_entreprise db site.entreprise_id created_by))
      value_error
  agent ← require (first (λ a. a.id == agent_id) db.agents.agents) value_error
  raise_if (not is_admin && not (agent.user_id == created_by)) value_error
  raise_if (not (agent.status == active)) value_error
  raise_if (not (contains "nmap" agent.allowed_tools)) value_error
  let pipeline = new_pipeline new_id site_id agent_id target created_by
  ok (record db { pipelines = db.pipelines ++ pipeline ∷ [] }, pipeline)

abbrev pub is_hidden : Option ℕ → Bool → CollectPipeline → Bool
is_hidden none is_admin p = false
is_hidden (some owner_id) is_admin p = not is_admin && not (p.created_by == owner_id)

unfoldable pub get_pipeline : LaunchDb → ℕ → Option ℕ → Bool → Option CollectPipeline
get_pipeline db pipeline_id owner_id is_admin =
    elim (first (λ p. p.id == pipeline_id) db.pipelines) [
      | none ↦ none
      | some p ↦ if is_hidden owner_id is_admin p then none else some p
    ]
