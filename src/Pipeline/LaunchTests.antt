-- ===== src/Pipeline/LaunchTests.antt =====
-- An administrator and the owner of a site each launch a scan by the owner's agent.
use assistant_audit.Prelude.{ℕ, ◌≡◌, refl, Bool, true, false, none, some, [], ◌∷◌}
use assistant_audit.Errors.{value_error, Result, ok, err, Returns, ◌>>=◌}
use assistant_audit.Agent.{active, completed, Agent, AgentDb, dispatch_task}
use assistant_audit.Pipeline.Rows.{StepStatus, dispatch_failed}
use assistant_audit.Pipeline.Polling.{poll}
use assistant_audit.Pipeline.Phases.{Scanning, run_scan_phase, fail_scan}
use assistant_audit.Pipeline.Service.{LaunchDb, create_pending_pipeline, get_pipeline}
use assistant_audit.Pipeline.Launch.{create_pending_pipeline-IsOthers}

abbrev scanner : Agent
scanner = record {
  id = 2;
  agent_uuid = "a-2";
  name = "scanner";
  user_id = 10;
  cert_fingerprint = none;
  cert_serial = none;
  cert_expires_at = none;
  enrollment_token_hash = none;
  enrollment_token_expires = none;
  enrollment_used = true;
  status = active;
  last_seen = none;
  last_ip = none;
  allowed_tools = "nmap" ∷ [];
  os_info = none;
  agent_version = none;
  revoked_at = none;
}

abbrev agents : AgentDb
agents = record { users = []; audits = []; configs = []; agents = scanner ∷ []; tasks = [] }

abbrev db : LaunchDb
db = record {
  sites = (record { id = 4; entreprise_id = 6 }) ∷ [];
  entreprises = (record { id = 6; owner_id = 10 }) ∷ [];
  audits = [];
  agents = agents;
  pipelines = [];
}

abbrev answered : Scanning
answered = record {
  new_id = 1;
  new_uuid = "t-1";
  timer = record { start = 0; check = λ i. i };
  read = λ i.
      some
        (record { task_uuid = "t-1"; status = completed; error_message = none; hosts = some [] });
}

-- The phase's status, for the user who launches and whether he is an administrator.
abbrev scan_status_of : ℕ → Bool → Result StepStatus
scan_status_of u is_admin = do
  out ← create_pending_pipeline db 1 4 2 "10.0.0.0/24" u is_admin
  elim (run_scan_phase answered out.0.agents out.1 u) [
    | none ↦ err value_error
    | some scanned ↦ ok scanned.pipeline.scan_status
  ]

by_owner : scan_status_of 10 false ≡ ok StepStatus.completed
unfolding create_pending_pipeline dispatch_task run_scan_phase poll
by_owner = refl

by_administrator : scan_status_of 1 true ≡ ok StepStatus.failed
unfolding create_pending_pipeline dispatch_task run_scan_phase
by_administrator = refl

create_pending_pipeline-IsOthers_example :
    (create_pending_pipeline db 1 4 2 "10.0.0.0/24" 1 false ≡ err value_error)
    × Returns
        (λ out.
          (get_pipeline out.0 1 (some 1) false ≡ some out.1)
          × (run_scan_phase answered out.0.agents out.1 1
              ≡ some (record {
                agents = agents;
                pipeline = fail_scan dispatch_failed out.1;
                hosts = none;
              })))
        (create_pending_pipeline db 1 4 2 "10.0.0.0/24" 1 true)
create_pending_pipeline-IsOthers_example =
    create_pending_pipeline-IsOthers db 1 4 2 "10.0.0.0/24" 1 refl refl refl (refl, tt) refl refl
      refl tt answered
