-- ===== src/Pipeline/Rows.antt =====
-- backend/app/models/collect_pipeline.py, the rows that a pipeline reads and writes, and the
-- message of a failed pipeline.
use assistant_audit.Prelude.{ℕ, String, true, Option, List, nat_eqb, ◌≡◌, ◌↔◌, Eq, arith}
use assistant_audit.Agent.{TaskStatus}
use assistant_audit.Pipeline.Hosts.{RawHost, CollectProfile, linux_server, windows_server, opnsense}

pub data PipelineStatus : Type 0 where
  pending running completed failed : PipelineStatus

pub data StepStatus : Type 0 where
  pending running completed failed skipped : StepStatus

abbrev pub step_rank : StepStatus → ℕ
step_rank StepStatus.pending = 0
step_rank StepStatus.running = 1
step_rank StepStatus.completed = 2
step_rank StepStatus.failed = 3
step_rank skipped = 4

abbrev pub pipeline_rank : PipelineStatus → ℕ
pipeline_rank PipelineStatus.pending = 0
pipeline_rank PipelineStatus.running = 1
pipeline_rank PipelineStatus.completed = 2
pipeline_rank PipelineStatus.failed = 3

pub step_rank_iff : (a b : StepStatus) → (nat_eqb (step_rank a) (step_rank b) ≡ true) ↔ (a ≡ b)
step_rank_iff a b = ground arith

pub pipeline_rank_iff :
    (a b : PipelineStatus) → (nat_eqb (pipeline_rank a) (pipeline_rank b) ≡ true) ↔ (a ≡ b)
pipeline_rank_iff a b = ground arith

instance abbrev pub step_status_eq : Eq StepStatus
step_status_eq = record {
  eqb = λ a b. nat_eqb (step_rank a) (step_rank b);
  eqb_iff = step_rank_iff;
}

instance abbrev pub pipeline_status_eq : Eq PipelineStatus
pipeline_status_eq = record {
  eqb = λ a b. nat_eqb (pipeline_rank a) (pipeline_rank b);
  eqb_iff = pipeline_rank_iff;
}

-- The texts of `error_message`, one constructor for each.
pub data Message : Type 0 where
  agent_not_found dispatch_failed task_not_found scan_timeout no_agent_for_collects : Message
  of_task : String → Message
  scan_ended : TaskStatus → Message

pub record CollectPipeline : Type 0 where
  pub id : ℕ
  pub site_id : ℕ
  pub created_by : ℕ
  pub target : String
  pub status : PipelineStatus
  pub error_message : Option Message
  pub agent_id : Option ℕ
  pub scan_task_uuid : Option String
  pub scan_status : StepStatus
  pub hosts_discovered : ℕ
  pub equipments_status : StepStatus
  pub equipments_created : ℕ
  pub hosts_skipped : ℕ
  pub collects_status : StepStatus
  pub collects_total : ℕ
  pub collects_done : ℕ
  pub collects_failed : ℕ
  pub started_at : Option ℕ
  pub completed_at : Option ℕ

-- The columns of `Equipement` that a pipeline reads or writes.
pub record SiteEquipement : Type 0 where
  pub id : ℕ
  pub site_id : ℕ
  pub type_equipement : String
  pub ip_address : String
  pub hostname : Option String
  pub mac_address : Option String
  pub fabricant : Option String
  pub os_detected : Option String

-- A scan's `AgentTask`, with the hosts of its `result_summary`.
pub record ScanTask : Type 0 where
  pub task_uuid : String
  pub status : TaskStatus
  pub error_message : Option String
  pub hosts : Option (List (Option RawHost))

-- `_PROFILE_METHOD`
pub record ProfileMethod : Type 0 where
  pub method : String
  pub default_port : ℕ
  pub equip_type : String

abbrev pub profile_method : CollectProfile → ProfileMethod
profile_method linux_server = record { method = "ssh"; default_port = 22; equip_type = "serveur" }
profile_method opnsense = record { method = "ssh"; default_port = 22; equip_type = "firewall" }
profile_method windows_server = record {
  method = "winrm";
  default_port = 5985;
  equip_type = "serveur";
}
