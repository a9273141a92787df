-- ===== src/Pipeline/Phases.antt =====
-- `execute_pipeline_background` and its three phases. What happens outside is an argument: the
-- clocks, the reads of the tasks that agents change, the tables as another session left them, and
-- the collects themselves (`Collecting`). The notifications are output.
use assistant_audit.Prelude.{
  ℕ, ◌+◌, String, Bool, ◌&&◌, Option, none, some, List, [], ◌∷◌, ◌++◌, ◌==◌, nat_eq, string_eq,
  length, first, nonempty, if◌then◌else◌,
}
use assistant_audit.Errors.{ok, err}
use assistant_audit.Agent.{Agent, AgentDb, is_final, is_completed, dispatch_task, text}
use assistant_audit.Pipeline.Hosts.{
  NmapHost, CollectProfile, detect_collect_profile, normalize_hosts, list_or_empty,
}
use assistant_audit.Pipeline.Rows.{
  StepStatus, step_status_eq, Message, agent_not_found, dispatch_failed, task_not_found,
  scan_timeout, of_task, scan_ended, CollectPipeline, SiteEquipement, ScanTask, profile_method,
}
use assistant_audit.Pipeline.Polling.{Outcome, gone, timed_out, ended, Timer, poll}

-- `_SCAN_TIMEOUT_SEC` and `_COLLECT_TIMEOUT_SEC`, and a turn more than fits in them
abbrev pub scan_time : ℕ
scan_time = 1800000000

abbrev pub scan_fuel : ℕ
scan_fuel = 361

abbrev pub collect_time : ℕ
collect_time = 900000000

abbrev pub collect_fuel : ℕ
collect_fuel = 181

-- `db.get(Agent, pipeline.agent_id) if pipeline.agent_id else None`
abbrev pub agent_of : AgentDb → Option ℕ → Option Agent
agent_of db none = none
agent_of db (some id) = if id == 0 then none else first (λ a. a.id == id) db.agents

-- Phase 1.
pub record Scanning : Type 0 where
  pub new_id : ℕ
  pub new_uuid : String
  pub timer : Timer
  pub read : ℕ → Option ScanTask

abbrev pub fail_scan : Message → CollectPipeline → CollectPipeline
fail_scan m p = record p { scan_status = StepStatus.failed; error_message = some m }

-- `task.error_message or f"Scan {task.status}"`
abbrev pub message_of : ScanTask → Message
message_of task = elim (nonempty task.error_message) [
  | none ↦ scan_ended task.status
  | some m ↦ of_task m
]

unfoldable pub after_scan :
    Outcome ScanTask → CollectPipeline → CollectPipeline × Option (List NmapHost)
after_scan gone p = (fail_scan task_not_found p, none)
after_scan timed_out p = (fail_scan scan_timeout p, none)
after_scan (ended task) p =
    let hosts = normalize_hosts (list_or_empty task.hosts) in
    if is_completed task.status
    then (
      record p { hosts_discovered = length hosts; scan_status = StepStatus.completed },
      some hosts,
    )
    else (fail_scan (message_of task) p, none)

pub record Scanned : Type 0 where
  pub agents : AgentDb
  pub pipeline : CollectPipeline
  pub hosts : Option (List NmapHost)

abbrev pub scan_result : AgentDb → CollectPipeline × Option (List NmapHost) → Scanned
scan_result db (p, hosts) = record { agents = db; pipeline = p; hosts = hosts }

-- `none`: the polling used up its fuel.
unfoldable pub run_scan_phase : Scanning → AgentDb → CollectPipeline → ℕ → Option Scanned
unfolding after_scan
run_scan_phase w db p user_id = elim (agent_of db p.agent_id) [
  | none ↦ some (record { agents = db; pipeline = fail_scan agent_not_found p; hosts = none })
  | some agent ↦
      elim (dispatch_task db w.new_id w.new_uuid agent.agent_uuid "nmap"
        (("target", text p.target) ∷ ("scan_type", text "port_scan") ∷ []) user_id none) [
          | err e ↦
              some (record { agents = db; pipeline = fail_scan dispatch_failed p; hosts = none })
          | ok (db', task) ↦
              let polling = record p {
                scan_task_uuid = some task.task_uuid;
                scan_status = StepStatus.running;
              } in
              elim (poll (λ t. is_final t.status) w.timer.check w.read (w.timer.start + scan_time)
                scan_fuel 0) [
                  | none ↦ none
                  | some outcome ↦ some (scan_result db' (after_scan outcome polling))
                ]
        ]
]

-- Phase 2.
pub record Sweep : Type 0 where
  pub pipeline : CollectPipeline
  pub equipements : List SiteEquipement
  pub next_id : ℕ
  pub targets : List (SiteEquipement × CollectProfile)

abbrev pub at_address : ℕ → String → SiteEquipement → Bool
at_address site_id ip e = e.site_id == site_id && e.ip_address == ip

abbrev pub new_equipement : ℕ → ℕ → CollectProfile → NmapHost → SiteEquipement
new_equipement id site_id profile host = record {
  id = id;
  site_id = site_id;
  type_equipement = (profile_method profile).equip_type;
  ip_address = host.ip;
  hostname = nonempty (some host.hostname);
  mac_address = nonempty (some host.mac);
  fabricant = nonempty (some host.vendor);
  os_detected = nonempty (some host.os);
}

abbrev pub skip_host : Sweep → Sweep
skip_host s = record s {
  pipeline = record s.pipeline { hosts_skipped = s.pipeline.hosts_skipped + 1 };
}

-- The equipment at the address of the host, found or made.
unfoldable pub register : CollectProfile → NmapHost → Sweep → Sweep
register profile host s = elim (first (at_address s.pipeline.site_id host.ip) s.equipements) [
  | some e ↦ record s { targets = s.targets ++ (e, profile) ∷ [] }
  | none ↦
      let e = new_equipement s.next_id s.pipeline.site_id profile host in
      record {
        pipeline = record s.pipeline { equipments_created = s.pipeline.equipments_created + 1 };
        equipements = s.equipements ++ e ∷ [];
        next_id = s.next_id + 1;
        targets = s.targets ++ (e, profile) ∷ [];
      }
]

unfoldable pub visit : NmapHost → Sweep → Sweep
unfolding register
visit host s = elim (detect_collect_profile host) [
  | none ↦ skip_host s
  | some profile ↦ if host.ip == "" then skip_host s else register profile host s
]

unfoldable pub visit_all : List NmapHost → Sweep → Sweep
unfolding visit
visit_all [] s = s
visit_all (host ∷ rest) s = visit_all rest (visit host s)

abbrev pub start_at : ℕ → CollectPipeline → List SiteEquipement → Sweep
start_at first_id p equipements = record {
  pipeline = record p { equipments_status = StepStatus.running };
  equipements = equipements;
  next_id = first_id;
  targets = [];
}

unfoldable pub run_equipments_phase :
    ℕ → CollectPipeline → List SiteEquipement → List NmapHost → Sweep
unfolding visit_all
run_equipments_phase first_id p equipements hosts =
    let s = visit_all hosts (start_at first_id p equipements) in
    record s {
      pipeline = record s.pipeline {
        equipments_status = StepStatus.completed;
        collects_total = length s.targets;
      };
    }
