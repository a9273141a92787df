-- ===== src/Pipeline/Tests.antt =====
-- A subnet of three hosts: a Linux server, a firewall at the same address, and a printer.
use assistant_audit.Prelude.{
  ℕ, zero, suc, Option, ◌+◌, ◌*◌, ◌≡◌, ◌↔◌, ◌⊎◌, refl, Bool, true, false, ◌&&◌, ◌||◌, none, some,
  List, [], ◌∷◌, ◌==◌, nat_eq, length, IsDistinct, arith,
}
use mathlib.Core.Option
use assistant_audit.Agent.{AgentDb, active, running, completed, dispatch_task}
use assistant_audit.Pipeline.Hosts.{
  NmapPort, NmapHost, RawHost, CollectProfile, linux_server, opnsense, detect_collect_profile,
  has_ssh, has_winrm, is_opnsense, is_windows, is_linux,
}
use assistant_audit.Pipeline.Detection.{is_reachable, detect_collect_profile-reachable}
use assistant_audit.Pipeline.Rows.{
  PipelineStatus, StepStatus, pipeline_status_eq, CollectPipeline, ScanTask,
}
use assistant_audit.Pipeline.Polling.{Timer, IsTicking, poll_interval, poll}
use assistant_audit.Pipeline.Phases.{run_equipments_phase}
use assistant_audit.Collect.Rows.{success}
use assistant_audit.Pipeline.Collects.{World, Finished, execute_pipeline_background}
use assistant_audit.Pipeline.Visits.{same_address, targets_of}
use assistant_audit.Pipeline.Sweeping.{run_equipments_phase-targets}
use assistant_audit.Pipeline.Ending.{IsEnd, execute_pipeline_background-ends}

abbrev ssh_port : NmapPort
ssh_port = record { port = 22; protocol = "tcp"; state = "open"; service = "OpenSSH 9.6" }

abbrev server : NmapHost
server = record {
  ip = "10.0.0.5";
  hostname = "files";
  mac = "";
  vendor = "";
  os = "Linux 6.1";
  ports = ssh_port ∷ [];
}

abbrev firewall : NmapHost
firewall = record server { os = "FreeBSD 14 (OPNsense)" }

abbrev printer : NmapHost
printer = record server { ip = "10.0.0.9"; ports = [] }

server_profile : detect_collect_profile server ≡ some linux_server
unfolding detect_collect_profile
server_profile = refl

firewall_profile : detect_collect_profile firewall ≡ some opnsense
unfolding detect_collect_profile
firewall_profile = refl

-- Both ports are open, and the system is unknown.
abbrev unknown : NmapHost
unknown = record server {
  os = "";
  ports = ssh_port ∷ record ssh_port { port = 5985; service = "" } ∷ [];
}

unknown_profile : detect_collect_profile unknown ≡ none
unfolding detect_collect_profile
unknown_profile = refl

detect_collect_profile-reachable_example :
    ((p : CollectProfile) → detect_collect_profile unknown ≡ some p → is_reachable p unknown ≡ true)
    × ((detect_collect_profile unknown ≡ none) ↔ (
        ((has_ssh unknown || has_winrm unknown) ≡ false)
        ⊎ (((has_ssh unknown && has_winrm unknown) ≡ true)
            × ((is_opnsense unknown || is_windows unknown || is_linux unknown) ≡ false))))
detect_collect_profile-reachable_example = detect_collect_profile-reachable unknown

abbrev pipeline : CollectPipeline
pipeline = record {
  id = 1;
  site_id = 4;
  created_by = 10;
  target = "10.0.0.0/24";
  status = PipelineStatus.pending;
  error_message = none;
  agent_id = some 2;
  scan_task_uuid = none;
  scan_status = StepStatus.pending;
  hosts_discovered = 0;
  equipments_status = StepStatus.pending;
  equipments_created = 0;
  hosts_skipped = 0;
  collects_status = StepStatus.pending;
  collects_total = 0;
  collects_done = 0;
  collects_failed = 0;
  started_at = none;
  completed_at = none;
}

abbrev hosts : List NmapHost
hosts = server ∷ firewall ∷ printer ∷ []

-- The firewall is at the server's address, so there is one equipment for both.
one_equipment : length (run_equipments_phase 30 pipeline [] hosts).equipements ≡ 1
unfolding run_equipments_phase detect_collect_profile
one_equipment = refl

run_equipments_phase-targets_example :
    let s = run_equipments_phase 30 pipeline [] hosts in
    let s' = run_equipments_phase 40 pipeline s.equipements hosts in
    (s.targets ≡ targets_of 4 s.equipements hosts)
    × (s.pipeline.hosts_skipped + s.pipeline.collects_total ≡ 0 + 3)
    × (s.pipeline.equipments_created + 0 ≡ 0 + length s.equipements)
    × IsDistinct same_address s.equipements
    × (s'.equipements ≡ s.equipements)
    × (s'.pipeline.equipments_created ≡ 0)
    × (s'.targets ≡ s.targets)
run_equipments_phase-targets_example =
    run_equipments_phase-targets 30 40 pipeline pipeline [] hosts tt refl

-- A clock that a turn moves by five seconds.
abbrev timer : Timer
timer = record { start = 100; check = λ turn. 100 + turn * poll_interval }

timer-IsTicking : IsTicking timer
timer-IsTicking = (omega arith, λ turn. omega arith)

abbrev agents : AgentDb
agents = record {
  users = [];
  audits = [];
  configs = [];
  agents =
      record {
        id = 2;
        agent_uuid = "a";
        name = "laptop";
        user_id = 10;
        cert_fingerprint = none;
        cert_serial = none;
        cert_expires_at = none;
        enrollment_token_hash = none;
        enrollment_token_expires = none;
        enrollment_used = true;
        status = active;
        last_seen = none;
        last_ip = none;
        allowed_tools = "nmap" ∷ [];
        os_info = none;
        agent_version = none;
        revoked_at = none;
      }
      ∷ [];
  tasks = [];
}

abbrev raw_server : RawHost
raw_server = record {
  ip = some "10.0.0.5";
  ip_address = none;
  hostname = none;
  mac = none;
  mac_address = none;
  vendor = none;
  os = none;
  os_guess = some "Linux 6.1";
  ports = some (
      some (record {
        port = none;
        port_number = some 22;
        proto = none;
        protocol = none;
        state = some "open";
        service = none;
        service_name = none;
      })
      ∷ none
      ∷ []);
}

abbrev reads : ℕ → Option ScanTask
reads zero = some (record { task_uuid = "t"; status = running; error_message = none; hosts = none })
reads (suc turn) = some (record {
  task_uuid = "t";
  status = completed;
  error_message = none;
  hosts = some (some raw_server ∷ none ∷ []);
})

-- The scan has ended at the second turn; the collect succeeds.
abbrev world : World
world = record {
  started = 100;
  finished = 900;
  scanning = record { new_id = 7; new_uuid = "t"; timer = timer; read = reads };
  first_id = 30;
  later = agents;
  collecting = λ n. record {
    dispatched = true;
    timer = timer;
    read = λ turn. some completed;
    final = some success;
  };
}

abbrev is_completed_once : Finished → Bool
is_completed_once f = f.pipeline.collects_done == 1 && f.pipeline.status == PipelineStatus.completed

-- The agent's host is collected from.
completed_run :
    Option.map is_completed_once (execute_pipeline_background world agents [] pipeline 10 false)
    ≡ some true
unfolding execute_pipeline_background detect_collect_profile dispatch_task poll
completed_run = refl

execute_pipeline_background-ends_example :
    (f : Finished) × (execute_pipeline_background world agents [] pipeline 10 false ≡ some f)
    × (f.pipeline.completed_at ≡ some 900)
    × IsEnd f.pipeline
execute_pipeline_background-ends_example =
    execute_pipeline_background-ends world agents [] pipeline 10 false timer-IsTicking
      (λ n. timer-IsTicking) refl refl refl
