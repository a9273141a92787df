-- ===== src/Pipeline/PrefillTests.antt =====
-- A completed pipeline whose scan found Telnet open, and an assessment without a control for it.
use assistant_audit.Prelude.{
  ◌≤◌, ◌≡◌, refl, String, none, some, List, [], ◌∷◌, map, contains, nat_eq, string_eq, select,
  count_by,
}
use assistant_audit.Errors.{Returns}
use assistant_audit.Compliance.{critical, not_assessed}
use assistant_audit.Compliance.Score.Tests.{sample_result}
use assistant_audit.Agent.{completed}
use assistant_audit.Collect.Prefill.{is_result_for, last}
use assistant_audit.Pipeline.Hosts.{NmapHost, RawHost, normalize_hosts}
use assistant_audit.Pipeline.Rows.{PipelineStatus, StepStatus, CollectPipeline, ScanTask}
use assistant_audit.Pipeline.Prefill.{ScanTables, scan_findings, prefill_assessment_from_pipeline}
use assistant_audit.Pipeline.Exposed.{
  refs_of, is_exposed_by_any, is_compliant, has_row, prefill_assessment_from_pipeline-exposed,
}

abbrev raw : RawHost
raw = record {
  ip = some "10.0.0.7";
  ip_address = none;
  hostname = none;
  mac = none;
  mac_address = none;
  vendor = none;
  os = none;
  os_guess = none;
  ports = some (
      some (record {
        port = some 23;
        port_number = none;
        proto = some "TCP";
        protocol = none;
        state = some "open";
        service = none;
        service_name = none;
      })
      ∷ []);
}

abbrev scan : ScanTask
scan = record {
  task_uuid = "t";
  status = completed;
  error_message = none;
  hosts = some (some raw ∷ []);
}

abbrev finished : CollectPipeline
finished = record {
  id = 1;
  site_id = 4;
  created_by = 10;
  target = "10.0.0.0/24";
  status = PipelineStatus.completed;
  error_message = none;
  agent_id = some 2;
  scan_task_uuid = some "t";
  scan_status = StepStatus.completed;
  hosts_discovered = 1;
  equipments_status = StepStatus.completed;
  equipments_created = 0;
  hosts_skipped = 1;
  collects_status = StepStatus.skipped;
  collects_total = 0;
  collects_done = 0;
  collects_failed = 0;
  started_at = some 1;
  completed_at = some 9;
}

abbrev db : ScanTables
db = record {
  pipelines = finished ∷ [];
  assessment_ids = 3 ∷ [];
  tasks = scan ∷ [];
  results = sample_result 1 3 critical not_assessed ∷ [];
}

abbrev hosts : List NmapHost
hosts = normalize_hosts (some raw ∷ [])

telnet : refs_of (scan_findings hosts []) ≡ "SW-004" ∷ "LSRV-021" ∷ []
unfolding scan_findings
telnet = refl

prefill_assessment_from_pipeline-exposed_example :
    let found = refs_of (scan_findings hosts []) in
    ((ref : String) → contains ref found ≡ is_exposed_by_any ref hosts)
    × Returns
        (λ out.
          (map (λ d. d.control_ref) out.1
            ≡ select (λ ref. has_row (last (is_result_for 3 ref) db.results)) found)
          × (count_by is_compliant out.0.results ≤ count_by is_compliant db.results))
        (prefill_assessment_from_pipeline db 100 1 3)
prefill_assessment_from_pipeline-exposed_example =
    prefill_assessment_from_pipeline-exposed db 100 1 3 refl refl refl refl refl refl refl
