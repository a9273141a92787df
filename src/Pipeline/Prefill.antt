-- ===== src/Pipeline/Prefill.antt =====
-- `prefill_assessment_from_pipeline`: the sensitive ports that a scan found open, as the evidence of
-- the controls against them.
use assistant_audit.Prelude.{
  ℕ, String, Bool, true, false, not, ◌&&◌, ◌||◌, Option, none, some, List, [], ◌∷◌, ◌++◌, ◌==◌,
  nat_eq, string_eq, first, update, length, if◌then◌else◌, lower, join, decimal, ◌⧺◌,
}
use assistant_audit.Errors.{Result, ok, ◌>>=◌, ◌>>◌, raise_if, require, value_error}
use assistant_audit.Compliance.{ControlResult, non_compliant}
use assistant_audit.Collect.Prefill.{is_result_for, last}
use assistant_audit.Pipeline.Hosts.{
  NmapPort, NmapHost, is_open, normalize_hosts, list_or_empty, text_or,
}
use assistant_audit.Pipeline.Rows.{PipelineStatus, pipeline_status_eq, CollectPipeline, ScanTask}

pub record PortMapping : Type 0 where
  pub port : ℕ
  pub proto : String
  pub control_ref : String
  pub service : String
  pub reason : String

abbrev pub nmap_control_map : List PortMapping
nmap_control_map =
    record {
      port = 23;
      proto = "tcp";
      control_ref = "SW-004";
      service = "Telnet";
      reason = "Protocole non chiffré, à désactiver";
    }
    ∷ record {
      port = 23;
      proto = "tcp";
      control_ref = "LSRV-021";
      service = "Telnet";
      reason = "Service inutile détecté sur le serveur";
    }
    ∷ record {
      port = 21;
      proto = "tcp";
      control_ref = "SW-004";
      service = "FTP";
      reason = "Protocole non chiffré, à désactiver";
    }
    ∷ record {
      port = 69;
      proto = "udp";
      control_ref = "SW-004";
      service = "TFTP";
      reason = "Protocole non chiffré";
    }
    ∷ record {
      port = 161;
      proto = "udp";
      control_ref = "SW-030";
      service = "SNMP";
      reason = "Vérifier que SNMP v3 est utilisé exclusivement";
    }
    ∷ record {
      port = 3389;
      proto = "tcp";
      control_ref = "WSRV-031";
      service = "RDP";
      reason = "RDP exposé, vérifier NLA et restriction par IP source";
    }
    ∷ []

-- `(mapping["port"], mapping["proto"]) in open_ports`
abbrev pub exposes : List NmapPort → PortMapping → Bool
exposes [] m = false
exposes (p ∷ ps) m =
    is_open p && not (p.port == 0) && p.port == m.port && lower p.protocol == m.proto
    || exposes ps m

abbrev pub line_of : NmapHost → PortMapping → String
line_of host m =
    "  - "
    ⧺ text_or (some host.ip) "?"
    ⧺ " : "
    ⧺ m.service
    ⧺ " ("
    ⧺ decimal m.port
    ⧺ "/"
    ⧺ m.proto
    ⧺ ") — "
    ⧺ m.reason

-- `findings.setdefault(control_ref, []).append(line)`
unfoldable pub add_line :
    String → String → List (String × List String) → List (String × List String)
add_line ref line [] = (ref, line ∷ []) ∷ []
add_line ref line ((r, lines) ∷ rest) =
    let more = add_line ref line rest in
    if r == ref then (r, lines ++ line ∷ []) ∷ rest else (r, lines) ∷ more

unfoldable pub host_findings :
    NmapHost → List PortMapping → List (String × List String) → List (String × List String)
unfolding add_line
host_findings host [] findings = findings
host_findings host (m ∷ ms) findings =
    host_findings host ms
      (if exposes host.ports m then add_line m.control_ref (line_of host m) findings else findings)

unfoldable pub scan_findings :
    List NmapHost → List (String × List String) → List (String × List String)
unfolding host_findings
scan_findings [] findings = findings
scan_findings (host ∷ rest) findings =
    scan_findings rest (host_findings host nmap_control_map findings)

pub record PortDetail : Type 0 where
  pub control_ref : String
  pub control_title : String
  pub findings_count : ℕ

abbrev pub mark : ℕ → List String → ControlResult → ControlResult
mark now lines r = record r {
  status = non_compliant;
  evidence = some ("[Pipeline Nmap] Services exposés détectés :\n" ⧺ join "\n" lines);
  auto_result = some ("Pipeline Nmap : " ⧺ decimal (length lines) ⧺ " finding(s)");
  is_auto_assessed = true;
  assessed_at = some now;
  assessed_by = some "pipeline_nmap";
}

-- The loop over the findings; both counters of the source are the length of the details.
unfoldable pub mark_all :
    (String → Option ControlResult)
    → ℕ
    → List (String × List String)
    → List ControlResult
    → List ControlResult × List PortDetail
mark_all result_for now [] rows = (rows, [])
mark_all result_for now ((ref, lines) ∷ rest) rows = elim (result_for ref) [
  | none ↦ mark_all result_for now rest rows
  | some r ↦
      let done = mark_all result_for now rest (update (λ x. x.id == r.id) (mark now lines) rows) in
      (
        done.0,
        record {
          control_ref = ref;
          control_title = elim r.control [ none ↦ "" | some c ↦ c.title ];
          findings_count = length lines;
        }
            ∷ done.1,
      )
]

-- The tables that the prefilling reads, and the results that it writes.
pub record ScanTables : Type 0 where
  pub pipelines : List CollectPipeline
  pub assessment_ids : List ℕ
  pub tasks : List ScanTask
  pub results : List ControlResult

abbrev pub is_empty_list {ℓ} : {A : Type ℓ} → List A → Bool
is_empty_list [] = true
is_empty_list (x ∷ xs) = false

unfoldable pub prefill_assessment_from_pipeline :
    ScanTables → ℕ → ℕ → ℕ → Result (ScanTables × List PortDetail)
unfolding scan_findings mark_all last
prefill_assessment_from_pipeline db now pipeline_id assessment_id = do
  p ← require (first (λ p. p.id == pipeline_id) db.pipelines) value_error
  raise_if (not (p.status == PipelineStatus.completed)) value_error
  assessment ← require (first (λ a. a == assessment_id) db.assessment_ids) value_error
  uuid ← require p.scan_task_uuid value_error
  raise_if (uuid == "") value_error
  task ← require (first (λ t. t.task_uuid == uuid) db.tasks) value_error
  let hosts = normalize_hosts (list_or_empty task.hosts)
  raise_if (is_empty_list hosts) value_error
  let done =
      mark_all (λ ref. last (is_result_for assessment_id ref) db.results) now
        (scan_findings hosts []) db.results
  ok (record db { results = done.0 }, done.1)
