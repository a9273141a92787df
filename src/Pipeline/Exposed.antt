-- ===== src/Pipeline/Exposed.antt =====
-- What the prefilling of an assessment from a scan says of the hosts.
use assistant_audit.Prelude.{
  ℕ, ◌≤◌, ◌≡◌, refl, sym, ap, ◌∙◌, String, Bool, true, false, ◌&&◌, ◌||◌, Option, none, some, List,
  [], ◌∷◌, map, contains, ◌==◌, nat_eq, string_eq, first, select, update, count_by, arith,
  Bool-cases, Option-cases, inl, inr,
}
use assistant_audit.Errors.{Returns}
use assistant_audit.Compliance.{ControlResult, compliant, status_eq}
use assistant_audit.Collect.Prefill.{is_result_for, last}
use assistant_audit.Pipeline.Hosts.{NmapHost, normalize_hosts, list_or_empty}
use assistant_audit.Pipeline.Rows.{PipelineStatus, pipeline_status_eq, CollectPipeline, ScanTask}
use assistant_audit.Pipeline.Prefill.{
  PortMapping, nmap_control_map, exposes, line_of, add_line, host_findings, scan_findings, mark,
  mark_all, ScanTables, is_empty_list, prefill_assessment_from_pipeline,
}

abbrev pub refs_of : List (String × List String) → List String
refs_of findings = map (λ e. e.0) findings

-- Some mapping of the list is against the control, and its port is open.
abbrev pub is_exposed : String → NmapHost → List PortMapping → Bool
is_exposed ref host [] = false
is_exposed ref host (m ∷ ms) =
    (exposes host.ports m && ref == m.control_ref) || is_exposed ref host ms

abbrev pub is_exposed_by_any : String → List NmapHost → Bool
is_exposed_by_any ref [] = false
is_exposed_by_any ref (host ∷ rest) =
    is_exposed ref host nmap_control_map || is_exposed_by_any ref rest

or_absorb : (a b : Bool) → (a || b) ≡ ((a || b) || a)
or_absorb a b = ground arith

or_assoc : (a b c : Bool) → ((a || b) || c) ≡ (a || (b || c))
or_assoc a b c = ground arith

contains-add_line :
    (ref r line : String) (fs : List (String × List String))
    → contains ref (refs_of (add_line r line fs)) ≡ (contains ref (refs_of fs) || ref == r)
unfolding add_line
contains-add_line ref r line [] = ground arith
contains-add_line ref r line ((r', lines) ∷ rest) = elim (Bool-cases (r' == r)) [
  | inl t ↦ rw t (
      or_absorb (ref == r') (contains ref (refs_of rest))
      ∙ ap (λ z. (ref == r' || contains ref (refs_of rest)) || ref == z)
          ((string_eq.eqb_iff r' r).0 t))
  | inr n ↦ rw n (
      ap (λ b. ref == r' || b) (contains-add_line ref r line rest)
      ∙ sym (or_assoc (ref == r') (contains ref (refs_of rest)) (ref == r)))
]

contains-host_findings :
    (ref : String) (host : NmapHost) (ms : List PortMapping) (fs : List (String × List String))
    → contains ref (refs_of (host_findings host ms fs))
      ≡ (contains ref (refs_of fs) || is_exposed ref host ms)
unfolding host_findings
contains-host_findings ref host [] fs = ground arith
contains-host_findings ref host (m ∷ ms) fs = elim (Bool-cases (exposes host.ports m)) [
  | inl t ↦ rw t (
      contains-host_findings ref host ms (add_line m.control_ref (line_of host m) fs)
      ∙ ap (λ b. b || is_exposed ref host ms)
          (contains-add_line ref m.control_ref (line_of host m) fs)
      ∙ or_assoc (contains ref (refs_of fs)) (ref == m.control_ref) (is_exposed ref host ms))
  | inr n ↦ rw n (contains-host_findings ref host ms fs)
]

contains-scan_findings :
    (ref : String) (hosts : List NmapHost) (fs : List (String × List String))
    → contains ref (refs_of (scan_findings hosts fs))
      ≡ (contains ref (refs_of fs) || is_exposed_by_any ref hosts)
unfolding scan_findings
contains-scan_findings ref [] fs = ground arith
contains-scan_findings ref (host ∷ rest) fs =
    contains-scan_findings ref rest (host_findings host nmap_control_map fs)
    ∙ ap (λ b. b || is_exposed_by_any ref rest)
        (contains-host_findings ref host nmap_control_map fs)
    ∙ or_assoc (contains ref (refs_of fs)) (is_exposed ref host nmap_control_map)
        (is_exposed_by_any ref rest)

abbrev pub is_compliant : ControlResult → Bool
is_compliant r = r.status == compliant

count_by-marked :
    (p : ControlResult → Bool) (now : ℕ) (lines : List String) (rows : List ControlResult)
    → count_by is_compliant (update p (mark now lines) rows) ≤ count_by is_compliant rows
count_by-marked p now lines [] = omega arith
count_by-marked p now lines (r ∷ rest) = elim (Bool-cases (p r)) [
  | inl t ↦ elim (Bool-cases (is_compliant r)) [
    | inl c ↦ rw (t, c) (omega (arith, count_by-marked p now lines rest))
    | inr c ↦ rw (t, c) (count_by-marked p now lines rest)
  ]
  | inr n ↦ elim (Bool-cases (is_compliant r)) [
    | inl c ↦ rw (n, c) (omega (arith, count_by-marked p now lines rest))
    | inr c ↦ rw (n, c) (count_by-marked p now lines rest)
  ]
]

abbrev pub has_row : Option ControlResult → Bool
has_row none = false
has_row (some r) = true

mark_all-details :
    (result_for : String → Option ControlResult) (now : ℕ) (fs : List (String × List String))
    (rows : List ControlResult)
    → let done = mark_all result_for now fs rows in
      (map (λ d. d.control_ref) done.1 ≡ select (λ ref. has_row (result_for ref)) (refs_of fs))
      × (count_by is_compliant done.0 ≤ count_by is_compliant rows)
unfolding mark_all
mark_all-details result_for now [] rows = (refl, omega arith)
mark_all-details result_for now ((ref, lines) ∷ rest) rows = elim (Option-cases (result_for ref)) [
  | inl n ↦ rw (n, mark_all) (mark_all-details result_for now rest rows)
  | inr (r, e) ↦
      let more =
        mark_all-details result_for now rest (update (λ x. x.id == r.id) (mark now lines) rows) in
      rw (e, mark_all)
        (
          ap (◌∷◌ ref) more.0,
          omega (arith, more.1, count_by-marked (λ x. x.id == r.id) now lines rows),
        )
]

-- The prefilling from a completed pipeline whose scan has hosts. A control is found exactly when one
-- of its ports, over its protocol, is open on one of the hosts; the details list, in order, the
-- controls that are found and that the assessment has a result for; and no more results are
-- compliant than before.
pub prefill_assessment_from_pipeline-exposed :
    (db : ScanTables) (now k a : ℕ) {p : CollectPipeline} {a' : ℕ} {uuid : String} {task : ScanTask}
    → first (λ x. x.id == k) db.pipelines ≡ some p
    → p.status ≡ PipelineStatus.completed
    → first (λ x. x == a) db.assessment_ids ≡ some a'
    → p.scan_task_uuid ≡ some uuid
    → (uuid == "") ≡ false
    → first (λ t. t.task_uuid == uuid) db.tasks ≡ some task
    → is_empty_list (normalize_hosts (list_or_empty task.hosts)) ≡ false
    → let hosts = normalize_hosts (list_or_empty task.hosts) in
      let found = refs_of (scan_findings hosts []) in
      ((ref : String) → contains ref found ≡ is_exposed_by_any ref hosts)
      × Returns
          (λ out.
            (map (λ d. d.control_ref) out.1
              ≡ select (λ ref. has_row (last (is_result_for a ref) db.results)) found)
            × (count_by is_compliant out.0.results ≤ count_by is_compliant db.results))
          (prefill_assessment_from_pipeline db now k a)
unfolding prefill_assessment_from_pipeline
prefill_assessment_from_pipeline-exposed db now k a {p} {a'} {uuid} {task} found completed there
      sent named kept some_host =
    (
      (λ ref. contains-scan_findings ref (normalize_hosts (list_or_empty task.hosts)) []),
      rw (found, completed, there, sent, named, kept, some_host)
          (mark_all-details (λ ref. last (is_result_for a ref) db.results) now _ db.results),
    )
