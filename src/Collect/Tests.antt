-- ===== src/Collect/Tests.antt =====
-- A Linux host whose SSH server has no settings, and the sweep of two collects.
use assistant_audit.Prelude.{
  ℕ, first, ◌==◌, ◌+◌, ◌≡◌, refl, String, true, false, Option, none, some, List, [], ◌∷◌, map,
  nat_eq, decimal, length, select, All, count_by,
}
use assistant_audit.Errors.{Returns}
use assistant_audit.Compliance.{ControlResult, critical, not_assessed}
use assistant_audit.Compliance.Score.Tests.{sample_control, sample_result}
use assistant_audit.Collect.Rows.{LinuxFacts, WindowsFacts, running, success}
use assistant_audit.Collect.LinuxMap.{linux_control_map}
use assistant_audit.Collect.Linux.{evaluate_linux_check}
use assistant_audit.Collect.Windows.{Days}
use assistant_audit.Collect.Findings.{
  Facts, Checks, ssh, checks_of, checks_of_method, analyze_collect_findings, generate_summary,
}
use assistant_audit.Collect.Prefill.{
  StoredCollect, PrefillDb, is_result_for, last, prefill_assessment_from_collect,
}
use assistant_audit.Collect.Stored.{IsFilled, verdict_on}
use assistant_audit.Collect.Agreement.{
  is_passed, is_failed, is_there, is_non_compliant, analyze_collect_findings-summary,
  prefill_assessment_from_collect-agrees,
}
use assistant_audit.Collect.Sweep.{
  CollectRow, TaskOwner, status_failed, is_overdue, sync_collect_sweep, sync_collect_sweep-expires,
}

abbrev bare : LinuxFacts
bare = record {
  distro = some "Ubuntu";
  version_id = some "24.04";
  security_updates = some 3;
  auto_updates_configured = none;
  ssh_permit_root_login = none;
  ssh_password_authentication = none;
  pam_pwquality = some "minlen = 14";
  firewall_status = some "ufw_active";
  rsyslog_active = some "active";
  auditd_active = none;
  antivirus_edr = none;
  passwd_perms = some "-rw-r--r-- 1 root root /etc/passwd\n-rw-r----- 1 root shadow /etc/shadow";
}

abbrev no_windows : WindowsFacts
no_windows = record {
  caption = none;
  last_update_date = none;
  wsus_configured = none;
  wsus_server = none;
  admin_renamed = none;
  meets_12_chars = none;
  min_length_value = none;
  lockout_configured = none;
  lockout_threshold = none;
  firewall_all_enabled = none;
  firewall_profiles = [];
  rdp_enabled = none;
  rdp_nla_enabled = none;
  audit_policy = none;
  logs_min_100mb = none;
  event_logs = [];
  antivirus_active = none;
}

abbrev collect : Facts
collect = record { method = ssh; device_profile = none; linux = bare; windows = no_windows }

abbrev no_dates : String → Option Days
no_dates text = none

abbrev no_firewall : Facts → Checks
no_firewall c = record { control_map = []; evaluate = λ check. (true, "") }

linux_checks : checks_of no_dates no_firewall collect ≡ some (checks_of_method no_dates collect)
unfolding checks_of
linux_checks = refl

failing :
    map (λ f. f.control_ref) (analyze_collect_findings no_dates no_firewall collect)
    ≡ "LSRV-002" ∷ "LSRV-003" ∷ "LSRV-032" ∷ "LSRV-041" ∷ []
unfolding analyze_collect_findings evaluate_linux_check
failing = refl

updates_pending :
    evaluate_linux_check bare "no_pending_security_updates"
    ≡ (false, "3 mise(s) à jour de sécurité en attente")
unfolding evaluate_linux_check decimal
updates_pending = refl

analyze_collect_findings-summary_example :
    let findings = analyze_collect_findings no_dates no_firewall collect in
    let s = generate_summary no_dates no_firewall collect findings in
    (map (λ f. f.control_ref) findings
      ≡ map (λ m. m.control_ref) (select (is_failed (evaluate_linux_check bare)) linux_control_map))
    × (s.compliant + s.non_compliant ≡ s.total_checks)
    × (s.compliant ≡ length (select (is_passed (evaluate_linux_check bare)) linux_control_map))
analyze_collect_findings-summary_example =
    analyze_collect_findings-summary no_dates no_firewall collect linux_checks

-- A host whose SSH server is not configured, as the collectors write it: the check for root passes,
-- since "not_set" contains "no", and so does that for passwords.
root_not_set :
    evaluate_linux_check
      (record bare { ssh_permit_root_login = some "NOT_SET" })
      "ssh_root_disabled"
    ≡ (true, "PermitRootLogin = not_set")
unfolding evaluate_linux_check
root_not_set = refl

password_not_set :
    evaluate_linux_check
      (record bare { ssh_password_authentication = some "NOT_SET" })
      "ssh_password_disabled"
    ≡ (true, "PasswordAuthentication = no")
unfolding evaluate_linux_check
password_not_set = refl

abbrev stored : StoredCollect
stored = record { id = 4; status = success; facts = collect }

-- A result for the control of the updates, whose check fails.
abbrev updates_result : ControlResult
updates_result = record (sample_result 1 1 critical not_assessed) {
  control = some (record (sample_control 1 critical) { ref_id = "LSRV-002" });
}

abbrev db : PrefillDb
db = record { collects = stored ∷ []; assessment_ids = 1 ∷ []; results = updates_result ∷ [] }

-- What the theorem says of the stored row: the check of its control failed.
updates_fail :
    verdict_on
      (evaluate_linux_check bare)
      (λ ref. last (is_result_for 1 ref) db.results)
      1
      linux_control_map
    ≡ some false
unfolding evaluate_linux_check last
updates_fail = refl

prefill_assessment_from_collect-agrees_example :
    Returns
      (λ p.
        (map (λ d. d.control_ref) (select is_non_compliant p.1.details)
          ≡ select
              (λ ref. is_there (last (is_result_for 1 ref) db.results))
              (map (λ f. f.control_ref) (analyze_collect_findings no_dates no_firewall collect)))
        × (p.1.controls_prefilled ≡ p.1.controls_compliant + p.1.controls_non_compliant)
        × (length p.1.details ≡ p.1.controls_prefilled)
        × (length (select is_non_compliant p.1.details) ≡ p.1.controls_non_compliant)
        × ((k : ℕ) (x : ControlResult)
            → first (λ z. z.id == k) db.results ≡ some x
            → let result_for = λ (ref : String). last (is_result_for 1 ref) db.results in
              (y : ControlResult) × (first (λ z. z.id == k) p.0.results ≡ some y)
              × IsFilled
                  (verdict_on (evaluate_linux_check bare) result_for k linux_control_map)
                  x
                  y))
      (prefill_assessment_from_collect no_dates db 100 4 1)
prefill_assessment_from_collect-agrees_example =
    prefill_assessment_from_collect-agrees no_dates no_firewall db 100 4 1 refl refl refl
      linux_checks

-- The first collect is too old; its task has an owner.
abbrev old : CollectRow
old = record {
  id = 1;
  status = running;
  error_message = none;
  agent_task_id = some 8;
  created_at = 0;
  completed_at = none;
  duration_seconds = none;
}

abbrev recent : CollectRow
recent = record old { id = 2; created_at = 9000000 }

abbrev owners : List TaskOwner
owners = record { id = 8; owner_id = 10 } ∷ []

notified : (sync_collect_sweep owners 10000000 5000000 (old ∷ recent ∷ [])).1 ≡ (10, 1) ∷ []
unfolding sync_collect_sweep
notified = refl

sync_collect_sweep-expires_example :
    let swept = sync_collect_sweep owners 10000000 5000000 (old ∷ recent ∷ []) in
    All (λ c. is_overdue 10000000 5000000 c ≡ false) swept.0
    × (count_by (λ c. status_failed c.status) swept.0 ≡ 0 + 1)
    × (length swept.0 ≡ 2)
    × (sync_collect_sweep owners 10000000 5000000 swept.0 ≡ (swept.0, []))
sync_collect_sweep-expires_example =
    sync_collect_sweep-expires owners 10000000 5000000 (old ∷ recent ∷ [])
