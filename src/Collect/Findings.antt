-- ===== src/Collect/Findings.antt =====
-- `_analyze_collect_findings` and the counts of `_generate_summary`. The checks of an OPNsense
-- firewall are arguments: their evaluator is not modelled.
use assistant_audit.Prelude.{
  ℕ, ◌-◌, String, Bool, true, false, Option, none, some, List, [], ◌∷◌, ◌==◌, string_eq, length,
  nonempty, contains, if◌then◌else◌, ◌⧺◌,
}
use assistant_audit.Collect.Rows.{get_or, CheckMapping, LinuxFacts, WindowsFacts}
use assistant_audit.Collect.LinuxMap.{linux_control_map}
use assistant_audit.Collect.WindowsMap.{windows_control_map}
use assistant_audit.Collect.Linux.{evaluate_linux_check}
use assistant_audit.Collect.Windows.{Days, evaluate_windows_check}

pub data CollectMethod : Type 0 where
  ssh winrm : CollectMethod

-- What the analysis reads of a `CollectResult`.
pub record Facts : Type 0 where
  pub method : CollectMethod
  pub device_profile : Option String
  pub linux : LinuxFacts
  pub windows : WindowsFacts

-- A table of checks, and how one is evaluated.
pub record Checks : Type 0 where
  pub control_map : List CheckMapping
  pub evaluate : String → Bool × String

pub record SecurityFinding : Type 0 where
  pub control_ref : String
  pub title : String
  pub description : String
  pub severity : String
  pub category : String
  pub remediation : String

pub record CheckSummary : Type 0 where
  pub total_checks : ℕ
  pub compliant : ℕ
  pub non_compliant : ℕ

abbrev pub is_winrm : CollectMethod → Bool
is_winrm ssh = false
is_winrm winrm = true

-- `collect.device_profile or (...)`
abbrev pub profile_of : Facts → String
profile_of collect = elim (nonempty collect.device_profile) [
  | some p ↦ p
  | none ↦ if is_winrm collect.method then "windows_server" else "linux_server"
]

abbrev pub failed_check : CheckMapping → String → SecurityFinding
failed_check mapping detail = record {
  control_ref = mapping.control_ref;
  title = "Non-conformité détectée : " ⧺ mapping.control_ref;
  description = detail;
  severity = get_or mapping.severity "medium";
  category = "Sécurité";
  remediation = mapping.evidence_fail;
}

-- The loop over the table.
unfoldable pub failures : (String → Bool × String) → List CheckMapping → List SecurityFinding
failures evaluate [] = []
failures evaluate (mapping ∷ rest) =
    let (passed, detail) = evaluate mapping.check in
    if passed then failures evaluate rest else failed_check mapping detail ∷ failures evaluate rest

-- The table for the method alone.
abbrev pub checks_of_method : (String → Option Days) → Facts → Checks
checks_of_method days_since collect =
    if is_winrm collect.method
    then record {
      control_map = windows_control_map;
      evaluate = evaluate_windows_check days_since collect.windows;
    }
    else record { control_map = linux_control_map; evaluate = evaluate_linux_check collect.linux }

module _ (days_since : String → Option Days) (opnsense : Facts → Checks) where
  -- The table for the profile; two kinds of firewalls have none yet.
  unfoldable pub checks_of : Facts → Option Checks
  checks_of collect =
      if profile_of collect == "opnsense"
      then some (opnsense collect)
      else if contains (profile_of collect) ("stormshield" ∷ "fortigate" ∷ [])
      then none
      else some (checks_of_method days_since collect)

  unfoldable pub analyze_collect_findings : Facts → List SecurityFinding
  unfolding checks_of failures
  analyze_collect_findings collect = elim (checks_of collect) [
    | none ↦ []
    | some checks ↦ failures checks.evaluate checks.control_map
  ]

  -- The counts of the summary; its subtraction is one of integers.
  unfoldable pub generate_summary : Facts → List SecurityFinding → CheckSummary
  unfolding checks_of
  generate_summary collect findings = elim (checks_of collect) [
    | none ↦ record { total_checks = 0; compliant = 0; non_compliant = 0 }
    | some checks ↦ record {
      total_checks = length checks.control_map;
      compliant = length checks.control_map - length findings;
      non_compliant = length findings;
    }
  ]
