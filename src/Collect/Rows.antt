-- ===== src/Collect/Rows.antt =====
-- The mappings of the checks, and the facts that an agent collects. The facts come as JSON objects;
-- the fields are the keys that the checks read, `none` where a key is missing, with values of the
-- type that the collectors write.
use assistant_audit.Prelude.{ℕ, String, Bool, Option, none, some, List}

-- backend/app/models/collect_result.py
pub data CollectStatus : Type 0 where
  running success failed : CollectStatus

pub record CheckMapping : Type 0 where
  pub control_ref : String
  pub check : String
  pub evidence_pass : String
  pub evidence_fail : String
  pub severity : Option String

pub record LinuxFacts : Type 0 where
  pub distro : Option String
  pub version_id : Option String
  pub security_updates : Option ℕ
  pub auto_updates_configured : Option Bool
  pub ssh_permit_root_login : Option String
  pub ssh_password_authentication : Option String
  pub pam_pwquality : Option String
  pub firewall_status : Option String
  pub rsyslog_active : Option String
  pub auditd_active : Option String
  pub antivirus_edr : Option String
  pub passwd_perms : Option String

pub record WindowsFacts : Type 0 where
  pub caption : Option String
  pub last_update_date : Option String
  pub wsus_configured : Option Bool
  pub wsus_server : Option String
  pub admin_renamed : Option Bool
  pub meets_12_chars : Option Bool
  pub min_length_value : Option ℕ
  pub lockout_configured : Option Bool
  pub lockout_threshold : Option ℕ
  pub firewall_all_enabled : Option Bool
  pub firewall_profiles : List (String × Bool)
  pub rdp_enabled : Option Bool
  pub rdp_nla_enabled : Option Bool
  pub audit_policy : Option String
  pub logs_min_100mb : Option Bool
  pub event_logs : List (String × ℕ)
  pub antivirus_active : Option Bool

-- `d.get(key, default)`
abbrev pub get_or {ℓ} : {A : Type ℓ} → Option A → A → A
get_or none default = default
get_or (some a) default = a
