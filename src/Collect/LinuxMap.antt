-- ===== src/Collect/LinuxMap.antt =====
-- The checks of a Linux server: `LINUX_CONTROL_MAP` of
-- backend/app/services/collect/evaluators/linux.py. Each check is a control and the texts of its evidence;
-- "on_pass" is always "compliant" and "on_fail" always "non_compliant". No entry has a
-- severity.
use assistant_audit.Prelude.{none, List, [], ◌∷◌}
use assistant_audit.Collect.Rows.{CheckMapping}

abbrev pub linux_control_map : List CheckMapping
linux_control_map =
    record {
      control_ref = "LSRV-001";
      check = "os_supported";
      evidence_pass = "La distribution est dans une version LTS supportée.";
      evidence_fail = "La distribution n'est plus supportée (fin de vie).";
      severity = none;
    }
    ∷ record {
      control_ref = "LSRV-002";
      check = "no_pending_security_updates";
      evidence_pass = "Aucune mise à jour de sécurité en attente.";
      evidence_fail = "Des mises à jour de sécurité sont en attente.";
      severity = none;
    }
    ∷ record {
      control_ref = "LSRV-003";
      check = "auto_updates_configured";
      evidence_pass = "Les mises à jour automatiques sont configurées.";
      evidence_fail = "Les mises à jour automatiques ne sont pas configurées.";
      severity = none;
    }
    ∷ record {
      control_ref = "LSRV-010";
      check = "ssh_root_disabled";
      evidence_pass = "La connexion root directe via SSH est désactivée (PermitRootLogin no).";
      evidence_fail = "La connexion root via SSH est autorisée — risque de sécurité.";
      severity = none;
    }
    ∷ record {
      control_ref = "LSRV-011";
      check = "ssh_password_disabled";
      evidence_pass = "L'authentification SSH par mot de passe est désactivée.";
      evidence_fail = "L'authentification SSH par mot de passe est activée.";
      severity = none;
    }
    ∷ record {
      control_ref = "LSRV-013";
      check = "pam_configured";
      evidence_pass = "PAM est configuré avec des exigences de complexité.";
      evidence_fail = "PAM n'est pas configuré pour la politique de mot de passe.";
      severity = none;
    }
    ∷ record {
      control_ref = "LSRV-020";
      check = "firewall_active";
      evidence_pass = "Un pare-feu local est actif.";
      evidence_fail = "Aucun pare-feu local actif détecté.";
      severity = none;
    }
    ∷ record {
      control_ref = "LSRV-030";
      check = "rsyslog_active";
      evidence_pass = "rsyslog est actif et fonctionnel.";
      evidence_fail = "rsyslog n'est pas actif.";
      severity = none;
    }
    ∷ record {
      control_ref = "LSRV-032";
      check = "auditd_active";
      evidence_pass = "auditd est installé et actif.";
      evidence_fail = "auditd n'est pas actif ou pas installé.";
      severity = none;
    }
    ∷ record {
      control_ref = "LSRV-041";
      check = "antivirus_installed";
      evidence_pass = "Un agent de sécurité (EDR/antivirus) est installé.";
      evidence_fail = "Aucun agent de sécurité détecté.";
      severity = none;
    }
    ∷ record {
      control_ref = "LSRV-042";
      check = "file_permissions_ok";
      evidence_pass = "Les permissions des fichiers sensibles sont correctes.";
      evidence_fail = "Les permissions de /etc/shadow ou /etc/passwd sont trop permissives.";
      severity = none;
    }
    ∷ []
