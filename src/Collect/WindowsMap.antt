-- ===== src/Collect/WindowsMap.antt =====
-- The checks of a Windows server: `WINDOWS_CONTROL_MAP` of
-- backend/app/services/collect/evaluators/windows.py. Each check is a control and the texts of its evidence;
-- "on_pass" is always "compliant" and "on_fail" always "non_compliant". No entry has a
-- severity.
use assistant_audit.Prelude.{none, List, [], ◌∷◌}
use assistant_audit.Collect.Rows.{CheckMapping}

abbrev pub windows_control_map : List CheckMapping
windows_control_map =
    record {
      control_ref = "WSRV-001";
      check = "os_supported";
      evidence_pass = "Le système d'exploitation est dans une version supportée.";
      evidence_fail = "Le système d'exploitation n'est plus supporté par Microsoft.";
      severity = none;
    }
    ∷ record {
      control_ref = "WSRV-002";
      check = "updates_recent";
      evidence_pass = "Les mises à jour sont récentes (< 30 jours).";
      evidence_fail = "Les mises à jour datent de plus de 30 jours.";
      severity = none;
    }
    ∷ record {
      control_ref = "WSRV-003";
      check = "wsus_configured";
      evidence_pass = "Le serveur est rattaché à un serveur WSUS.";
      evidence_fail = "Aucune politique WSUS/Windows Update configurée.";
      severity = none;
    }
    ∷ record {
      control_ref = "WSRV-010";
      check = "admin_renamed";
      evidence_pass = "Le compte Administrateur local a été renommé.";
      evidence_fail = "Le compte Administrator/Administrateur n'a pas été renommé.";
      severity = none;
    }
    ∷ record {
      control_ref = "WSRV-011";
      check = "password_policy_ok";
      evidence_pass = "La politique de mot de passe impose 12 caractères minimum.";
      evidence_fail =
          "La politique de mot de passe ne respecte pas les exigences (< 12 caractères).";
      severity = none;
    }
    ∷ record {
      control_ref = "WSRV-012";
      check = "lockout_configured";
      evidence_pass = "Le verrouillage de compte est configuré.";
      evidence_fail = "Aucun verrouillage de compte configuré.";
      severity = none;
    }
    ∷ record {
      control_ref = "WSRV-030";
      check = "firewall_all_enabled";
      evidence_pass = "Le pare-feu Windows est activé sur tous les profils.";
      evidence_fail = "Le pare-feu Windows n'est pas activé sur tous les profils.";
      severity = none;
    }
    ∷ record {
      control_ref = "WSRV-031";
      check = "rdp_nla";
      evidence_pass = "RDP est sécurisé avec NLA (Network Level Authentication).";
      evidence_fail = "RDP est actif sans NLA — risque de sécurité.";
      severity = none;
    }
    ∷ record {
      control_ref = "WSRV-040";
      check = "audit_policy_configured";
      evidence_pass = "La stratégie d'audit des événements est configurée.";
      evidence_fail = "La stratégie d'audit n'est pas configurée correctement.";
      severity = none;
    }
    ∷ record {
      control_ref = "WSRV-041";
      check = "logs_min_100mb";
      evidence_pass = "Les journaux d'événements ont une taille >= 100 MB.";
      evidence_fail = "Les journaux d'événements sont inférieurs à 100 MB.";
      severity = none;
    }
    ∷ record {
      control_ref = "WSRV-051";
      check = "antivirus_active";
      evidence_pass = "Un antivirus/EDR est actif et à jour.";
      evidence_fail = "Aucun antivirus/EDR actif détecté.";
      severity = none;
    }
    ∷ []
