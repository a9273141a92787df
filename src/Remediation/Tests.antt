-- ===== src/Remediation/Tests.antt =====
-- An audit with one failing control on two equipments, and another on one of them.
use assistant_audit.Prelude.{
  ◌≡◌, refl, false, none, some, List, [], ◌∷◌, map, ◌==◌, nat_eq, string_eq, ℕ, String, count_by,
  All, if◌then◌else◌,
}
use assistant_audit.Errors.{ok, Returns}
use assistant_audit.Campaign.{Audit}
use assistant_audit.Compliance.{critical, low, compliant, non_compliant}
use assistant_audit.Compliance.Score.Tests.{halves}
use assistant_audit.Remediation.Plan.{
  PlanControl, PlanCampaign, aggregate_campaigns, check_owned_audit, generate, sum_of,
}
use assistant_audit.Remediation.Sorting.{weight}
use assistant_audit.Remediation.Entries.{failing_controls}
use assistant_audit.Remediation.Counted.{IsBlock, occurrences_of, generate-counts}

abbrev backups : PlanControl halves
backups = record {
  id = 1;
  ref_id = "BCK-1";
  title = "Backups";
  severity = critical;
  remediation = none;
  effort_days = none;
}

abbrev banner : PlanControl halves
banner = record backups { id = 2; ref_id = "BAN-1"; title = "Banner"; severity = low }

abbrev campaign : PlanCampaign halves
campaign = record {
  audit_id = 5;
  assessments =
      record {
        equipement = some (record { id = 3; hostname = some "files"; ip_address = none });
        results =
            record { status = non_compliant; control = some banner }
            ∷ record { status = non_compliant; control = some backups }
            ∷ [];
      }
      ∷ record {
        equipement = some (record { id = 4; hostname = none; ip_address = some "10.0.0.4" });
        results =
            record { status = non_compliant; control = some backups }
            ∷ record { status = compliant; control = some banner }
            ∷ record { status = non_compliant; control = none }
            ∷ [];
      }
      ∷ [];
}

abbrev audits : List Audit
audits = record { id = 5; owner_id = 10 } ∷ []

owned : check_owned_audit audits 5 10 false ≡ ok (record { id = 5; owner_id = 10 })
unfolding check_owned_audit
owned = refl

-- Three results are counted, under two controls.
counted_results : map (λ c. c.id) (failing_controls halves (campaign ∷ [])) ≡ 2 ∷ 1 ∷ 1 ∷ []
counted_results = refl

labels :
    map (λ e. e.equipements) (aggregate_campaigns halves (campaign ∷ []) [])
    ≡ ("files" ∷ []) ∷ ("files" ∷ "10.0.0.4" ∷ []) ∷ []
unfolding aggregate_campaigns
labels = refl

-- The references of the two controls.
abbrev reference : ℕ → String
reference id = if id == 1 then "BCK-1" else "BAN-1"

generate-counts_example :
    Returns
      (λ p.
        All (IsBlock halves) p.horizons
        × (sum_of (map (λ h. weight halves (λ a. a.occurrences) h.actions) p.horizons) ≡ 3)
        × ((s : String)
            → sum_of (map (λ h. weight halves (occurrences_of halves s) h.actions) p.horizons)
              ≡ count_by (λ c. c.ref_id == s) (failing_controls halves (campaign ∷ [])))
        × (p.total_actions ≡ 2))
      (generate halves audits (campaign ∷ []) 5 10 false)
generate-counts_example =
    generate-counts halves audits (campaign ∷ []) 5 10 false reference owned
      (refl, (refl, (refl, tt)))
