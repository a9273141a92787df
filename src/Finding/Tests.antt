-- ===== src/Finding/Tests.antt =====
-- A finding on its way, and the generation of findings from a small assessment.
use assistant_audit.Prelude.{
  ℕ, ◌+◌, ◌≡◌, refl, String, Option, none, some, [], ◌∷◌, All, select, arith, All-first, ◌==◌,
  nat_eq,
}
use assistant_audit.Errors.{ok, Returns, IfReturns}
use assistant_audit.Compliance.{critical, low, high, compliant, non_compliant, partially_compliant}
use assistant_audit.Compliance.Score.Tests.{sample_result}
use assistant_audit.Campaign.{Assessment}
use assistant_audit.Finding.{
  FindingStatus, opened, parse_status, Finding, FindingDb, is_reported, generate_from_assessment,
  update_status,
}
use assistant_audit.Finding.Lifecycle.{◌⟶◌, IsTraced, update_status-ok, update_status-IsTraced}
use assistant_audit.Finding.Generation.{findings_of, generate-idempotent}

abbrev weak_password : Finding
weak_password = record {
  id = 1;
  control_result_id = 2;
  assessment_id = 1;
  equipment_id = 3;
  title = "Weak password";
  description = none;
  severity = high;
  status = opened;
  remediation_note = none;
  assigned_to = none;
  duplicate_of_id = none;
  created_by = none;
}

abbrev assessment : Assessment
assessment = record {
  id = 1;
  campaign_id = 7;
  equipement_id = 3;
  framework_id = 5;
  assessed_by = none;
}

-- Results 2 and 3 are reported, result 2 has its finding already.
abbrev db : FindingDb
db = record {
  findings = weak_password ∷ [];
  history = [];
  results =
      sample_result 1 1 critical compliant
      ∷ sample_result 2 1 high non_compliant
      ∷ sample_result 3 1 low partially_compliant
      ∷ [];
  assessments = assessment ∷ [];
}

update_status-ok_example :
    ((t : FindingStatus)
      → parse_status "assigned" ≡ some t
      → opened ⟶ t
      → Returns
          (λ p. p.1.status ≡ t)
          (update_status db 100 weak_password "assigned" (some 10) none none))
    × IfReturns
        (λ p. (parse_status "assigned" ≡ some p.1.status) × (opened ⟶ p.1.status))
        (update_status db 100 weak_password "assigned" (some 10) none none)
update_status-ok_example = update_status-ok db 100 weak_password "assigned" (some 10) none none

-- The one stored finding is open and has no history.
db-IsTraced : IsTraced db
db-IsTraced k f h = All-first (λ x. opened ≡ x.status) (λ x. x.id == k) db.findings (refl, tt) h

update_status-IsTraced_example :
    IfReturns
      (λ p. IsTraced p.0)
      (update_status db 100 weak_password "assigned" (some 10) none none)
update_status-IsTraced_example =
    update_status-IsTraced db 100 1 "assigned" (some 10) none none db-IsTraced refl

abbrev numbered : ℕ → String
numbered n = "Control"

generate-idempotent_example :
    Returns
      (λ p.
        (p.1 + p.2 ≡ 2)
        × All (λ r. findings_of 1 r p.0.findings ≡ 1) (select (is_reported 1) db.results)
        × ((later : ℕ) (other : Option ℕ)
            → generate_from_assessment numbered p.0 later 1 other ≡ ok (p.0, 0, 2)))
      (generate_from_assessment numbered db 2 1 none)
generate-idempotent_example =
    generate-idempotent numbered db 2 1 none refl ((refl, tt), (tt, tt))
      (omega arith, (omega arith, tt))
