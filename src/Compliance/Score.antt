-- ===== src/Compliance/Score.antt =====
-- `AssessmentService.compute_score` of backend/app/services/assessment_service.py.
pub mod Counted
pub mod Range
pub mod Tests
use assistant_audit.Prelude.{
  ℕ, ◌+◌, ◌-◌, Bool, true, false, Option, none, some, List, [], ◌∷◌, length, ltb, ◌==◌, nat_eq,
  if◌then◌else◌,
}
use assistant_audit.Compliance.{
  Severity, severity_rank, ComplianceStatus, not_assessed, compliant, non_compliant,
  partially_compliant, not_applicable, ControlResult,
}
use assistant_audit.Compliance.Float.{Float}

-- A `defaultdict(int)` over the status values and "total": a missing key counts 0.
pub record Counts : Type 0 where
  pub total : ℕ
  pub not_assessed : ℕ
  pub compliant : ℕ
  pub non_compliant : ℕ
  pub partially_compliant : ℕ
  pub not_applicable : ℕ

abbrev pub no_counts : Counts
no_counts = record {
  total = 0;
  not_assessed = 0;
  compliant = 0;
  non_compliant = 0;
  partially_compliant = 0;
  not_applicable = 0;
}

-- `d["total"] += 1; d[status] += 1`
pub bump : ComplianceStatus → Counts → Counts
bump not_assessed c = record c { total = c.total + 1; not_assessed = c.not_assessed + 1 }
bump compliant c = record c { total = c.total + 1; compliant = c.compliant + 1 }
bump non_compliant c = record c { total = c.total + 1; non_compliant = c.non_compliant + 1 }
bump partially_compliant c = record c {
  total = c.total + 1;
  partially_compliant = c.partially_compliant + 1;
}
bump not_applicable c = record c { total = c.total + 1; not_applicable = c.not_applicable + 1 }

-- The key of `by_severity`: `none` is "unknown", for a result with no control.
abbrev pub label : ControlResult → Option Severity
label r = elim r.control [ none ↦ none | some c ↦ some c.severity ]

abbrev pub label_rank : Option Severity → ℕ
label_rank none = 5
label_rank (some s) = severity_rank s

abbrev pub same_label : Option Severity → Option Severity → Bool
same_label j k = label_rank j == label_rank k

abbrev pub BySeverity : Type 0
BySeverity = List (Option Severity × Counts)

-- `by_severity[sev]["total"] += 1; by_severity[sev][status] += 1`, on a
-- `defaultdict(lambda: defaultdict(int))` in insertion order.
pub bump_severity : Option Severity → ComplianceStatus → BySeverity → BySeverity
bump_severity k s [] = (k, bump s no_counts) ∷ []
bump_severity k s ((j, c) ∷ d) =
    if same_label k j then (j, bump s c) ∷ d else (j, c) ∷ bump_severity k s d

pub record Tally : Type 0 where
  pub counts : Counts
  pub by_severity : BySeverity

-- The loop over the results.
pub tally_from : Tally → List ControlResult → Tally
tally_from t [] = t
tally_from t (r ∷ rs) =
    tally_from
      (record {
        counts = bump r.status t.counts;
        by_severity = bump_severity (label r) r.status t.by_severity;
      })
      rs

module _ (f : Float) where
  open f use {F, of_ℕ, half, add, mul, div, round_1}

  -- `ScoreResponse`
  pub record Score : Type 0 where
    pub compliance_score : Option F
    pub total_controls : ℕ
    pub assessed_controls : ℕ
    pub counts : Counts
    pub by_severity : BySeverity

  -- `assessed` subtracts on integers; `Score.Counted` shows that it never goes below 0.
  pub compute_score : List ControlResult → Score
  unfolding tally_from
  compute_score results =
      let t = tally_from (record { counts = no_counts; by_severity = [] }) results in
      let c = t.counts in
      let assessed = length results - c.not_assessed - c.not_applicable in
      record {
        compliance_score =
            if ltb 0 assessed
            then some (
                round_1 (
                  mul
                    (div (add (of_ℕ c.compliant) (mul half (of_ℕ c.partially_compliant)))
                      (of_ℕ assessed))
                    (of_ℕ 100)))
            else none;
        total_controls = length results;
        assessed_controls = assessed;
        counts = c;
        by_severity = t.by_severity;
      }
