-- ===== src/Compliance/Score/Tests.antt =====
-- An instance of `Float` in halves, and the scoring of a small assessment.
use assistant_audit.Prelude.{
  ℕ, ◌+◌, ◌*◌, ◌/◌, ◌≤◌, ◌<◌, ◌≡◌, ◌↔◌, refl, none, some, List, [], ◌∷◌, arith, false,
}
use native.Mathlib.Nat.{div-le_of_le-mul}
use assistant_audit.Compliance.{
  Severity, critical, low, ComplianceStatus, not_assessed, compliant, non_compliant,
  partially_compliant, Control, ControlResult,
}
use assistant_audit.Compliance.Float.{Float}
use assistant_audit.Compliance.Score.{compute_score, tally_from, bump, bump_severity}
use assistant_audit.Compliance.Score.Counted.{
  severity_counts, compute_score-partition, by_severity-counted,
}
use assistant_audit.Compliance.Score.Range.{compute_score-none, compute_score-range}

pub halves_div_le : (a n : ℕ) → 0 < n → a ≤ n * 2 → a * 2 / (n * 2) ≤ 2
halves_div_le a n pos h = div-le_of_le-mul (n * 2) (omega (arith, h))

-- Numbers in halves, rounded down; `round(x, 1)` leaves them alone.
abbrev pub halves : Float
halves = record {
  F = ℕ;
  le = λ a b. a ≤ b;
  of_ℕ = λ n. n * 2;
  half = 1;
  add = λ a b. a + b;
  mul = λ a b. a * b / 2;
  div = λ a b. a * 2 / b;
  round_1 = λ a. a;
  round_0 = λ a. a / 2;
  le_trans = λ a b c h k. omega (arith, h, k);
  le-of_ℕ = λ m n h k. omega (arith, h);
  add_nonneg = λ a b h k. omega arith;
  half_of_nonneg = λ n h. omega arith;
  mul_hundred_nonneg = λ a h. omega arith;
  div_nonneg = λ a n pos small h. omega arith;
  add_half_le = λ m n h. omega arith;
  div_le_one = λ a n pos small h. halves_div_le a n pos h;
  mul_hundred_le = λ a h. omega (arith, h);
  round_mono = λ a b h. h;
  round_int = λ n h. refl;
  round_0-mono = λ a b h. omega (arith, h);
  round_0-of_ℕ = λ n h. omega arith;
}

abbrev pub sample_control : ℕ → Severity → Control
sample_control id severity = record {
  id = id;
  ref_id = "CTRL";
  title = "Control";
  severity = severity;
  engine_rule_id = none;
  remediation = some "Fix it";
}

abbrev pub sample_result : ℕ → ℕ → Severity → ComplianceStatus → ControlResult
sample_result id assessment_id severity status = record {
  id = id;
  assessment_id = assessment_id;
  control_id = id;
  control = some (sample_control id severity);
  status = status;
  evidence = none;
  comment = none;
  remediation_note = none;
  auto_result = none;
  is_auto_assessed = false;
  assessed_at = none;
  assessed_by = none;
}

abbrev sample : List ControlResult
sample =
    sample_result 1 1 critical compliant
    ∷ sample_result 2 1 critical non_compliant
    ∷ sample_result 3 1 low partially_compliant
    ∷ sample_result 4 1 low compliant
    ∷ sample_result 5 1 low not_assessed
    ∷ []

-- 2.5 of 4 controls: with a quotient in halves, rounded down, 50.
sample_score : (compute_score halves sample).compliance_score ≡ some 100
unfolding compute_score tally_from bump bump_severity
sample_score = refl

compute_score-range_example : (0 ≤ 100) × (100 ≤ 200)
compute_score-range_example = compute_score-range halves sample (omega arith) 100 sample_score

compute_score-partition_example :
    let s = compute_score halves sample in
    (s.counts.compliant ≡ 2)
    × (s.counts.non_compliant ≡ 1)
    × (s.counts.partially_compliant ≡ 1)
    × (s.counts.not_applicable ≡ 0)
    × (s.counts.not_assessed ≡ 1)
    × (s.total_controls ≡ s.assessed_controls + s.counts.not_assessed + s.counts.not_applicable)
    × (s.assessed_controls
        ≡ s.counts.compliant + s.counts.non_compliant + s.counts.partially_compliant)
compute_score-partition_example = compute_score-partition halves sample

compute_score-none_example : ((compute_score halves sample).compliance_score ≡ none) ↔ (5 ≡ 1 + 0)
compute_score-none_example = compute_score-none halves sample

by_severity-counted_example :
    let c = severity_counts (some critical) (compute_score halves sample).by_severity in
    (c.total ≡ 2) × (c.non_compliant ≡ 1)
by_severity-counted_example = by_severity-counted halves sample (some critical) non_compliant
