-- ===== src/Compliance/Score/Counted.antt =====
-- What the score counts: each status as often as it occurs, overall and under each severity.
use assistant_audit.Prelude.{
  ℕ, ◌+◌, ◌≡◌, refl, Bool, true, false, Option, List, [], ◌∷◌, ◌&&◌, ◌==◌, length, count_by, arith,
  if◌then◌else◌, Bool-cases, inl, inr,
}
use assistant_audit.Compliance.{
  Severity, ComplianceStatus, not_assessed, compliant, non_compliant, partially_compliant,
  not_applicable, ControlResult, status_eq,
}
use assistant_audit.Compliance.Float.{Float}
use assistant_audit.Compliance.Score.{
  Counts, no_counts, bump, label, label_rank, same_label, BySeverity, bump_severity, Tally,
  tally_from, compute_score,
}

-- How many results have the status.
abbrev pub count_status : ComplianceStatus → List ControlResult → ℕ
count_status s = count_by (λ r. r.status == s)

-- How many results have a severity, and how many of those a status.
abbrev pub count_label : Option Severity → List ControlResult → ℕ
count_label k = count_by (λ r. same_label (label r) k)

abbrev pub count_label_status : Option Severity → ComplianceStatus → List ControlResult → ℕ
count_label_status k s = count_by (λ r. same_label (label r) k && r.status == s)

-- `c` counts the results on top of `base`.
pub record Adds (base c : Counts) (rs : List ControlResult) : Type 0 where
  pub total : c.total ≡ base.total + length rs
  pub not_assessed : c.not_assessed ≡ base.not_assessed + count_status not_assessed rs
  pub compliant : c.compliant ≡ base.compliant + count_status compliant rs
  pub non_compliant : c.non_compliant ≡ base.non_compliant + count_status non_compliant rs
  pub partially_compliant :
      c.partially_compliant ≡ base.partially_compliant + count_status partially_compliant rs
  pub not_applicable : c.not_applicable ≡ base.not_applicable + count_status not_applicable rs

pub tally_from-Adds :
    (t : Tally) (rs : List ControlResult) → Adds t.counts (tally_from t rs).counts rs
unfolding tally_from bump
tally_from-Adds t [] = ground arith
tally_from-Adds t (r ∷ rs) = ground (
  arith,
  tally_from-Adds
      (record {
        counts = bump r.status t.counts;
        by_severity = bump_severity (label r) r.status t.by_severity;
      })
      rs,
)

count_status-partition :
    (rs : List ControlResult)
    → length rs
      ≡ count_status compliant rs
        + count_status non_compliant rs
        + count_status partially_compliant rs
        + count_status not_applicable rs
        + count_status not_assessed rs
count_status-partition [] = omega arith
count_status-partition (r ∷ rs) = ground (arith, count_status-partition rs)

-- Every result is counted once, under its own status: the five counts are those of the list, they
-- add up to the total, and the assessed controls are those that are neither "not assessed" nor
-- "not applicable".
pub compute_score-partition :
    (f : Float) (results : List ControlResult)
    → let s = compute_score f results in
      (s.counts.compliant ≡ count_status compliant results)
      × (s.counts.non_compliant ≡ count_status non_compliant results)
      × (s.counts.partially_compliant ≡ count_status partially_compliant results)
      × (s.counts.not_applicable ≡ count_status not_applicable results)
      × (s.counts.not_assessed ≡ count_status not_assessed results)
      × (s.total_controls ≡ s.assessed_controls + s.counts.not_assessed + s.counts.not_applicable)
      × (s.assessed_controls
          ≡ s.counts.compliant + s.counts.non_compliant + s.counts.partially_compliant)
unfolding compute_score
compute_score-partition f results = ground (
  arith,
  tally_from-Adds (record { counts = no_counts; by_severity = [] }) results,
  count_status-partition results,
)

-- `by_severity.get(k)`, with no counts for a missing key.
abbrev pub severity_counts : Option Severity → BySeverity → Counts
severity_counts k [] = no_counts
severity_counts k ((j, c) ∷ d) = if same_label j k then c else severity_counts k d

same_label-eq : (j i k : Option Severity) → same_label j i ≡ true → same_label i k ≡ same_label j k
same_label-eq j i k h = rw (label_rank_eq j i h)
  where
    label_rank_eq : (j i : Option Severity) → same_label j i ≡ true → label_rank j ≡ label_rank i
    label_rank_eq j i h = ground arith

same_label-ne :
    (j i k : Option Severity)
    → same_label j i ≡ false
    → same_label i k ≡ true
    → same_label j k ≡ false
same_label-ne j i k h e = ground arith

module _ {A : Type 0} (f : A → A) (c x : A) where
  if-hit :
      (b : Bool)
      → (if b then f c else x) ≡ (if b then f (if b then c else x) else if b then c else x)
  if-hit true = refl
  if-hit false = refl

  if-miss :
      (a b : Bool)
      → (a ≡ true → b ≡ false)
      → (if a then c else if b then f x else x)
        ≡ (if b then f (if a then c else x) else if a then c else x)
  if-miss true b h = rw (h refl)
  if-miss false b h = refl

severity_counts-bump :
    (k j : Option Severity) (s : ComplianceStatus) (d : BySeverity)
    → severity_counts k (bump_severity j s d)
      ≡ (if same_label j k then bump s (severity_counts k d) else severity_counts k d)
unfolding bump_severity
severity_counts-bump k j s [] = refl
severity_counts-bump k j s ((i, c) ∷ d) = elim (Bool-cases (same_label j i)) [
  | inl e ↦ rw (e, same_label-eq j i k e) (if-hit (bump s) c (severity_counts k d) (same_label j k))
  | inr n ↦
      rw (n, severity_counts-bump k j s d)
        (if-miss (bump s) c (severity_counts k d) (same_label i k) (same_label j k)
          (same_label-ne j i k n))
]

abbrev pub count_of : ComplianceStatus → Counts → ℕ
count_of not_assessed c = c.not_assessed
count_of compliant c = c.compliant
count_of non_compliant c = c.non_compliant
count_of partially_compliant c = c.partially_compliant
count_of not_applicable c = c.not_applicable

total-bump : (s : ComplianceStatus) (c : Counts) → (bump s c).total ≡ c.total + 1
unfolding bump
total-bump s c = ground arith

count_of-bump :
    (s u : ComplianceStatus) (c : Counts)
    → count_of u (bump s c) ≡ (if s == u then count_of u c + 1 else count_of u c)
unfolding bump
count_of-bump s u c = ground arith

-- `t` after one more result
abbrev next : Tally → ControlResult → Tally
next t r = record {
  counts = bump r.status t.counts;
  by_severity = bump_severity (label r) r.status t.by_severity;
}

tally_from-label :
    (k : Option Severity) (u : ComplianceStatus) (t : Tally) (rs : List ControlResult)
    → let c = severity_counts k (tally_from t rs).by_severity in
      let base = severity_counts k t.by_severity in
      (c.total ≡ base.total + count_label k rs)
      × (count_of u c ≡ count_of u base + count_label_status k u rs)
unfolding tally_from bump bump_severity
tally_from-label k u t [] = (omega arith, omega arith)
tally_from-label k u t (r ∷ rs) =
    let base = severity_counts k t.by_severity in
    let ih = rw severity_counts-bump at (tally_from-label k u (next t r) rs) in
    elim (Bool-cases (same_label (label r) k)) [
      | inl e ↦
          let h = rw (e, total-bump, count_of-bump) at ih in
          rw e (omega (arith, h.0), ground (arith, h.1))
      | inr n ↦ rw n (rw n at ih)
    ]

-- The entry of a severity counts the results of that severity, in total and under each status; a
-- severity with no entry has no result.
pub by_severity-counted :
    (f : Float) (results : List ControlResult) (k : Option Severity) (s : ComplianceStatus)
    → let c = severity_counts k (compute_score f results).by_severity in
      (c.total ≡ count_label k results) × (count_of s c ≡ count_label_status k s results)
unfolding compute_score
by_severity-counted f results k s =
    let h = tally_from-label k s (record { counts = no_counts; by_severity = [] }) results in
    (omega (arith, h.0), by_zero s h.1)
  where
    by_zero : (s : ComplianceStatus) {m n : ℕ} → m ≡ count_of s no_counts + n → m ≡ n
    by_zero s h = ground arith
