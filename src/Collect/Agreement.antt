-- ===== src/Collect/Agreement.antt =====
-- The findings of a collect, its summary and the prefilling of an assessment say the same.
use assistant_audit.Prelude.{
  ℕ, suc, ◌+◌, ◌≡◌, refl, ap, ◌∙◌, String, Bool, true, false, not, Option, none, some, List, [],
  ◌∷◌, map, ◌==◌, string_eq, nat_eq, length, first, select, arith, Bool-cases, Option-cases, inl,
  inr,
}
use assistant_audit.Errors.{Returns}
use assistant_audit.Compliance.{ControlResult}
use assistant_audit.Collect.Rows.{CheckMapping, success}
use assistant_audit.Collect.Windows.{Days}
use assistant_audit.Collect.Findings.{
  Facts, Checks, failures, checks_of_method, checks_of, analyze_collect_findings, generate_summary,
}
use assistant_audit.Collect.Stored.{IsFilled, verdict_on, fill_all-Stores}
use assistant_audit.Collect.Prefill.{
  StoredCollect, PrefillDb, is_result_for, last, Detail, Prefilled, counted_in, fill_all,
  prefill_assessment_from_collect,
}

abbrev pub is_passed : (String → Bool × String) → CheckMapping → Bool
is_passed evaluate mapping = (evaluate mapping.check).0

abbrev pub is_failed : (String → Bool × String) → CheckMapping → Bool
is_failed evaluate mapping = not (is_passed evaluate mapping)

abbrev pub is_there {ℓ} : {A : Type ℓ} → Option A → Bool
is_there none = false
is_there (some a) = true

abbrev pub is_non_compliant : Detail → Bool
is_non_compliant d = d.status == "non_compliant"

refs-failures :
    (evaluate : String → Bool × String) (ms : List CheckMapping)
    → map (λ f. f.control_ref) (failures evaluate ms)
      ≡ map (λ m. m.control_ref) (select (is_failed evaluate) ms)
unfolding failures
refs-failures evaluate [] = refl
refs-failures evaluate (m ∷ ms) = elim (Bool-cases (evaluate m.check).0) [
  | inl t ↦ rw t (refs-failures evaluate ms)
  | inr n ↦ rw n (ap (◌∷◌ m.control_ref) (refs-failures evaluate ms))
]

counted-failures :
    (evaluate : String → Bool × String) (ms : List CheckMapping)
    → length (select (is_passed evaluate) ms) + length (failures evaluate ms) ≡ length ms
unfolding failures
counted-failures evaluate [] = refl
counted-failures evaluate (m ∷ ms) = elim (Bool-cases (evaluate m.check).0) [
  | inl t ↦ rw t (omega (arith, counted-failures evaluate ms))
  | inr n ↦ rw n (omega (arith, counted-failures evaluate ms))
]

-- The findings of a collect are, for the table of its profile and in its order, the controls whose
-- checks fail; in the summary the compliant and the non-compliant checks make up the table, and
-- the compliant ones are those that pass.
pub analyze_collect_findings-summary :
    (days_since : String → Option Days) (opnsense : Facts → Checks) (collect : Facts)
    {checks : Checks}
    → checks_of days_since opnsense collect ≡ some checks
    → let findings = analyze_collect_findings days_since opnsense collect in
      let s = generate_summary days_since opnsense collect findings in
      (map (λ f. f.control_ref) findings
        ≡ map (λ m. m.control_ref) (select (is_failed checks.evaluate) checks.control_map))
      × (s.compliant + s.non_compliant ≡ s.total_checks)
      × (s.compliant ≡ length (select (is_passed checks.evaluate) checks.control_map))
unfolding analyze_collect_findings generate_summary
analyze_collect_findings-summary days_since opnsense collect {checks} e =
    let sum = counted-failures checks.evaluate checks.control_map in
    rw (e, generate_summary)
      (
        ap (map (λ f. f.control_ref)) found ∙ refs-failures checks.evaluate checks.control_map,
        omega (arith, sum, ap length found),
        omega (arith, sum, ap length found),
      )
  where
    found :
        analyze_collect_findings days_since opnsense collect
        ≡ failures checks.evaluate checks.control_map
    found = rw (e, analyze_collect_findings) refl

module _ (evaluate : String → Bool × String) (result_for : String → Option ControlResult) where
  -- What the summary of a prefilling by some checks says.
  abbrev Agrees : List CheckMapping → Prefilled → Type 0
  Agrees ms p =
      (map (λ d. d.control_ref) (select is_non_compliant p.details)
        ≡ select (λ ref. is_there (result_for ref))
            (map (λ f. f.control_ref) (failures evaluate ms)))
      × (p.controls_prefilled ≡ p.controls_compliant + p.controls_non_compliant)
      × (length p.details ≡ p.controls_prefilled)
      × (length (select is_non_compliant p.details) ≡ p.controls_non_compliant)

  skipped-Agrees :
      (m : CheckMapping) (ms : List CheckMapping) (p : Prefilled)
      → result_for m.control_ref ≡ none
      → Agrees ms p
      → Agrees (m ∷ ms) p
  unfolding failures
  skipped-Agrees m ms p n h = elim (Bool-cases (evaluate m.check).0) [
    | inl t ↦ rw t h
    | inr f ↦ rw (f, n) h
  ]

  counted_in-Agrees :
      (m : CheckMapping) (ms : List CheckMapping) (r : ControlResult) (p : Prefilled)
      → result_for m.control_ref ≡ some r
      → Agrees ms p
      → Agrees (m ∷ ms) (counted_in m (evaluate m.check).0 r p)
  unfolding failures
  counted_in-Agrees m ms r p e h = elim (Bool-cases (evaluate m.check).0) [
    | inl t ↦ rw t (h.0, omega (arith, h.1), ap suc h.2, h.3)
    | inr f ↦ rw (f, e) (ap (◌∷◌ m.control_ref) h.0, omega (arith, h.1), ap suc h.2, ap suc h.3)
  ]

  module _ (source assessor : String) (now : ℕ) where
    fill_all-Agrees :
        (ms : List CheckMapping) (rows : List ControlResult)
        → Agrees ms (fill_all evaluate result_for source assessor now ms rows).1
    unfolding fill_all failures
    fill_all-Agrees [] rows = (refl, refl, refl, refl)
    fill_all-Agrees (m ∷ ms) rows = elim (Option-cases (result_for m.control_ref)) [
      | inl n ↦ rw (n, fill_all) (skipped-Agrees m ms _ n (fill_all-Agrees ms rows))
      | inr (r, e) ↦ rw (e, fill_all) (counted_in-Agrees m ms r _ e (fill_all-Agrees ms _))
    ]

-- The prefilling of an assessment from a successful collect whose profile is analysed by the
-- checks of its method, as Linux and Windows servers are: the controls that it details as
-- non-compliant are, in their order, those of the collect's findings that the assessment has a
-- result for; its counts add up, and each prefilled control is detailed. A stored result that the
-- assessment has for a control of the table becomes compliant if the check of the last such
-- control passes, else non-compliant; every other result stays as it was.
pub prefill_assessment_from_collect-agrees :
    (days_since : String → Option Days) (opnsense : Facts → Checks) (db : PrefillDb)
    (now collect_id assessment_id : ℕ) {collect : StoredCollect} {a : ℕ}
    → first (λ c. c.id == collect_id) db.collects ≡ some collect
    → collect.status ≡ success
    → first (λ x. x == assessment_id) db.assessment_ids ≡ some a
    → checks_of days_since opnsense collect.facts ≡ some (checks_of_method days_since collect.facts)
    → Returns
        (λ p.
          (map (λ d. d.control_ref) (select is_non_compliant p.1.details)
            ≡ select
                (λ ref. is_there (last (is_result_for assessment_id ref) db.results))
                (map
                  (λ f. f.control_ref)
                  (analyze_collect_findings days_since opnsense collect.facts)))
          × (p.1.controls_prefilled ≡ p.1.controls_compliant + p.1.controls_non_compliant)
          × (length p.1.details ≡ p.1.controls_prefilled)
          × (length (select is_non_compliant p.1.details) ≡ p.1.controls_non_compliant)
          × ((k : ℕ) (x : ControlResult)
              → first (λ z. z.id == k) db.results ≡ some x
              → let checks = checks_of_method days_since collect.facts in
                let result_for =
                  λ (ref : String). last (is_result_for assessment_id ref) db.results in
                (y : ControlResult) × (first (λ z. z.id == k) p.0.results ≡ some y)
                × IsFilled (verdict_on checks.evaluate result_for k checks.control_map) x y))
        (prefill_assessment_from_collect days_since db now collect_id assessment_id)
unfolding prefill_assessment_from_collect analyze_collect_findings
prefill_assessment_from_collect-agrees days_since opnsense db now collect_id assessment_id {collect}
      {a} found done there own =
    rw (found, done, there, own, analyze_collect_findings)
      (let checks = checks_of_method days_since collect.facts in
        let result_for = λ (ref : String). last (is_result_for assessment_id ref) db.results in
        let said =
          fill_all-Agrees checks.evaluate result_for _ _ now checks.control_map db.results in
        (
          said.0,
          said.1,
          said.2,
          said.3,
          (λ k x found.
              fill_all-Stores checks.evaluate result_for k _ _ now checks.control_map db.results
                found),
        ))
