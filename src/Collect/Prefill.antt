-- ===== src/Collect/Prefill.antt =====
-- `prefill_assessment_from_collect` of backend/app/services/collect/dispatcher.py.
use assistant_audit.Prelude.{
  ℕ, suc, String, Bool, true, false, not, ◌&&◌, Option, none, some, List, [], ◌∷◌, ◌==◌, string_eq,
  nat_eq, first, update, nonempty, if◌then◌else◌, ◌⧺◌,
}
use assistant_audit.Errors.{Result, ok, ◌>>=◌, ◌>>◌, raise_if, require, value_error}
use assistant_audit.Compliance.{ControlResult, compliant, non_compliant}
use assistant_audit.Collect.Rows.{CheckMapping, CollectStatus, running, success, failed}
use assistant_audit.Collect.Windows.{Days}
use assistant_audit.Collect.Findings.{Facts, is_winrm, checks_of_method}

-- A `CollectResult`, and the tables that the prefilling reads and writes.
pub record StoredCollect : Type 0 where
  pub id : ℕ
  pub status : CollectStatus
  pub facts : Facts

pub record PrefillDb : Type 0 where
  pub collects : List StoredCollect
  pub assessment_ids : List ℕ
  pub results : List ControlResult

abbrev pub is_success : CollectStatus → Bool
is_success running = false
is_success success = true
is_success failed = false

-- The result of the assessment for the control of that reference.
abbrev pub is_result_for : ℕ → String → ControlResult → Bool
is_result_for assessment_id ref r = r.assessment_id == assessment_id && elim r.control [
  | none ↦ false
  | some c ↦ elim (nonempty (some c.ref_id)) [ none ↦ false | some own ↦ own == ref ]
]

-- `ref_to_result`: of several results for a reference the dict keeps the last.
unfoldable pub last {ℓ} : {A : Type ℓ} → (A → Bool) → List A → Option A
last p [] = none
last p (x ∷ xs) = elim (last p xs) [ some y ↦ some y | none ↦ if p x then some x else none ]

pub record Detail : Type 0 where
  pub control_ref : String
  pub control_title : String
  pub status : String
  pub findings_count : ℕ

pub record Prefilled : Type 0 where
  pub controls_prefilled : ℕ
  pub controls_compliant : ℕ
  pub controls_non_compliant : ℕ
  pub details : List Detail

abbrev pub nothing_prefilled : Prefilled
nothing_prefilled = record {
  controls_prefilled = 0;
  controls_compliant = 0;
  controls_non_compliant = 0;
  details = [];
}

abbrev pub detail_of : CheckMapping → Bool → ControlResult → Detail
detail_of mapping passed r = record {
  control_ref = mapping.control_ref;
  control_title = elim r.control [ none ↦ "" | some c ↦ c.title ];
  status = if passed then "compliant" else "non_compliant";
  findings_count = if passed then 0 else 1;
}

abbrev pub counted_in : CheckMapping → Bool → ControlResult → Prefilled → Prefilled
counted_in mapping passed r p = record {
  controls_prefilled = suc p.controls_prefilled;
  controls_compliant = if passed then suc p.controls_compliant else p.controls_compliant;
  controls_non_compliant =
      if passed then p.controls_non_compliant else suc p.controls_non_compliant;
  details = detail_of mapping passed r ∷ p.details;
}

-- `source` is "SSH" or "WinRM", `assessor` "collect_ssh" or "collect_winrm".
abbrev pub fill : String → String → ℕ → CheckMapping → Bool × String → ControlResult → ControlResult
fill source assessor now mapping (passed, detail) r = record r {
  status = if passed then compliant else non_compliant;
  evidence = some (
      "[Collecte "
      ⧺ source
      ⧺ "] "
      ⧺ (if passed then mapping.evidence_pass else mapping.evidence_fail)
      ⧺ "\n\nDétail : "
      ⧺ detail);
  auto_result =
      some ("Collecte " ⧺ source ⧺ ": " ⧺ (if passed then "conforme" else "non conforme"));
  is_auto_assessed = true;
  assessed_at = some now;
  assessed_by = some assessor;
}

-- The loop over the table of checks; the results are looked up before it.
module _ (evaluate : String → Bool × String) (result_for : String → Option ControlResult)
    (source assessor : String) (now : ℕ) where
  unfoldable pub fill_all : List CheckMapping → List ControlResult → List ControlResult × Prefilled
  fill_all [] rows = (rows, nothing_prefilled)
  fill_all (mapping ∷ rest) rows = elim (result_for mapping.control_ref) [
    | none ↦ fill_all rest rows
    | some r ↦
        let verdict = evaluate mapping.check in
        let done =
          fill_all rest
            (update (λ x. x.id == r.id) (fill source assessor now mapping verdict) rows) in
        (done.0, counted_in mapping verdict.0 r done.1)
  ]

unfoldable pub prefill_assessment_from_collect :
    (String → Option Days) → PrefillDb → ℕ → ℕ → ℕ → Result (PrefillDb × Prefilled)
unfolding fill_all last
prefill_assessment_from_collect days_since db now collect_id assessment_id = do
  collect ← require (first (λ c. c.id == collect_id) db.collects) value_error
  raise_if (not (is_success collect.status)) value_error
  assessment ← require (first (λ a. a == assessment_id) db.assessment_ids) value_error
  let windows = is_winrm collect.facts.method
  let checks = checks_of_method days_since collect.facts
  let done =
      fill_all checks.evaluate (λ ref. last (is_result_for assessment_id ref) db.results)
        (if windows then "WinRM" else "SSH") (if windows then "collect_winrm" else "collect_ssh")
        now checks.control_map db.results
  ok (record db { results = done.0 }, done.1)
