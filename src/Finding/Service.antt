-- ===== src/Finding/Service.antt =====
-- The methods of `FindingService` that write, and its counters.
use assistant_audit.Prelude.{
  ℕ, ◌+◌, String, Bool, true, not, ◌||◌, ◌&&◌, Option, none, some, List, [], ◌∷◌, ◌++◌, ◌==◌,
  nat_eq, first, select, update, count_by, contains, nonempty, override, if◌then◌else◌,
}
use assistant_audit.Errors.{
  value_error, attribute_error, multiple_results, Result, ok, err, ◌>>=◌, ◌>>◌, raise_if, require,
}
use assistant_audit.Compliance.{
  medium, non_compliant, partially_compliant, status_eq, ControlResult,
}
use assistant_audit.Campaign.{Assessment}
use assistant_audit.Finding.Rows.{
  FindingStatus, opened, assigned, in_progress, remediated, verified, closed, finding_status_eq,
  parse_status, valid_transitions, Finding, FindingStatusHistory, FindingDb,
}

-- The `where` of the query for the results to report.
abbrev pub is_reported : ℕ → ControlResult → Bool
is_reported assessment_id r =
    r.assessment_id == assessment_id
    && (r.status == non_compliant || r.status == partially_compliant)

abbrev pub is_finding_of : ControlResult → ℕ → Finding → Bool
is_finding_of r assessment_id f = f.control_result_id == r.id && f.assessment_id == assessment_id

-- `scalar_one_or_none`, which raises on more than one row
abbrev pub one_or_none {ℓ} : {A : Type ℓ} → List A → Result (Option A)
one_or_none [] = ok none
one_or_none (x ∷ []) = ok (some x)
one_or_none (x ∷ y ∷ xs) = err multiple_results

-- `title` is the f-string "Contrôle #{control_id}" where the result has no control; the text of
-- that number is an argument.
unfoldable pub new_finding : (ℕ → String) → ℕ → ℕ → Option ℕ → Assessment → ControlResult → Finding
new_finding numbered id assessment_id user_id a r = record {
  id = id;
  control_result_id = r.id;
  assessment_id = assessment_id;
  equipment_id = a.equipement_id;
  title = elim r.control [ none ↦ numbered r.control_id | some c ↦ c.title ];
  description = r.comment;
  severity = elim r.control [ none ↦ medium | some c ↦ c.severity ];
  status = opened;
  remediation_note = r.remediation_note;
  assigned_to = none;
  duplicate_of_id = none;
  created_by = user_id;
}

-- What the loop of `generate_from_assessment` carries.
pub record Generated : Type 0 where
  pub findings : List Finding
  pub next_id : ℕ
  pub generated : ℕ
  pub skipped : ℕ

-- The session does not flush before a query (`autoflush=False`), so each round looks for a finding
-- among those `stored` when the loop began.
module _ (numbered : ℕ → String) (stored : List Finding) (assessments : List Assessment)
    (assessment_id : ℕ) (user_id : Option ℕ) where
  unfoldable pub generate_one : ControlResult → Generated → Result Generated
  unfolding new_finding
  generate_one r g = do
    existing ← one_or_none (select (is_finding_of r assessment_id) stored)
    elim existing [
      | some _ ↦ ok (record g { skipped = g.skipped + 1 })
      | none ↦ do
        a ← require (first (λ a. a.id == r.assessment_id) assessments) attribute_error
        ok (record g {
          findings = g.findings ++ new_finding numbered g.next_id assessment_id user_id a r ∷ [];
          next_id = g.next_id + 1;
          generated = g.generated + 1;
        })
    ]

  unfoldable pub generate_loop : List ControlResult → Generated → Result Generated
  generate_loop [] g = ok g
  generate_loop (r ∷ rs) g = generate_one r g >>= generate_loop rs

unfoldable pub generate_from_assessment :
    (ℕ → String) → FindingDb → ℕ → ℕ → Option ℕ → Result (FindingDb × ℕ × ℕ)
unfolding generate_loop
generate_from_assessment numbered db next_id assessment_id user_id = do
  g ←
      generate_loop numbered db.findings db.assessments assessment_id user_id
        (select (is_reported assessment_id) db.results)
        (record { findings = db.findings; next_id = next_id; generated = 0; skipped = 0 })
  ok (record db { findings = g.findings }, g.generated, g.skipped)

-- `db.get(Finding, finding_id)`
abbrev pub get_finding : FindingDb → ℕ → Option Finding
get_finding db finding_id = first (λ f. f.id == finding_id) db.findings

unfoldable pub update_status :
    FindingDb
    → ℕ
    → Finding
    → String
    → Option ℕ
    → Option String
    → Option String
    → Result (FindingDb × Finding)
update_status db now finding new_status_str user_id comment assigned_to = do
  new_status ← require (parse_status new_status_str) value_error
  raise_if (not (contains new_status (valid_transitions finding.status))) value_error
  let entry : FindingStatusHistory = record {
    finding_id = finding.id;
    old_status = finding.status;
    new_status = new_status;
    changed_by = user_id;
    comment = comment;
    created_at = now;
  }
  let change = λ (f : Finding). record f {
    status = new_status;
    assigned_to = override assigned_to f.assigned_to;
  }
  ok (
    record db {
      findings = update (λ f. f.id == finding.id) change db.findings;
      history = db.history ++ entry ∷ [];
    },
    change finding,
  )

-- `if original.remediation_note and not finding.remediation_note`
abbrev pub inherited_note : Option String → Option String → Option String
inherited_note original own = elim (nonempty own) [
  | some s ↦ own
  | none ↦ override (nonempty original) own
]

unfoldable pub link_duplicate : FindingDb → Finding → ℕ → Result (FindingDb × Finding)
link_duplicate db finding duplicate_of_id = do
  original ← require (get_finding db duplicate_of_id) value_error
  raise_if (original.id == finding.id) value_error
  let change = λ (f : Finding). record f {
    duplicate_of_id = some duplicate_of_id;
    remediation_note = inherited_note original.remediation_note f.remediation_note;
  }
  ok (record db { findings = update (λ f. f.id == finding.id) change db.findings }, change finding)

abbrev pub in_scope : Option ℕ → Finding → Bool
in_scope none f = true
in_scope (some a) f = f.assessment_id == a

-- The rows of one status, of one assessment or of all.
unfoldable pub count_status_of : FindingDb → Option ℕ → FindingStatus → ℕ
count_status_of db assessment_id s =
    count_by (λ f. f.status == s && in_scope assessment_id f) db.findings

-- The rows of the `GROUP BY`: the statuses that occur, with their counts.
unfoldable pub grouped : FindingDb → Option ℕ → List FindingStatus → List (FindingStatus × ℕ)
unfolding count_status_of
grouped db assessment_id [] = []
grouped db assessment_id (s ∷ rest) =
    let n = count_status_of db assessment_id s in
    let more = grouped db assessment_id rest in if n == 0 then more else (s, n) ∷ more

-- The dict of counters: a function from the status values, 0 at first, and "total".
unfoldable pub counts_from :
    List (FindingStatus × ℕ) → (FindingStatus → ℕ) → ℕ → (FindingStatus → ℕ) × ℕ
counts_from [] counts total = (counts, total)
counts_from ((s, n) ∷ rows) counts total =
    counts_from rows (λ x. if x == s then n else counts x) (total + n)

unfoldable pub counts_by_status : FindingDb → Option ℕ → (FindingStatus → ℕ) × ℕ
unfolding grouped counts_from
counts_by_status db assessment_id =
    counts_from
      (grouped db assessment_id
        (opened ∷ assigned ∷ in_progress ∷ remediated ∷ verified ∷ closed ∷ []))
      (λ _. 0) 0
