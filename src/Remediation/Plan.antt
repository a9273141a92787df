-- ===== src/Remediation/Plan.antt =====
-- The rows that the plan reads, the aggregation of the results by control, and the plan. A campaign
-- is given with its assessments, and an assessment with its equipment and its results.
use assistant_audit.Prelude.{
  ℕ, ◌+◌, String, Bool, true, false, not, ◌&&◌, Option, none, some, List, [], ◌∷◌, ◌++◌, ◌==◌,
  nat_eq, string_eq, leb, length, map, first, select, nonempty, contains, if◌then◌else◌, decimal,
  ◌⧺◌,
}
use assistant_audit.Errors.{Result, ok, not_found, ◌>>=◌, ◌>>◌, raise_if, require}
use assistant_audit.Compliance.{
  Severity, critical, high, medium, low, info, ComplianceStatus, non_compliant, status_eq,
}
use assistant_audit.Compliance.Float.{Float}
use assistant_audit.Campaign.{Audit}

pub record PlanEquipement : Type 0 where
  pub id : ℕ
  pub hostname : Option String
  pub ip_address : Option String

-- `HORIZONS_ORDER`, without its texts
pub data Horizon : Type 0 where
  quick_wins short_term mid_term long_term : Horizon

-- `SEVERITY_TO_HORIZON`
abbrev pub severity_to_horizon : Severity → Horizon
severity_to_horizon critical = quick_wins
severity_to_horizon high = short_term
severity_to_horizon medium = mid_term
severity_to_horizon low = long_term
severity_to_horizon info = long_term

abbrev pub same_horizon : Horizon → Horizon → Bool
same_horizon quick_wins quick_wins = true
same_horizon short_term short_term = true
same_horizon mid_term mid_term = true
same_horizon long_term long_term = true
same_horizon _ _ = false

-- `eq.hostname or eq.ip_address or f"Equipement {eq.id}"`
abbrev pub label_of : PlanEquipement → String
label_of eq = elim (nonempty eq.hostname) [
  | some h ↦ h
  | none ↦ elim (nonempty eq.ip_address) [ some ip ↦ ip | none ↦ "Equipement " ⧺ decimal eq.id ]
]

-- `check_audit_access` of backend/app/core/helpers.py
unfoldable pub check_owned_audit : List Audit → ℕ → ℕ → Bool → Result Audit
check_owned_audit audits audit_id user_id is_admin = do
  audit ← require (first (λ a. a.id == audit_id) audits) not_found
  raise_if (not is_admin && not (audit.owner_id == user_id)) not_found
  ok audit

abbrev pub sum_of : List ℕ → ℕ
sum_of [] = 0
sum_of (n ∷ ns) = n + sum_of ns

module _ (f : Float) where
  open f use {F, of_ℕ, add, div}

  pub record PlanControl : Type 0 where
    pub id : ℕ
    pub ref_id : String
    pub title : String
    pub severity : Severity
    pub remediation : Option String
    pub effort_days : Option F

  pub record PlanResult : Type 0 where
    pub status : ComplianceStatus
    pub control : Option PlanControl

  pub record PlanAssessment : Type 0 where
    pub equipement : Option PlanEquipement
    pub results : List PlanResult

  pub record PlanCampaign : Type 0 where
    pub audit_id : ℕ
    pub assessments : List PlanAssessment

  -- An entry of `nc_by_control`, under the id of its control.
  pub record Aggregate : Type 0 where
    pub control : PlanControl
    pub count : ℕ
    pub equipements : List String

  -- `if label not in equipements: equipements.append(label)`
  abbrev pub with_label : Option PlanEquipement → List String → List String
  with_label none labels = labels
  with_label (some eq) labels =
      if contains (label_of eq) labels then labels else labels ++ label_of eq ∷ []

  -- One non-compliant result: a new entry at the end, or one occurrence more.
  unfoldable pub aggregate : Option PlanEquipement → PlanControl → List Aggregate → List Aggregate
  aggregate eq c [] = record { control = c; count = 1; equipements = with_label eq [] } ∷ []
  aggregate eq c (a ∷ rest) =
      let more = aggregate eq c rest in
      if a.control.id == c.id
      then record a { count = a.count + 1; equipements = with_label eq a.equipements } ∷ rest
      else a ∷ more

  -- The control of a result that is counted.
  abbrev pub failing_control : PlanResult → Option PlanControl
  failing_control r = if r.status == non_compliant then r.control else none

  unfoldable pub aggregate_results :
      Option PlanEquipement → List PlanResult → List Aggregate → List Aggregate
  unfolding aggregate
  aggregate_results eq [] entries = entries
  aggregate_results eq (r ∷ rs) entries = elim (failing_control r) [
    | none ↦ aggregate_results eq rs entries
    | some c ↦ aggregate_results eq rs (aggregate eq c entries)
  ]

  unfoldable pub aggregate_assessments : List PlanAssessment → List Aggregate → List Aggregate
  unfolding aggregate_results
  aggregate_assessments [] entries = entries
  aggregate_assessments (a ∷ rest) entries =
      aggregate_assessments rest (aggregate_results a.equipement a.results entries)

  unfoldable pub aggregate_campaigns : List PlanCampaign → List Aggregate → List Aggregate
  unfolding aggregate_assessments
  aggregate_campaigns [] entries = entries
  aggregate_campaigns (c ∷ rest) entries =
      aggregate_campaigns rest (aggregate_assessments c.assessments entries)

  pub record RemediationAction : Type 0 where
    pub control_ref : String
    pub title : String
    pub severity : Severity
    pub remediation : Option String
    pub occurrences : ℕ
    pub affected_equipements : List String
    pub horizon : Horizon
    pub effort_days : F

  -- `DEFAULT_EFFORT_BY_SEVERITY`; a quarter is exact.
  abbrev pub default_effort : Severity → F
  default_effort critical = div (of_ℕ 1) (of_ℕ 4)
  default_effort high = of_ℕ 1
  default_effort medium = of_ℕ 3
  default_effort low = of_ℕ 5
  default_effort info = of_ℕ 5

  abbrev pub action_of : Aggregate → RemediationAction
  action_of a = record {
    control_ref = a.control.ref_id;
    title = a.control.title;
    severity = a.control.severity;
    remediation = a.control.remediation;
    occurrences = a.count;
    affected_equipements = a.equipements;
    horizon = severity_to_horizon a.control.severity;
    effort_days = elim a.control.effort_days [
      | none ↦ default_effort a.control.severity
      | some days ↦ days
    ];
  }

  -- `actions.sort(key=lambda a: -a.occurrences)`: the sort is stable, so that an action goes before
  -- the first one after it with no more occurrences.
  unfoldable pub insert_action : RemediationAction → List RemediationAction → List RemediationAction
  insert_action a [] = a ∷ []
  insert_action a (b ∷ rest) =
      let later = insert_action a rest in
      if leb b.occurrences a.occurrences then a ∷ b ∷ rest else b ∷ later

  unfoldable pub sort_actions : List RemediationAction → List RemediationAction
  unfolding insert_action
  sort_actions [] = []
  sort_actions (a ∷ rest) = insert_action a (sort_actions rest)

  -- `sum(...)`, from the left
  abbrev pub sum_from : F → List F → F
  sum_from total [] = total
  sum_from total (x ∷ xs) = sum_from (add total x) xs

  pub record RemediationHorizon : Type 0 where
    pub key : Horizon
    pub actions : List RemediationAction
    pub total_actions : ℕ
    pub total_effort_days : F

  unfoldable pub horizon_block : List RemediationAction → Horizon → RemediationHorizon
  unfolding sort_actions
  horizon_block actions key =
      let sorted = sort_actions (select (λ a. same_horizon a.horizon key) actions) in
      record {
        key = key;
        actions = sorted;
        total_actions = length sorted;
        total_effort_days = sum_from (of_ℕ 0) (map (λ a. a.effort_days) sorted);
      }

  pub record RemediationPlan : Type 0 where
    pub audit_id : ℕ
    pub total_actions : ℕ
    pub total_effort_days : F
    pub horizons : List RemediationHorizon

  unfoldable pub generate : List Audit → List PlanCampaign → ℕ → ℕ → Bool → Result RemediationPlan
  unfolding horizon_block aggregate_campaigns
  generate audits campaigns audit_id user_id is_admin = do
    audit ← check_owned_audit audits audit_id user_id is_admin
    let entries = aggregate_campaigns (select (λ c. c.audit_id == audit_id) campaigns) []
    let block = horizon_block (map action_of entries)
    let horizons = block quick_wins ∷ block short_term ∷ block mid_term ∷ block long_term ∷ []
    ok (record {
      audit_id = audit_id;
      total_actions = sum_of (map (λ h. h.total_actions) horizons);
      total_effort_days = sum_from (of_ℕ 0) (map (λ h. h.total_effort_days) horizons);
      horizons = horizons;
    })
