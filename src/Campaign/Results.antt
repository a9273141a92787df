-- ===== src/Campaign/Results.antt =====
-- The assessments of `AssessmentService` and their control results, in the source's order.
use assistant_audit.Prelude.{
  ℕ, ◌+◌, String, Bool, false, ◌&&◌, Option, none, some, List, [], ◌∷◌, ◌++◌, map, ◌==◌, nat_eq,
  first, update, delete, override, contains, if◌then◌else◌,
}
use assistant_audit.Errors.{value_error, Result, ok, err, ◌>>=◌, ◌>>◌, require}
use assistant_audit.Compliance.{Control, ControlResult, ComplianceStatus, not_assessed}
use assistant_audit.Compliance.Float.{Float}
use assistant_audit.Compliance.Score.{Score, compute_score}
use assistant_audit.Campaign.Rows.{
  in_progress, campaign_status_eq, a_auditer, en_cours, audit_status_eq, Assessment,
  FrameworkCategory, Db,
}
use assistant_audit.Campaign.Service.{
  check_campaign_access, check_assessment_access, load_campaign, assessments_of, results_of,
}

-- `db.delete(campaign)`: the assessments and their results go with it (`cascade="all,
-- delete-orphan"` on both relations).
unfoldable pub delete_campaign : Db → ℕ → Option ℕ → Bool → Result Db
unfolding load_campaign
delete_campaign db campaign_id user_id is_admin = do
  campaign ← load_campaign db campaign_id user_id is_admin
  let gone : List ℕ = map (λ a. a.id) (assessments_of db campaign.id)
  ok (record db {
    campaigns = delete (λ c. c.id == campaign.id) db.campaigns;
    assessments = delete (λ a. a.campaign_id == campaign.id) db.assessments;
    results = delete (λ r. contains r.assessment_id gone) db.results;
  })

-- The nested loop over `framework.categories` and `category.controls`; the database numbers the
-- new results from `first_id`.
abbrev pub blank : ℕ → ℕ → Control → ControlResult
blank id assessment_id control = record {
  id = id;
  assessment_id = assessment_id;
  control_id = control.id;
  control = some control;
  status = not_assessed;
  evidence = none;
  comment = none;
  remediation_note = none;
  auto_result = none;
  is_auto_assessed = false;
  assessed_at = none;
  assessed_by = none;
}

unfoldable pub new_results : ℕ → ℕ → List Control → List ControlResult
new_results first_id assessment_id [] = []
new_results first_id assessment_id (c ∷ cs) =
    blank first_id assessment_id c ∷ new_results (first_id + 1) assessment_id cs

unfoldable pub controls_of : List FrameworkCategory → List Control
controls_of [] = []
controls_of (c ∷ cs) = c.controls ++ controls_of cs

abbrev pub same_triple : ℕ → ℕ → ℕ → Assessment → Bool
same_triple campaign_id equipement_id framework_id a =
    a.campaign_id == campaign_id
    && a.equipement_id == equipement_id
    && a.framework_id == framework_id

unfoldable pub create_assessment :
    Db → ℕ → ℕ → ℕ → ℕ → ℕ → Option String → Option ℕ → Bool → Result (Db × Assessment)
unfolding load_campaign new_results controls_of
create_assessment db new_id first_id campaign_id equipement_id framework_id assessed_by user_id
      is_admin =
    do
      campaign ← load_campaign db campaign_id user_id is_admin
      equipement ← require (first (λ e. e.id == equipement_id) db.equipements) value_error
      framework ← require (first (λ f. f.id == framework_id) db.frameworks) value_error
      elim (first (same_triple campaign_id equipement_id framework_id) db.assessments) [
        | some existing ↦ err value_error
        | none ↦
            let assessment : Assessment = record {
              id = new_id;
              campaign_id = campaign_id;
              equipement_id = equipement_id;
              framework_id = framework_id;
              assessed_by = assessed_by;
            } in
            ok (
              record db {
                assessments = db.assessments ++ assessment ∷ [];
                results =
                    db.results ++ new_results first_id new_id (controls_of framework.categories);
                equipements =
                    if campaign.status == in_progress
                    then update (λ e. e.id == equipement_id && e.status_audit == a_auditer)
                        (λ e. record e { status_audit = en_cours }) db.equipements
                    else db.equipements;
              },
              assessment,
            )
      ]

unfoldable pub get_assessment : Db → ℕ → Option ℕ → Bool → Result (Option Assessment)
unfolding check_assessment_access
get_assessment db assessment_id user_id is_admin =
    elim (first (λ a. a.id == assessment_id) db.assessments) [
      | none ↦ ok none
      | some a ↦ do check_assessment_access db a user_id is_admin; ok (some a)
    ]

unfoldable pub delete_assessment : Db → ℕ → Option ℕ → Bool → Result Db
unfolding check_assessment_access
delete_assessment db assessment_id user_id is_admin = do
  a ← require (first (λ a. a.id == assessment_id) db.assessments) value_error
  check_assessment_access db a user_id is_admin
  ok (record db {
    assessments = delete (λ b. b.id == a.id) db.assessments;
    results = delete (λ r. r.assessment_id == a.id) db.results;
  })

-- What an auditor sends for one control.
pub record ResultUpdate : Type 0 where
  pub status : Option ComplianceStatus
  pub evidence : Option String
  pub comment : Option String
  pub remediation_note : Option String

unfoldable pub update_control_result :
    Db → ℕ → ℕ → ResultUpdate → Option String → Option ℕ → Bool → Result (Db × ControlResult)
unfolding check_assessment_access
update_control_result db now result_id body assessed_by user_id is_admin = do
  result ← require (first (λ r. r.id == result_id) db.results) value_error
  elim (first (λ a. a.id == result.assessment_id) db.assessments) [
    | none ↦ ok tt
    | some a ↦ check_assessment_access db a user_id is_admin
  ]
  status ← require body.status value_error
  let result' : ControlResult = record result {
    status = status;
    evidence = override body.evidence result.evidence;
    comment = override body.comment result.comment;
    remediation_note = override body.remediation_note result.remediation_note;
    assessed_by = assessed_by;
    assessed_at = some now;
  }
  ok (record db { results = update (λ r. r.id == result.id) (λ _. result') db.results }, result')

-- One dict of `updates`.
pub record AutoResult : Type 0 where
  pub result_id : ℕ
  pub status : Option ComplianceStatus
  pub evidence : Option String
  pub auto_result : Option String
  pub is_auto : Bool

-- The loop of `bulk_update_results`, over the rows and the count.
unfoldable pub bulk_from :
    ℕ → Option String → List AutoResult → List ControlResult → ℕ → Result (List ControlResult × ℕ)
bulk_from now by [] rows count = ok (rows, count)
bulk_from now by (upd ∷ rest) rows count =
    let skip = bulk_from now by rest rows count in
    let write = λ (s : ComplianceStatus).
      bulk_from now by rest
        (update (λ r. r.id == upd.result_id)
          (λ r. record r {
            status = s;
            evidence = upd.evidence;
            auto_result = upd.auto_result;
            is_auto_assessed = upd.is_auto;
            assessed_by = by;
            assessed_at = some now;
          })
          rows)
        (count + 1) in
    elim (first (λ r. r.id == upd.result_id) rows) [
      | none ↦ skip
      | some _ ↦ require upd.status value_error >>= write
    ]

unfoldable pub bulk_update_results : Db → ℕ → List AutoResult → Option String → Result (Db × ℕ)
unfolding bulk_from
bulk_update_results db now updates assessed_by = do
  (rows, count) ← bulk_from now assessed_by updates db.results 0
  ok (record db { results = rows }, count)

-- `all_results.extend(assessment.results)` over the assessments
unfoldable pub all_results : Db → List Assessment → List ControlResult
all_results db [] = []
all_results db (a ∷ rest) = results_of db a.id ++ all_results db rest

module _ (f : Float) where
  unfoldable pub get_assessment_score : Db → ℕ → Option ℕ → Bool → Result (Option (Score f))
  unfolding check_assessment_access
  get_assessment_score db assessment_id user_id is_admin =
      elim (first (λ a. a.id == assessment_id) db.assessments) [
        | none ↦ ok none
        | some a ↦ do
          check_assessment_access db a user_id is_admin
          ok (some (compute_score f (results_of db a.id)))
      ]

  unfoldable pub get_campaign_score : Db → ℕ → Option ℕ → Bool → Result (Option (Score f))
  unfolding check_campaign_access all_results
  get_campaign_score db campaign_id user_id is_admin =
      elim (first (λ c. c.id == campaign_id) db.campaigns) [
        | none ↦ ok none
        | some c ↦ do
          check_campaign_access db c user_id is_admin
          ok (some (compute_score f (all_results db (assessments_of db c.id))))
      ]
