-- ===== src/Campaign/Service.antt =====
-- The methods of `AssessmentService`, in the source's order.
use assistant_audit.Prelude.{
  ℕ, String, Bool, true, false, not, ◌&&◌, Option, none, some, List, [], ◌∷◌, ◌++◌, ltb, ◌==◌,
  nat_eq, first, select, update, if◌then◌else◌,
}
use assistant_audit.Errors.{
  not_found, value_error, integrity, Result, ok, err, ◌>>=◌, ◌>>◌, raise_if, require,
}
use assistant_audit.Compliance.{ControlResult}
use assistant_audit.Compliance.Float.{Float}
use assistant_audit.Compliance.Score.{Score, compute_score}
use assistant_audit.Campaign.Rows.{
  draft, in_progress, completed, campaign_status_eq, AuditStatus, a_auditer, en_cours, conforme,
  non_conforme, audit_status_eq, Campaign, Assessment, Equipement, Db, CampaignUpdate,
}

-- `user_id` is `none` for a call from inside the backend, which passes the checks.
unfoldable pub check_audit_access : Db → ℕ → Option ℕ → Bool → Result (Unit {0})
check_audit_access db audit_id user_id true = ok tt
check_audit_access db audit_id none false = ok tt
check_audit_access db audit_id (some u) false = do
  audit ← require (first (λ a. a.id == audit_id) db.audits) not_found
  raise_if (if audit.owner_id == u then false else true) not_found

unfoldable pub check_campaign_access : Db → Campaign → Option ℕ → Bool → Result (Unit {0})
unfolding check_audit_access
check_campaign_access db campaign user_id is_admin =
    check_audit_access db campaign.audit_id user_id is_admin

unfoldable pub check_assessment_access : Db → Assessment → Option ℕ → Bool → Result (Unit {0})
unfolding check_campaign_access
check_assessment_access db assessment user_id is_admin = do
  campaign ← require (first (λ c. c.id == assessment.campaign_id) db.campaigns) not_found
  check_campaign_access db campaign user_id is_admin

unfoldable pub create_campaign :
    Db → ℕ → String → ℕ → Option String → Option ℕ → Bool → Result (Db × Campaign)
unfolding check_audit_access
create_campaign db new_id name audit_id description user_id is_admin = do
  check_audit_access db audit_id user_id is_admin
  let campaign : Campaign = record {
    id = new_id;
    name = name;
    description = description;
    audit_id = audit_id;
    status = draft;
    started_at = none;
    completed_at = none;
  }
  ok (record db { campaigns = db.campaigns ++ campaign ∷ [] }, campaign)

unfoldable pub get_campaign : Db → ℕ → Option ℕ → Bool → Result (Option Campaign)
unfolding check_campaign_access
get_campaign db campaign_id user_id is_admin =
    elim (first (λ c. c.id == campaign_id) db.campaigns) [
      | none ↦ ok none
      | some campaign ↦ do check_campaign_access db campaign user_id is_admin; ok (some campaign)
    ]

-- `db.get(AssessmentCampaign, campaign_id)`, its `ValueError`, and the access check that follows
unfoldable pub load_campaign : Db → ℕ → Option ℕ → Bool → Result Campaign
unfolding check_campaign_access
load_campaign db campaign_id user_id is_admin = do
  campaign ← require (first (λ c. c.id == campaign_id) db.campaigns) value_error
  check_campaign_access db campaign user_id is_admin
  ok campaign

-- `campaign.assessments` and `assessment.results`
abbrev pub assessments_of : Db → ℕ → List Assessment
assessments_of db campaign_id = select (λ a. a.campaign_id == campaign_id) db.assessments

abbrev pub results_of : Db → ℕ → List ControlResult
results_of db assessment_id = select (λ r. r.assessment_id == assessment_id) db.results

abbrev pub set_campaign : (Campaign → Campaign) → Campaign → Db → Db
set_campaign f campaign db = record db {
  campaigns = update (λ c. c.id == campaign.id) f db.campaigns;
}

-- The loop of `start_campaign`.
unfoldable pub start_equipements : List Assessment → List Equipement → List Equipement
start_equipements [] eqs = eqs
start_equipements (a ∷ rest) eqs = start_equipements rest (
    update (λ e. e.id == a.equipement_id && e.status_audit == a_auditer)
      (λ e. record e { status_audit = en_cours }) eqs)

-- `start_campaign` after its access check
unfoldable pub start : ℕ → Campaign → Db → Db × Campaign
unfolding start_equipements
start now campaign db =
    let started = λ (c : Campaign). record c { status = in_progress; started_at = some now } in
    (
      record (set_campaign started campaign db) {
        equipements = start_equipements (assessments_of db campaign.id) db.equipements;
      },
      started campaign,
    )

unfoldable pub start_campaign : Db → ℕ → ℕ → Option ℕ → Bool → Result (Db × Campaign)
unfolding start
start_campaign db now campaign_id user_id is_admin = do
  campaign ← load_campaign db campaign_id user_id is_admin
  ok (start now campaign db)

module _ (f : Float) where
  -- The new status of an equipment, by the score of one of its assessments.
  unfoldable pub verdict : Score f → AuditStatus → AuditStatus
  verdict score old =
      if ltb 0 score.counts.non_compliant
      then non_conforme
      else if ltb 0 score.assessed_controls
      then conforme
      else old

  -- The loop of `complete_campaign`; `db.results` does not change under it.
  unfoldable pub complete_equipements :
      List ControlResult → List Assessment → List Equipement → List Equipement
  unfolding verdict
  complete_equipements results [] eqs = eqs
  complete_equipements results (a ∷ rest) eqs = complete_equipements results rest (
      update (λ e. e.id == a.equipement_id)
        (λ e. record e {
          status_audit =
              verdict (compute_score f (select (λ r. r.assessment_id == a.id) results))
                e.status_audit;
        })
        eqs)

  -- `complete_campaign` after its access check
  unfoldable pub complete : ℕ → Campaign → Db → Db × Campaign
  unfolding complete_equipements
  complete now campaign db =
      let done = λ (c : Campaign). record c { status = completed; completed_at = some now } in
      (
        record (set_campaign done campaign db) {
          equipements =
              complete_equipements db.results (assessments_of db campaign.id) db.equipements;
        },
        done campaign,
      )

  unfoldable pub complete_campaign : Db → ℕ → ℕ → Option ℕ → Bool → Result (Db × Campaign)
  unfolding complete
  complete_campaign db now campaign_id user_id is_admin = do
    campaign ← load_campaign db campaign_id user_id is_admin
    ok (complete now campaign db)

  -- `setattr` of each field that the request sets; the database refuses a null name or status.
  unfoldable pub assign : CampaignUpdate → Campaign → Result Campaign
  assign body c = do
    name ← elim body.name [ none ↦ ok c.name | some v ↦ require v integrity ]
    status ← elim body.status [ none ↦ ok c.status | some v ↦ require v value_error ]
    ok (record c {
      name = name;
      description = elim body.description [ none ↦ c.description | some v ↦ v ];
      status = status;
    })

  -- The plain path of `update_campaign`.
  unfoldable pub edit : CampaignUpdate → Campaign → Db → Result (Db × Campaign)
  unfolding assign
  edit body campaign db = do
    campaign' ← assign body campaign
    ok (set_campaign (λ _. campaign') campaign db, campaign')

  -- A change of status towards "in_progress" or "completed" goes to the method made for it.
  unfoldable pub update_campaign :
      Db → ℕ → ℕ → CampaignUpdate → Option ℕ → Bool → Result (Db × Campaign)
  update_campaign db now campaign_id body user_id is_admin = do
    campaign ← load_campaign db campaign_id user_id is_admin
    elim body.status [
      | none ↦ edit body campaign db
      | some none ↦ err value_error
      | some (some s) ↦
          if s == in_progress && not (campaign.status == in_progress)
          then start_campaign db now campaign_id none false
          else if s == completed && not (campaign.status == completed)
          then complete_campaign db now campaign_id none false
          else edit body campaign db
    ]
