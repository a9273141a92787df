-- ===== src/Campaign/Tests.antt =====
-- A database with two users' audits, and the campaign theorems on it.
use assistant_audit.Prelude.{
  ℕ, ◌≡◌, refl, false, none, some, [], ◌∷◌, first, map, All, ◌==◌, nat_eq, ◌<◌,
}
use assistant_audit.Errors.{not_found, ok, err, Returns, IfReturns}
use assistant_audit.Compliance.{critical, low, not_assessed, compliant, non_compliant}
use assistant_audit.Compliance.Score.Tests.{halves, sample_control, sample_result}
use assistant_audit.Campaign.{
  draft, in_progress, a_auditer, en_cours, conforme, non_conforme, Campaign, Assessment, Equipement,
  Framework, Db, CampaignUpdate, load_campaign, create_campaign, get_campaign, start_campaign,
  start, complete_campaign, complete, update_campaign, delete_campaign, create_assessment,
  get_assessment, delete_assessment, get_assessment_score, get_campaign_score,
  update_control_result, ResultUpdate, results_of,
}
use mathlib.Core.List.{flat_map}
use assistant_audit.Campaign.Access.{IsForeign, campaign-IsForeign, assessment-IsForeign}
use assistant_audit.Campaign.Equipements.{start-equipements, complete-equipements}
use assistant_audit.Campaign.Editing.{get_campaign-update_campaign}
use assistant_audit.Campaign.Creation.{create_assessment-results, assessments-IsUnique, IsUnique}

abbrev campaign : Campaign
campaign = record {
  id = 7;
  name = "Spring";
  description = none;
  audit_id = 1;
  status = draft;
  started_at = none;
  completed_at = none;
}

abbrev server : Equipement
server = record { id = 3; hostname = some "srv"; status_audit = a_auditer }

abbrev baseline : Framework
baseline = record {
  id = 5;
  ref_id = "BASE";
  categories =
      record { id = 1; controls = sample_control 1 critical ∷ [] }
      ∷ record { id = 2; controls = sample_control 2 low ∷ [] }
      ∷ [];
}

abbrev hardening : Assessment
hardening = record {
  id = 1;
  campaign_id = 7;
  equipement_id = 3;
  framework_id = 5;
  assessed_by = none;
}

-- User 10 owns audit 1. The assessment has a non-compliant result.
abbrev db : Db
db = record {
  audits = (record { id = 1; owner_id = 10 }) ∷ [];
  campaigns = campaign ∷ [];
  assessments = hardening ∷ [];
  results = sample_result 1 1 critical compliant ∷ sample_result 2 1 low non_compliant ∷ [];
  equipements = server ∷ (record { id = 4; hostname = none; status_audit = a_auditer }) ∷ [];
  frameworks = baseline ∷ [];
}

abbrev renaming : CampaignUpdate
renaming = record {
  name = some (some "Autumn");
  description = none;
  status = some (some in_progress);
}

audit-IsForeign : IsForeign db 1 11
audit-IsForeign a h e = cc

abbrev edit_result : ResultUpdate
edit_result = record {
  status = some compliant;
  evidence = some "checked";
  comment = none;
  remediation_note = none;
}

campaign-IsForeign_example :
    (create_campaign db 8 "Mine" 1 none (some 11) false ≡ err not_found)
    × (get_campaign db 7 (some 11) false ≡ err not_found)
    × (start_campaign db 100 7 (some 11) false ≡ err not_found)
    × (complete_campaign halves db 100 7 (some 11) false ≡ err not_found)
    × (update_campaign halves db 100 7 renaming (some 11) false ≡ err not_found)
    × (delete_campaign db 7 (some 11) false ≡ err not_found)
    × (create_assessment db 8 20 7 4 5 none (some 11) false ≡ err not_found)
    × (get_campaign_score halves db 7 (some 11) false ≡ err not_found)
campaign-IsForeign_example =
    campaign-IsForeign halves db 11 7 refl audit-IsForeign 8 20 100 4 5 "Mine" none none renaming

assessment-IsForeign_example :
    (get_assessment db 1 (some 11) false ≡ err not_found)
    × (delete_assessment db 1 (some 11) false ≡ err not_found)
    × (get_assessment_score halves db 1 (some 11) false ≡ err not_found)
    × (update_control_result db 100 2 edit_result none (some 11) false ≡ err not_found)
assessment-IsForeign_example =
    assessment-IsForeign halves db 11 2 refl refl refl audit-IsForeign 100 edit_result none

start-equipements_example :
    first (λ x. x.id == 3) (start 100 campaign db).0.equipements
    ≡ some (record server { status_audit = en_cours })
start-equipements_example = start-equipements db 100 campaign 3 refl

complete-equipements_example :
    (e' : Equipement) × (first (λ x. x.id == 3) (complete halves 100 campaign db).0.equipements
      ≡ some e')
    × (0 < 1 → e'.status_audit ≡ non_conforme)
    × (◌≡◌ {A = ℕ} 1 0 → 0 < 2 → e'.status_audit ≡ conforme)
complete-equipements_example =
    complete-equipements halves db 100 campaign 3 refl [] [] hardening refl refl tt

loaded : load_campaign db 7 (some 10) false ≡ ok campaign
unfolding load_campaign
loaded = refl

create_assessment-results_example :
    Returns
      (λ p.
        (map (λ r. r.control_id) (results_of p.0 p.1.id) ≡ 1 ∷ 2 ∷ [])
        × All (λ r. r.status ≡ not_assessed) (results_of p.0 p.1.id))
      (create_assessment db 2 3 7 4 5 none (some 10) false)
unfolding flat_map
create_assessment-results_example =
    create_assessment-results db 2 3 7 4 5 none (some 10) false (refl, (refl, tt)) loaded refl refl
      refl

assessments-IsUnique_example :
    IfReturns (λ p. IsUnique p.0.assessments) (create_assessment db 1 3 7 4 5 none (some 10) false)
    × IfReturns (λ d. IsUnique d.assessments) (delete_assessment db 1 (some 10) false)
    × IfReturns (λ d. IsUnique d.assessments) (delete_campaign db 7 (some 10) false)
assessments-IsUnique_example = assessments-IsUnique db 1 3 7 4 5 none (some 10) false (tt, tt)

-- The campaign starts, and keeps its name.
get_campaign-update_campaign_example :
    Returns
      (λ p.
        (get_campaign p.0 7 (some 10) false ≡ ok (some p.1))
        × (p.1.status ≡ in_progress)
        × (p.1.name ≡ "Spring")
        × (p.1.description ≡ none)
        × (p.1.id ≡ 7)
        × (p.1.audit_id ≡ 1))
      (update_campaign halves db 100 7
        (record {
          name = some (some "Autumn");
          description = some (some "second round");
          status = some (some in_progress);
        })
        (some 10)
        false)
get_campaign-update_campaign_example =
    get_campaign-update_campaign halves db 100 7 "Autumn" (some "second round") (some 10) false
      loaded in_progress
