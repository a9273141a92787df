-- ===== src/Pipeline/Collects.antt =====
-- Phase 3 of a pipeline, one collect after the other, and the order of the three phases.
use assistant_audit.Prelude.{
  ℕ, suc, ◌+◌, String, Bool, true, false, ◌&&◌, Option, none, some, List, [], ◌∷◌, ◌==◌, nat_eq,
  ltb, if◌then◌else◌,
}
use assistant_audit.Agent.{AgentDb, TaskStatus, is_final}
use assistant_audit.Collect.Rows.{CollectStatus, running, success, failed}
use assistant_audit.Pipeline.Hosts.{CollectProfile, windows_server}
use assistant_audit.Pipeline.Rows.{
  PipelineStatus, StepStatus, skipped, step_status_eq, no_agent_for_collects, CollectPipeline,
  SiteEquipement, profile_method,
}
use assistant_audit.Pipeline.Polling.{Outcome, timed_out, gone, ended, Timer, poll}
use assistant_audit.Pipeline.Phases.{
  collect_time, collect_fuel, agent_of, Scanning, run_scan_phase, run_equipments_phase, Sweep,
}

-- What happens outside during one collect: whether it could be created and dispatched, the reads
-- of its task, and the status of its result in the end.
pub record Collecting : Type 0 where
  pub dispatched : Bool
  pub timer : Timer
  pub read : ℕ → Option TaskStatus
  pub final : Option CollectStatus

-- The arguments of `create_pending_collect`.
pub record CollectRequest : Type 0 where
  pub equipement_id : ℕ
  pub method : String
  pub target_host : String
  pub target_port : ℕ
  pub device_profile : CollectProfile

abbrev pub is_windows_server : CollectProfile → Bool
is_windows_server windows_server = true
is_windows_server _ = false

abbrev pub collect_request : Bool → SiteEquipement × CollectProfile → CollectRequest
collect_request use_ssl (equip, profile) = record {
  equipement_id = equip.id;
  method = (profile_method profile).method;
  target_host = equip.ip_address;
  target_port =
      if is_windows_server profile && use_ssl then 5986 else (profile_method profile).default_port;
  device_profile = profile;
}

-- A result that still runs when the time is over has failed.
abbrev pub settle : Outcome TaskStatus → Option CollectStatus → Option CollectStatus
settle timed_out (some running) = some failed
settle timed_out other = other
settle gone other = other
settle (ended s) other = other

abbrev pub count_collect : Option CollectStatus → CollectPipeline → CollectPipeline
count_collect (some success) p = record p { collects_done = p.collects_done + 1 }
count_collect other p = record p { collects_failed = p.collects_failed + 1 }

-- One turn of the loop: the pipeline, and the status that the result is left with.
unfoldable pub collect_one :
    Collecting → CollectPipeline → Option (CollectPipeline × Option CollectStatus)
collect_one w p =
    if w.dispatched
    then elim (poll is_final w.timer.check w.read (w.timer.start + collect_time) collect_fuel 0) [
      | none ↦ none
      | some outcome ↦ some (count_collect (settle outcome w.final) p, settle outcome w.final)
    ]
    else some (count_collect none p, none)

pub record Collected : Type 0 where
  pub pipeline : CollectPipeline
  pub requests : List CollectRequest
  pub results : List (Option CollectStatus)

abbrev pub then_collected : CollectRequest → Option CollectStatus → Collected → Collected
then_collected request result c = record {
  pipeline = c.pipeline;
  requests = request ∷ c.requests;
  results = result ∷ c.results;
}

-- The loop; `turn` counts the collects.
unfoldable pub collect_all :
    List (SiteEquipement × CollectProfile)
    → (ℕ → Collecting)
    → Bool
    → ℕ
    → CollectPipeline
    → Option Collected
unfolding collect_one
collect_all [] world use_ssl turn p = some (record { pipeline = p; requests = []; results = [] })
collect_all (target ∷ rest) world use_ssl turn p = elim (collect_one (world turn) p) [
  | none ↦ none
  | some (p', result) ↦ elim (collect_all rest world use_ssl (suc turn) p') [
    | none ↦ none
    | some c ↦ some (then_collected (collect_request use_ssl target) result c)
  ]
]

-- The status of the phase in the end.
abbrev pub close_collects : CollectPipeline → CollectPipeline
close_collects p = record p {
  collects_status =
      if p.collects_failed == p.collects_total && ltb 0 p.collects_total
      then StepStatus.failed
      else StepStatus.completed;
}

unfoldable pub run_collects_phase :
    List (SiteEquipement × CollectProfile)
    → (ℕ → Collecting)
    → Bool
    → CollectPipeline
    → Option Collected
unfolding collect_all
run_collects_phase [] world use_ssl p =
    some (record { pipeline = record p { collects_status = skipped }; requests = []; results = [] })
run_collects_phase (target ∷ rest) world use_ssl p =
    elim (collect_all (target ∷ rest) world use_ssl 0
      (record p { collects_status = StepStatus.running })) [
        | none ↦ none
        | some c ↦ some (record c { pipeline = close_collects c.pipeline })
      ]

-- What happens outside during a pipeline. `later` is the table of agents at the third phase.
pub record World : Type 0 where
  pub started : ℕ
  pub finished : ℕ
  pub scanning : Scanning
  pub first_id : ℕ
  pub later : AgentDb
  pub collecting : ℕ → Collecting

pub record Finished : Type 0 where
  pub pipeline : CollectPipeline
  pub equipements : List SiteEquipement
  pub requests : List CollectRequest
  pub results : List (Option CollectStatus)

-- `pipeline.error_message or "..."`, where no message is empty
abbrev pub no_agent : CollectPipeline → CollectPipeline
no_agent p = record p {
  collects_status = StepStatus.failed;
  error_message = elim p.error_message [ none ↦ some no_agent_for_collects | some m ↦ some m ];
}

abbrev pub finish : ℕ → CollectPipeline → CollectPipeline
finish now p = record p {
  status =
      if p.collects_status == StepStatus.failed
      then PipelineStatus.failed
      else PipelineStatus.completed;
  completed_at = some now;
}

-- The third phase, and the status of the pipeline.
unfoldable pub run_rest : World → Bool → Sweep → Option Finished
unfolding run_collects_phase
run_rest w use_ssl s = elim (agent_of w.later s.pipeline.agent_id) [
  | none ↦ some (record {
    pipeline = finish w.finished (no_agent s.pipeline);
    equipements = s.equipements;
    requests = [];
    results = [];
  })
  | some agent ↦ elim (run_collects_phase s.targets w.collecting use_ssl s.pipeline) [
    | none ↦ none
    | some c ↦ some (record {
      pipeline = finish w.finished c.pipeline;
      equipements = s.equipements;
      requests = c.requests;
      results = c.results;
    })
  ]
]

-- The body of the `try`, for a pipeline that is there; exceptions of the database are not modelled.
unfoldable pub execute_pipeline_background :
    World → AgentDb → List SiteEquipement → CollectPipeline → ℕ → Bool → Option Finished
unfolding run_scan_phase run_equipments_phase run_rest
execute_pipeline_background w db equipements p user_id use_ssl =
    elim (run_scan_phase w.scanning db
      (record p { status = PipelineStatus.running; started_at = some w.started }) user_id) [
        | none ↦ none
        | some scan ↦ elim scan.hosts [
          | none ↦ some (record {
            pipeline = record scan.pipeline {
              status = PipelineStatus.failed;
              completed_at = some w.finished;
            };
            equipements = equipements;
            requests = [];
            results = [];
          })
          | some hosts ↦
              run_rest w use_ssl (run_equipments_phase w.first_id scan.pipeline equipements hosts)
        ]
      ]
