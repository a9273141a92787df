-- ===== src/Pipeline/Ending.antt =====
-- How a pipeline ends: it always does, and its counters say what happened.
use assistant_audit.Prelude.{
  ℕ, ◌+◌, ◌<◌, ◌≡◌, ◌⊎◌, inl, inr, refl, ap, ◌∙◌, Bool, true, false, some, List, [], ◌==◌, nat_eq,
  string_eq, length, arith, if◌then◌else◌, Option-cases,
}
use assistant_audit.Agent.{AgentDb}
use assistant_audit.Pipeline.Rows.{
  PipelineStatus, StepStatus, step_status_eq, CollectPipeline, SiteEquipement,
}
use assistant_audit.Pipeline.Polling.{IsTicking}
use assistant_audit.Pipeline.Phases.{
  Scanned, Sweep, agent_of, run_scan_phase, run_equipments_phase, start_at,
}
use assistant_audit.Pipeline.Collects.{
  World, Finished, finish, no_agent, run_rest, execute_pipeline_background,
}
use assistant_audit.Pipeline.Sweeping.{visit_all-IsSweep}
use assistant_audit.Pipeline.Counters.{IsClosed, run_collects_phase-returns}
use assistant_audit.Pipeline.Outcome.{IsScanned, run_scan_phase-returns, visit_all-keeps}

-- A pipeline in its final state: failed by its scan or its collects, or completed, where each host
-- that was found is skipped or has a collect, each collect is counted once, as done or as failed,
-- and not all have failed.
abbrev pub IsEnd : CollectPipeline → Type 0
IsEnd p =
    ((p.status ≡ PipelineStatus.failed)
      × ((p.scan_status ≡ StepStatus.failed) ⊎ (p.collects_status ≡ StepStatus.failed)))
    ⊎ ((p.status ≡ PipelineStatus.completed)
        × (p.scan_status ≡ StepStatus.completed)
        × (p.equipments_status ≡ StepStatus.completed)
        × (p.hosts_skipped + p.collects_total ≡ p.hosts_discovered)
        × (p.collects_done + p.collects_failed ≡ p.collects_total)
        × ((p.collects_total ≡ 0) ⊎ (p.collects_failed < p.collects_total)))

finish-IsEnd :
    (now : ℕ) (p p' : CollectPipeline)
    → p.scan_status ≡ StepStatus.completed
    → p.equipments_status ≡ StepStatus.completed
    → p.hosts_skipped + p.collects_total ≡ p.hosts_discovered
    → IsClosed p p'
    → IsEnd (finish now p')
finish-IsEnd now p p' scan equipments counts closed = by closed.verdict
  where
    status_if :
        (b : Bool)
        → b ≡ true
        → (if b then PipelineStatus.failed else PipelineStatus.completed) ≡ PipelineStatus.failed
    status_if b t = rw t refl

    unless :
        (b : Bool)
        → b ≡ false
        → (if b then PipelineStatus.failed else PipelineStatus.completed) ≡ PipelineStatus.completed
    unless b n = rw n refl

    by :
        (p'.collects_status ≡ StepStatus.failed)
          ⊎ (((p'.collects_status == StepStatus.failed) ≡ false)
              × ((p'.collects_total ≡ 0) ⊎ (p'.collects_failed < p'.collects_total)))
        → IsEnd (finish now p')
    by (inl f) = inl (status_if (p'.collects_status == StepStatus.failed) (rw f refl), inr f)
    by (inr (n, some_left)) = inr (
      unless (p'.collects_status == StepStatus.failed) n,
      closed.scan ∙ scan,
      closed.equipments ∙ equipments,
      omega (arith, closed.total, closed.discovered, closed.skipped_hosts, counts),
      closed.counted,
      some_left,
    )

-- The third phase, after a sweep whose counters are right.
run_rest-returns :
    (w : World) (ssl : Bool) (s : Sweep)
    → ((n : ℕ) → IsTicking (w.collecting n).timer)
    → s.pipeline.collects_total ≡ length s.targets
    → s.pipeline.collects_done + s.pipeline.collects_failed ≡ 0
    → s.pipeline.scan_status ≡ StepStatus.completed
    → s.pipeline.equipments_status ≡ StepStatus.completed
    → s.pipeline.hosts_skipped + s.pipeline.collects_total ≡ s.pipeline.hosts_discovered
    → (f : Finished) × (run_rest w ssl s ≡ some f)
      × (f.pipeline.completed_at ≡ some w.finished)
      × IsEnd f.pipeline
unfolding run_rest
run_rest-returns w ssl s ticks total fresh scan equipments counts =
    elim (Option-cases (agent_of w.later s.pipeline.agent_id)) [
      | inl n ↦ (
        record {
          pipeline = finish w.finished (no_agent s.pipeline);
          equipements = s.equipements;
          requests = [];
          results = [];
        },
        rw (n, run_rest) refl,
        refl,
        inl (refl, inr refl),
      )
      | inr (agent, e) ↦
          let (c, k, closed) =
            run_collects_phase-returns s.targets w.collecting ssl s.pipeline ticks total fresh in
          (
            record {
              pipeline = finish w.finished c.pipeline;
              equipements = s.equipements;
              requests = c.requests;
              results = c.results;
            },
            rw (e, run_rest, k) refl,
            refl,
            finish-IsEnd w.finished s.pipeline c.pipeline scan equipments counts closed,
          )
    ]

-- Where sleeping takes its time, a pipeline that has counted nothing yet comes to its end, for any
-- agent, any answers and any collects: it is failed, and so is its scan or its collects, or it is
-- completed; then each host found is skipped or has a collect, each collect is counted once, as done
-- or failed, and unless there are none, not all have failed.
pub execute_pipeline_background-ends :
    (w : World) (db : AgentDb) (rows : List SiteEquipement) (p : CollectPipeline) (u : ℕ)
    (ssl : Bool)
    → IsTicking w.scanning.timer
    → ((n : ℕ) → IsTicking (w.collecting n).timer)
    → p.hosts_skipped ≡ 0
    → p.collects_done ≡ 0
    → p.collects_failed ≡ 0
    → (f : Finished) × (execute_pipeline_background w db rows p u ssl ≡ some f)
      × (f.pipeline.completed_at ≡ some w.finished)
      × IsEnd f.pipeline
unfolding execute_pipeline_background run_equipments_phase
execute_pipeline_background-ends w db rows p u ssl scan_ticks ticks skipped_0 done_0 failed_0 =
    let (r, e, scanned) = run_scan_phase-returns w.scanning db launched u scan_ticks in
    ends r e scanned
  where
    launched : CollectPipeline
    launched = record p { status = PipelineStatus.running; started_at = some w.started }

    ends :
        (r : Scanned)
        → run_scan_phase w.scanning db launched u ≡ some r
        → IsScanned launched r.pipeline r.hosts
        → (f : Finished) × (execute_pipeline_background w db rows p u ssl ≡ some f)
          × (f.pipeline.completed_at ≡ some w.finished)
          × IsEnd f.pipeline
    ends r e (inl (n, failed_scan)) = (
      record {
        pipeline = record r.pipeline {
          status = PipelineStatus.failed;
          completed_at = some w.finished;
        };
        equipements = rows;
        requests = [];
        results = [];
      },
      rw (e, execute_pipeline_background, n) refl,
      refl,
      inl (refl, inl failed_scan),
    )
    ends r e (inr (hosts, h, scan, found, skips, dones, fails)) =
        let swept =
          visit_all-IsSweep r.pipeline.site_id hosts (start_at w.first_id r.pipeline rows) refl in
        let kept = visit_all-keeps hosts (start_at w.first_id r.pipeline rows) in
        let (f, k, at, end) =
          run_rest-returns w ssl (run_equipments_phase w.first_id r.pipeline rows hosts) ticks refl
            (omega (
              arith,
              ap (λ t. t.1.1.0) kept,
              ap (λ t. t.1.1.1) kept,
              dones,
              fails,
              done_0,
              failed_0,
            ))
            (ap (λ t. t.0) kept ∙ scan) refl
            (omega (arith, swept.counts, ap (λ t. t.1.0) kept, found, skips, skipped_0)) in
        (f, rw (e, execute_pipeline_background, h, k) refl, at, end)
