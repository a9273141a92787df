-- ===== src/Pipeline/Outcome.antt =====
-- The first phase of a pipeline returns, and what the second leaves alone.
use assistant_audit.Prelude.{
  ℕ, ◌+◌, ◌≡◌, ◌⊎◌, inl, inr, refl, ◌∙◌, Option, none, some, List, [], ◌∷◌, ◌==◌, nat_eq, string_eq,
  length, first, arith, Bool-cases, Option-cases,
}
use assistant_audit.Errors.{ok, err, Result}
use assistant_audit.Agent.{AgentDb, AgentTask, Agent, dispatch_task, text, is_final, is_completed}
use assistant_audit.Pipeline.Hosts.{NmapHost, CollectProfile, detect_collect_profile}
use assistant_audit.Pipeline.Rows.{
  StepStatus, agent_not_found, dispatch_failed, step_status_eq, CollectPipeline, ScanTask,
}
use assistant_audit.Pipeline.Polling.{
  Outcome, gone, timed_out, ended, IsTicking, poll, poll-returns,
}
use assistant_audit.Pipeline.Phases.{
  Scanning, Scanned, Sweep, agent_of, after_scan, run_scan_phase, visit_all, at_address, fail_scan,
  scan_result, visit, register, scan_time,
}
use assistant_audit.Pipeline.Counters.{found}

-- What the first phase says in the end.
abbrev pub IsScanned : CollectPipeline → CollectPipeline → Option (List NmapHost) → Type 0
IsScanned p p' hosts =
    ((hosts ≡ none) × (p'.scan_status ≡ StepStatus.failed))
    ⊎ ((hs : List NmapHost) × (hosts ≡ some hs)
        × (p'.scan_status ≡ StepStatus.completed)
        × (p'.hosts_discovered ≡ length hs)
        × (p'.hosts_skipped ≡ p.hosts_skipped)
        × (p'.collects_done ≡ p.collects_done)
        × (p'.collects_failed ≡ p.collects_failed))

after_scan-IsScanned :
    (o : Outcome ScanTask) (p : CollectPipeline) → IsScanned p (after_scan o p).0 (after_scan o p).1
unfolding after_scan
after_scan-IsScanned gone p = inl (refl, refl)
after_scan-IsScanned timed_out p = inl (refl, refl)
after_scan-IsScanned (ended task) p = elim (Bool-cases (is_completed task.status)) [
  | inl t ↦ rw t (inr (_, refl, refl, refl, refl, refl, refl))
  | inr n ↦ rw n (inl (refl, refl))
]

pub run_scan_phase-returns :
    (w : Scanning) (db : AgentDb) (p : CollectPipeline) (u : ℕ)
    → IsTicking w.timer
    → (r : Scanned) × (run_scan_phase w db p u ≡ some r) × IsScanned p r.pipeline r.hosts
unfolding run_scan_phase
run_scan_phase-returns w db p u ticks = with_agent (agent_of db p.agent_id) refl
  where
    dispatched : Agent → Result (AgentDb × AgentTask)
    dispatched agent =
        dispatch_task db w.new_id w.new_uuid agent.agent_uuid "nmap"
          (("target", text p.target) ∷ ("scan_type", text "port_scan") ∷ []) u none

    outcome :
        (o : Outcome ScanTask) × (poll
            (λ t. is_final t.status)
            w.timer.check
            w.read
            (w.timer.start + scan_time)
            361
            0
          ≡ some o)
    outcome = found _ (
        poll-returns (λ t. is_final t.status) w.timer.check w.read (w.timer.start + scan_time) 360 0
          ticks.1 (omega (arith, ticks.0)))

    Goal : Type 0
    Goal = (r : Scanned) × (run_scan_phase w db p u ≡ some r) × IsScanned p r.pipeline r.hosts

    polling : AgentTask → CollectPipeline
    polling task = record p {
      scan_task_uuid = some task.task_uuid;
      scan_status = StepStatus.running;
    }

    with_task :
        (agent : Agent) (r : Result (AgentDb × AgentTask))
        → agent_of db p.agent_id ≡ some agent
        → dispatched agent ≡ r
        → Goal
    with_task agent (err e) a d = (
      record { agents = db; pipeline = fail_scan dispatch_failed p; hosts = none },
      rw (a, run_scan_phase, d) refl,
      inl (refl, refl),
    )
    with_task agent (ok (db', task)) a d = (
      scan_result db' (after_scan outcome.0 (polling task)),
      rw (a, run_scan_phase, d, outcome.1) refl,
      after_scan-IsScanned outcome.0 (polling task),
    )

    with_agent : (o : Option Agent) → agent_of db p.agent_id ≡ o → Goal
    with_agent none a = (
      record { agents = db; pipeline = fail_scan agent_not_found p; hosts = none },
      rw (a, run_scan_phase) refl,
      inl (refl, refl),
    )
    with_agent (some agent) a = with_task agent (dispatched agent) a refl

-- What the second phase leaves alone.
abbrev pub kept_by_sweep : Sweep → StepStatus × (ℕ × (ℕ × ℕ))
kept_by_sweep s = (
  s.pipeline.scan_status,
  (s.pipeline.hosts_discovered, (s.pipeline.collects_done, s.pipeline.collects_failed)),
)

visit-keeps : (host : NmapHost) (s : Sweep) → kept_by_sweep (visit host s) ≡ kept_by_sweep s
unfolding visit register
visit-keeps host s = elim (Option-cases (detect_collect_profile host)) [
  | inl n ↦ rw (n, visit) refl
  | inr (p, e) ↦ elim (Bool-cases (host.ip == "")) [
    | inl t ↦ rw (e, visit, t) refl
    | inr f ↦ rw (e, visit, f) (registered p)
  ]
]
  where
    registered : (p : CollectProfile) → kept_by_sweep (register p host s) ≡ kept_by_sweep s
    registered p =
        elim (Option-cases (first (at_address s.pipeline.site_id host.ip) s.equipements)) [
          | inl n ↦ rw (n, register) refl
          | inr (x, k) ↦ rw (k, register) refl
        ]

pub visit_all-keeps :
    (hosts : List NmapHost) (s : Sweep) → kept_by_sweep (visit_all hosts s) ≡ kept_by_sweep s
unfolding visit_all
visit_all-keeps [] s = refl
visit_all-keeps (host ∷ rest) s = visit_all-keeps rest (visit host s) ∙ visit-keeps host s
