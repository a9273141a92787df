-- ===== src/Pipeline/Launch.antt =====
-- Whose agent scans: `create_pending_pipeline` lets an administrator choose any agent, and
-- `dispatch_task`, which the scan calls, asks for one of the user's own.
use assistant_audit.Prelude.{
  ℕ, ◌≡◌, refl, String, true, false, ◌&&◌, none, some, All, first, first-All, first-snoc,
  Bool-cases, inl, inr, ==-self, contains, [], ◌∷◌, ◌++◌, ◌==◌, nat_eq, string_eq,
}
use assistant_audit.Errors.{value_error, not_found, ok, err, Returns}
use assistant_audit.Agent.{active, agent_status_eq, Agent, AgentDb, Parameters, dispatch_task}
use assistant_audit.Pipeline.Rows.{CollectPipeline, dispatch_failed}
use assistant_audit.Pipeline.Phases.{Scanning, run_scan_phase, fail_scan, agent_of}
use assistant_audit.Pipeline.Service.{
  Site, LaunchDb, new_pipeline, create_pending_pipeline, get_pipeline,
  user_has_access_to_entreprise,
}

-- No active agent of that uuid belongs to the user.
abbrev pub IsOthers : AgentDb → String → ℕ → Type 0
IsOthers db uuid u =
    All (λ a. (a.agent_uuid == uuid && a.user_id == u && a.status == active) ≡ false) db.agents

dispatch_task-IsOthers :
    (db : AgentDb) (id : ℕ) (new_uuid uuid tool : String) (ps : Parameters) (u : ℕ)
    → IsOthers db uuid u
    → dispatch_task db id new_uuid uuid tool ps u none ≡ err not_found
unfolding dispatch_task
dispatch_task-IsOthers db id new_uuid uuid tool ps u others = rw (first-All _ db.agents others) refl

run_scan_phase-IsOthers :
    (w : Scanning) (db : AgentDb) (p : CollectPipeline) (u : ℕ) {a : Agent}
    → agent_of db p.agent_id ≡ some a
    → IsOthers db a.agent_uuid u
    → run_scan_phase w db p u
      ≡ some (record { agents = db; pipeline = fail_scan dispatch_failed p; hosts = none })
unfolding run_scan_phase
run_scan_phase-IsOthers w db p u {a} found others =
    rw
      (
        run_scan_phase,
        found,
        dispatch_task-IsOthers db w.new_id w.new_uuid a.agent_uuid "nmap" _ u others,
      )
      refl

module _ (db : LaunchDb) (id n k : ℕ) (target : String) (u : ℕ) {s : Site} {a : Agent}
    (site : first (λ x. x.id == n) db.sites ≡ some s)
    (agent : first (λ x. x.id == k) db.agents.agents ≡ some a) where
  refused :
      (a.user_id == u) ≡ false → create_pending_pipeline db id n k target u false ≡ err value_error
  unfolding create_pending_pipeline
  refused foreign = elim (Bool-cases (user_has_access_to_entreprise db s.entreprise_id u)) [
    | inl y ↦ rw (site, y, agent, foreign) refl
    | inr closed ↦ rw (site, closed) refl
  ]

  created :
      (a.status == active) ≡ true
      → contains "nmap" a.allowed_tools ≡ true
      → create_pending_pipeline db id n k target u true
        ≡ ok (
          record db { pipelines = db.pipelines ++ new_pipeline id n k target u ∷ [] },
          new_pipeline id n k target u,
        )
  unfolding create_pending_pipeline
  created live scans = rw (site, agent, live, scans) refl

  -- On an active agent that may scan but belongs to another user, with no active agent of its uuid
  -- being the caller's: a technician's launch raises `ValueError`. An administrator's, with a new
  -- id, is created and can be read by him, but its scan fails at the dispatch, whatever happens
  -- outside, and leaves the agents' tables as they were.
  pub create_pending_pipeline-IsOthers :
      (a.user_id == u) ≡ false
      → IsOthers db.agents a.agent_uuid u
      → (a.status == active) ≡ true
      → contains "nmap" a.allowed_tools ≡ true
      → (k == 0) ≡ false
      → All (λ p. (p.id == id) ≡ false) db.pipelines
      → (w : Scanning)
      → (create_pending_pipeline db id n k target u false ≡ err value_error)
        × Returns
            (λ out.
              (get_pipeline out.0 id (some u) false ≡ some out.1)
              × (run_scan_phase w out.0.agents out.1 u
                  ≡ some (record {
                    agents = db.agents;
                    pipeline = fail_scan dispatch_failed out.1;
                    hosts = none;
                  })))
            (create_pending_pipeline db id n k target u true)
  create_pending_pipeline-IsOthers foreign others live scans nonzero fresh w =
      let p = new_pipeline id n k target u in
      let stored = first-snoc (λ x. x.id == id) db.pipelines p fresh (==-self id) in
      let is_his : (p.created_by == u) ≡ true = ==-self u in
      (
        refused foreign,
        rw (created live scans) (
          (unfold get_pipeline in rw (get_pipeline, stored, is_his) refl),
          run_scan_phase-IsOthers w db.agents p u {a = a} (rw (nonzero, agent) refl) others,
        ),
      )
