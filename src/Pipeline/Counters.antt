-- ===== src/Pipeline/Counters.antt =====
-- The third phase of a pipeline returns, and its counters say what happened.
use assistant_audit.Prelude.{
  ℕ, suc, ◌+◌, ◌<◌, ◌≡◌, ◌≢◌, ◌⊎◌, inl, inr, refl, ◌∙◌, Bool, false, ◌&&◌, Option, none, some, List,
  [], ◌∷◌, ◌==◌, nat_eq, length, ltb, arith, if◌then◌else◌, Bool-cases,
}
use assistant_audit.Agent.{is_final}
use assistant_audit.Pipeline.Hosts.{CollectProfile}
use assistant_audit.Pipeline.Rows.{StepStatus, step_status_eq, CollectPipeline, SiteEquipement}
use assistant_audit.Pipeline.Polling.{IsTicking, poll-returns}
use assistant_audit.Pipeline.Phases.{collect_time}
use assistant_audit.Collect.Rows.{CollectStatus, success, running, failed}
use assistant_audit.Pipeline.Collects.{
  Collecting, Collected, collect_one, collect_all, count_collect, settle, collect_request,
  then_collected, run_collects_phase, close_collects,
}

-- What `n` collects change.
record IsCounted (n : ℕ) (p p' : CollectPipeline) : Type 0 where
  counted : p'.collects_done + p'.collects_failed ≡ p.collects_done + p.collects_failed + n
  total : p'.collects_total ≡ p.collects_total
  scan : p'.scan_status ≡ p.scan_status
  equipments : p'.equipments_status ≡ p.equipments_status
  discovered : p'.hosts_discovered ≡ p.hosts_discovered
  skipped_hosts : p'.hosts_skipped ≡ p.hosts_skipped

missed :
    (p : CollectPipeline) → IsCounted 1 p (record p { collects_failed = p.collects_failed + 1 })
missed p = record {
  counted = omega arith;
  total = refl;
  scan = refl;
  equipments = refl;
  discovered = refl;
  skipped_hosts = refl;
}

count_collect-IsCounted :
    (r : Option CollectStatus) (p : CollectPipeline) → IsCounted 1 p (count_collect r p)
count_collect-IsCounted (some success) p = record {
  counted = omega arith;
  total = refl;
  scan = refl;
  equipments = refl;
  discovered = refl;
  skipped_hosts = refl;
}
count_collect-IsCounted none p = missed p
count_collect-IsCounted (some running) p = missed p
count_collect-IsCounted (some failed) p = missed p

pub found {ℓ} : {A : Type ℓ} (o : Option A) → o ≢ none → (a : A) × (o ≡ some a)
found none h = absurd (h refl)
found (some a) h = (a, refl)

collect_one-returns :
    (w : Collecting) (p : CollectPipeline)
    → IsTicking w.timer
    → (r : CollectPipeline × Option CollectStatus) × (collect_one w p ≡ some r) × IsCounted 1 p r.0
unfolding collect_one
collect_one-returns w p ticks = elim (Bool-cases w.dispatched) [
  | inl t ↦
      let (o, e) = found _ (
        poll-returns is_final w.timer.check w.read (w.timer.start + collect_time) 180 0 ticks.1
          (omega (arith, ticks.0))) in
      (
        (count_collect (settle o w.final) p, settle o w.final),
        rw (t, e) refl,
        count_collect-IsCounted (settle o w.final) p,
      )
  | inr n ↦ ((count_collect none p, none), rw n refl, count_collect-IsCounted none p)
]

collect_all-returns :
    (targets : List (SiteEquipement × CollectProfile)) (world : ℕ → Collecting) (ssl : Bool)
    (turn : ℕ) (p : CollectPipeline)
    → ((n : ℕ) → IsTicking (world n).timer)
    → (c : Collected) × (collect_all targets world ssl turn p ≡ some c)
      × IsCounted (length targets) p c.pipeline
unfolding collect_all
collect_all-returns [] world ssl turn p ticks = (
  _,
  refl,
  record {
    counted = omega arith;
    total = refl;
    scan = refl;
    equipments = refl;
    discovered = refl;
    skipped_hosts = refl;
  },
)
collect_all-returns (target ∷ rest) world ssl turn p ticks =
    let ((p', r), e, one) = collect_one-returns (world turn) p (ticks turn) in
    let (c, e', more) = collect_all-returns rest world ssl (suc turn) p' ticks in
    (
      then_collected (collect_request ssl target) r c,
      rw (e, collect_all, e') refl,
      record {
        counted = omega (arith, one.counted, more.counted);
        total = more.total ∙ one.total;
        scan = more.scan ∙ one.scan;
        equipments = more.equipments ∙ one.equipments;
        discovered = more.discovered ∙ one.discovered;
        skipped_hosts = more.skipped_hosts ∙ one.skipped_hosts;
      },
    )

-- What the third phase says in the end.
pub record IsClosed (p p' : CollectPipeline) : Type 0 where
  pub counted : p'.collects_done + p'.collects_failed ≡ p'.collects_total
  pub total : p'.collects_total ≡ p.collects_total
  pub scan : p'.scan_status ≡ p.scan_status
  pub equipments : p'.equipments_status ≡ p.equipments_status
  pub discovered : p'.hosts_discovered ≡ p.hosts_discovered
  pub skipped_hosts : p'.hosts_skipped ≡ p.hosts_skipped
  pub verdict :
      (p'.collects_status ≡ StepStatus.failed)
      ⊎ (((p'.collects_status == StepStatus.failed) ≡ false)
          × ((p'.collects_total ≡ 0) ⊎ (p'.collects_failed < p'.collects_total)))

closed_verdict :
    (d f t : ℕ)
    → d + f ≡ t
    → let s = if f == t && ltb 0 t then StepStatus.failed else StepStatus.completed in
      (s ≡ StepStatus.failed) ⊎ (((s == StepStatus.failed) ≡ false) × ((t ≡ 0) ⊎ (f < t)))
closed_verdict d f t h = elim (Bool-cases (f == t && ltb 0 t)) [
  | inl e ↦ rw e (inl refl)
  | inr n ↦ rw n (inr (refl, ground (arith, h, n)))
]

pub run_collects_phase-returns :
    (targets : List (SiteEquipement × CollectProfile)) (world : ℕ → Collecting) (ssl : Bool)
    (p : CollectPipeline)
    → ((n : ℕ) → IsTicking (world n).timer)
    → p.collects_total ≡ length targets
    → p.collects_done + p.collects_failed ≡ 0
    → (c : Collected) × (run_collects_phase targets world ssl p ≡ some c) × IsClosed p c.pipeline
unfolding run_collects_phase
run_collects_phase-returns [] world ssl p ticks total fresh = (
  _,
  refl,
  record {
    counted = omega (arith, total, fresh);
    total = refl;
    scan = refl;
    equipments = refl;
    discovered = refl;
    skipped_hosts = refl;
    verdict = inr (refl, inl total);
  },
)
run_collects_phase-returns (target ∷ rest) world ssl p ticks total fresh =
    let (c, e, all) =
      collect_all-returns (target ∷ rest) world ssl 0
        (record p { collects_status = StepStatus.running }) ticks in
    let sum : c.pipeline.collects_done + c.pipeline.collects_failed ≡ c.pipeline.collects_total =
      omega (arith, all.counted, all.total, total, fresh) in
    (
      record c { pipeline = close_collects c.pipeline },
      rw (e, run_collects_phase) refl,
      record {
        counted = sum;
        total = all.total;
        scan = all.scan;
        equipments = all.equipments;
        discovered = all.discovered;
        skipped_hosts = all.skipped_hosts;
        verdict =
            closed_verdict c.pipeline.collects_done c.pipeline.collects_failed
              c.pipeline.collects_total sum;
      },
    )
