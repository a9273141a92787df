-- ===== src/Remediation/Counted.antt =====
-- The plan has an action for each control with a non-compliant result, in the block of its horizon.
use assistant_audit.Prelude.{
  ℕ, ◌+◌, ◌≡◌, refl, ap, ◌∙◌, String, Bool, true, List, [], ◌∷◌, map, ◌==◌, nat_eq, string_eq,
  length, select, count_by, All, All-select, if◌then◌else◌, arith,
}
use assistant_audit.Errors.{ok, Returns}
use assistant_audit.Campaign.{Audit}
use assistant_audit.Compliance.Float.{Float}
use assistant_audit.Remediation.Plan.{
  Horizon, quick_wins, short_term, mid_term, long_term, same_horizon, PlanCampaign, Aggregate,
  aggregate_campaigns, action_of, RemediationAction, RemediationHorizon, horizon_block, sum_of,
  check_owned_audit, generate,
}
use assistant_audit.Remediation.Entries.{
  uniques, failing_controls, IsReferenced, total_count, count_of, entry_ids, campaigns-IsAggregate,
}
use assistant_audit.Remediation.Sorting.{
  weight, IsDescending, sort_actions-IsDescending, sort_actions-All, weight-sort_actions,
  weight-length, at_horizon, weight-partition,
}

module _ (f : Float) where
  -- The occurrences of an action, if it is for that reference.
  abbrev pub occurrences_of : String → RemediationAction f → ℕ
  occurrences_of s a = if a.control_ref == s then a.occurrences else 0

  occurrences-action_of :
      (entries : List (Aggregate f))
      → weight f (λ a. a.occurrences) (map (action_of f) entries) ≡ total_count f entries
  occurrences-action_of [] = refl
  occurrences-action_of (a ∷ rest) = ap (λ n. a.count + n) (occurrences-action_of rest)

  occurrences_of-action_of :
      (s : String) (entries : List (Aggregate f))
      → weight f (occurrences_of s) (map (action_of f) entries) ≡ count_of f s entries
  occurrences_of-action_of s [] = refl
  occurrences_of-action_of s (a ∷ rest) =
      ap (λ n. (if a.control.ref_id == s then a.count else 0) + n) (occurrences_of-action_of s rest)

  weight_one-action_of :
      (entries : List (Aggregate f))
      → weight f (λ a. 1) (map (action_of f) entries) ≡ length (entry_ids f entries)
  weight_one-action_of [] = refl
  weight_one-action_of (a ∷ rest) = omega (arith, weight_one-action_of rest)

  same_horizon-eq : (h key : Horizon) → same_horizon h key ≡ true → h ≡ key
  same_horizon-eq quick_wins quick_wins t = refl
  same_horizon-eq short_term short_term t = refl
  same_horizon-eq mid_term mid_term t = refl
  same_horizon-eq long_term long_term t = refl
  same_horizon-eq quick_wins short_term t = cc
  same_horizon-eq quick_wins mid_term t = cc
  same_horizon-eq quick_wins long_term t = cc
  same_horizon-eq short_term quick_wins t = cc
  same_horizon-eq short_term mid_term t = cc
  same_horizon-eq short_term long_term t = cc
  same_horizon-eq mid_term quick_wins t = cc
  same_horizon-eq mid_term short_term t = cc
  same_horizon-eq mid_term long_term t = cc
  same_horizon-eq long_term quick_wins t = cc
  same_horizon-eq long_term short_term t = cc
  same_horizon-eq long_term mid_term t = cc

  -- A block has the actions of its horizon, most frequent first, and its total is their number.
  abbrev pub IsBlock : RemediationHorizon f → Type 0
  IsBlock h =
      All (λ a. a.horizon ≡ h.key) h.actions
      × IsDescending f h.actions
      × (h.total_actions ≡ length h.actions)

  horizon_block-IsBlock :
      (actions : List (RemediationAction f)) (key : Horizon) → IsBlock (horizon_block f actions key)
  unfolding horizon_block
  horizon_block-IsBlock actions key = (
    sort_actions-All f (λ a. a.horizon ≡ key) _
        (All-select (λ a. a.horizon ≡ key) (λ a. same_horizon a.horizon key) actions
          (λ a t. same_horizon-eq a.horizon key t)),
    sort_actions-IsDescending f (at_horizon f key actions),
    refl,
  )

  weight-horizon_block :
      (w : RemediationAction f → ℕ) (actions : List (RemediationAction f)) (key : Horizon)
      → weight f w (horizon_block f actions key).actions ≡ weight f w (at_horizon f key actions)
  unfolding horizon_block
  weight-horizon_block w actions key = weight-sort_actions f w (at_horizon f key actions)

  weight-horizon_blocks :
      (w : RemediationAction f → ℕ) (actions : List (RemediationAction f))
      → let block = λ (key : Horizon). weight f w (horizon_block f actions key).actions in
        block quick_wins + block short_term + block mid_term + block long_term ≡ weight f w actions
  weight-horizon_blocks w actions = omega (
    arith,
    weight-partition f w actions,
    weight-horizon_block w actions quick_wins,
    weight-horizon_block w actions short_term,
    weight-horizon_block w actions mid_term,
    weight-horizon_block w actions long_term,
  )

  lengths :
      (actions : List (RemediationAction f)) (key : Horizon)
      → (horizon_block f actions key).total_actions
        ≡ weight f (λ a. 1) (horizon_block f actions key).actions
  lengths actions key =
      (horizon_block-IsBlock actions key).2 ∙ weight-length f (horizon_block f actions key).actions

  -- For a user who may see the audit a plan is made: each block has the actions of its horizon, most
  -- frequent first. Of the non-compliant results of the audit that have a control, all are counted
  -- among the occurrences of the actions, and those of the controls of a reference among the actions
  -- for that reference; and there are as many actions as different controls of such results. (The
  -- rows of a control have its reference.)
  pub generate-counts :
      (audits : List Audit) (campaigns : List (PlanCampaign f)) (audit_id u : ℕ) (admin : Bool)
      (ref : ℕ → String) {audit : Audit}
      → check_owned_audit audits audit_id u admin ≡ ok audit
      → let controls = failing_controls f (select (λ c. c.audit_id == audit_id) campaigns) in
        IsReferenced f ref controls
        → Returns
            (λ p.
              All IsBlock p.horizons
              × (sum_of (map (λ h. weight f (λ a. a.occurrences) h.actions) p.horizons)
                  ≡ length controls)
              × ((s : String)
                  → sum_of (map (λ h. weight f (occurrences_of s) h.actions) p.horizons)
                    ≡ count_by (λ c. c.ref_id == s) controls)
              × (p.total_actions ≡ length (uniques [] (map (λ c. c.id) controls))))
            (generate f audits campaigns audit_id u admin)
  unfolding generate
  generate-counts audits campaigns audit_id u admin ref seen named =
      let here = select (λ c. c.audit_id == audit_id) campaigns in
      let entries = aggregate_campaigns f here [] in
      let told = campaigns-IsAggregate f ref here [] named tt in
      let actions = map (action_of f) entries in
      let block = horizon_block-IsBlock actions in
      rw seen (
        (block quick_wins, (block short_term, (block mid_term, (block long_term, tt)))),
        omega (
          arith,
          weight-horizon_blocks (λ a. a.occurrences) actions,
          occurrences-action_of entries,
          told.total,
        ),
        (λ s. omega (
          arith,
          weight-horizon_blocks (occurrences_of s) actions,
          occurrences_of-action_of s entries,
          told.each s,
        )),
        omega (
          arith,
          weight-horizon_blocks (λ a. 1) actions,
          weight_one-action_of entries,
          ap length told.ids,
          lengths actions quick_wins,
          lengths actions short_term,
          lengths actions mid_term,
          lengths actions long_term,
        ),
      )
