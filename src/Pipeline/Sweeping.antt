-- ===== src/Pipeline/Sweeping.antt =====
-- What the second phase of a pipeline makes of the hosts: one equipment at each address, and the
-- targets of the collects in the order of the hosts.
use assistant_audit.Prelude.{
  ℕ, ◌+◌, ◌≡◌, ◌≢◌, refl, sym, ap, subst, ◌∙◌, Bool, Option, none, some, List, [], ◌∷◌, ◌++◌,
  nat_eq, string_eq, length, first, All, All-map, IsDistinct, arith, Option-cases, inl, inr,
  append_assoc, append-nil,
}
use assistant_audit.Pipeline.Hosts.{NmapHost, CollectProfile}
use assistant_audit.Pipeline.Rows.{CollectPipeline, SiteEquipement}
use assistant_audit.Pipeline.Phases.{
  Sweep, at_address, skip_host, register, visit, visit_all, start_at, run_equipments_phase,
}
use assistant_audit.Pipeline.Visits.{
  same_address, wanted, target_of, option_cons, targets_of, visit-wanted, target_of-unwanted,
  target_of-found, visit-IsVisit, some-ne,
}

-- A longer table gives the same target for a host that is covered.
target_of-extends :
    (site : ℕ) (rows rows' : List SiteEquipement) (host : NmapHost)
    → ((p : CollectProfile) → wanted host ≡ some p → first (at_address site host.ip) rows ≢ none)
    → ((x : SiteEquipement)
        → first (at_address site host.ip) rows ≡ some x
        → first (at_address site host.ip) rows' ≡ some x)
    → target_of site rows host ≡ target_of site rows' host
target_of-extends site rows rows' host covers extends = elim (Option-cases (wanted host)) [
  | inl n ↦ target_of-unwanted site rows host n ∙ sym (target_of-unwanted site rows' host n)
  | inr (p, w) ↦ elim (Option-cases (first (at_address site host.ip) rows)) [
    | inl n ↦ absurd (covers p w n)
    | inr (e, found) ↦
        target_of-found site rows host w found
        ∙ sym (target_of-found site rows' host w (extends e found))
  ]
]

joined {ℓ} :
    {A : Type ℓ} {whole part : List A} (before rest : List A) {o o' : Option A}
    → part ≡ before ++ option_cons o []
    → whole ≡ part ++ rest
    → o ≡ o'
    → whole ≡ before ++ option_cons o' rest
joined {A = A} before rest {o} h k e =
    k ∙ ap (λ z. z ++ rest) h ∙ split o ∙ ap (λ z. before ++ option_cons z rest) e
  where
    split : (o : Option A) → (before ++ option_cons o []) ++ rest ≡ before ++ option_cons o rest
    split none = ap (λ z. z ++ rest) (append-nil before)
    split (some x) = append_assoc before (x ∷ []) rest

-- What a whole sweep does.
pub record IsSweep (site : ℕ) (hosts : List NmapHost) (s s' : Sweep) : Type 0 where
  pub extends :
      (q : SiteEquipement → Bool) (x : SiteEquipement)
      → first q s.equipements ≡ some x
      → first q s'.equipements ≡ some x
  pub targets : s'.targets ≡ s.targets ++ targets_of site s'.equipements hosts
  pub covers :
      All
        (λ h.
          (p : CollectProfile)
          → wanted h ≡ some p
          → first (at_address site h.ip) s'.equipements ≢ none)
        hosts
  pub counts :
      s'.pipeline.hosts_skipped + length s'.targets
      ≡ s.pipeline.hosts_skipped + length s.targets + length hosts
  pub made :
      s'.pipeline.equipments_created + length s.equipements
      ≡ s.pipeline.equipments_created + length s'.equipements
  pub distinct : IsDistinct same_address s.equipements → IsDistinct same_address s'.equipements

pub visit_all-IsSweep :
    (site : ℕ) (hosts : List NmapHost) (s : Sweep)
    → s.pipeline.site_id ≡ site
    → IsSweep site hosts s (visit_all hosts s)
unfolding visit_all
visit_all-IsSweep site [] s here = record {
  extends = λ q x e. e;
  targets = sym (append-nil s.targets);
  covers = tt;
  counts = omega arith;
  made = refl;
  distinct = λ h. h;
}
visit_all-IsSweep site (host ∷ rest) s here =
    let one = visit-IsVisit site host s here in
    let more = visit_all-IsSweep site rest (visit host s) one.same_site in
    record {
      extends = λ q x e. more.extends q x (one.extends q x e);
      targets =
          joined s.targets (targets_of site (visit_all rest (visit host s)).equipements rest)
            one.targets more.targets
            (target_of-extends site (visit host s).equipements _ host one.covers
              (λ x e. more.extends (at_address site host.ip) x e));
      covers = (
        λ p w. kept (one.covers p w) (λ x e. more.extends (at_address site host.ip) x e),
        more.covers,
      );
      counts = omega (arith, one.counts, more.counts);
      made = omega (arith, one.made, more.made);
      distinct = λ h. more.distinct (one.distinct h);
    }
  where
    kept :
        {a b : Option SiteEquipement}
        → a ≢ none
        → ((x : SiteEquipement) → a ≡ some x → b ≡ some x)
        → b ≢ none
    kept {a = none} h e = absurd (h refl)
    kept {a = some x} h e = some-ne (e x refl)

-- A visit to a host whose address has its equipment.
visit-settled :
    (site : ℕ) (host : NmapHost) (s : Sweep)
    → s.pipeline.site_id ≡ site
    → ((p : CollectProfile)
        → wanted host ≡ some p
        → first (at_address site host.ip) s.equipements ≢ none)
    → ((visit host s).equipements ≡ s.equipements)
      × ((visit host s).pipeline.equipments_created ≡ s.pipeline.equipments_created)
unfolding register
visit-settled site host s here covers =
    subst P (sym (visit-wanted host s)) (cases (wanted host) refl)
  where
    P : Sweep → Type 0
    P s' =
        (s'.equipements ≡ s.equipements)
        × (s'.pipeline.equipments_created ≡ s.pipeline.equipments_created)

    registered : (p : CollectProfile) → wanted host ≡ some p → P (register p host s)
    registered p w =
        elim (Option-cases (first (at_address s.pipeline.site_id host.ip) s.equipements)) [
          | inl free ↦ absurd (
              covers p w (subst (λ z. first (at_address z host.ip) s.equipements ≡ none) here free))
          | inr (e, found) ↦ rw (found, register) (refl, refl)
        ]

    cases :
        (o : Option CollectProfile)
        → wanted host ≡ o
        → P (elim o [ none ↦ skip_host s | some profile ↦ register profile host s ])
    cases none n = (refl, refl)
    cases (some p) w = registered p w

visit_all-settled :
    (site : ℕ) (hosts : List NmapHost) (s : Sweep)
    → s.pipeline.site_id ≡ site
    → All
        (λ h.
          (p : CollectProfile)
          → wanted h ≡ some p
          → first (at_address site h.ip) s.equipements ≢ none)
        hosts
    → ((visit_all hosts s).equipements ≡ s.equipements)
      × ((visit_all hosts s).pipeline.equipments_created ≡ s.pipeline.equipments_created)
unfolding visit_all
visit_all-settled site [] s here h = (refl, refl)
visit_all-settled site (host ∷ rest) s here h =
    let one = visit-settled site host s here h.0 in
    let more =
      visit_all-settled site rest (visit host s) (visit-IsVisit site host s here).same_site (
        All-map _ _ rest
          (λ x k p w. subst (λ rows. first (at_address site x.ip) rows ≢ none) (sym one.0) (k p w))
          h.1) in
    (more.0 ∙ one.0, more.1 ∙ one.1)

-- The second phase, from a table without two equipments at an address of a site. Its targets are
-- the equipments at the addresses of the hosts with a profile, in the order of the hosts; each host
-- is a target or is skipped; the created equipments are those that the table has more; no two
-- equipments are at one address. Another run for the same hosts, by any pipeline of the site,
-- creates nothing and has the same targets.
pub run_equipments_phase-targets :
    (first_id later_id : ℕ) (p p' : CollectPipeline) (rows : List SiteEquipement)
    (hosts : List NmapHost)
    → IsDistinct same_address rows
    → p'.site_id ≡ p.site_id
    → let s = run_equipments_phase first_id p rows hosts in
      let s' = run_equipments_phase later_id p' s.equipements hosts in
      (s.targets ≡ targets_of p.site_id s.equipements hosts)
      × (s.pipeline.hosts_skipped + s.pipeline.collects_total ≡ p.hosts_skipped + length hosts)
      × (s.pipeline.equipments_created + length rows ≡ p.equipments_created + length s.equipements)
      × IsDistinct same_address s.equipements
      × (s'.equipements ≡ s.equipements)
      × (s'.pipeline.equipments_created ≡ p'.equipments_created)
      × (s'.targets ≡ s.targets)
unfolding run_equipments_phase
run_equipments_phase-targets first_id later_id p p' rows hosts distinct same =
    let swept = visit_all-IsSweep p.site_id hosts (start_at first_id p rows) refl in
    let rows' = (visit_all hosts (start_at first_id p rows)).equipements in
    let settled =
      visit_all-settled p.site_id hosts (start_at later_id p' rows') same swept.covers in
    let again = visit_all-IsSweep p.site_id hosts (start_at later_id p' rows') same in
    (
      swept.targets,
      omega (arith, swept.counts),
      swept.made,
      swept.distinct distinct,
      settled.0,
      settled.1,
      again.targets ∙ ap (λ t. targets_of p.site_id t hosts) settled.0 ∙ sym swept.targets,
    )
