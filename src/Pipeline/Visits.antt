-- ===== src/Pipeline/Visits.antt =====
-- What the second phase of a pipeline makes of one host.
use assistant_audit.Prelude.{
  ℕ, ◌+◌, ◌≡◌, ◌≢◌, refl, sym, ap, subst, ◌∙◌, Bool, true, false, Option, none, some, List, [], ◌∷◌,
  ◌++◌, ◌==◌, nat_eq, string_eq, length, length-append, first, first-none, first-append, first-snoc,
  All-map, IsDistinct, snoc-IsDistinct, if◌then◌else◌, arith, Option-cases, inl, inr, append-nil,
  ==-self,
}
use assistant_audit.Pipeline.Hosts.{NmapHost, CollectProfile, detect_collect_profile}
use assistant_audit.Pipeline.Rows.{SiteEquipement}
use assistant_audit.Pipeline.Phases.{Sweep, at_address, new_equipement, skip_host, register, visit}

abbrev pub same_address : SiteEquipement → SiteEquipement → Bool
same_address a b = at_address a.site_id a.ip_address b

same_address-flip : (a b : SiteEquipement) → same_address b a ≡ false → same_address a b ≡ false
same_address-flip a b h = ground (
  arith,
  string_eq.eqb_iff a.ip_address b.ip_address,
  string_eq.eqb_iff b.ip_address a.ip_address,
)

-- The profile of a host that is collected from.
abbrev pub wanted : NmapHost → Option CollectProfile
wanted host = if host.ip == "" then none else detect_collect_profile host

abbrev pub target_with :
    Option CollectProfile → Option SiteEquipement → Option (SiteEquipement × CollectProfile)
target_with none row = none
target_with (some profile) none = none
target_with (some profile) (some e) = some (e, profile)

-- The target for a host in a table of equipments.
abbrev pub target_of : ℕ → List SiteEquipement → NmapHost → Option (SiteEquipement × CollectProfile)
target_of site rows host = target_with (wanted host) (first (at_address site host.ip) rows)

abbrev pub option_cons {ℓ} : {A : Type ℓ} → Option A → List A → List A
option_cons none xs = xs
option_cons (some x) xs = x ∷ xs

abbrev pub targets_of :
    ℕ → List SiteEquipement → List NmapHost → List (SiteEquipement × CollectProfile)
targets_of site rows [] = []
targets_of site rows (host ∷ rest) =
    option_cons (target_of site rows host) (targets_of site rows rest)

pub visit-wanted :
    (host : NmapHost) (s : Sweep)
    → visit host s
      ≡ (elim (wanted host) [ none ↦ skip_host s | some profile ↦ register profile host s ])
unfolding visit
visit-wanted host s = swap (host.ip == "") (detect_collect_profile host)
  where
    swap :
        (b : Bool) (o : Option CollectProfile)
        → (elim o [ none ↦ skip_host s | some p ↦ if b then skip_host s else register p host s ])
          ≡ (elim (if b then none else o) [ none ↦ skip_host s | some p ↦ register p host s ])
    swap true none = refl
    swap true (some p) = refl
    swap false none = refl
    swap false (some p) = refl

pub target_of-unwanted :
    (site : ℕ) (rows : List SiteEquipement) (host : NmapHost)
    → wanted host ≡ none
    → target_of site rows host ≡ none
target_of-unwanted site rows host n =
    ap (λ o. target_with o (first (at_address site host.ip) rows)) n

pub target_of-found :
    (site : ℕ) (rows : List SiteEquipement) (host : NmapHost) {p : CollectProfile}
    {e : SiteEquipement}
    → wanted host ≡ some p
    → first (at_address site host.ip) rows ≡ some e
    → target_of site rows host ≡ some (e, p)
target_of-found site rows host {p} w e =
    ap (λ o. target_with o (first (at_address site host.ip) rows)) w ∙ ap (target_with (some p)) e

-- What one visit does to a sweep of a site.
pub record IsVisit (site : ℕ) (host : NmapHost) (s s' : Sweep) : Type 0 where
  pub same_site : s'.pipeline.site_id ≡ site
  pub extends :
      (q : SiteEquipement → Bool) (x : SiteEquipement)
      → first q s.equipements ≡ some x
      → first q s'.equipements ≡ some x
  pub targets : s'.targets ≡ s.targets ++ option_cons (target_of site s'.equipements host) []
  pub covers :
      (p : CollectProfile)
      → wanted host ≡ some p
      → first (at_address site host.ip) s'.equipements ≢ none
  pub counts :
      s'.pipeline.hosts_skipped + length s'.targets
      ≡ s.pipeline.hosts_skipped + length s.targets + 1
  pub made :
      s'.pipeline.equipments_created + length s.equipements
      ≡ s.pipeline.equipments_created + length s'.equipements
  pub distinct : IsDistinct same_address s.equipements → IsDistinct same_address s'.equipements

skip-IsVisit :
    (site : ℕ) (host : NmapHost) (s : Sweep)
    → s.pipeline.site_id ≡ site
    → wanted host ≡ none
    → IsVisit site host s (skip_host s)
skip-IsVisit site host s here n = record {
  same_site = here;
  extends = λ q x e. e;
  targets = unwanted;
  covers = λ p e. absurd (none_some n e);
  counts = omega arith;
  made = refl;
  distinct = λ h. h;
}
  where
    none_some : {o : Option CollectProfile} {p : CollectProfile} → o ≡ none → o ≡ some p → ⊥
    none_some a b = cc

    unwanted : s.targets ≡ s.targets ++ option_cons (target_of site s.equipements host) []
    unwanted = rw (target_of-unwanted site s.equipements host n) (sym (append-nil s.targets))

pub some-ne {ℓ} : {A : Type ℓ} {o : Option A} {a : A} → o ≡ some a → o ≢ none
some-ne a b = cc

register-IsVisit :
    (site : ℕ) (host : NmapHost) (s : Sweep) (p : CollectProfile)
    → s.pipeline.site_id ≡ site
    → wanted host ≡ some p
    → IsVisit site host s (register p host s)
unfolding register
register-IsVisit site host s p here w =
    elim (Option-cases (first (at_address s.pipeline.site_id host.ip) s.equipements)) [
      | inl free ↦ rw (free, register) (fresh free)
      | inr (e, found) ↦ rw (found, register) (again e found)
    ]
  where
    again :
        (e : SiteEquipement)
        → first (at_address s.pipeline.site_id host.ip) s.equipements ≡ some e
        → IsVisit site host s (record s { targets = s.targets ++ (e, p) ∷ [] })
    again e found =
        let there = subst (λ z. first (at_address z host.ip) s.equipements ≡ some e) here found in
        record {
          same_site = here;
          extends = λ q x k. k;
          targets = rw (target_of-found site s.equipements host w there) refl;
          covers = λ _ _. some-ne there;
          counts = omega (arith, length-append s.targets ((e, p) ∷ []));
          made = refl;
          distinct = λ h. h;
        }

    made_now : SiteEquipement
    made_now = new_equipement s.next_id s.pipeline.site_id p host

    fresh :
        first (at_address s.pipeline.site_id host.ip) s.equipements ≡ none
        → IsVisit site host s (record {
          pipeline = record s.pipeline { equipments_created = s.pipeline.equipments_created + 1 };
          equipements = s.equipements ++ made_now ∷ [];
          next_id = s.next_id + 1;
          targets = s.targets ++ (made_now, p) ∷ [];
        })
    fresh free =
        let misses = first-none _ s.equipements free in
        let there : first (at_address site host.ip) (s.equipements ++ made_now ∷ [])
            ≡ some made_now =
          subst (λ z. first (at_address z host.ip) (s.equipements ++ made_now ∷ []) ≡ some made_now)
            here
            (first-snoc (at_address s.pipeline.site_id host.ip) s.equipements made_now misses
              (rw (==-self s.pipeline.site_id, ==-self host.ip) refl)) in
        record {
          same_site = here;
          extends = λ q x k. first-append q s.equipements _ k;
          targets = rw (target_of-found site _ host w there) refl;
          covers = λ _ _. some-ne there;
          counts = omega (arith, length-append s.targets ((made_now, p) ∷ []));
          made = omega (arith, length-append s.equipements (made_now ∷ []));
          distinct = λ h.
              snoc-IsDistinct same_address s.equipements made_now h
                (All-map _ _ s.equipements (λ e n. same_address-flip e made_now n) misses);
        }

pub visit-IsVisit :
    (site : ℕ) (host : NmapHost) (s : Sweep)
    → s.pipeline.site_id ≡ site
    → IsVisit site host s (visit host s)
visit-IsVisit site host s here =
    subst (IsVisit site host s) (sym (visit-wanted host s)) (cases (wanted host) refl)
  where
    cases :
        (o : Option CollectProfile)
        → wanted host ≡ o
        → IsVisit site host s
            (elim o [ none ↦ skip_host s | some profile ↦ register profile host s ])
    cases none n = skip-IsVisit site host s here n
    cases (some p) w = register-IsVisit site host s p here w
