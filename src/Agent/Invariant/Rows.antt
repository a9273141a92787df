-- ===== src/Agent/Invariant/Rows.antt =====
-- The tables of agents and tasks before and after an operation.
use assistant_audit.Prelude.{
  ℕ, ◌≡◌, ◌≢◌, refl, sym, ◌∙◌, ap, subst, Bool, true, false, Option, some, List, [], ◌∷◌, ◌++◌,
  ◌==◌, nat_eq, nat_eqb_iff, nat_eqb-ne, first, first_head, update, All, All-first, All-append,
  All-update, All-map, if◌then◌else◌, Bool-cases, inl, inr,
}
use assistant_audit.Agent.Rows.{revoked, Agent, AgentTask, AgentDb}

-- What may not change in the row of an agent.
pub record Continues (a b : Agent) : Type 0 where
  pub same_id : a.id ≡ b.id
  pub same_owner : a.user_id ≡ b.user_id
  pub stays_revoked : a.status ≡ revoked → b.status ≡ revoked

pub Continues-refl : (a : Agent) → Continues a a
Continues-refl a = record { same_id = refl; same_owner = refl; stays_revoked = λ h. h }

Continues-trans : {a b c : Agent} → Continues a b → Continues b c → Continues a c
Continues-trans h k = record {
  same_id = h.same_id ∙ k.same_id;
  same_owner = h.same_owner ∙ k.same_owner;
  stays_revoked = λ r. k.stays_revoked (h.stays_revoked r);
}

-- Row by row, with new rows behind the old ones.
abbrev pub Evolves : List Agent → List Agent → Type 0
Evolves [] bs = Unit
Evolves (a ∷ rest) [] = ⊥
Evolves (a ∷ rest) (b ∷ bs) = Continues a b × Evolves rest bs

pub Evolves-refl : (agents : List Agent) → Evolves agents agents
Evolves-refl [] = tt
Evolves-refl (a ∷ rest) = (Continues-refl a, Evolves-refl rest)

pub Evolves-trans : (xs ys zs : List Agent) → Evolves xs ys → Evolves ys zs → Evolves xs zs
Evolves-trans [] ys zs h k = tt
Evolves-trans (x ∷ xs) [] zs h k = absurd h
Evolves-trans (x ∷ xs) (y ∷ ys) [] h k = absurd k
Evolves-trans (x ∷ xs) (y ∷ ys) (z ∷ zs) h k =
    (Continues-trans h.0 k.0, Evolves-trans xs ys zs h.1 k.1)

pub Evolves-append : (xs ys : List Agent) → Evolves xs (xs ++ ys)
Evolves-append [] ys = tt
Evolves-append (x ∷ xs) ys = (Continues-refl x, Evolves-append xs ys)

pub Evolves-update :
    (p : Agent → Bool) (f : Agent → Agent) (agents : List Agent)
    → All (λ a. p a ≡ true → Continues a (f a)) agents
    → Evolves agents (update p f agents)
Evolves-update p f [] h = tt
Evolves-update p f (a ∷ rest) h = elim (Bool-cases (p a)) [
  | inl t ↦ rw t (h.0 t, Evolves-update p f rest h.1)
  | inr n ↦ rw n (Continues-refl a, Evolves-update p f rest h.1)
]

abbrev pub agent_of_id : ℕ → List Agent → Option Agent
agent_of_id k agents = first (λ a. a.id == k) agents

-- A row that is found by its id is found again, and continues.
pub agent_of_id-Evolves :
    (k : ℕ) (xs ys : List Agent) {a : Agent}
    → Evolves xs ys
    → agent_of_id k xs ≡ some a
    → (b : Agent) × (agent_of_id k ys ≡ some b) × Continues a b
agent_of_id-Evolves k [] ys h e = cc
agent_of_id-Evolves k (x ∷ xs) [] h e = absurd h
agent_of_id-Evolves k (x ∷ xs) (y ∷ ys) {a} h e = elim (Bool-cases (x.id == k)) [
  | inl t ↦
      let xa : x ≡ a = first_head (λ z. z.id == k) x xs t e in
      (
        y,
        rw ((nat_eqb_iff y.id k).1 (sym h.0.same_id ∙ (nat_eqb_iff x.id k).0 t)) refl,
        subst (λ z. Continues z y) xa h.0,
      )
  | inr n ↦
      rw (ap (λ i. i == k) (sym h.0.same_id) ∙ n) (agent_of_id-Evolves k xs ys h.1 (rw n at e))
]

-- `id` is a primary key.
abbrev pub IsKeyed : List Agent → Type 0
IsKeyed [] = Unit
IsKeyed (a ∷ rest) = All (λ b. b.id ≢ a.id) rest × IsKeyed rest

same_id-if :
    (b : Bool) (f : Agent → Agent) (a : Agent)
    → ((x : Agent) → (f x).id ≡ x.id)
    → (if b then f a else a).id ≡ a.id
same_id-if true f a keep = keep a
same_id-if false f a keep = refl

pub IsKeyed-update :
    (p : Agent → Bool) (f : Agent → Agent) (agents : List Agent)
    → ((x : Agent) → (f x).id ≡ x.id)
    → IsKeyed agents
    → IsKeyed (update p f agents)
IsKeyed-update p f [] keep h = tt
IsKeyed-update p f (a ∷ rest) keep h = (
  subst (λ i. All (λ b. b.id ≢ i) (update p f rest)) (sym (same_id-if (p a) f a keep))
      (All-update (λ b. b.id ≢ a.id) p f rest (λ b t ne e. ne (sym (keep b) ∙ e)) h.0),
  IsKeyed-update p f rest keep h.1,
)

pub IsKeyed-append :
    (agents : List Agent) (a : Agent)
    → IsKeyed agents
    → All (λ b. a.id ≢ b.id) agents
    → IsKeyed (agents ++ a ∷ [])
IsKeyed-append [] a h new = (tt, tt)
IsKeyed-append (b ∷ rest) a h new =
    (All-append (λ c. c.id ≢ b.id) rest (a ∷ []) h.0 (new.0, tt), IsKeyed-append rest a h.1 new.1)

-- The rows under the id of a row that a query found are that row.
pub IsKeyed-first :
    (q : Agent → Bool) (agents : List Agent) {a : Agent}
    → IsKeyed agents
    → first q agents ≡ some a
    → All (λ x. x.id ≡ a.id → x ≡ a) agents
IsKeyed-first q [] h e = tt
IsKeyed-first q (x ∷ rest) {a} h e = elim (Bool-cases (q x)) [
  | inl t ↦
      let xa : x ≡ a = first_head q x rest t e in
      (
        (λ i. xa),
        All-map (λ b. b.id ≢ x.id) (λ b. b.id ≡ a.id → b ≡ a) rest
            (λ b ne i. absurd (ne (i ∙ ap (λ (z : Agent). z.id) (sym xa)))) h.0,
      )
  | inr n ↦ (
    (λ i. absurd (All-first (λ b. b.id ≢ x.id) q rest h.0 (rw n at e) (sym i))),
    IsKeyed-first q rest h.1 (rw n at e),
  )
]

-- The task's agent is there, and its owner owns the task.
abbrev pub IsOwned : List Agent → AgentTask → Type 0
IsOwned agents t = (a : Agent) × (agent_of_id t.agent_id agents ≡ some a) × (a.user_id ≡ t.owner_id)

pub IsOwned-Evolves :
    (xs ys : List Agent) (t : AgentTask) → Evolves xs ys → IsOwned xs t → IsOwned ys t
IsOwned-Evolves xs ys t h (a, found, own) =
    let (b, again, c) = agent_of_id-Evolves t.agent_id xs ys h found in
    (b, again, sym c.same_owner ∙ own)

-- What an operation keeps.
pub record Keeps (before after : AgentDb) : Type 0 where
  pub agents_evolve : Evolves before.agents after.agents
  pub keyed : IsKeyed before.agents → IsKeyed after.agents
  pub owned : All (IsOwned before.agents) before.tasks → All (IsOwned after.agents) after.tasks

pub All-Evolves :
    (xs ys : List Agent) (tasks : List AgentTask)
    → Evolves xs ys
    → All (IsOwned xs) tasks
    → All (IsOwned ys) tasks
All-Evolves xs ys tasks h = All-map (IsOwned xs) (IsOwned ys) tasks (λ t. IsOwned-Evolves xs ys t h)

-- A write to some tasks which leaves their agent and owner.
pub All-written :
    (xs : List Agent) (p : AgentTask → Bool) (f : AgentTask → AgentTask) (tasks : List AgentTask)
    → ((t : AgentTask) → ((f t).agent_id ≡ t.agent_id) × ((f t).owner_id ≡ t.owner_id))
    → All (IsOwned xs) tasks
    → All (IsOwned xs) (update p f tasks)
All-written xs p f tasks keep =
    All-update (IsOwned xs) p f tasks
      (λ t passed (a, found, own). (a, rw (keep t).0 found, own ∙ sym (keep t).1))

-- A write to the tasks alone.
pub tasks-Keeps :
    (db : AgentDb) (new : List AgentTask)
    → (All (IsOwned db.agents) db.tasks → All (IsOwned db.agents) new)
    → Keeps db (record db { tasks = new })
tasks-Keeps db new owned = record {
  agents_evolve = Evolves-refl db.agents;
  keyed = λ k. k;
  owned = owned;
}

-- Under its id, a row that a query found is the first.
pub IsKeyed-found :
    (q : Agent → Bool) (agents : List Agent) {a : Agent}
    → IsKeyed agents
    → first q agents ≡ some a
    → agent_of_id a.id agents ≡ some a
IsKeyed-found q [] h e = cc
IsKeyed-found q (x ∷ rest) {a} h e = elim (Bool-cases (q x)) [
  | inl t ↦
      let xa : x ≡ a = first_head q x rest t e in
      rw ((nat_eqb_iff x.id a.id).1 (ap (λ (z : Agent). z.id) xa)) (ap some xa)
  | inr n ↦
      rw (nat_eqb-ne x.id a.id (λ i. All-first (λ b. b.id ≢ x.id) q rest h.0 (rw n at e) (sym i)))
        (IsKeyed-found q rest h.1 (rw n at e))
]
