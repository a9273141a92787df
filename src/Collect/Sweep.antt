-- ===== src/Collect/Sweep.antt =====
-- `_sync_collect_sweep` of backend/app/core/collect_sweeper.py: the collects that no agent answered
-- in time fail. Times are in microseconds; `timeout` is `COLLECT_TIMEOUT_SECONDS` in them.
use assistant_audit.Prelude.{
  ℕ, ◌+◌, ◌-◌, ◌/◌, ◌≡◌, refl, String, Bool, true, false, ◌&&◌, &&-both, Option, none, some, List,
  [], ◌∷◌, ◌==◌, nat_eq, length, ltb, first, select, update, count_by, count_by-update,
  length-update, All, All-written_or_not, All-always, update-none, select-none,
}
use assistant_audit.Collect.Rows.{CollectStatus, running, success, failed}

-- The columns of `CollectResult` that the sweep reads and writes.
pub record CollectRow : Type 0 where
  pub id : ℕ
  pub status : CollectStatus
  pub error_message : Option String
  pub agent_task_id : Option ℕ
  pub created_at : ℕ
  pub completed_at : Option ℕ
  pub duration_seconds : Option ℕ

-- The columns of `AgentTask`.
pub record TaskOwner : Type 0 where
  pub id : ℕ
  pub owner_id : ℕ

abbrev pub status_running : CollectStatus → Bool
status_running running = true
status_running success = false
status_running failed = false

abbrev pub status_failed : CollectStatus → Bool
status_failed running = false
status_failed success = false
status_failed failed = true

-- `created_at < now - timeout`
abbrev pub is_overdue : ℕ → ℕ → CollectRow → Bool
is_overdue now timeout c = status_running c.status && ltb (c.created_at + timeout) now

-- `max(0, int(seconds))` is a subtraction that stops at 0.
abbrev pub expire : ℕ → CollectRow → CollectRow
expire now c = record c {
  status = failed;
  error_message = some "Timeout de la collecte agent";
  completed_at = some now;
  duration_seconds = some ((now - c.created_at) / 1000000);
}

-- The owner of the collect's task, where it has one.
abbrev pub task_owner_of : List TaskOwner → CollectRow → Option ℕ
task_owner_of tasks c = elim c.agent_task_id [
  | none ↦ none
  | some id ↦ elim (first (λ t. t.id == id) tasks) [ none ↦ none | some t ↦ some t.owner_id ]
]

-- The notifications: the owner and the id of the collect.
abbrev pub notifications : List TaskOwner → List CollectRow → List (ℕ × ℕ)
notifications tasks [] = []
notifications tasks (c ∷ cs) = elim (task_owner_of tasks c) [
  | none ↦ notifications tasks cs
  | some owner ↦ (owner, c.id) ∷ notifications tasks cs
]

unfoldable pub sync_collect_sweep :
    List TaskOwner → ℕ → ℕ → List CollectRow → List CollectRow × List (ℕ × ℕ)
sync_collect_sweep tasks now timeout collects = (
  update (is_overdue now timeout) (expire now) collects,
  notifications tasks (select (is_overdue now timeout) collects),
)

still_running :
    (now timeout : ℕ) (c : CollectRow) → is_overdue now timeout c ≡ true → c.status ≡ running
still_running now timeout c h = by c.status (&&-both (status_running c.status) _ h).0
  where
    by : (s : CollectStatus) → status_running s ≡ true → s ≡ running
    by running t = refl
    by success t = cc
    by failed t = cc

-- After a sweep no collect that still runs is older than the timeout; as many have failed in
-- addition as were stale, and no row is added or lost. A second sweep at the same time changes
-- nothing and notifies nobody.
pub sync_collect_sweep-expires :
    (tasks : List TaskOwner) (now timeout : ℕ) (collects : List CollectRow)
    → let swept = sync_collect_sweep tasks now timeout collects in
      All (λ c. is_overdue now timeout c ≡ false) swept.0
      × (count_by (λ c. status_failed c.status) swept.0
          ≡ count_by (λ c. status_failed c.status) collects
            + length (select (is_overdue now timeout) collects))
      × (length swept.0 ≡ length collects)
      × (sync_collect_sweep tasks now timeout swept.0 ≡ (swept.0, []))
unfolding sync_collect_sweep
sync_collect_sweep-expires tasks now timeout collects =
    let fresh =
      All-written_or_not (λ c. is_overdue now timeout c ≡ false) (is_overdue now timeout)
        (expire now) collects (λ c _. refl) (All-always _ collects (λ c n. n)) in
    (
      fresh,
      count_by-update (λ c. status_failed c.status) (is_overdue now timeout) (expire now) collects
          (λ c t. (rw (still_running now timeout c t) refl, refl)),
      length-update (is_overdue now timeout) (expire now) collects,
      rw
          (
            sync_collect_sweep,
            update-none (is_overdue now timeout) (expire now) _ fresh,
            select-none (is_overdue now timeout) _ fresh,
          )
          refl,
    )
