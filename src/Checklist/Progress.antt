-- ===== src/Checklist/Progress.antt =====
-- `get_progress`, and what its numbers say of an instance.
use assistant_audit.Prelude.{ℕ, ◌-◌, not, length, select, ◌==◌, nat_eq, first, ltb, if◌then◌else◌}
use assistant_audit.Errors.{not_found, Result, ok, ◌>>=◌, require}
use assistant_audit.Compliance.Float.{Float}
use assistant_audit.Checklist.Rows.{
  is_ok, nok, na, unchecked, response_status_eq, ChecklistDb, in_template,
}

pub record Progress : Type 0 where
  pub total_items : ℕ
  pub answered : ℕ
  pub ok_count : ℕ
  pub nok_count : ℕ
  pub na_count : ℕ
  pub unchecked_count : ℕ
  pub progress_percent : ℕ

module _ (f : Float) where
  open f use {of_ℕ, mul, div, round_0}

  -- `total_items - answered` is a subtraction of integers; it does not go below 0 on the tables
  -- that the calls of the service make (Checklist.Invariant).
  unfoldable pub get_progress : ChecklistDb → ℕ → Result Progress
  get_progress db instance_id = do
    i ← require (first (λ i. i.id == instance_id) db.instances) not_found
    let total_items = length (select (in_template db.sections i.template_id) db.items)
    let responses = select (λ r. r.instance_id == instance_id) db.responses
    let answered = length (select (λ r. not (r.status == unchecked)) responses)
    ok (record {
      total_items = total_items;
      answered = answered;
      ok_count = length (select (λ r. r.status == is_ok) responses);
      nok_count = length (select (λ r. r.status == nok) responses);
      na_count = length (select (λ r. r.status == na) responses);
      unchecked_count = total_items - answered;
      progress_percent =
          if ltb 0 total_items
          then round_0 (mul (div (of_ℕ answered) (of_ℕ total_items)) (of_ℕ 100))
          else 0;
    })
