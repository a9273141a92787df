-- ===== src/Pipeline/Polling.antt =====
-- The polling of a task: a loop that sleeps, reads the task again and leaves when it has ended, is
-- gone, or when the time is over. A read of the clock and a read of the table are functions of the
-- turn; the agents change the table between two turns.
use assistant_audit.Prelude.{
  ℕ, zero, suc, ◌+◌, ◌*◌, ◌≤◌, ◌≢◌, Bool, Option, none, some, arith, ltb, if◌then◌else◌, Bool-cases,
  inl, inr, ltb-ge, true, false,
}

pub data Outcome {ℓ} (A : Type ℓ) : Type ℓ where
  gone timed_out : Outcome A
  ended : A → Outcome A

-- `time.monotonic()` in microseconds: before the loop, and at the test of each turn.
pub record Timer : Type 0 where
  pub start : ℕ
  pub check : ℕ → ℕ

-- `_SCAN_POLL_INTERVAL_SEC` and `_COLLECT_POLL_INTERVAL_SEC`
abbrev pub poll_interval : ℕ
poll_interval = 5000000

-- `time.sleep` returns no earlier than it is asked to, and the clock does not go back.
abbrev pub IsTicking : Timer → Type 0
IsTicking t =
    (t.start ≤ t.check 0) × ((turn : ℕ) → t.check turn + poll_interval ≤ t.check (suc turn))

-- One turn: `rest` is what the later turns give.
abbrev turn_of {ℓ} :
    {A : Type ℓ} → (A → Bool) → Bool → Option A → Option (Outcome A) → Option (Outcome A)
turn_of is_final false row rest = some timed_out
turn_of is_final true none rest = some gone
turn_of is_final true (some a) rest = if is_final a then some (ended a) else rest

turn_of-returns {ℓ} :
    {A : Type ℓ} (is_final : A → Bool) (b : Bool) (row : Option A) (rest : Option (Outcome A))
    → rest ≢ none
    → turn_of is_final b row rest ≢ none
turn_of-returns is_final false row rest h = λ e. cc
turn_of-returns is_final true none rest h = λ e. cc
turn_of-returns is_final true (some a) rest h = elim (Bool-cases (is_final a)) [
  | inl t ↦ rw t (λ e. cc)
  | inr n ↦ rw n h
]

module _ {ℓ} {A : Type ℓ} (is_final : A → Bool) (check : ℕ → ℕ) (read : ℕ → Option A)
    (deadline : ℕ) where
  -- `none`: the fuel is used up.
  unfoldable pub poll : ℕ → ℕ → Option (Outcome A)
  poll zero turn = none
  poll (suc fuel) turn =
      turn_of is_final (ltb (check turn) deadline) (read turn) (poll fuel (suc turn))

  -- One turn more than the intervals that fit before the deadline is fuel enough.
  pub poll-returns :
      (fuel turn : ℕ)
      → ((n : ℕ) → check n + poll_interval ≤ check (suc n))
      → deadline ≤ check turn + fuel * poll_interval
      → poll (suc fuel) turn ≢ none
  unfolding poll
  poll-returns zero turn ticks enough =
      rw (ltb-ge (check turn) deadline (omega (arith, enough))) (λ e. cc)
  poll-returns (suc fuel) turn ticks enough =
      turn_of-returns is_final (ltb (check turn) deadline) (read turn) _
        (poll-returns fuel (suc turn) ticks (omega (arith, enough, ticks turn)))
