-- ===== src/RateLimit/Tests.antt =====
-- The limiter at the settings of its categories.
use assistant_audit.Prelude.{◌≤◌, ◌≡◌, refl, List, [], ◌∷◌, arith}
use assistant_audit.RateLimit.Limiter.{seconds, Limits, new_limiter, acquire_attempt}
use assistant_audit.RateLimit.Limited.{in_window}
use assistant_audit.RateLimit.Window.{Call, attempt_by, accepted, accepted-bound}

abbrev auth : Limits
auth = record { max_attempts = 5; window_seconds = 60; block_seconds = 300 }

abbrev guesses : List Call
guesses = attempt_by "10.0.0.1" 1 ∷ attempt_by "10.0.0.2" 2 ∷ attempt_by "10.0.0.1" 3 ∷ []

accepted-bound_example : in_window auth 4 (accepted auth "10.0.0.1" (new_limiter 0) [] guesses) ≤ 5
accepted-bound_example =
    accepted-bound auth "10.0.0.1" 0 guesses (omega arith)
      (omega arith, (omega arith, (omega arith, tt))) 4 (omega arith)

-- A block of 30 seconds is over before the window of 60 is, as in the category "public": twice the
-- maximum, here 2, is accepted within a minute.
abbrev short_block : Limits
short_block = record { max_attempts = 2; window_seconds = 60; block_seconds = 30 }

abbrev burst : List Call
burst =
    attempt_by "a" (seconds 1)
    ∷ attempt_by "a" (seconds 2)
    ∷ attempt_by "a" (seconds 3)
    ∷ attempt_by "a" (seconds 34)
    ∷ attempt_by "a" (seconds 35)
    ∷ []

over_rate :
    in_window short_block (seconds 36) (accepted short_block "a" (new_limiter 0) [] burst) ≡ 4
unfolding acquire_attempt
over_rate = refl
