-- ===== src/RateLimit/Limiter.antt =====
-- `_RateLimiter`. An attempt that is refused raises HTTP 429 and still changes the limiter, so an
-- operation returns the limiter beside its result.
use assistant_audit.Prelude.{
  ℕ, ◌+◌, ◌*◌, String, Bool, true, false, Option, none, some, List, [], ◌∷◌, ◌++◌, length, select,
  ltb, leb, ◌==◌, string_eq, if◌then◌else◌,
}
use assistant_audit.Errors.{too_many_requests, Result, ok, err}

abbrev pub seconds : ℕ → ℕ
seconds n = n * 1000000

-- `_build_rate_limits`: a category.
pub record Limits : Type 0 where
  pub max_attempts : ℕ
  pub window_seconds : ℕ
  pub block_seconds : ℕ

-- The two dictionaries at one address: `_attempts[ip]`, a `defaultdict(list)`, and `_blocked.get(ip)`.
pub record Client : Type 0 where
  pub attempts : List ℕ
  pub blocked : Option ℕ

pub record Limiter : Type 0 where
  pub clients : String → Client
  pub last_cleanup : ℕ

abbrev pub no_client : Client
no_client = record { attempts = []; blocked = none }

-- `_RateLimiter(…)`
abbrev pub new_limiter : ℕ → Limiter
new_limiter now = record { clients = λ ip. no_client; last_cleanup = now }

-- `t > now - window_seconds`
abbrev pub is_recent : Limits → ℕ → ℕ → Bool
is_recent limits now t = ltb now (t + seconds limits.window_seconds)

-- What a cleanup makes of one address. An address without attempts reads as an empty list.
unfoldable pub purge : Limits → ℕ → Client → Client
purge limits now c = record {
  attempts = select (is_recent limits now) c.attempts;
  blocked = elim c.blocked [
    | none ↦ none
    | some until ↦ if ltb until now then none else some until
  ];
}

-- `_cleanup_locked`, with `CLEANUP_INTERVAL`
unfoldable pub cleanup : Limits → ℕ → Limiter → Limiter
unfolding purge
cleanup limits now s =
    if ltb now (s.last_cleanup + seconds 120)
    then s
    else record { clients = λ ip. purge limits now (s.clients ip); last_cleanup = now }

-- The part of `acquire_attempt` after the test for a block; the Boolean says whether it returns.
unfoldable pub admit : Limits → ℕ → Client → Client × Bool
admit limits now c =
    let recent = select (is_recent limits now) c.attempts in
    if leb limits.max_attempts (length recent)
    then (record { attempts = []; blocked = some (now + seconds limits.block_seconds) }, false)
    else (record c { attempts = recent ++ now ∷ [] }, true)

-- `int(until - now) > 0` asks for a whole second.
unfoldable pub attempt : Limits → ℕ → Client → Client × Bool
unfolding admit
attempt limits now c = elim c.blocked [
  | none ↦ admit limits now c
  | some until ↦
      if leb (now + seconds 1) until
      then (c, false)
      else admit limits now (record c { blocked = none })
]

abbrev pub write : String → Client → Limiter → Limiter
write ip c s = record s { clients = λ x. if x == ip then c else s.clients x }

unfoldable pub acquire_attempt : Limits → String → ℕ → Limiter → Limiter × Result (Unit {0})
unfolding cleanup attempt
acquire_attempt limits ip now s =
    let s' = cleanup limits now s in
    let r = attempt limits now (s'.clients ip) in
    (write ip r.0 s', if r.1 then ok tt else err too_many_requests)

unfoldable pub reset : String → Limiter → Limiter
reset ip s = write ip no_client s
