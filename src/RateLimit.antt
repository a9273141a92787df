-- ===== src/RateLimit.antt =====
-- backend/app/core/rate_limit.py: the attempts of each client address in a sliding window, and its
-- block when it makes too many. `time.time()` is an argument, a number of microseconds.
mod Limiter
pub mod Limited
pub mod Window
mod Tests
unfoldable pub use Limiter.*
