-- ===== src/Notify.antt =====
-- backend/app/core/websocket_manager.py: the events for a user, which wait while the user's
-- websocket is away.
mod Channel
pub mod Bounded
pub mod Delivery
mod Tests
unfoldable pub use Channel.*
