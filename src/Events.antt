-- ===== src/Events.antt =====
-- The publish/subscribe bus of realtime updates: internal/events.
pub mod Bus
pub mod Topics
mod Tests
