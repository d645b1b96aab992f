-- ===== src/Outbox.antt =====
-- The transactional outbox and the relay that drains it: src/services/outboxService.js and
-- src/workers/outboxRelay.js.
pub mod Defs
pub mod Relay
pub mod Backlog
pub mod Claims
pub mod Order
pub mod Delivery
pub mod Gap
pub mod Overtaken
pub mod Drain
pub mod Claimed
pub mod Passes
mod Examples
