-- ===== src/Tests.antt =====
-- Runs at concrete inputs, by component.
pub mod Circuit
pub mod Slots
pub mod Bulkhead
pub mod Compartment
pub mod Transport
pub mod Lock
pub mod RateLimit
pub mod Rooms
pub mod TtlCache
pub mod Auth
pub mod Sse
pub mod Streams
pub mod Hub
pub mod Kafka
pub mod Webhooks
pub mod Idempotency
