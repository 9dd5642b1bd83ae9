-- ===== src/Resilience.antt =====
-- src/resilience: what guards outbound HTTP calls.
pub mod Config
pub mod Circuit
pub mod Policy
pub mod Transport
pub mod Bulkhead
pub mod Registry
pub mod Compartment
