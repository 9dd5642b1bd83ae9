-- ===== src/Sse.antt =====
-- src/sse: server-sent events.
pub mod Event
pub mod Hub
