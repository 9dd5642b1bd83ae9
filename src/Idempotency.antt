-- ===== src/Idempotency.antt =====
-- Idempotency keys: src/idempotency/base.py, the store of src/idempotency/memory.py and the
-- middleware of src/middleware/idempotency.py.
pub mod Base
pub mod Memory
pub mod Buffer
pub mod Capture
pub mod Middleware
pub mod System
pub mod Records
pub mod Running
pub mod Answers
pub mod Exclusive
pub mod Protected
pub mod Retries
pub mod Served
pub mod Replays
