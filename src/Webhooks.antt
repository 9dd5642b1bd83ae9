-- ===== src/Webhooks.antt =====
-- src/webhooks: the check of an inbound delivery.
pub mod Signature
pub mod Verifier
