-- ===== src/Events.antt =====
-- The events of live providers (packages/forge-application/src/events) and the redaction of secrets
-- (packages/forge-domain/src/security).
pub mod Redaction
pub mod Provider
pub mod Json
pub mod Normalizer
