-- ===== src/Domain.antt =====
-- The provider-neutral domain of Atoryn Forge (packages/forge-domain).
pub mod Contracts
pub mod Schemas
pub mod CompletionGate
pub mod Errors
pub mod RunLifecycle
pub mod Approval
