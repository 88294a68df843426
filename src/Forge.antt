-- ===== src/Forge.antt =====
-- The application layer of Forge (packages/forge-application): commands over a store.
pub mod Serialize
pub mod Store
pub mod Exec
pub mod Queries
pub mod Methods
pub mod Commands
pub mod Steps
pub mod Ensures
pub mod Service
pub mod Refinement
pub mod Invariant
pub mod Idempotency
pub mod Publishing
pub mod Approving
pub mod Execution
