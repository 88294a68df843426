-- ===== src/Examples.antt =====
-- Concrete inputs on which the theorems are applied, and tests.
pub mod World
pub mod Service
pub mod Approving
pub mod Publishing
pub mod Execution
pub mod Store
pub mod History
pub mod Idempotency
pub mod Domain
pub mod Evolution
pub mod RateLimit
pub mod Events
pub mod Delivery
pub mod Scorecard
pub mod Review
