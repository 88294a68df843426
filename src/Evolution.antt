-- ===== src/Evolution.antt =====
-- packages/evolution-core/src: cycles of self-improvement.
pub mod Types
pub mod Policy
pub mod Errors
pub mod Research
pub mod Stages
pub mod Cycle
pub mod Delivery
pub mod Scorecard
pub mod ResearchReview
