-- ===== src/Evolution/ResearchReview.antt =====
-- packages/evolution-core/src/research-review.ts: the review of a research before its decision.
pub mod Records
pub mod Checks
pub mod Evaluating
pub mod Lists
pub mod Soundness
