-- ===== src/Evolution/Scorecard.antt =====
-- packages/evolution-core/src/scorecard.ts.
pub mod Inputs
pub mod Coverage
pub mod Sections
pub mod Card
pub mod Blockers
pub mod Readiness
