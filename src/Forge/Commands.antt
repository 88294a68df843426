-- ===== src/Forge/Commands.antt =====
-- The commands of packages/forge-application/src, each on the store and behind an authorizer.
pub mod CreateTask
pub mod Authorizer
pub mod StartRun
pub mod CancelRun
pub mod NextIteration
pub mod AddInstruction
pub mod ResolveApproval
pub mod ResolveReview
pub mod PublishRun
