-- ===== src/Forge/Refinement.antt =====
-- Every command keeps to the steps of Forge/Steps.antt, whether it returns or throws.
pub mod Coherence
pub mod CancelRun
pub mod StartRun
pub mod NextIteration
pub mod ResolveApproval
pub mod ResolveReview
pub mod PublishRun
pub mod Commands
