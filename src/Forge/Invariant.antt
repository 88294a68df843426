-- ===== src/Forge/Invariant.antt =====
-- What holds of the store between two requests.
pub mod Parts
pub mod Steps
pub mod Preserved
pub mod History
pub mod Isolation
