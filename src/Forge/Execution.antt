-- ===== src/Forge/Execution.antt =====
-- packages/forge-application/src/runs/execute-run.ts: the execution of a run by a sandbox and a coding
-- agent.
pub mod Providers
pub mod Frame
pub mod Requests
pub mod Attempt
pub mod Body
pub mod Held
pub mod Moves
pub mod Quiet
pub mod Parts
pub mod Phases
pub mod Ending
pub mod Service
pub mod Local
pub mod Evidence
pub mod Advancing
pub mod Overwriting
pub mod Cleanup
pub mod Created
