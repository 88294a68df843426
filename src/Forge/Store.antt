-- ===== src/Forge/Store.antt =====
-- The state of `InMemoryForgeStore` (packages/forge-application/src/store/in-memory-store.ts).
use cyclewarden.Prelude.{ℕ, Bool, Option, List, String, Dict, empty}
use cyclewarden.Domain.Contracts.{
  Task, Run, RunEvent, ApprovalRequest, ValidationResult, AcceptanceEvidence, ReviewDecision,
  Publication,
}
use cyclewarden.Domain.Schemas.{Formats}

-- What a command returns, and what its idempotency entry remembers.
pub data Outcome : Type 0 where
  run : Run → Outcome
  approval : ApprovalRequest → Outcome
  review : ReviewDecision → Run → Outcome
  publication : Publication → Outcome

-- `result` is `none` while the command runs: the promise is pending.
pub record IdempotencyEntry : Type 0 where
  pub request_hash : String
  pub result : Option Outcome

pub record Store : Type 0 where
  pub tasks : Dict Task
  pub task_workspaces : Dict String
  pub runs : Dict Run
  pub events : Dict (List RunEvent)
  pub approvals : Dict ApprovalRequest
  pub validations : Dict (List ValidationResult)
  pub evidence : Dict (List AcceptanceEvidence)
  pub evidence_versions : Dict ℕ
  pub reviews : Dict ReviewDecision
  pub publications : Dict Publication
  pub idempotency : Dict IdempotencyEntry
  -- How many random identifiers and clock readings have been taken: these are streams of `Host`.
  pub uuids_drawn : ℕ
  pub times_read : ℕ

abbrev pub init : Store
init = record {
  tasks = empty;
  task_workspaces = empty;
  runs = empty;
  events = empty;
  approvals = empty;
  validations = empty;
  evidence = empty;
  evidence_versions = empty;
  reviews = empty;
  publications = empty;
  idempotency = empty;
  uuids_drawn = 0;
  times_read = 0;
}

-- What the host supplies: `randomUUID()` and `new Date().toISOString()` as streams, SHA-256, the
-- order of `localeCompare`, and zod's string formats.
pub record Host : Type 0 where
  pub uuid : ℕ → String
  pub now : ℕ → String
  pub sha256 : String → String
  pub locale_le : String → String → Bool
  pub formats : Formats
