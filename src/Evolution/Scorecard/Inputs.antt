-- ===== src/Evolution/Scorecard/Inputs.antt =====
-- What a scorecard is made of: of a snapshot (packages/evolution-core/src/repository.ts) and of a report of
-- checks (packages/evolution-core/src/check-runner.ts) the fields that it reads.
use cyclewarden.Prelude.{ℕ, Bool, Option, List, [], ◌∷◌, String, nat_beq, ◌+◌, if◌then◌else◌}

pub record Git : Type 0 where
  pub detected : Bool
  pub commit : Option String
  pub dirty : Option Bool

pub record RepositoryCheck : Type 0 where
  pub name : String
  pub command : String
  pub source : String

pub data BoundaryKind : Type 0 where
  authentication database deployment secrets payments : BoundaryKind

abbrev pub boundary_text : BoundaryKind → String
boundary_text authentication = "authentication"
boundary_text database = "database"
boundary_text deployment = "deployment"
boundary_text secrets = "secrets"
boundary_text payments = "payments"

pub record RepositoryTrustBoundary : Type 0 where
  pub kind : BoundaryKind
  pub evidence_paths : List String
  pub reason : String

pub record Inventory : Type 0 where
  pub files_observed : ℕ
  pub truncated : Bool

pub record ProjectSnapshot : Type 0 where
  pub project_name : String
  pub git : Git
  pub checks : List RepositoryCheck
  pub ci : List String
  pub documentation : List String
  pub product_signals : List String
  pub trust_boundaries : List RepositoryTrustBoundary
  pub inventory : Inventory

pub data CheckResultStatus : Type 0 where
  passed failed timed_out unavailable : CheckResultStatus

abbrev pub result_text : CheckResultStatus → String
result_text passed = "passed"
result_text failed = "failed"
result_text timed_out = "timed-out"
result_text unavailable = "unavailable"

pub record CheckResult : Type 0 where
  pub name : String
  pub source : String
  pub status : CheckResultStatus

pub record CheckSummary : Type 0 where
  pub passed : ℕ
  pub failed : ℕ
  pub timed_out : ℕ
  pub unavailable : ℕ

pub record CheckReport : Type 0 where
  pub results : List CheckResult
  pub summary : CheckSummary

abbrev pub result_rank : CheckResultStatus → ℕ
result_rank passed = 0
result_rank failed = 1
result_rank timed_out = 2
result_rank unavailable = 3

-- `results.filter((result) => result.status === status).length`
abbrev pub count_status : CheckResultStatus → List CheckResult → ℕ
count_status status [] = 0
count_status status (r ∷ rs) =
    (if nat_beq (result_rank r.status) (result_rank status) then 1 else 0) + count_status status rs

-- The summary that `runDiscoveredChecks` makes of its results.
abbrev pub summarize : List CheckResult → CheckSummary
summarize results = record {
  passed = count_status CheckResultStatus.passed results;
  failed = count_status CheckResultStatus.failed results;
  timed_out = count_status CheckResultStatus.timed_out results;
  unavailable = count_status CheckResultStatus.unavailable results;
}
