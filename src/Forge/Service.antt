-- ===== src/Forge/Service.antt =====
-- The application's commands as one service: requests are handled one after the other, and an error
-- ends only its own request.
use cyclewarden.Prelude.{List, [], ◌∷◌, String}
use cyclewarden.Forge.Store.{Store, Host}
use cyclewarden.Forge.Commands.Authorizer.{WorkspaceAuthorizer}
use cyclewarden.Forge.Commands.CreateTask.{TaskNormalizer, CreateTaskInput, create_task}
use cyclewarden.Forge.Commands.StartRun.{StartRunInput, start_run}
use cyclewarden.Forge.Commands.CancelRun.{CancelRunInput, cancel_run}
use cyclewarden.Forge.Commands.NextIteration.{NextIterationInput, create_next_run_iteration}
use cyclewarden.Forge.Commands.AddInstruction.{AddInstructionInput, add_instruction}
use cyclewarden.Forge.Commands.ResolveApproval.{ResolveApprovalInput, resolve_approval}
use cyclewarden.Forge.Commands.ResolveReview.{ResolveReviewInput, resolve_review}
use cyclewarden.Forge.Commands.PublishRun.{PublishRunInput, SourceProvider, publish_run}

pub data Command : Type 0 where
  create : TaskNormalizer → CreateTaskInput → Command
  start : StartRunInput → Command
  cancel : CancelRunInput → Command
  iterate : NextIterationInput → Command
  instruct : AddInstructionInput → Command
  approve : ResolveApprovalInput → Command
  review : ResolveReviewInput → Command
  publish : SourceProvider → PublishRunInput → Command

-- The workspace in whose name a command acts.
abbrev pub workspace_of : Command → String
workspace_of (create n i) = i.workspace_id
workspace_of (start i) = i.workspace_id
workspace_of (cancel i) = i.workspace_id
workspace_of (iterate i) = i.workspace_id
workspace_of (instruct i) = i.workspace_id
workspace_of (approve i) = i.workspace_id
workspace_of (review i) = i.workspace_id
workspace_of (publish p i) = i.workspace_id

module _ (host : Host) (authorizer : WorkspaceAuthorizer) where
  -- The store that a command leaves, whether it returned or threw.
  unfoldable pub handle : Command → Store → Store
  handle (create n i) s = (create_task host authorizer n i s).1
  handle (start i) s = (start_run host authorizer i s).1
  handle (cancel i) s = (cancel_run host authorizer i s).1
  handle (iterate i) s = (create_next_run_iteration host authorizer i s).1
  handle (instruct i) s = (add_instruction host authorizer i s).1
  handle (approve i) s = (resolve_approval host authorizer i s).1
  handle (review i) s = (resolve_review host authorizer i s).1
  handle (publish p i) s = (publish_run host authorizer p i s).1

  unfoldable pub serve : List Command → Store → Store
  serve [] s = s
  serve (c ∷ cs) s = serve cs (handle c s)
