-- ===== src/Forge/Commands/Authorizer.antt =====
-- packages/forge-application/src/auth/workspace-authorizer.ts.
use cyclewarden.Prelude.{not, List, String, contains, string_eq, if◌then◌else◌, ◌++ₛ◌}
use cyclewarden.Domain.Errors.{Result, ok, throw, unauthorized}

-- `assertCanAccess`: from a workspace and a user.
abbrev pub WorkspaceAuthorizer : Type 0
WorkspaceAuthorizer = String → String → Result (Unit {0})

-- `StaticWorkspaceAuthorizer`, over the set of allowed keys.
unfoldable pub static_authorizer : List String → WorkspaceAuthorizer
static_authorizer allowed workspace_id user_id =
    if not (contains (workspace_id ++ₛ ":" ++ₛ user_id) allowed) then throw unauthorized else ok tt
