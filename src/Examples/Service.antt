-- ===== src/Examples/Service.antt =====
-- The service's theorems on a task that is created, started and cancelled.
use cyclewarden.Prelude.{
  ◌≡◌, refl, List, [], ◌∷◌, map, values, get, put, remove, empty, trim, utf16_length,
}
use cyclewarden.Domain.Contracts.{Run, RunState}
use cyclewarden.Domain.Schemas.{is_record, parse_task, run_schema, event_schema}
use cyclewarden.Domain.RunLifecycle.{
  transition_run, can_transition, is_active_run_state, is_cancellable_run_state,
  evaluate_run_admission,
}
use cyclewarden.Forge.Serialize.{stable_serialize}
use cyclewarden.Forge.Store.{Store, init}
use cyclewarden.Forge.Exec.{◌>>=◌}
use cyclewarden.Forge.Queries.{
  get_task, get_task_workspace, get_run, list_active_runs, list_runs_for_task, get_events,
}
use cyclewarden.Forge.Methods.{
  save_task, save_run, append_event, random_uuid, current_time, request_hash, settle, replay,
  start_or_replay, execute_idempotent,
}
use cyclewarden.Forge.Commands.CreateTask.{create_task}
use cyclewarden.Forge.Commands.StartRun.{start_run, start_run_body}
use cyclewarden.Forge.Commands.CancelRun.{cancel_run, cancel_run_body, cancel_now}
use cyclewarden.Forge.Service.{Command, handle, serve}
use cyclewarden.Forge.Invariant.Parts.{IsValid}
use cyclewarden.Forge.Invariant.Preserved.{serve-IsValid, init-IsValid, IsValid-IsCoherent}
use cyclewarden.Forge.Steps.{Reach}
use cyclewarden.Forge.Refinement.Commands.{handle-Reach}
use cyclewarden.Forge.Publishing.{publishing_is_stuck}
use cyclewarden.Forge.Commands.PublishRun.{publish_run_body}
use cyclewarden.Examples.World.{
  host, host-UniqueUuids, everyone, requests, normalizer, create_input, start_input, cancel_input,
  publish_input, unreachable, publishing_store, publishing_stored, run_in,
}

abbrev states : Store → List RunState
states s = map (λ (r : Run). r.state) (values s.runs)

states_after : states (serve host everyone requests init) ≡ RunState.cancelled ∷ []
unfolding empty get put remove values trim utf16_length parse_task run_schema is_record event_schema
    transition_run can_transition is_active_run_state is_cancellable_run_state
    evaluate_run_admission stable_serialize ◌>>=◌ get_task get_task_workspace get_run
    list_active_runs list_runs_for_task get_events save_task save_run append_event random_uuid
    current_time request_hash settle replay start_or_replay execute_idempotent create_task start_run
    start_run_body cancel_run cancel_run_body cancel_now handle serve
states_after = refl

serve-IsValid_example : IsValid host (serve host everyone requests init)
serve-IsValid_example =
    serve-IsValid host everyone host-UniqueUuids requests init (init-IsValid host)

abbrev started : Store
started =
    serve host everyone (Command.create normalizer create_input ∷ Command.start start_input ∷ [])
      init

started-IsValid : IsValid host started
started-IsValid =
    serve-IsValid host everyone host-UniqueUuids
      (Command.create normalizer create_input ∷ Command.start start_input ∷ []) init
      (init-IsValid host)

handle-Reach_example :
    Reach host "w" started (handle host everyone (Command.cancel cancel_input) started)
handle-Reach_example =
    handle-Reach host everyone (Command.cancel cancel_input) started
      (IsValid-IsCoherent host started started-IsValid)

-- Of a run that is stored as being published.
publishing_is_stuck_example :
    ((publish_run_body host unreachable publish_input publishing_store).1 ≡ publishing_store)
    × ((cancel_run_body host cancel_input publishing_store).1 ≡ publishing_store)
publishing_is_stuck_example =
    publishing_is_stuck host unreachable publish_input cancel_input publishing_store
      (run_in RunState.publishing) publishing_stored publishing_stored refl
