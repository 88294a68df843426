-- ===== src/Examples/History.antt =====
-- What requests keep, from the store that a cancelled run has left.
use cyclewarden.Prelude.{
  ◌≡◌, refl, inr, List, [], ◌∷◌, ◌++◌, some, get, put, remove, empty, values, trim, utf16_length,
  get-put_self, get-empty, false, or_else,
}
use cyclewarden.Domain.Contracts.{Run, RunEvent, Publication}
use cyclewarden.Domain.Schemas.{is_record, parse_task, run_schema, event_schema}
use cyclewarden.Domain.RunLifecycle.{
  transition_run, can_transition, is_active_run_state, is_cancellable_run_state,
  evaluate_run_admission,
}
use cyclewarden.Forge.Serialize.{stable_serialize}
use cyclewarden.Forge.Store.{Store, init}
use cyclewarden.Forge.Exec.{◌>>=◌}
use cyclewarden.Forge.Queries.{
  get_task, get_task_workspace, get_run, list_active_runs, list_runs_for_task, get_events,
}
use cyclewarden.Forge.Methods.{
  save_task, save_run, append_event, random_uuid, current_time, request_hash, settle, replay,
  start_or_replay, execute_idempotent,
}
use cyclewarden.Forge.Commands.CreateTask.{create_task}
use cyclewarden.Forge.Commands.StartRun.{start_run, start_run_body}
use cyclewarden.Forge.Commands.CancelRun.{cancel_run, cancel_run_body, cancel_now}
use cyclewarden.Forge.Service.{Command, handle, serve}
use cyclewarden.Forge.Invariant.Parts.{IsValid}
use cyclewarden.Forge.Invariant.Preserved.{serve-IsValid, init-IsValid}
use cyclewarden.Forge.Invariant.Isolation.{closed_runs_kept, reviews_kept, events_kept}
use cyclewarden.Examples.World.{
  host, host-UniqueUuids, everyone, requests, start_input, run, review,
}

abbrev ended : Store
ended = serve host everyone requests init

ended-IsValid : IsValid host ended
ended-IsValid = serve-IsValid host everyone host-UniqueUuids requests init (init-IsValid host)

abbrev cancelled_run : Run
cancelled_run = or_else (get ended.runs "uu") run

cancelled_stored :
    (get ended.runs "uu" ≡ some cancelled_run) × (is_active_run_state cancelled_run.state ≡ false)
unfolding empty get put remove values trim utf16_length parse_task run_schema is_record event_schema
    transition_run can_transition is_active_run_state is_cancellable_run_state
    evaluate_run_admission stable_serialize ◌>>=◌ get_task get_task_workspace get_run
    list_active_runs list_runs_for_task get_events save_task save_run append_event random_uuid
    current_time request_hash settle replay start_or_replay execute_idempotent create_task start_run
    start_run_body cancel_run cancel_run_body cancel_now handle serve
cancelled_stored = (refl, refl)

abbrev again : List Command
again = Command.start start_input ∷ []

closed_runs_kept_example : get (serve host everyone again ended).runs "uu" ≡ some cancelled_run
closed_runs_kept_example =
    closed_runs_kept host everyone host-UniqueUuids again ended "uu" cancelled_run ended-IsValid
      (inr cancelled_stored.1, tt) cancelled_stored.0

events_kept_example :
    (later : List RunEvent) × (get_events "uu" (serve host everyone again ended)
      ≡ get_events "uu" ended ++ later)
events_kept_example = events_kept host everyone host-UniqueUuids again ended "uu" ended-IsValid

abbrev decided : Store
decided = record init { reviews = put empty "uu" review }

decided-IsValid : IsValid host decided
unfolding get_events
decided-IsValid = record {
  keyed = (init-IsValid host).keyed;
  fresh = (init-IsValid host).fresh;
  accepted = (init-IsValid host).accepted;
  single = (init-IsValid host).single;
  numbered = (init-IsValid host).numbered;
  reviewed = λ k p h. absurd (cc (get-empty {V = Publication} k));
}

reviews_kept_example : get (serve host everyone requests decided).reviews "uu" ≡ some review
reviews_kept_example =
    reviews_kept host everyone host-UniqueUuids requests decided "uu" review decided-IsValid
      (get-put_self empty "uu" review)
