-- ===== src/Examples/Publishing.antt =====
-- A publication of an approved run, and requests that are served while the provider is asked.
use cyclewarden.Prelude.{
  ◌≤◌, ◌≡◌, ◌≢◌, refl, sym, ap, subst, ◌∙◌, Bool, true, false, none, some, String, get, put, empty,
  get-put, get-empty, bit, count_values-put_new, count_values-empty, str_iff, string_eq, arith,
  Bool-cases, inl, inr, ◌==◌,
}
use cyclewarden.Domain.Contracts.{Run, RunState, ReviewDecision, Publication}
use cyclewarden.Domain.CompletionGate.{evaluate_completion_gate}
use cyclewarden.Domain.RunLifecycle.{transition_run, can_transition}
use cyclewarden.Domain.Schemas.{is_record, run_schema, event_schema}
use cyclewarden.Domain.Errors.{ok}
use cyclewarden.Forge.Store.{Store, init}
use cyclewarden.Forge.Exec.{◌>>=◌}
use cyclewarden.Forge.Queries.{
  get_run, get_validations, get_evidence, get_evidence_version, get_review, get_events,
  is_active_in,
}
use cyclewarden.Forge.Methods.{random_uuid, current_time, save_run, append_event}
use cyclewarden.Forge.Commands.PublishRun.{
  SourceChangeRequestResult, SourceChangeRequestStatus, begin_publication, finish_publication,
}
use cyclewarden.Forge.Service.{serve}
use cyclewarden.Forge.Invariant.Parts.{IsValid}
use cyclewarden.Forge.Ensures.{Ensures}
use cyclewarden.Forge.Approving.Published.{IsPublished}
use cyclewarden.Forge.Publishing.Undisturbed.{BySchema, publication_is_undisturbed}
use cyclewarden.Examples.World.{
  host, host-UniqueUuids, everyone, formats, run_in, review, publish_input, requests,
}

abbrev waiting : Run
waiting = run_in RunState.awaiting_review

abbrev approval : ReviewDecision
approval = record review { evidence_snapshot_version = 0 }

abbrev approved_store : Store
approved_store = record init {
  runs = put empty "uu" waiting;
  reviews = put empty "uu" approval;
  uuids_drawn = 2;
}

-- A dictionary of one run has that run only.
only_run : (id k : String) (one r : Run) → get (put empty id one) k ≡ some r → (id ≡ k) × (one ≡ r)
only_run id k one r h = elim (Bool-cases (id == k)) [
  | inl same ↦ ((str_iff id k).0 same, cc (rw (get-put, same) at h))
  | inr other ↦ absurd (cc (rw (get-put, other) at h, get-empty {V = Run} k))
]

no_other : (id k : String) (one : Run) → id ≢ k → get (put empty id one) k ≡ none
no_other id k one other =
    get-put empty id k one ∙ ground (arith, str_iff id k, get-empty {V = Run} k)

bit-le : (b : Bool) → bit b ≤ 1
bit-le true = omega arith
bit-le false = omega arith

approved_store-IsValid : IsValid host approved_store
unfolding get_events run_schema is_record
approved_store-IsValid = record {
  keyed = λ k r h.
      let (same, is_r) = only_run "uu" k waiting r h in ap (λ (q : Run). q.id) (sym is_r) ∙ same;
  fresh = λ i drawn.
      no_other "uu" (host.uuid i) waiting λ same. absurd (omega (arith, host-UniqueUuids 1 i same));
  accepted = λ k r h. subst (λ q. run_schema formats q ≡ true) (only_run "uu" k waiting r h).1 refl;
  single = λ w. omega (
    arith,
    count_values-put_new (is_active_in w) empty "uu" waiting (get-empty {V = Run} "uu"),
    count_values-empty {V = Run} (is_active_in w),
    bit-le (is_active_in w waiting),
  );
  numbered = λ k. rw get-empty tt;
  reviewed = λ k p h. absurd (cc (get-empty {V = Publication} k));
}

abbrev marked : Run
marked = record waiting {
  lifecycle = record (waiting.lifecycle) { state = RunState.publishing; version = 1 };
  working_branch = some "b";
  updated_at = "u";
}

abbrev asking_store : Store
asking_store = (begin_publication host publish_input approved_store).1

begun : begin_publication host publish_input approved_store ≡ (ok marked, asking_store)
unfolding begin_publication get_run get_validations get_evidence get_evidence_version get_review
    random_uuid current_time save_run append_event get_events ◌>>=◌ get put empty run_schema
    is_record event_schema evaluate_completion_gate transition_run can_transition
begun = refl

abbrev answer : SourceChangeRequestResult
answer = record {
  provider = "source";
  external_repository_id = "1";
  branch_name = "b";
  commit_sha = "0";
  change_request_id = some "1";
  change_request_url = none;
  status = SourceChangeRequestStatus.pr_created;
  failure_code = none;
}

-- A run is started, and this one cancelled, while the provider is asked.
publication_is_undisturbed_example :
    (get (serve host everyone requests asking_store).runs "uu" ≡ some marked)
    × IsValid host (serve host everyone requests asking_store)
    × Ensures BySchema
        (IsPublished "uu")
        (finish_publication host marked answer (serve host everyone requests asking_store))
publication_is_undisturbed_example =
    publication_is_undisturbed host everyone publish_input answer requests approved_store
      asking_store marked host-UniqueUuids approved_store-IsValid begun
