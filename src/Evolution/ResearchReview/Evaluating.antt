-- ===== src/Evolution/ResearchReview/Evaluating.antt =====
-- packages/evolution-core/src/research-review.ts: `evaluatePreparedResearch` and `assertResearchReviewPassed`.
use cyclewarden.Prelude.{
  zero, suc, Json, bool, str, arr, obj, Items, nil, cons, field, end, ℕ, Bool, true, false, List,
  [], ◌∷◌, map, String, is_blank, trim, string_eq, if◌then◌else◌, ◌++ₛ◌,
}
use cyclewarden.Evolution.Stages.{unique}
use cyclewarden.Evolution.ResearchReview.Records.{
  PreparedResearchHandoff, ResearchReviewOptions, ResearchReviewCheck, Verdict, Evaluation,
  ResearchEvaluationRecord, Review, pass, verdict_text, reviewed, failed,
}
use cyclewarden.Evolution.ResearchReview.Checks.{
  failed_checks, join_with, limitations_of, review_checks, unresolved_ids, unsupported_claim_ids_of,
  verdict_of,
}

abbrev pub evaluation_of : PreparedResearchHandoff → ResearchReviewOptions → Evaluation
evaluation_of p options = record {
  researcher_actor = p.researcher;
  reviewer_actor = trim options.reviewer_actor;
  verdict = verdict_of options.run (review_checks p options);
  checks = review_checks p options;
  unsupported_claim_ids = unsupported_claim_ids_of p;
  unresolved_contradiction_ids = unresolved_ids p;
  stop_reason = options.run.stop_reason;
  limitations = limitations_of p;
}

abbrev pub text_items : List String → Items
text_items [] = nil
text_items (t ∷ ts) = cons (str t) (text_items ts)

abbrev pub check_items : List ResearchReviewCheck → Items
check_items [] = nil
check_items (c ∷ cs) =
    cons
      (obj (
        field "id" (str c.id) (
          field "passed" (bool c.passed) (
            field "summary" (str c.summary)
              (field "evidenceRefs" (arr (text_items c.evidence_refs)) end)))))
      (check_items cs)

-- The object of which the identifier is made, with the keys in their order.
abbrev pub identified_json : String → Evaluation → Json
identified_json cycle_id e = obj (
    field "kind" (str "research-evaluation") (
      field "cycleId" (str cycle_id) (
        field "payload"
          (obj (
            field "researcherActor" (str e.researcher_actor) (
              field "reviewerActor" (str e.reviewer_actor) (
                field "verdict" (str (verdict_text e.verdict)) (
                  field "checks" (arr (check_items e.checks)) (
                    field "unsupportedClaimIds" (arr (text_items e.unsupported_claim_ids)) (
                      field "unresolvedContradictionIds"
                        (arr (text_items e.unresolved_contradiction_ids))
                        (field "stopReason" (str e.stop_reason)
                          (field "limitations" (arr (text_items e.limitations)) end)))))))))
          end)))

-- The first characters of a text.
abbrev pub first_characters : ℕ → String → String
first_characters zero s = ""
first_characters (suc n) String.[] = ""
first_characters (suc n) (String.◌∷◌ x s) = String.◌∷◌ x (first_characters n s)

-- `digest_json` is SHA-256, in hexadecimal, of `JSON.stringify`.
module _ (digest_json : Json → String) where
  abbrev pub stable_id : String → Evaluation → String
  stable_id cycle_id e =
      "research-evaluation:" ++ₛ first_characters 24 (digest_json (identified_json cycle_id e))

  -- `evaluatePreparedResearch`
  unfoldable pub evaluate_prepared_research :
      PreparedResearchHandoff → ResearchReviewOptions → Review ResearchEvaluationRecord
  evaluate_prepared_research p options =
      if is_blank (trim options.reviewer_actor)
      then failed "reviewerActor is required"
      else reviewed (record {
        record_id = stable_id p.cycle_id (evaluation_of p options);
        cycle_id = p.cycle_id;
        actor = trim options.reviewer_actor;
        created_at = options.now;
        evidence_refs = unique options.evidence_refs;
        payload = evaluation_of p options;
      })

abbrev pub failure_text : ResearchEvaluationRecord → String
failure_text e =
    let failures : String =
      join_with ", " (map (λ (c : ResearchReviewCheck). c.id) (failed_checks e.checks)) in
    "research review "
    ++ₛ verdict_text e.verdict
    ++ₛ (if is_blank failures then "" else "; failed checks: " ++ₛ failures)

abbrev pub is_pass_verdict : Verdict → Bool
is_pass_verdict pass = true
is_pass_verdict _ = false

-- `assertResearchReviewPassed`
unfoldable pub assert_research_review_passed : ResearchEvaluationRecord → Review (Unit {0})
assert_research_review_passed e =
    if is_pass_verdict e.verdict then reviewed tt else failed (failure_text e)
