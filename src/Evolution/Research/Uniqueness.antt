-- ===== src/Evolution/Research/Uniqueness.antt =====
-- What merging does to the records and their identifiers.
use cyclewarden.Prelude.{
  ◌+◌, ◌≤◌, ◌≡◌, sym, ap, ◌∙◌, Option, ◌++◌, String, string_eq, inl, inr, arith,
}
use cyclewarden.Evolution.Types.{ResearchBucket, EvolutionResearchRecords}
use cyclewarden.Evolution.Errors.{
  EvolutionError, accepted, refused, duplicate_record_id, bind-accepted, bind-refused,
}
use cyclewarden.Evolution.Research.{
  research_buckets, research_eq, Merging, merge_buckets, current_records, merge_research_records,
}
use cyclewarden.Evolution.Research.Distinct.{occurrences, occurrences-append, AreDistinct}
use cyclewarden.Evolution.Research.Merged.{
  all_ids, from_all, occurrences-merged, merge_buckets-Merged, merge_buckets-duplicate,
}

-- A merge that succeeds appends to each bucket the records that were given for it, and where the
-- identifiers of the records before were distinct, those of all records after it are.
pub merge_research_records_distinct :
    (current : Option EvolutionResearchRecords) (additions next : EvolutionResearchRecords)
    → AreDistinct (all_ids (current_records current))
    → merge_research_records current additions ≡ accepted next
    → ((bucket : ResearchBucket) → next bucket ≡ current_records current bucket ++ additions bucket)
      × AreDistinct (all_ids next)
unfolding merge_research_records
merge_research_records_distinct current additions next d h =
    let old = current_records current in
    let start : Merging = record { next = old; seen = all_ids old } in
    let (m, k, e) =
      bind-accepted (merge_buckets additions research_buckets start) (λ t. accepted t.next) next
        h in
    let merged = merge_buckets-Merged additions research_buckets start m d k in
    let same : m.next ≡ next = cc in
    let buckets : (c : ResearchBucket) → next c ≡ old c ++ additions c =
      λ c. sym (ap (λ f. f c) same) ∙ merged.next c ∙ ap (λ l. old c ++ l) (from_all additions c) in
    (
      buckets,
      λ id. omega (
        arith,
        merged.distinct id,
        ap (occurrences id) merged.seen,
        occurrences-merged id old additions next research_buckets buckets,
        occurrences-append id (all_ids old) (all_ids additions),
      ),
    )

-- Where the identifiers of the records before are distinct, a merge is refused only for a
-- duplicate, and names it: an identifier that stands twice or more among the records before and
-- the additions.
pub merge_research_records_duplicate :
    (current : Option EvolutionResearchRecords) (additions : EvolutionResearchRecords)
    (e : EvolutionError)
    → AreDistinct (all_ids (current_records current))
    → merge_research_records current additions ≡ refused e
    → (id : String) × (e ≡ duplicate_record_id id)
      × (2
          ≤ occurrences id (all_ids (current_records current)) + occurrences id (all_ids additions))
unfolding merge_research_records
merge_research_records_duplicate current additions e d h =
    let old = current_records current in
    let start : Merging = record { next = old; seen = all_ids old } in
    elim (bind-refused (merge_buckets additions research_buckets start) (λ t. accepted t.next) e
      h) [
        | inl first ↦
            let (id, same, twice) =
              merge_buckets-duplicate additions research_buckets start e d first in
            (
              id,
              same,
              (omega (arith, twice, occurrences-append id (all_ids old) (all_ids additions))),
            )
        | inr (t, k, later) ↦ absurd (cc)
      ]
