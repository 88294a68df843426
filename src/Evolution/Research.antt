-- ===== src/Evolution/Research.antt =====
-- packages/evolution-core/src/research-records.ts: the research records of a cycle.
pub mod Distinct
pub mod Merged
pub mod Uniqueness
use cyclewarden.Prelude.{
  ℕ, ◌≡◌, ◌↔◌, Bool, true, not, Option, none, some, List, [], ◌∷◌, ◌++◌, map, String, ℤ, ltb,
  is_some, is_blank, trim, utf16_length, Eq, ◌==◌, ◌!=◌, nat_beq, string_eq, contains, arith,
  if◌then◌else◌,
}
use cyclewarden.Evolution.Types.{ResearchBucket, ResearchRecord, EvolutionResearchRecords}
use cyclewarden.Evolution.Types.ResearchBucket.{
  briefs, plans, runs, queries, sources, claims, citation_spans, contradictions, opportunities,
  evaluations, decisions, experiments, execution_handoffs,
}
use cyclewarden.Evolution.Errors.{
  Checked, accepted, refused, refuse_if, wrong_record_kind, invalid_record_id,
  record_of_another_cycle, record_requires_actor, record_has_invalid_date, duplicate_record_id,
  ◌>>=◌, ◌>>◌,
}

abbrev pub research_buckets : List ResearchBucket
research_buckets =
    briefs ∷ plans ∷ runs ∷ queries ∷ sources ∷ claims ∷ citation_spans ∷ contradictions
    ∷ opportunities ∷ evaluations ∷ decisions ∷ experiments ∷ execution_handoffs ∷ []

abbrev pub expected_kind : ResearchBucket → String
expected_kind briefs = "research-brief"
expected_kind plans = "research-plan"
expected_kind runs = "research-run"
expected_kind queries = "query"
expected_kind sources = "source"
expected_kind claims = "claim"
expected_kind citation_spans = "citation-span"
expected_kind contradictions = "contradiction"
expected_kind opportunities = "opportunity"
expected_kind evaluations = "research-evaluation"
expected_kind decisions = "decision"
expected_kind experiments = "experiment"
expected_kind execution_handoffs = "execution-handoff"

-- The place of a bucket in `RESEARCH_BUCKETS`, by which buckets are compared.
abbrev pub research_index : ResearchBucket → ℕ
research_index briefs = 0
research_index plans = 1
research_index runs = 2
research_index queries = 3
research_index sources = 4
research_index claims = 5
research_index citation_spans = 6
research_index contradictions = 7
research_index opportunities = 8
research_index evaluations = 9
research_index decisions = 10
research_index experiments = 11
research_index execution_handoffs = 12

abbrev research_beq : ResearchBucket → ResearchBucket → Bool
research_beq a b = nat_beq (research_index a) (research_index b)

pub research_beq_iff : (a b : ResearchBucket) → (research_beq a b ≡ true) ↔ (a ≡ b)
research_beq_iff a b = ground arith

instance abbrev pub research_eq : Eq ResearchBucket
research_eq = record { equal = research_beq; equal_iff = research_beq_iff }

abbrev pub empty_research_records : EvolutionResearchRecords
empty_research_records bucket = []

abbrev pub record_ids : List ResearchRecord → List String
record_ids = map (λ (r : ResearchRecord). r.record_id)

-- The identifiers of all records of some buckets, bucket by bucket.
abbrev pub bucket_ids : EvolutionResearchRecords → List ResearchBucket → List String
bucket_ids records [] = []
bucket_ids records (b ∷ bs) = record_ids (records b) ++ bucket_ids records bs

-- `next[bucket].push(record)`
abbrev pub push_record :
    ResearchBucket → ResearchRecord → EvolutionResearchRecords → EvolutionResearchRecords
push_record bucket r records b = if b == bucket then records b ++ r ∷ [] else records b

-- The records that a merge has so far, and the identifiers that it has seen.
pub record Merging : Type 0 where
  pub next : EvolutionResearchRecords
  pub seen : List String

abbrev pub merge_record : ResearchBucket → ResearchRecord → Merging → Merging
merge_record bucket r m = record {
  next = push_record bucket r m.next;
  seen = m.seen ++ r.record_id ∷ [];
}

pub merge_bucket : ResearchBucket → List ResearchRecord → Merging → Checked Merging
merge_bucket bucket [] m = accepted m
merge_bucket bucket (r ∷ rs) m =
    let rest = merge_bucket bucket rs (merge_record bucket r m) in
    if contains r.record_id m.seen then refused (duplicate_record_id r.record_id) else rest

pub merge_buckets : EvolutionResearchRecords → List ResearchBucket → Merging → Checked Merging
unfolding merge_bucket
merge_buckets additions [] m = accepted m
merge_buckets additions (b ∷ bs) m = merge_bucket b (additions b) m >>= merge_buckets additions bs

-- `current ? … : emptyResearchRecords()`
abbrev pub current_records : Option EvolutionResearchRecords → EvolutionResearchRecords
current_records none = empty_research_records
current_records (some records) = records

unfoldable pub merge_research_records :
    Option EvolutionResearchRecords → EvolutionResearchRecords → Checked EvolutionResearchRecords
unfolding merge_buckets
merge_research_records current additions = do
  let next = current_records current
  merged ←
      merge_buckets additions research_buckets
        (record { next = next; seen = bucket_ids next research_buckets })
  accepted merged.next

-- What `assertEvolutionResearchRecords` asks of a record, where the record's type does not give it.
module _ (date_parse : String → Option ℤ) where
  pub assert_record_base : ResearchRecord → String → String → Checked (Unit {0})
  assert_record_base r cycle_id kind = do
    refuse_if (r.kind != kind) (wrong_record_kind kind)
    refuse_if (ltb (utf16_length r.record_id) 8) invalid_record_id
    refuse_if (r.cycle_id != cycle_id) (record_of_another_cycle r.record_id)
    refuse_if (is_blank (trim r.actor)) (record_requires_actor r.record_id)
    refuse_if (not (is_some (date_parse r.created_at))) (record_has_invalid_date r.record_id)

  -- The identifiers seen after a bucket.
  pub assert_bucket :
      String → ResearchBucket → List ResearchRecord → List String → Checked (List String)
  unfolding assert_record_base
  assert_bucket cycle_id b [] seen = accepted seen
  assert_bucket cycle_id b (r ∷ rs) seen = do
    assert_record_base r cycle_id (expected_kind b)
    refuse_if (contains r.record_id seen) (duplicate_record_id r.record_id)
    assert_bucket cycle_id b rs (seen ++ r.record_id ∷ [])

  pub assert_buckets :
      String → EvolutionResearchRecords → List ResearchBucket → List String → Checked (List String)
  unfolding assert_bucket
  assert_buckets cycle_id records [] seen = accepted seen
  assert_buckets cycle_id records (b ∷ bs) seen =
      assert_bucket cycle_id b (records b) seen >>= assert_buckets cycle_id records bs

  unfoldable pub assert_evolution_research_records :
      EvolutionResearchRecords → String → Checked (Unit {0})
  unfolding assert_buckets
  assert_evolution_research_records records cycle_id =
      assert_buckets cycle_id records research_buckets [] >> accepted tt
