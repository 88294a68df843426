-- ===== src/Evolution/Research/Merged.antt =====
-- Merging bucket by bucket (packages/evolution-core/src/research-records.ts): what has been merged, and which
-- identifiers were seen.
use cyclewarden.Prelude.{
  ◌+◌, ◌≤◌, ◌≡◌, refl, sym, ap, ◌∙◌, subst, List, [], ◌∷◌, ◌++◌, String, ◌==◌, string_eq, str_iff,
  contains, Bool-cases, inl, inr, arith, if◌then◌else◌,
}
use mathlib.Core.List.{append-nil, append_assoc}
use cyclewarden.Evolution.Types.{ResearchBucket, ResearchRecord, EvolutionResearchRecords}
use cyclewarden.Evolution.Types.ResearchBucket.{
  briefs, plans, runs, queries, sources, claims, citation_spans, contradictions, opportunities,
  evaluations, decisions, experiments, execution_handoffs,
}
use cyclewarden.Evolution.Errors.{
  EvolutionError, accepted, refused, duplicate_record_id, bind-accepted, bind-refused,
}
use cyclewarden.Evolution.Research.{
  research_buckets, research_eq, record_ids, bucket_ids, Merging, merge_record, merge_bucket,
  merge_buckets,
}
use cyclewarden.Evolution.Research.Distinct.{
  occurrences, occurrences-append, occurrences-present, AreDistinct, AreDistinct-snoc,
}

ids-append : (xs ys : List ResearchRecord) → record_ids (xs ++ ys) ≡ record_ids xs ++ record_ids ys
ids-append [] ys = refl
ids-append (x ∷ xs) ys = ap (λ l. x.record_id ∷ l) (ids-append xs ys)

-- The additions to a bucket `c` from those to the bucket `b`.
abbrev pub from_bucket : ResearchBucket → ResearchBucket → List ResearchRecord → List ResearchRecord
from_bucket c b rs = if c == b then rs else []

-- What has been merged: the identifiers of the records were new, and each bucket has got its records.
pub record Merged (m m' : Merging) (ids : List String) (added : EvolutionResearchRecords)
    : Type 0 where
  pub distinct : AreDistinct m'.seen
  pub seen : m'.seen ≡ m.seen ++ ids
  pub next : (c : ResearchBucket) → m'.next c ≡ m.next c ++ added c

pushed :
    (c b : ResearchBucket) (r : ResearchRecord) (rs : List ResearchRecord) (m : Merging)
    → (merge_record b r m).next c ++ from_bucket c b rs ≡ m.next c ++ from_bucket c b (r ∷ rs)
pushed c b r rs m = elim (Bool-cases (c == b)) [
  | inl same ↦ rw same (append_assoc (m.next c) (r ∷ []) rs)
  | inr other ↦ rw other refl
]

merge_bucket-Merged :
    (b : ResearchBucket) (rs : List ResearchRecord) (m m' : Merging)
    → AreDistinct m.seen
    → merge_bucket b rs m ≡ accepted m'
    → Merged m m' (record_ids rs) (λ c. from_bucket c b rs)
unfolding merge_bucket
merge_bucket-Merged b [] m m' d h =
    let same : m ≡ m' = cc in
    subst (λ t. Merged m t [] (λ c. from_bucket c b [])) same
      (record {
        distinct = d;
        seen = sym (append-nil m.seen);
        next = λ c. elim (Bool-cases (c == b)) [
          | inl hit ↦ rw hit (sym (append-nil (m.next c)))
          | inr miss ↦ rw miss (sym (append-nil (m.next c)))
        ];
      })
merge_bucket-Merged b (r ∷ rs) m m' d h = elim (Bool-cases (contains r.record_id m.seen)) [
  | inl dup ↦ absurd (ground arith)
  | inr new ↦
      let rest =
        merge_bucket-Merged b rs (merge_record b r m) m' (AreDistinct-snoc r.record_id m.seen d new)
          (ground arith) in
      record {
        distinct = rest.distinct;
        seen = rest.seen ∙ append_assoc m.seen (r.record_id ∷ []) (record_ids rs);
        next = λ c. rest.next c ∙ pushed c b r rs m;
      }
]

-- The additions to a bucket `c` from a list of buckets.
abbrev pub from_buckets :
    EvolutionResearchRecords → ResearchBucket → List ResearchBucket → List ResearchRecord
from_buckets additions c [] = []
from_buckets additions c (b ∷ bs) = from_bucket c b (additions b) ++ from_buckets additions c bs

pub merge_buckets-Merged :
    (additions : EvolutionResearchRecords) (bs : List ResearchBucket) (m m' : Merging)
    → AreDistinct m.seen
    → merge_buckets additions bs m ≡ accepted m'
    → Merged m m' (bucket_ids additions bs) (λ c. from_buckets additions c bs)
unfolding merge_buckets
merge_buckets-Merged additions [] m m' d h =
    let same : m ≡ m' = cc in
    subst (λ t. Merged m t [] (λ c. [])) same
      (record {
        distinct = d;
        seen = sym (append-nil m.seen);
        next = λ c. sym (append-nil (m.next c));
      })
merge_buckets-Merged additions (b ∷ bs) m m' d h =
    let (t, k, h') =
      bind-accepted (merge_bucket b (additions b) m) (merge_buckets additions bs) m' h in
    let one = merge_bucket-Merged b (additions b) m t d k in
    let rest = merge_buckets-Merged additions bs t m' one.distinct h' in
    record {
      distinct = rest.distinct;
      seen =
          rest.seen
          ∙ ap (λ l. l ++ bucket_ids additions bs) one.seen
          ∙ append_assoc m.seen (record_ids (additions b)) (bucket_ids additions bs);
      next = λ c.
          rest.next c
          ∙ ap (λ l. l ++ from_buckets additions c bs) (one.next c)
          ∙ append_assoc (m.next c) (from_bucket c b (additions b)) (from_buckets additions c bs);
    }

pub from_all :
    (additions : EvolutionResearchRecords) (c : ResearchBucket)
    → from_buckets additions c research_buckets ≡ additions c
from_all additions briefs = append-nil _
from_all additions plans = append-nil _
from_all additions runs = append-nil _
from_all additions queries = append-nil _
from_all additions sources = append-nil _
from_all additions claims = append-nil _
from_all additions citation_spans = append-nil _
from_all additions contradictions = append-nil _
from_all additions opportunities = append-nil _
from_all additions evaluations = append-nil _
from_all additions decisions = append-nil _
from_all additions experiments = append-nil _
from_all additions execution_handoffs = append-nil _

-- The identifiers of all records.
abbrev pub all_ids : EvolutionResearchRecords → List String
all_ids records = bucket_ids records research_buckets

pub occurrences-merged :
    (id : String) (old additions next : EvolutionResearchRecords) (bs : List ResearchBucket)
    → ((c : ResearchBucket) → next c ≡ old c ++ additions c)
    → occurrences id (bucket_ids next bs)
      ≡ occurrences id (bucket_ids old bs) + occurrences id (bucket_ids additions bs)
occurrences-merged id old additions next [] h = refl
occurrences-merged id old additions next (b ∷ bs) h =
    rw (h b, ids-append)
      (omega (
        arith,
        occurrences-append id (record_ids (old b) ++ record_ids (additions b)) (bucket_ids next bs),
        occurrences-append id (record_ids (old b)) (record_ids (additions b)),
        occurrences-append id (record_ids (old b)) (bucket_ids old bs),
        occurrences-append id (record_ids (additions b)) (bucket_ids additions bs),
        occurrences-merged id old additions next bs h,
      ))

merge_bucket-duplicate :
    (b : ResearchBucket) (rs : List ResearchRecord) (m : Merging) (e : EvolutionError)
    → merge_bucket b rs m ≡ refused e
    → (id : String) × (e ≡ duplicate_record_id id) × (2 ≤ occurrences id (m.seen ++ record_ids rs))
unfolding merge_bucket
merge_bucket-duplicate b [] m e h = absurd (cc)
merge_bucket-duplicate b (r ∷ rs) m e h = elim (Bool-cases (contains r.record_id m.seen)) [
  | inl dup ↦ (
    r.record_id,
    ground arith,
    rw occurrences-append (
        ground
          (arith, str_iff r.record_id r.record_id, occurrences-present r.record_id m.seen dup)),
  )
  | inr new ↦
      let (id, same, twice) = merge_bucket-duplicate b rs (merge_record b r m) e (ground arith) in
      (
        id,
        same,
        subst (λ l. 2 ≤ occurrences id l) (append_assoc m.seen (r.record_id ∷ []) (record_ids rs))
            twice,
      )
]

pub merge_buckets-duplicate :
    (additions : EvolutionResearchRecords) (bs : List ResearchBucket) (m : Merging)
    (e : EvolutionError)
    → AreDistinct m.seen
    → merge_buckets additions bs m ≡ refused e
    → (id : String) × (e ≡ duplicate_record_id id)
      × (2 ≤ occurrences id (m.seen ++ bucket_ids additions bs))
unfolding merge_buckets
merge_buckets-duplicate additions [] m e d h = absurd (cc)
merge_buckets-duplicate additions (b ∷ bs) m e d h =
    elim (bind-refused (merge_bucket b (additions b) m) (merge_buckets additions bs) e h) [
      | inl first ↦
          let (id, same, twice) = merge_bucket-duplicate b (additions b) m e first in
          (
            id,
            same,
            (omega (
              arith,
              twice,
              occurrences-append id m.seen (record_ids (additions b)),
              occurrences-append id m.seen (record_ids (additions b) ++ bucket_ids additions bs),
              occurrences-append id (record_ids (additions b)) (bucket_ids additions bs),
            )),
          )
      | inr (t, k, later) ↦
          let one = merge_bucket-Merged b (additions b) m t d k in
          let (id, same, twice) = merge_buckets-duplicate additions bs t e one.distinct later in
          (
            id,
            same,
            subst (λ l. 2 ≤ occurrences id l)
                (ap (λ l. l ++ bucket_ids additions bs) one.seen
                  ∙ append_assoc m.seen (record_ids (additions b)) (bucket_ids additions bs))
                twice,
          )
    ]
