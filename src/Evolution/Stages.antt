-- ===== src/Evolution/Stages.antt =====
-- packages/evolution-core/src/state-machine.ts: the tables of stages, and the artifacts that they require.
use Prim.Native.Char.{code}
use cyclewarden.Prelude.{
  ℕ, Bool, true, false, not, ◌&&◌, ◌||◌, Option, none, some, List, [], ◌∷◌, ◌++◌, String, leb,
  nat_beq, is_blank, trim, utf16_length, filter, map, is_empty, contains, ◌==◌, string_eq,
  if◌then◌else◌,
}
use cyclewarden.Evolution.Types.{
  EvolutionStage, stage_eq, ArtifactBucket, bucket_eq, EvolutionArtifacts, ArtifactAdditions,
}
use cyclewarden.Evolution.Types.EvolutionStage.{
  created, observed, modeled, diagnosed, researched, decided, planned, executing, implemented,
  verified, measured, learned, meta_improved, completed, rejected, rolled_back, inconclusive,
}
use cyclewarden.Evolution.Errors.{Checked, accepted, refused, requires_artifact}

abbrev pub normal_next : EvolutionStage → Option EvolutionStage
normal_next created = some observed
normal_next observed = some modeled
normal_next modeled = some diagnosed
normal_next diagnosed = some researched
normal_next researched = some decided
normal_next decided = some planned
normal_next planned = some executing
normal_next executing = some implemented
normal_next implemented = some verified
normal_next verified = some measured
normal_next measured = some learned
normal_next learned = some meta_improved
normal_next meta_improved = some completed
normal_next _ = none

abbrev pub terminal_stages : List EvolutionStage
terminal_stages = completed ∷ rejected ∷ rolled_back ∷ inconclusive ∷ []

abbrev pub rejectable_stages : List EvolutionStage
rejectable_stages =
    diagnosed ∷ researched ∷ decided ∷ planned ∷ executing ∷ implemented ∷ verified ∷ measured
    ∷ learned ∷ []

abbrev pub rollback_stages : List EvolutionStage
rollback_stages = executing ∷ implemented ∷ verified ∷ measured ∷ []

abbrev pub required_artifacts : EvolutionStage → List ArtifactBucket
required_artifacts observed = ArtifactBucket.baseline ∷ []
required_artifacts modeled = ArtifactBucket.model ∷ []
required_artifacts diagnosed = ArtifactBucket.diagnosis ∷ ArtifactBucket.candidates ∷ []
required_artifacts researched = ArtifactBucket.research ∷ []
required_artifacts decided = ArtifactBucket.decision ∷ []
required_artifacts planned = ArtifactBucket.plan ∷ ArtifactBucket.rollback ∷ []
required_artifacts implemented = ArtifactBucket.changes ∷ []
required_artifacts verified = ArtifactBucket.verification ∷ []
required_artifacts measured = ArtifactBucket.measurement ∷ []
required_artifacts learned = ArtifactBucket.memory ∷ []
required_artifacts meta_improved = ArtifactBucket.meta_changes ∷ []
required_artifacts _ = []

abbrev pub empty_artifacts : EvolutionArtifacts
empty_artifacts bucket = []

-- `set.add(value)` for each value, in the order of insertion.
abbrev pub add_all : List String → List String → List String
add_all set [] = set
add_all set (v ∷ vs) = add_all (if contains v set then set else set ++ v ∷ []) vs

abbrev pub unique : List String → List String
unique texts = add_all [] (filter (λ v. not (is_blank v)) (map trim texts))

-- `next[bucket] = unique([...current[bucket], ...additions[bucket]])`
abbrev pub merge_artifact_bucket :
    EvolutionArtifacts → ArtifactBucket → List String → EvolutionArtifacts → EvolutionArtifacts
merge_artifact_bucket current bucket refs next b =
    if b == bucket then unique (current bucket ++ refs) else next b

abbrev pub merge_each_artifact :
    EvolutionArtifacts → ArtifactAdditions → EvolutionArtifacts → EvolutionArtifacts
merge_each_artifact current [] next = next
merge_each_artifact current ((bucket, refs) ∷ rest) next =
    merge_each_artifact current rest (merge_artifact_bucket current bucket refs next)

unfoldable pub merge_artifacts : EvolutionArtifacts → ArtifactAdditions → EvolutionArtifacts
merge_artifacts current additions = merge_each_artifact current additions current

abbrev pub assert_artifacts :
    EvolutionStage → List ArtifactBucket → EvolutionArtifacts → Checked (Unit {0})
assert_artifacts stage [] artifacts = accepted tt
assert_artifacts stage (b ∷ bs) artifacts =
    let rest = assert_artifacts stage bs artifacts in
    if is_empty (artifacts b) then refused (requires_artifact stage b) else rest

abbrev pub assert_required_artifacts : EvolutionStage → EvolutionArtifacts → Checked (Unit {0})
assert_required_artifacts stage artifacts =
    assert_artifacts stage (required_artifacts stage) artifacts

abbrev pub is_alphanumeric : ℕ → Bool
is_alphanumeric c = (leb 65 c && leb c 90) || (leb 97 c && leb c 122) || (leb 48 c && leb c 57)

-- `[A-Za-z0-9._:-]`
abbrev pub is_portable : ℕ → Bool
is_portable c = is_alphanumeric c || nat_beq c 46 || nat_beq c 95 || nat_beq c 58 || nat_beq c 45

abbrev pub all_portable : String → Bool
all_portable String.[] = true
all_portable (String.◌∷◌ c s) = is_portable (code c) && all_portable s

-- `/^[A-Za-z0-9][A-Za-z0-9._:-]{2,127}$/`
abbrev pub is_portable_identifier : String → Bool
is_portable_identifier String.[] = false
is_portable_identifier (String.◌∷◌ c s) =
    is_alphanumeric (code c) && all_portable s && leb 2 (utf16_length s) && leb (utf16_length s) 127
