-- ===== src/Examples/Store.antt =====
-- Single methods of the store, the static authorizer, and the assertion on stored research records.
use cyclewarden.Prelude.{◌≡◌, refl, some, [], ◌∷◌, get, put, empty, trim, utf16_length}
use cyclewarden.Domain.Schemas.{
  approval_schema, validation_schema, evidence_schema, review_schema, publication_schema,
}
use cyclewarden.Domain.Errors.{ok, throw, unauthorized}
use cyclewarden.Forge.Store.{init}
use cyclewarden.Forge.Exec.{◌>>=◌}
use cyclewarden.Forge.Queries.{
  get_validations, get_evidence, get_evidence_version, get_review, get_publication, get_approval,
}
use cyclewarden.Forge.Methods.{
  save_validation, save_evidence, save_review, save_publication, save_approval,
}
use cyclewarden.Forge.Commands.Authorizer.{static_authorizer}
use cyclewarden.Evolution.Errors.{accepted}
use cyclewarden.Evolution.Research.{assert_evolution_research_records}
use cyclewarden.Examples.World.{host, review, publication, pending_approval}
use cyclewarden.Examples.Domain.{validation, evidence}
use cyclewarden.Examples.Evolution.{date_parse, one_source}

validation_saved :
    (get_validations "uu" (save_validation host validation init).1 ≡ validation ∷ [])
    × (get_evidence_version "uu" (save_validation host validation init).1 ≡ 1)
unfolding save_validation validation_schema get_validations get_evidence_version ◌>>=◌ get put empty
validation_saved = (refl, refl)

evidence_saved :
    (get_evidence "uu" (save_evidence host evidence init).1 ≡ evidence ∷ [])
    × (get_evidence_version "uu" (save_evidence host evidence init).1 ≡ 1)
unfolding save_evidence evidence_schema get_evidence get_evidence_version ◌>>=◌ get put empty
evidence_saved = (refl, refl)

review_saved : get_review "uu" (save_review host review init).1 ≡ some review
unfolding save_review review_schema get_review ◌>>=◌ get put empty
review_saved = refl

publication_saved :
    get_publication "uu" (save_publication host publication init).1 ≡ some publication
unfolding save_publication publication_schema get_publication ◌>>=◌ get put empty
publication_saved = refl

approval_saved :
    (get_approval "a" (save_approval host pending_approval init).1).0 ≡ ok pending_approval
unfolding save_approval approval_schema get_approval ◌>>=◌ get put empty
approval_saved = refl

stranger_refused : static_authorizer ("w:me" ∷ []) "w" "you" ≡ throw unauthorized
unfolding static_authorizer
stranger_refused = refl

records_accepted : assert_evolution_research_records date_parse one_source "cycle-1" ≡ accepted tt
unfolding assert_evolution_research_records trim utf16_length
records_accepted = refl
